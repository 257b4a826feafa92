-- ===== src/Scripts/FuseBadDebt/Totals.antt =====
-- What the script's amounts are.
use text.Mathlib.TextEquality.{eq_iff}
use fei_protocol_core.Prelude.{
  ℕ, ◌+◌, ◌/◌, ◌^◌, String, ◌≡◌, ◌≢◌, refl, ap, ◌∙◌, inl, inr, ◌⊎◌, arith, Bool, true, false, [],
  ◌∷◌, Option, none, some, Dict, lookup, insert, lookup-insert, keys, distinct, contains, All,
  lookup-eq-none_of_not-contains, text_eq, Bool-cases, Option-cases, Result, ok, ◌>>=◌, >>=-eq-ok,
  ◌==◌, if◌then◌else◌,
}
use fei_protocol_core.Scripts.Libraries.{Error}
use fei_protocol_core.Scripts.FuseBadDebt.{
  AddressTable, underlyings, ctokens, name_at, no_debt, Market, add_debt, add_market, add_markets,
  scale, wei_per_ether, scale_all, get_fuse_bad_debt,
}

abbrev is_named : Option String → String → Bool
is_named none name = false
is_named (some n) name = text_eq n name

-- What the markets of a token are owed together.
pub total : (ℕ → Market) → AddressTable → String → ℕ
total network [] name = 0
total network ((ctoken, label) ∷ rest) name =
    (if is_named (name_at (network ctoken).underlying underlyings) name
      then (network ctoken).debt_amount
      else 0)
    + total network rest name

abbrev units : Dict ℕ
units =
    ("ETH", wei_per_ether)
    ∷ ("FEI", wei_per_ether)
    ∷ ("FRAX", wei_per_ether)
    ∷ ("RAI", wei_per_ether)
    ∷ ("DAI", wei_per_ether)
    ∷ ("USDC", 10 ^ 6)
    ∷ ("LUSD", wei_per_ether)
    ∷ ("USTw", 10 ^ 6)
    ∷ ("USDT", 10 ^ 6)
    ∷ []

unit_in : Dict ℕ → String → ℕ
unfolding lookup
unit_in table name = elim (lookup name table) [ none ↦ 1 | some unit ↦ unit ]

-- The decimals of a token: 10^decimals of its base units are one token.
abbrev pub decimals : String → ℕ
unfolding contains
decimals name = if contains name ("USDC" ∷ "USTw" ∷ "USDT" ∷ []) then 6 else 18

-- What holds of every name of a table holds of a name that is looked up in it.
of_entry {ℓ κ} :
    {V : Type ℓ} (P : String → Type κ) (name : String) {v : V} (table : Dict V)
    → All (λ e. P e.0) table
    → lookup name table ≡ some v
    → P name
unfolding lookup
of_entry P name [] h e = absurd (cc)
of_entry P name {v} ((j, w) ∷ table) h e = elim (Bool-cases (text_eq j name)) [
  | inl same ↦ rw (← (eq_iff j name).0 same) h.0
  | inr other ↦ of_entry P name {v = v} table h.1 (ground arith)
]

-- Every token but WETH and wstETH is divided by its base units in one token.
unit_in-units :
    (name : String)
    → lookup name no_debt ≡ some 0
    → name ≢ "WETH"
    → name ≢ "wstETH"
    → unit_in units name ≡ 10 ^ decimals name
unfolding unit_in lookup contains
unit_in-units name token =
    of_entry (λ n. n ≢ "WETH" → n ≢ "wstETH" → unit_in units n ≡ 10 ^ decimals n) name no_debt
      (
        (λ a b. refl),
        (
          (λ a b. refl),
          (
            (λ a b. refl),
            (
              (λ a b. refl),
              (
                (λ a b. refl),
                (
                  (λ a b. refl),
                  (
                    (λ a b. refl),
                    (
                      (λ a b. refl),
                      ((λ a b. refl), ((λ a b. absurd (a refl)), ((λ a b. absurd (b refl)), tt))),
                    ),
                  ),
                ),
              ),
            ),
          ),
        ),
      )
      token

add_debt-total :
    (found : Option String) (amount : ℕ) (d d' : Dict ℕ) (name : String) (v : ℕ)
    → add_debt found amount d ≡ ok d'
    → lookup name d ≡ some v
    → lookup name d' ≡ some (v + (if is_named found name then amount else 0))
unfolding add_debt
add_debt-total none amount d d' name v e h = absurd (cc)
add_debt-total (some n) amount d d' name v e h = elim (Option-cases (lookup n d)) [
  | inl missing ↦ absurd (ground arith)
  | inr (owed, there) ↦ ground (arith, lookup-insert n name (owed + amount) d, eq_iff n name)
]

add_market-total :
    (m : Market) (d d' : Dict ℕ) (name : String) (v : ℕ)
    → add_market m d ≡ ok d'
    → lookup name d ≡ some v
    → lookup name d'
      ≡ some (v + (if is_named (name_at m.underlying underlyings) name then m.debt_amount else 0))
unfolding add_market
add_market-total m d d' name v e h = elim (Bool-cases (m.debt_amount == 0)) [
  | inl nothing ↦ ground arith
  | inr owes ↦
      add_debt-total (name_at m.underlying underlyings) m.debt_amount d d' name v (ground arith) h
]

add_markets-total :
    (network : ℕ → Market) (table : AddressTable) (d d' : Dict ℕ) (name : String) (v : ℕ)
    → add_markets network table d ≡ ok d'
    → lookup name d ≡ some v
    → lookup name d' ≡ some (v + total network table name)
unfolding add_markets total
add_markets-total network [] d d' name v e h = ground arith
add_markets-total network ((c, label) ∷ rest) d d' name v e h =
    let (next, first, later) = >>=-eq-ok (add_market (network c) d) (add_markets network rest) e in
    add_markets-total network rest next d' name _ later
      (add_market-total (network c) d next name v first h)
    ∙ ground arith

scale_one :
    (n name : String) (unit v : ℕ) (d d' : Dict ℕ)
    → scale n unit d ≡ ok d'
    → lookup name d ≡ some v
    → lookup name d' ≡ some (if text_eq n name then v / unit else v)
unfolding scale
scale_one n name unit v d d' e h = elim (Option-cases (lookup n d)) [
  | inl missing ↦ absurd (ground arith)
  | inr (owed, there) ↦ ground (arith, lookup-insert n name (owed / unit) d, eq_iff n name)
]

scale_table : Dict ℕ → Dict ℕ → Result Error (Dict ℕ)
scale_table [] d = ok d
scale_table ((n, unit) ∷ table) d = do next ← scale n unit d; scale_table table next

scale_all-eq-scale_table : (d : Dict ℕ) → scale_all d ≡ scale_table units d
unfolding scale_all scale_table
scale_all-eq-scale_table d = refl

scale_table_unit :
    (table : Dict ℕ) (name : String) (v : ℕ) (d d' : Dict ℕ)
    → distinct (keys table) ≡ true
    → scale_table table d ≡ ok d'
    → lookup name d ≡ some v
    → lookup name d' ≡ some (v / unit_in table name)
unfolding scale_table unit_in distinct
scale_table_unit [] name v d d' unique e h = ground arith
scale_table_unit ((n, unit) ∷ table) name v d d' unique e h =
    let (next, first, later) = >>=-eq-ok (scale n unit d) (scale_table table) e in
    let here = scale_one n name unit v d next first h in
    elim (Bool-cases (text_eq n name)) [
      | inl same ↦
          let ih =
            scale_table_unit table name (v / unit) next d' (ground arith) later (ground arith) in
          ground (arith, eq_iff n name, lookup-eq-none_of_not-contains n table)
      | inr other ↦
          let ih = scale_table_unit table name v next d' (ground arith) later (ground arith) in
          ground arith
    ]

zero-plus : (n : ℕ) → 0 + n ≡ n
zero-plus n = omega arith

-- Every token that the script knows has an entry.
abbrev HasTokens : Dict ℕ → Type 0
HasTokens d = (name : String) → lookup name no_debt ≡ some 0 → (v : ℕ) × (lookup name d ≡ some v)

abbrev NamesToken : Option String → Type 0
NamesToken found = (name : String) × (found ≡ some name) × (lookup name no_debt ≡ some 0)

-- A market can be added: nothing is owed to it, or its underlying token is in the table.
abbrev pub IsKnown : Market → Type 0
IsKnown m = (m.debt_amount ≡ 0) ⊎ ((name : String) × (name_at m.underlying underlyings ≡ some name))

abbrev pub AllKnown : (ℕ → Market) → AddressTable → Type 0
AllKnown network [] = Unit
AllKnown network ((ctoken, label) ∷ rest) = IsKnown (network ctoken) × AllKnown network rest

name_at_token :
    (a : ℕ) {name : String} (table : AddressTable)
    → All (λ e. lookup e.1 no_debt ≡ some 0) table
    → name_at a table ≡ some name
    → lookup name no_debt ≡ some 0
unfolding name_at
name_at_token a [] h e = absurd (cc)
name_at_token a {name} ((b, n) ∷ table) h e = elim (Bool-cases (a == b)) [
  | inl same ↦ let found : n ≡ name = ground arith in rw (← found) h.0
  | inr other ↦ name_at_token a table h.1 (ground arith)
]

units-distinct : distinct (keys units) ≡ true
unfolding distinct contains
units-distinct = refl

underlyings_tokens : All (λ e. lookup e.1 no_debt ≡ some 0) underlyings
unfolding underlyings lookup
underlyings_tokens = ground arith

units_tokens : All (λ e. lookup e.0 no_debt ≡ some 0) units
unfolding lookup
units_tokens = ground arith

add_market_ok :
    (m : Market) (d : Dict ℕ) → HasTokens d → IsKnown m → (d' : Dict ℕ) × (add_market m d ≡ ok d')
unfolding add_market add_debt
add_market_ok m d h (inl nothing) = (d, ground arith)
add_market_ok m d h (inr (name, found)) =
    let (owed, there) = h name (name_at_token m.underlying underlyings underlyings_tokens found) in
    elim (Bool-cases (m.debt_amount == 0)) [
      | inl nothing ↦ (d, ground arith)
      | inr owes ↦ (insert name (owed + m.debt_amount) d, ground arith)
    ]

add_markets_ok :
    (network : ℕ → Market) (table : AddressTable) (d : Dict ℕ)
    → HasTokens d
    → AllKnown network table
    → (d' : Dict ℕ) × (add_markets network table d ≡ ok d')
unfolding add_markets
add_markets_ok network [] d h known = (d, refl)
add_markets_ok network ((c, label) ∷ rest) d h known =
    let (next, first) = add_market_ok (network c) d h known.0 in
    let kept : HasTokens next = λ name token.
      let (v, there) = h name token in
      (_, add_market-total (network c) d next name v first there) in
    let (d', later) = add_markets_ok network rest next kept known.1 in (d', rw first later)

scale_ok :
    (n : String) (unit owed : ℕ) (d : Dict ℕ)
    → lookup n d ≡ some owed
    → scale n unit d ≡ ok (insert n (owed / unit) d)
unfolding scale
scale_ok n unit owed d there = ground arith

scale_table_ok :
    (table : Dict ℕ) (d : Dict ℕ)
    → HasTokens d
    → All (λ e. lookup e.0 no_debt ≡ some 0) table
    → (d' : Dict ℕ) × (scale_table table d ≡ ok d')
unfolding scale_table
scale_table_ok [] d h tokens = (d, refl)
scale_table_ok ((n, unit) ∷ table) d h tokens =
    let (owed, there) = h n tokens.0 in
    let next = insert n (owed / unit) d in
    let first = scale_ok n unit owed d there in
    let kept : HasTokens next =
      λ name token. let (v, was) = h name token in (_, scale_one n name unit v d next first was) in
    let (d', later) = scale_table_ok table next kept tokens.1 in (d', rw (first, later))

weth_token : lookup "WETH" no_debt ≡ some 0
unfolding lookup
weth_token = refl

wsteth_token : lookup "wstETH" no_debt ≡ some 0
unfolding lookup
wsteth_token = refl

weth_unit : unit_in units "WETH" ≡ 1
unfolding unit_in lookup
weth_unit = refl

wsteth_unit : unit_in units "wstETH" ≡ 1
unfolding unit_in lookup
wsteth_unit = refl

undivided : (n : ℕ) {unit : ℕ} → unit ≡ 1 → n / unit ≡ n
undivided n one = rw one (omega arith)

-- If every market to which something is owed has an underlying token that the script's table names,
-- then the script ends without an error. For each of its tokens but WETH and wstETH it prints the
-- sum of what is owed to the markets of that token, divided by 10^6 for USDC, USTw and USDT and by
-- 10^18 for the others, and rounded down; for WETH and wstETH it prints the undivided sum.
pub get_fuse_bad_debt_totals :
    (network : ℕ → Market)
    → AllKnown network ctokens
    → (d : Dict ℕ) × (get_fuse_bad_debt network ≡ ok d)
      × ((name : String)
          → lookup name no_debt ≡ some 0
          → name ≢ "WETH"
          → name ≢ "wstETH"
          → lookup name d ≡ some (total network ctokens name / 10 ^ decimals name))
      × (lookup "WETH" d ≡ some (total network ctokens "WETH"))
      × (lookup "wstETH" d ≡ some (total network ctokens "wstETH"))
unfolding get_fuse_bad_debt
get_fuse_bad_debt_totals network known =
    let (owed, summed) = add_markets_ok network ctokens no_debt (λ name token. (0, token)) known in
    let sums : (name : String)
        → lookup name no_debt ≡ some 0
        → lookup name owed ≡ some (total network ctokens name) =
      λ name token.
        add_markets-total network ctokens no_debt owed name 0 summed token
        ∙ ap some (zero-plus (total network ctokens name)) in
    let (d, scaled) = scale_table_ok units owed (λ name token. (_, sums name token)) units_tokens in
    let printed : (name : String)
        → lookup name no_debt ≡ some 0
        → lookup name d ≡ some (total network ctokens name / unit_in units name) =
      λ name token. scale_table_unit units name _ owed d units-distinct scaled (sums name token) in
    (
      d,
      rw (summed, scale_all-eq-scale_table, scaled),
      λ name token other other'.
          printed name token
          ∙ ap (λ u. some (total network ctokens name / u)) (unit_in-units name token other other'),
      printed "WETH" weth_token ∙ ap some (undivided (total network ctokens "WETH") weth_unit),
      printed "wstETH" wsteth_token
          ∙ ap some (undivided (total network ctokens "wstETH") wsteth_unit),
    )
