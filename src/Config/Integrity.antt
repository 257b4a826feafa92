-- ===== src/Config/Integrity.antt =====
-- The names of protocol-configuration/mainnetAddresses.ts, and those that the table of permissions uses.
use text.Mathlib.TextEquality.{eq_iff}
use fei_protocol_core.Prelude.{
  ℕ, String, ◌≡◌, ◌≢◌, refl, Bool, true, false, not, ◌&&◌, Option, none, some, List, [], ◌∷◌, arith,
  inl, inr, Option-cases, Bool-cases, text_eq, Dict, lookup, keys, distinct, contains, ◌==◌,
}
use fei_protocol_core.Types.{ContractConfig, MainnetContractsConfig}
use fei_protocol_core.Config.MainnetAddresses.{mainnet_contracts_config}
use fei_protocol_core.Config.Permissions.{permissions}
use fei_protocol_core.Config.Load.{get_all_contract_addresses}
use fei_protocol_core.Config.Loading.{bind_opt, lookup-get_all_contract_addresses}

pub mainnet-distinct : distinct (keys mainnet_contracts_config) ≡ true
unfolding distinct contains mainnet_contracts_config
mainnet-distinct = refl

number_in : ℕ → List ℕ → Bool
number_in a [] = false
number_in a (b ∷ l) = elim (a == b) [ true ↦ true | false ↦ number_in a l ]

distinct_numbers : List ℕ → Bool
distinct_numbers [] = true
distinct_numbers (a ∷ l) = not (number_in a l) && distinct_numbers l

abbrev addresses_of : MainnetContractsConfig → List ℕ
addresses_of [] = []
addresses_of (e ∷ d) = e.1.address ∷ addresses_of d

mainnet-distinct_numbers : distinct_numbers (addresses_of mainnet_contracts_config) ≡ true
unfolding distinct_numbers number_in mainnet_contracts_config
mainnet-distinct_numbers = refl

not-number_in :
    (name : String) {c : ContractConfig} (a : ℕ) (config : MainnetContractsConfig)
    → number_in a (addresses_of config) ≡ false
    → lookup name config ≡ some c
    → a ≢ c.address
unfolding number_in lookup
not-number_in name a [] h e = cc
not-number_in name {c} a ((j, d) ∷ config) h e = ground (arith, not-number_in name {c = c} a config)

one_name :
    (n m : String) {c d : ContractConfig} (config : MainnetContractsConfig)
    → distinct_numbers (addresses_of config) ≡ true
    → lookup n config ≡ some c
    → lookup m config ≡ some d
    → c.address ≡ d.address
    → n ≡ m
unfolding distinct_numbers lookup
one_name n m [] h p q e = cc
one_name n m {c} {d} ((j, x) ∷ config) h p q e = ground (
  arith,
  eq_iff j n,
  eq_iff j m,
  one_name n m {c = c} {d = d} config,
  not-number_in n {c = c} x.address config,
  not-number_in m {c = d} x.address config,
)

entry_of_address :
    (name : String) {a : ℕ} {loaded : Option ℕ}
    → loaded ≡ bind_opt (lookup name mainnet_contracts_config) (λ c. some c.address)
    → loaded ≡ some a
    → (c : ContractConfig) × (lookup name mainnet_contracts_config ≡ some c) × (c.address ≡ a)
entry_of_address name e p = elim (Option-cases (lookup name mainnet_contracts_config)) [
  | inl missing ↦ absurd (ground arith)
  | inr (c, found) ↦ (c, found, ground arith)
]

-- In the table of mainnet addresses no two names have the same address.
pub mainnet_addresses_injective :
    (n m : String) {a : ℕ}
    → lookup n (get_all_contract_addresses mainnet_contracts_config) ≡ some a
    → lookup m (get_all_contract_addresses mainnet_contracts_config) ≡ some a
    → n ≡ m
mainnet_addresses_injective n m p q =
    let (c, found_c, same_c) =
      entry_of_address n
        (lookup-get_all_contract_addresses n mainnet_contracts_config mainnet-distinct) p in
    let (d, found_d, same_d) =
      entry_of_address m
        (lookup-get_all_contract_addresses m mainnet_contracts_config mainnet-distinct) q in
    one_name n m mainnet_contracts_config mainnet-distinct_numbers found_c found_d (cc)

-- A name with an entry among the mainnet addresses, whose address is loaded.
abbrev pub IsListed : String → Type 0
IsListed name =
    (c : ContractConfig) × (lookup name mainnet_contracts_config ≡ some c)
    × (lookup name (get_all_contract_addresses mainnet_contracts_config) ≡ some c.address)

is_listed : Option ContractConfig → Bool
is_listed none = false
is_listed (some c) = true

all_listed : List String → Bool
all_listed [] = true
all_listed (name ∷ names) = is_listed (lookup name mainnet_contracts_config) && all_listed names

table_listed : Dict (List String) → Bool
table_listed [] = true
table_listed ((key, names) ∷ table) = all_listed names && table_listed table

IsListed-of_entry :
    (name : String) (found : Option ContractConfig)
    → lookup name mainnet_contracts_config ≡ found
    → is_listed found ≡ true
    → IsListed name
unfolding is_listed
IsListed-of_entry name none e h = absurd (cc)
IsListed-of_entry name (some c) e h =
    let same = lookup-get_all_contract_addresses name mainnet_contracts_config mainnet-distinct in
    (c, e, cc)

IsListed-of_names :
    (name : String) (names : List String)
    → all_listed names ≡ true
    → contains name names ≡ true
    → IsListed name
unfolding all_listed contains
IsListed-of_names name [] h m = absurd (cc)
IsListed-of_names name (first ∷ names) h m = elim (Bool-cases (text_eq first name)) [
  | inl same ↦ rw (← (eq_iff first name).0 same) (IsListed-of_entry first _ refl (ground arith))
  | inr other ↦ IsListed-of_names name names (ground arith) (ground arith)
]

IsListed-of_table :
    (key name : String) {names : List String} (table : Dict (List String))
    → table_listed table ≡ true
    → lookup key table ≡ some names
    → contains name names ≡ true
    → IsListed name
unfolding table_listed lookup
IsListed-of_table key name [] h e m = absurd (cc)
IsListed-of_table key name {names} ((j, listed) ∷ table) h e m = elim (Bool-cases (text_eq j key)) [
  | inl same ↦ IsListed-of_names name names (ground arith) m
  | inr other ↦ IsListed-of_table key name table (ground arith) (ground arith) m
]

permissions-listed : table_listed permissions ≡ true
unfolding table_listed all_listed is_listed lookup permissions mainnet_contracts_config
permissions-listed = refl

pub permission_holder-IsListed :
    (role holder : String) {holders : List String}
    → lookup role permissions ≡ some holders
    → contains holder holders ≡ true
    → IsListed holder
permission_holder-IsListed role holder e m =
    IsListed-of_table role holder permissions permissions-listed e m
