-- ===== src/Config/Loading.antt =====
-- test/integration/setup/loadContracts.ts: what a name resolves to after loading a table.
use text.Mathlib.TextEquality.{eq_iff}
use fei_protocol_core.Prelude.{
  ℕ, String, ◌≡◌, refl, true, false, Option, none, some, [], ◌∷◌, map, arith, Dict, lookup, keys,
  distinct, contains, if◌then◌else◌, lookup-insert_all, lookup-eq-none_of_not-contains,
}
use fei_protocol_core.Types.{ContractConfig, MainnetContractsConfig}
use fei_protocol_core.Config.Load.{
  get_all_contract_addresses, get_all_contracts, has_artifact, known_entries,
}

abbrev pub bind_opt {ℓ κ} : {A : Type ℓ} {B : Type κ} → Option A → (A → Option B) → Option B
bind_opt none f = none
bind_opt (some a) f = f a

-- For a table in which no name stands twice, the address loaded under a name is the one of its
-- entry, and a name without an entry has none.
pub lookup-get_all_contract_addresses :
    (name : String) (config : MainnetContractsConfig)
    → distinct (keys config) ≡ true
    → lookup name (get_all_contract_addresses config)
      ≡ bind_opt (lookup name config) (λ c. some c.address)
unfolding get_all_contract_addresses lookup
lookup-get_all_contract_addresses name config h =
    let e = lookup-insert_all (λ (c : ContractConfig). c.address) name config [] h in ground arith

contains-known_entries :
    (name : String) (config : MainnetContractsConfig)
    → contains name (keys config) ≡ false
    → contains name (keys (known_entries config)) ≡ false
unfolding contains known_entries
contains-known_entries name [] h = refl
contains-known_entries name ((j, c) ∷ config) h = ground (arith, contains-known_entries name config)

distinct-known_entries :
    (config : MainnetContractsConfig)
    → distinct (keys config) ≡ true
    → distinct (keys (known_entries config)) ≡ true
unfolding distinct known_entries
distinct-known_entries [] h = refl
distinct-known_entries ((j, c) ∷ config) h =
    ground (arith, distinct-known_entries config, contains-known_entries j config)

abbrev known : ContractConfig → Option ContractConfig
known c = if has_artifact c then some c else none

lookup-known_entries :
    (name : String) (config : MainnetContractsConfig)
    → distinct (keys config) ≡ true
    → lookup name (known_entries config) ≡ bind_opt (lookup name config) known
unfolding distinct lookup known_entries
lookup-known_entries name [] h = refl
lookup-known_entries name ((j, c) ∷ config) h = ground (
  arith,
  eq_iff j name,
  lookup-known_entries name config,
  lookup-eq-none_of_not-contains j (known_entries config),
  contains-known_entries j config,
)

module _ {C : Type 0} (get_contract_at : String → ℕ → C) where
  abbrev at_entry : ContractConfig → C
  at_entry c = get_contract_at c.artifact_name c.address

  abbrev with_contracts : MainnetContractsConfig → Dict C
  with_contracts = map (λ e. (e.0, at_entry e.1))

  keys-with_contracts :
      (config : MainnetContractsConfig) → keys (with_contracts config) ≡ keys config
  keys-with_contracts [] = refl
  keys-with_contracts ((j, c) ∷ config) = cc (keys-with_contracts config)

  lookup-with_contracts :
      (name : String) (config : MainnetContractsConfig)
      → lookup name (with_contracts config) ≡ bind_opt (lookup name config) (λ c. some (at_entry c))
  unfolding lookup
  lookup-with_contracts name [] = refl
  lookup-with_contracts name ((j, c) ∷ config) = ground (arith, lookup-with_contracts name config)

  -- For a table in which no name stands twice, the contract loaded under a name is the one that
  -- ethers.js makes of the entry's artifact and address, where the artifact is not 'unknown'; an
  -- entry with the artifact 'unknown' has no contract, and neither has a name without an entry.
  pub lookup-get_all_contracts :
      (name : String) (config : MainnetContractsConfig)
      → distinct (keys config) ≡ true
      → lookup name (get_all_contracts get_contract_at config)
        ≡ bind_opt (lookup name config) (λ c. if has_artifact c then some (at_entry c) else none)
  unfolding get_all_contracts lookup
  lookup-get_all_contracts name config h =
      let unique : distinct (keys (with_contracts (known_entries config))) ≡ true =
        rw (keys-with_contracts (known_entries config)) (distinct-known_entries config h) in
      let e =
        lookup-insert_all (λ (c : C). c) name (with_contracts (known_entries config)) [] unique in
      ground (
        arith,
        e,
        lookup-with_contracts name (known_entries config),
        lookup-known_entries name config h,
      )
