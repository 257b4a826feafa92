-- ===== src/EndToEnd/Lookups.antt =====
-- What a name resolves to in the dictionaries of addresses that the coordinator builds.
use fei_protocol_core.Prelude.{
  ℕ, String, ◌≡◌, refl, true, Option, none, some, [], arith, map, lookup, keys, distinct, Dict,
  lookup-insert_all, distinct-insert_all, Result,
}
use fei_protocol_core.Types.{
  NamedContracts, ContractConfig, MainnetContractsConfig, named_contracts_to_named_addresses,
}
use fei_protocol_core.Config.Load.{get_all_contract_addresses, get_all_contracts, known_entries}
use fei_protocol_core.Config.Loading.{bind_opt, lookup-get_all_contract_addresses}
use fei_protocol_core.Scripts.Libraries.{Error, Libraries}
use fei_protocol_core.EndToEnd.{
  Chain, Upgrade, Entry, an_address, spread, upgrade_addresses, final_addresses,
}

module _ {C : Type 0} (address : C → ℕ) where
  lookup-named :
      (name : String) (contracts : NamedContracts C)
      → distinct (keys contracts) ≡ true
      → lookup name (named_contracts_to_named_addresses address contracts)
        ≡ bind_opt (lookup name contracts) (λ c. some (address c))
  unfolding named_contracts_to_named_addresses lookup
  lookup-named name contracts h =
      let e = lookup-insert_all address name contracts [] h in ground arith

lookup-spread {ℓ} :
    {V : Type ℓ} (name : String) (first second : Dict V)
    → distinct (keys second) ≡ true
    → lookup name (spread first second)
      ≡ elim (lookup name second) [ none ↦ lookup name first | some v ↦ some v ]
lookup-spread name first second h = lookup-insert_all (λ v. v) name second first h

distinct-addresses :
    (config : MainnetContractsConfig) → distinct (keys (get_all_contract_addresses config)) ≡ true
unfolding get_all_contract_addresses distinct
distinct-addresses config = distinct-insert_all (λ c. c.address) config [] refl

distinct-named :
    {C : Type 0} (address : C → ℕ) (contracts : NamedContracts C)
    → distinct (keys (named_contracts_to_named_addresses address contracts)) ≡ true
unfolding named_contracts_to_named_addresses distinct
distinct-named address contracts = distinct-insert_all address contracts [] refl

abbrev pub as_entry : {C : Type 0} → Option ℕ → Option (Entry C)
as_entry a = bind_opt a (λ n. some (an_address n))

-- What a name is loaded as: its contract's address, else its address in the table.
abbrev pub loaded_address :
    {C : Type 0} → (C → ℕ) → MainnetContractsConfig → String → NamedContracts C → Option ℕ
loaded_address address config name contracts = elim (lookup name contracts) [
  | none ↦ bind_opt (lookup name config) (λ c. some c.address)
  | some contract ↦ some (address contract)
]

pub named_entry :
    {C : Type 0} (name : String) (a : Option ℕ)
    → elim a [ none ↦ lookup {V = Entry C} name [] | some n ↦ some (an_address n) ] ≡ as_entry a
unfolding lookup
named_entry name none = refl
named_entry name (some n) = refl

module _ (L : Libraries) (H : Chain L) (config : MainnetContractsConfig)
    (modules : String → Result Error (Upgrade L.Contract H.network.State))
    (get_contract_at : String → ℕ → L.Contract) (deploy_address : ℕ) where
  pub lookup-final_addresses :
      (name : String) (contracts : NamedContracts L.Contract)
      → distinct (keys config) ≡ true
      → distinct (keys contracts) ≡ true
      → lookup name (final_addresses L H config modules get_contract_at deploy_address contracts)
        ≡ loaded_address H.address_of config name contracts
  unfolding final_addresses
  lookup-final_addresses name contracts h h' =
      let a =
        lookup-spread name (get_all_contract_addresses config)
          (named_contracts_to_named_addresses H.address_of contracts)
          (distinct-named H.address_of contracts) in
      let b = lookup-named H.address_of name contracts h' in
      let c = lookup-get_all_contract_addresses name config h in ground arith

  pub distinct-final_addresses :
      (contracts : NamedContracts L.Contract)
      → distinct
          (keys (final_addresses L H config modules get_contract_at deploy_address contracts))
        ≡ true
  unfolding final_addresses
  distinct-final_addresses contracts =
      distinct-insert_all (λ v. v) (named_contracts_to_named_addresses H.address_of contracts)
        (get_all_contract_addresses config) (distinct-addresses config)

  pub distinct-all_contracts : distinct (keys (get_all_contracts get_contract_at config)) ≡ true
  unfolding get_all_contracts distinct known_entries
  distinct-all_contracts =
      distinct-insert_all (λ (c : L.Contract). c)
        (map (λ e. (e.0, get_contract_at e.1.artifact_name e.1.address)) (known_entries config)) []
        refl

  pub lookup-upgrade_addresses :
      (name : String) (mainnet contracts : NamedContracts L.Contract) (c : ContractConfig)
      → distinct (keys config) ≡ true
      → lookup name config ≡ some c
      → lookup name
          (upgrade_addresses L H config modules get_contract_at deploy_address mainnet contracts)
        ≡ some c.address
  unfolding upgrade_addresses
  lookup-upgrade_addresses name mainnet contracts c h e =
      let a =
        lookup-spread name
          (spread (named_contracts_to_named_addresses H.address_of mainnet)
            (named_contracts_to_named_addresses H.address_of contracts))
          (get_all_contract_addresses config) (distinct-addresses config) in
      let b = lookup-get_all_contract_addresses name config h in ground arith
