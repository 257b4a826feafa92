-- ===== src/EndToEnd/Roles.antt =====
-- The holders of roles in the environment that is loaded from the table of mainnet addresses.
use text.Mathlib.TextEquality.{eq_iff}
use fei_protocol_core.Prelude.{
  ℕ, String, ◌≡◌, refl, sym, ◌∙◌, ap, ap₂, true, Option, none, some, List, [], ◌∷◌, arith, map,
  lookup, contains, insert_all, keys, distinct, Dict, lookup-insert_all, Result, ok,
}
use fei_protocol_core.Types.{TemplatedProposalsConfigMap, ContractConfig}
use fei_protocol_core.Config.MainnetAddresses.{mainnet_contracts_config}
use fei_protocol_core.Config.Permissions.{permissions}
use fei_protocol_core.Config.Loading.{bind_opt}
use fei_protocol_core.Config.Integrity.{IsListed, mainnet-distinct, permission_holder-IsListed}
use fei_protocol_core.Scripts.Libraries.{Error, Libraries}
use fei_protocol_core.EndToEnd.{
  Chain, Upgrade, Entry, an_address, World, ContractsAndAddresses, load_environment, addresses_of,
  get_access_control_mapping,
}
use fei_protocol_core.EndToEnd.Addresses.{load_environment-addresses}

addresses_of-defined :
    {C : Type 0} (addresses : Dict (Entry C)) (names : List String)
    → ((name : String)
        → contains name names ≡ true
        → (a : ℕ) × (lookup name addresses ≡ some (an_address a)))
    → (found : List ℕ) × (addresses_of addresses names ≡ map (λ a. some (an_address a)) found)
unfolding addresses_of contains
addresses_of-defined addresses [] h = ([], refl)
addresses_of-defined addresses (name ∷ names) h =
    let (a, here) = h name (ground (arith, eq_iff name name)) in
    let (found, rest) = addresses_of-defined addresses names (λ n m. h n (ground arith)) in
    (a ∷ found, ap₂ (λ x xs. x ∷ xs) here rest)

insert_all-entry {ℓ κ} :
    {A : Type ℓ} {V : Type κ} (f : A → V) (key : String) (table : Dict A) (built : Dict V) {a : A}
    → distinct (keys table) ≡ true
    → lookup key table ≡ some a
    → lookup key (insert_all f table built) ≡ some (f a)
insert_all-entry f key table built h e =
    let looked = lookup-insert_all f key table built h in ground arith

permissions-distinct : distinct (keys permissions) ≡ true
unfolding distinct contains permissions
permissions-distinct = refl

mapping_entry :
    {C S : Type 0} (w : World C S) (role : String) {holders : List String}
    → lookup role permissions ≡ some holders
    → lookup role (get_access_control_mapping w)
      ≡ some (addresses_of w.after_upgrade_addresses holders)
unfolding get_access_control_mapping
mapping_entry w role listed =
    insert_all-entry (addresses_of w.after_upgrade_addresses) role permissions _
      permissions-distinct listed

module _ (L : Libraries) (H : Chain L)
    (modules : String → Result Error (Upgrade L.Contract H.network.State))
    (get_contract_at : String → ℕ → L.Contract) (deploy_address : ℕ) where
  holder-loaded :
      (proposals : TemplatedProposalsConfigMap) (r : ContractsAndAddresses L.Contract)
      (w w' : World L.Contract H.network.State)
      → load_environment L H mainnet_contracts_config modules get_contract_at deploy_address
          proposals w
        ≡ (ok r, w')
      → (name : String) → IsListed name
      → (a : ℕ) × (lookup name w'.after_upgrade_addresses ≡ some (an_address a))
  holder-loaded proposals r w w' e name (entry, found, loaded) =
      let (same, is) =
        load_environment-addresses L H mainnet_contracts_config modules get_contract_at
          deploy_address proposals r w w' name mainnet-distinct e in
      let (a, there) =
        loaded_some (lookup name r.contracts) entry.address (lookup name mainnet_contracts_config)
          (ap (λ x. bind_opt x (λ c. some c.address)) found) in
      (a, ap (lookup name) same ∙ is ∙ ap as_entry_ there)
    where
      as_entry_ : Option ℕ → Option (Entry L.Contract)
      as_entry_ n = bind_opt n (λ a. some (an_address a))

      loaded_some :
          (contract : Option L.Contract) (b : ℕ) (c : Option ContractConfig)
          → bind_opt c (λ x. some x.address) ≡ some b
          → (a : ℕ) × (elim contract [
            | none ↦ bind_opt c (λ x. some x.address)
            | some k ↦ some (H.address_of k)
          ]
              ≡ some a)
      loaded_some none b c h = (b, h)
      loaded_some (some k) b c h = (H.address_of k, refl)

  -- Where the environment is loaded from the table of mainnet addresses without an error, by whatever
  -- proposals: the access control mapping has an entry for every role of the table of permissions, and
  -- for each of the role's holders, in their order, the entry has an address.
  pub get_access_control_mapping-defined :
      (proposals : TemplatedProposalsConfigMap) (r : ContractsAndAddresses L.Contract)
      (w w' : World L.Contract H.network.State) (role : String) {holders : List String}
      → load_environment L H mainnet_contracts_config modules get_contract_at deploy_address
          proposals w
        ≡ (ok r, w')
      → lookup role permissions ≡ some holders
      → (found : List ℕ) × (lookup role (get_access_control_mapping w')
          ≡ some (map (λ a. some (an_address a)) found))
        × (addresses_of r.contract_addresses holders ≡ map (λ a. some (an_address a)) found)
  get_access_control_mapping-defined proposals r w w' role {holders} e listed =
      let (found, is) = addresses_of-defined w'.after_upgrade_addresses holders (λ name m.
        holder-loaded proposals r w w' e name (permission_holder-IsListed role name listed m)) in
      let (same, resolved) =
        load_environment-addresses L H mainnet_contracts_config modules get_contract_at
          deploy_address proposals r w w' role mainnet-distinct e in
      (
        found,
        mapping_entry w' role listed ∙ ap some is,
        ap (λ x. addresses_of x holders) (sym same) ∙ is,
      )
