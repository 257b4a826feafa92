-- ===== src/EndToEnd/Addresses.antt =====
-- The invariant of the loop over the proposals, and the environment that it leaves.
use fei_protocol_core.Prelude.{
  ℕ, String, ◌≡◌, refl, sym, ◌∙◌, ap, Bool, true, false, [], ◌∷◌, lookup, insert_all, keys,
  distinct, lookup-insert_all, distinct-insert_all, Result, ok, err,
}
use fei_protocol_core.Types.{
  NamedContracts, TemplatedProposalConfig, TemplatedProposalsConfigMap, MainnetContractsConfig,
}
use fei_protocol_core.Config.Load.{get_all_contracts}
use fei_protocol_core.Scripts.Libraries.{Error, Libraries}
use fei_protocol_core.Scripts.SimulateTimelock.Monad.{Action, ◌>>=◌, gets, lift}
use fei_protocol_core.EndToEnd.{
  Chain, Upgrade, Entry, an_address, a_contract, World, spread, ContractsAndAddresses, on_chain,
  upgrade_addresses, final_addresses, is_completed, upgrade_to, upgrade_from, apply_upgrade,
  apply_upgrades, finish, load_environment, deploy_upgrade, carry_out, set_local_test_contracts,
  set_local_test_contract_addresses, init_mainnet_contracts, sudo,
}
use fei_protocol_core.EndToEnd.Lookups.{
  as_entry, loaded_address, named_entry, lookup-final_addresses, distinct-final_addresses,
  distinct-all_contracts,
}

-- A script that ends well: its first part does, and the rest does from there.
pub >>=-ends {ℓ} :
    {S A B : Type 0} {P : Type ℓ} (m : Action S A) (f : A → Action S B) (s : S) {b : B} {s' : S}
    → (m >>= f) s ≡ (ok b, s')
    → ((a : A) (t : S) → m s ≡ (ok a, t) → f a t ≡ (ok b, s') → P)
    → P
>>=-ends {S = S} {A = A} {B = B} {P = P} m f s {b} {s'} e then_ = go (m s) refl e
  where
    go :
        (r : Result Error A × S)
        → m s ≡ r
        → ◌≡◌ {A = Result Error B × S}
            (elim r.0 [ ok a ↦ f a r.1 | err x ↦ (err x, r.1) ])
            (ok b, s')
        → P
    go (ok a, t) here k = then_ a t here k
    go (err x, t) here k = absurd (cc)

on_chain-fields :
    {C S A : Type 0} (m : Action S A) (w w' : World C S) {r : Result Error A}
    → on_chain m w ≡ (r, w')
    → (w'.after_upgrade_contracts ≡ w.after_upgrade_contracts)
      × (w'.mainnet_contracts ≡ w.mainnet_contracts)
on_chain-fields m w w' e =
    (sym (ap (λ x. x.1.after_upgrade_contracts) e), sym (ap (λ x. x.1.mainnet_contracts) e))

module _ (L : Libraries) (H : Chain L) (config : MainnetContractsConfig)
    (modules : String → Result Error (Upgrade L.Contract H.network.State))
    (get_contract_at : String → ℕ → L.Contract) (deploy_address : ℕ) where
  -- The contracts that the coordinator holds are those that it passes on, under distinct names.
  record Holds (w : World L.Contract H.network.State) (contracts : NamedContracts L.Contract)
      : Type 0 where
    pub same : w.after_upgrade_contracts ≡ contracts
    pub unique : distinct (keys contracts) ≡ true

  upgrade_to-Holds :
      (upgrade : Upgrade L.Contract H.network.State) (c : TemplatedProposalConfig)
      (mainnet existing contracts left : NamedContracts L.Contract)
      (w w' : World L.Contract H.network.State)
      → distinct (keys contracts) ≡ true
      → upgrade_to L H config modules get_contract_at deploy_address upgrade c mainnet existing
          contracts w
        ≡ (ok left, w')
      → Holds w' left
  unfolding upgrade_to set_local_test_contracts set_local_test_contract_addresses
  upgrade_to-Holds upgrade c mainnet existing contracts left w w' h e =
      let w1 = record w {
        after_upgrade_contracts = contracts;
        after_upgrade_addresses = insert_all a_contract contracts [];
      } in
      let carrying =
        carry_out L H config modules get_contract_at deploy_address upgrade c
          (upgrade_addresses L H config modules get_contract_at deploy_address mainnet contracts)
          existing contracts in
      >>=-ends (on_chain carrying) (λ u t. (ok contracts, t)) w1 e
        (λ done w2 carried ends.
          let built : contracts ≡ left = cc in
          let end : w2 ≡ w' = cc in
          let (kept, other) = on_chain-fields carrying w1 w2 carried in
          record {
            same = ap (λ x. x.after_upgrade_contracts) (sym end) ∙ kept ∙ built;
            unique = rw (← built) h;
          })

  upgrade_from-Holds :
      (existing left : NamedContracts L.Contract) (name : String) (c : TemplatedProposalConfig)
      (w w' : World L.Contract H.network.State)
      → distinct (keys existing) ≡ true
      → upgrade_from L H config modules get_contract_at deploy_address existing name c w
        ≡ (ok left, w')
      → Holds w' left
  unfolding upgrade_from
  upgrade_from-Holds existing left name c w w' h e =
      >>=-ends (lift (modules name)) _ w e (λ upgrade w1 e1 f1.
        >>=-ends (gets (λ x. x.mainnet_contracts)) _ w1 f1 (λ mainnet w2 e2 f2.
          >>=-ends
            (on_chain (
              deploy_upgrade L H config modules get_contract_at deploy_address c.deploy upgrade (
                upgrade_addresses L H config modules get_contract_at deploy_address mainnet
                  existing)))
            (λ deployed.
              upgrade_to L H config modules get_contract_at deploy_address upgrade c mainnet
                existing (spread existing deployed))
            w2 f2
            (λ deployed w3 e3 f3.
              upgrade_to-Holds upgrade c mainnet existing (spread existing deployed) left w3 w'
                (distinct-insert_all (λ v. v) deployed existing h) f3)))

  apply_upgrade-Holds :
      (existing left : NamedContracts L.Contract) (name : String) (c : TemplatedProposalConfig)
      (w w' : World L.Contract H.network.State)
      → Holds w existing
      → apply_upgrade L H config modules get_contract_at deploy_address existing name c w
        ≡ (ok left, w')
      → Holds w' left
  unfolding apply_upgrade
  apply_upgrade-Holds existing left name c w w' h e =
      >>=-ends
        (on_chain
          (is_completed L H config modules get_contract_at deploy_address existing c.proposal_id))
        (λ completed w1. elim completed [
          | true ↦ (ok existing, w1)
          | false ↦
              upgrade_from L H config modules get_contract_at deploy_address existing name c w1
        ])
        w e
        (λ completed w1 asks f1.
          decide completed w1
            (on_chain-fields
              (is_completed L H config modules get_contract_at deploy_address existing
                c.proposal_id)
              w w1 asks).0
            f1)
    where
      decide :
          (completed : Bool) (w1 : World L.Contract H.network.State)
          → w1.after_upgrade_contracts ≡ w.after_upgrade_contracts
          → ◌≡◌ {A = Result Error (NamedContracts L.Contract) × World L.Contract H.network.State}
              (elim completed [
                | true ↦ (ok existing, w1)
                | false ↦
                    upgrade_from L H config modules get_contract_at deploy_address existing name c
                      w1
              ])
              (ok left, w')
          → Holds w' left
      decide true w1 kept f1 =
          let end : w1 ≡ w' = cc in
          let built : existing ≡ left = cc in
          record {
            same = ap (λ x. x.after_upgrade_contracts) (sym end) ∙ kept ∙ h.same ∙ built;
            unique = rw (← built) h.unique;
          }
      decide false w1 kept f1 = upgrade_from-Holds existing left name c w1 w' h.unique f1

  apply_upgrades-Holds :
      (proposals : TemplatedProposalsConfigMap) (existing left : NamedContracts L.Contract)
      (w w' : World L.Contract H.network.State)
      → Holds w existing
      → apply_upgrades L H config modules get_contract_at deploy_address proposals existing w
        ≡ (ok left, w')
      → Holds w' left
  unfolding apply_upgrades
  apply_upgrades-Holds [] existing left w w' h e =
      let end : w ≡ w' = cc in
      let built : existing ≡ left = cc in
      record {
        same = ap (λ x. x.after_upgrade_contracts) (sym end) ∙ h.same ∙ built;
        unique = rw (← built) h.unique;
      }
  apply_upgrades-Holds ((name, c) ∷ rest) existing left w w' h e =
      >>=-ends (apply_upgrade L H config modules get_contract_at deploy_address existing name c)
        (apply_upgrades L H config modules get_contract_at deploy_address rest) w e
        (λ next w1 applies f1.
          apply_upgrades-Holds rest next left w1 w'
            (apply_upgrade-Holds existing next name c w w1 h applies) f1)

  finish-addresses :
      (existing : NamedContracts L.Contract) (r : ContractsAndAddresses L.Contract)
      (w w' : World L.Contract H.network.State) (name : String)
      → distinct (keys config) ≡ true
      → Holds w existing
      → finish L H config modules get_contract_at deploy_address existing w ≡ (ok r, w')
      → (w'.after_upgrade_addresses ≡ r.contract_addresses)
        × (lookup name r.contract_addresses
            ≡ as_entry (loaded_address H.address_of config name r.contracts))
  unfolding finish lookup
  finish-addresses existing r w w' name h held e =
      let built : w.after_upgrade_contracts ≡ r.contracts = cc in
      let finals = final_addresses L H config modules get_contract_at deploy_address existing in
      let addresses : insert_all an_address finals [] ≡ r.contract_addresses = cc in
      let kept : insert_all an_address finals [] ≡ w'.after_upgrade_addresses = cc in
      let unique =
        distinct-final_addresses L H config modules get_contract_at deploy_address existing in
      let found = lookup-insert_all {V = Entry L.Contract} an_address name finals [] unique in
      let final =
        lookup-final_addresses L H config modules get_contract_at deploy_address name existing h
          held.unique in
      let all =
        ap (lookup name) (sym addresses)
        ∙ found
        ∙ named_entry name (lookup name finals)
        ∙ ap as_entry final
        ∙ ap (λ x. as_entry (loaded_address H.address_of config name x)) (sym held.same ∙ built) in
      (sym kept ∙ addresses, all)

  -- Where the table names nothing twice and the environment is loaded without an error: the addresses
  -- that `loadEnvironment` returns are those that it keeps, and under every name they have the address
  -- of the contract that it returns under this name, whichever proposals deployed or replaced it; under
  -- a name without a contract the address in the table, and under no other name any.
  pub load_environment-addresses :
      (proposals : TemplatedProposalsConfigMap) (r : ContractsAndAddresses L.Contract)
      (w w' : World L.Contract H.network.State) (name : String)
      → distinct (keys config) ≡ true
      → load_environment L H config modules get_contract_at deploy_address proposals w ≡ (ok r, w')
      → (w'.after_upgrade_addresses ≡ r.contract_addresses)
        × (lookup name r.contract_addresses
            ≡ as_entry (loaded_address H.address_of config name r.contracts))
  unfolding load_environment init_mainnet_contracts set_local_test_contracts
  load_environment-addresses proposals r w w' name h e =
      let mainnet = get_all_contracts get_contract_at config in
      let w1 = record w {
        mainnet_contracts = mainnet;
        after_upgrade_contracts = mainnet;
        chain = H.reset_fork w.chain;
      } in
      let rest =
        apply_upgrades L H config modules get_contract_at deploy_address proposals mainnet in
      let ends = finish L H config modules get_contract_at deploy_address in
      >>=-ends (on_chain (sudo L H mainnet)) (λ u t. (rest >>= ends) t) w1 e
        (λ u w2 grants f1. >>=-ends rest ends w2 f1 (λ existing w3 applies f2.
          let held : Holds w2 mainnet = record {
            same = (on_chain-fields (sudo L H mainnet) w1 w2 grants).0;
            unique = distinct-all_contracts L H config modules get_contract_at deploy_address;
          } in
          finish-addresses existing r w3 w' name h
            (apply_upgrades-Holds proposals mainnet existing w2 w3 held applies) f2))
