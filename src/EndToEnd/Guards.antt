-- ===== src/EndToEnd/Guards.antt =====
-- Which addresses the functions of a proposal's module are given: a check of them that never fails.
use mathlib.Core.Path.{fun_ext}
use fei_protocol_core.Prelude.{
  ℕ, String, ◌≡◌, refl, ap, Bool, true, false, Option, none, some, [], ◌∷◌, arith, lookup, keys,
  distinct, ◌==◌, if◌then◌else◌, Result, ok, err,
}
use fei_protocol_core.Types.{
  NamedAddresses, NamedContracts, ContractConfig, TemplatedProposalConfig,
  TemplatedProposalsConfigMap, MainnetContractsConfig,
}
use fei_protocol_core.Scripts.Libraries.{Error, type_error, Libraries}
use fei_protocol_core.Scripts.SimulateTimelock.Monad.{Action, pure, lift, gets, modify, ◌>>=◌, ◌>>◌}
use fei_protocol_core.EndToEnd.{
  Chain, Upgrade, World, spread, on_chain, upgrade_addresses, final_addresses, simulate_as,
  simulate_upgrade, is_completed, deploy_upgrade, validate_upgrade, carry_out, upgrade_to,
  upgrade_from, apply_upgrade, apply_upgrades, finish, load_environment, set_local_test_contracts,
  set_local_test_contract_addresses, init_mainnet_contracts, sudo,
}
use fei_protocol_core.EndToEnd.Lookups.{lookup-upgrade_addresses}

module _ {S A : Type 0} where
  abbrev pub expected : Option ℕ → ℕ → Action S A → Action S A
  expected none a m = lift (err type_error)
  expected (some b) a m = if b == a then m else lift (err type_error)

  -- The script `m`, which throws an error instead if the name does not have the address `a`.
  abbrev pub only_at : String → ℕ → NamedAddresses → Action S A → Action S A
  only_at name a addresses m = expected (lookup name addresses) a m

  only_at_passes :
      (name : String) (a : ℕ) (addresses : NamedAddresses) (m : Action S A)
      → lookup name addresses ≡ some a
      → only_at name a addresses m ≡ m
  only_at_passes name a addresses m e = let same : a == a ≡ true = ground arith in rw (e, same) refl

-- A proposal's module with the check in front of each of its functions.
module _ {C S : Type 0} (name : String) (a : ℕ) where
  abbrev pub guarded_validate :
      Option (NamedAddresses → NamedContracts C → NamedContracts C → Action S (Unit {0}))
      → Option (NamedAddresses → NamedContracts C → NamedContracts C → Action S (Unit {0}))
  guarded_validate none = none
  guarded_validate (some validate) =
      some (λ addresses old new. only_at name a addresses (validate addresses old new))

  abbrev pub guarded : Upgrade C S → Upgrade C S
  guarded u = record {
    deploy = λ account addresses. only_at name a addresses (u.deploy account addresses);
    setup = λ addresses old new. only_at name a addresses (u.setup addresses old new);
    teardown = λ addresses old new. only_at name a addresses (u.teardown addresses old new);
    validate = guarded_validate u.validate;
  }

  abbrev pub guarded_result : Result Error (Upgrade C S) → Result Error (Upgrade C S)
  guarded_result (ok u) = ok (guarded u)
  guarded_result (err e) = err e

  abbrev pub guarded_modules :
      (String → Result Error (Upgrade C S)) → String → Result Error (Upgrade C S)
  guarded_modules modules proposal = guarded_result (modules proposal)

module _ (L : Libraries) (H : Chain L) (config : MainnetContractsConfig)
    (modules : String → Result Error (Upgrade L.Contract H.network.State))
    (get_contract_at : String → ℕ → L.Contract) (deploy_address : ℕ) (name : String)
    (entry : ContractConfig) (unique : distinct (keys config) ≡ true)
    (found : lookup name config ≡ some entry) where
  abbrev checked_modules : String → Result Error (Upgrade L.Contract H.network.State)
  checked_modules = guarded_modules name entry.address modules

  abbrev checked : Upgrade L.Contract H.network.State → Upgrade L.Contract H.network.State
  checked = guarded name entry.address

  abbrev seen : NamedContracts L.Contract → NamedContracts L.Contract → NamedAddresses
  seen mainnet contracts =
      upgrade_addresses L H config modules get_contract_at deploy_address mainnet contracts

  seen-lookup :
      (mainnet contracts : NamedContracts L.Contract)
      → lookup name (seen mainnet contracts) ≡ some entry.address
  seen-lookup mainnet contracts =
      lookup-upgrade_addresses L H config modules get_contract_at deploy_address name mainnet
        contracts entry unique found

  deploy_upgrade-checked :
      (flag : Bool) (u : Upgrade L.Contract H.network.State) (addresses : NamedAddresses)
      → lookup name addresses ≡ some entry.address
      → deploy_upgrade L H config checked_modules get_contract_at deploy_address flag
          (checked u)
          addresses
        ≡ deploy_upgrade L H config modules get_contract_at deploy_address flag u addresses
  unfolding deploy_upgrade
  deploy_upgrade-checked true u addresses e =
      only_at_passes name entry.address addresses (u.deploy deploy_address addresses) e
  deploy_upgrade-checked false u addresses e = refl

  validate_upgrade-checked :
      (v : Option (
        NamedAddresses
        → NamedContracts L.Contract
        → NamedContracts L.Contract
        → Action H.network.State (Unit {0})))
      (addresses : NamedAddresses) (existing contracts : NamedContracts L.Contract)
      → lookup name addresses ≡ some entry.address
      → validate_upgrade L H config checked_modules get_contract_at deploy_address
          (guarded_validate name entry.address v)
          addresses
          existing
          contracts
        ≡ validate_upgrade L H config modules get_contract_at deploy_address v addresses existing
            contracts
  validate_upgrade-checked none addresses existing contracts e = refl
  validate_upgrade-checked (some validate) addresses existing contracts e =
      only_at_passes name entry.address addresses (validate addresses existing contracts) e

  carry_out-checked :
      (u : Upgrade L.Contract H.network.State) (c : TemplatedProposalConfig)
      (addresses : NamedAddresses) (existing contracts : NamedContracts L.Contract)
      → lookup name addresses ≡ some entry.address
      → carry_out L H config checked_modules get_contract_at deploy_address
          (checked u)
          c
          addresses
          existing
          contracts
        ≡ carry_out L H config modules get_contract_at deploy_address u c addresses existing
            contracts
  unfolding carry_out simulate_upgrade simulate_as
  carry_out-checked u c addresses existing contracts e =
      let setup_is =
        only_at_passes name entry.address addresses (u.setup addresses existing contracts) e in
      let teardown_is =
        only_at_passes name entry.address addresses (u.teardown addresses existing contracts) e in
      let validate_is = validate_upgrade-checked u.validate addresses existing contracts e in
      λ i.
        setup_is i
        >> (simulate_upgrade L H config modules get_contract_at deploy_address c addresses contracts
            >> (teardown_is i >> validate_is i))

  upgrade_to-checked :
      (u : Upgrade L.Contract H.network.State) (c : TemplatedProposalConfig)
      (mainnet existing contracts : NamedContracts L.Contract)
      → upgrade_to L H config checked_modules get_contract_at deploy_address
          (checked u)
          c
          mainnet
          existing
          contracts
        ≡ upgrade_to L H config modules get_contract_at deploy_address u c mainnet existing
            contracts
  unfolding upgrade_to upgrade_addresses set_local_test_contracts set_local_test_contract_addresses
  upgrade_to-checked u c mainnet existing contracts =
      let carried =
        carry_out-checked u c (seen mainnet contracts) existing contracts
          (seen-lookup mainnet contracts) in
      ap
        (λ (m : Action H.network.State (Unit {0})). do
          set_local_test_contracts L H config modules get_contract_at deploy_address contracts
          set_local_test_contract_addresses L H config modules get_contract_at deploy_address
              contracts
          on_chain m
          pure contracts)
        carried

  -- `applyUpgrade` for a proposal whose module is loaded
  abbrev upgrade_by :
      (String → Result Error (Upgrade L.Contract H.network.State))
      → NamedContracts L.Contract
      → TemplatedProposalConfig
      → Upgrade L.Contract H.network.State
      → Action (World L.Contract H.network.State) (NamedContracts L.Contract)
  upgrade_by ms existing c u = do
    mainnet ← gets (λ w. w.mainnet_contracts)
    deployed ← on_chain (
        deploy_upgrade L H config ms get_contract_at deploy_address c.deploy u
          (seen mainnet existing))
    upgrade_to L H config ms get_contract_at deploy_address u c mainnet existing
        (spread existing deployed)

  upgrade_by-checked :
      (existing : NamedContracts L.Contract) (c : TemplatedProposalConfig)
      (u : Upgrade L.Contract H.network.State)
      → upgrade_by checked_modules existing c (checked u) ≡ upgrade_by modules existing c u
  upgrade_by-checked existing c u = λ i. do
    mainnet ← gets (λ w. w.mainnet_contracts)
    deployed ←
        on_chain (
          deploy_upgrade-checked c.deploy u (seen mainnet existing) (seen-lookup mainnet existing)
            i)
    upgrade_to-checked u c mainnet existing (spread existing deployed) i

  loaded-checked :
      (r : Result Error (Upgrade L.Contract H.network.State)) (existing : NamedContracts L.Contract)
      (c : TemplatedProposalConfig)
      → (lift (guarded_result name entry.address r) >>= upgrade_by checked_modules existing c)
        ≡ (lift r >>= upgrade_by modules existing c)
  loaded-checked (ok u) existing c = upgrade_by-checked existing c u
  loaded-checked (err e) existing c = refl

  upgrade_from-checked :
      (existing : NamedContracts L.Contract) (proposal : String) (c : TemplatedProposalConfig)
      → upgrade_from L H config checked_modules get_contract_at deploy_address existing proposal c
        ≡ upgrade_from L H config modules get_contract_at deploy_address existing proposal c
  unfolding upgrade_from upgrade_addresses
  upgrade_from-checked existing proposal c = loaded-checked (modules proposal) existing c

  apply_upgrade-checked :
      (existing : NamedContracts L.Contract) (proposal : String) (c : TemplatedProposalConfig)
      → apply_upgrade L H config checked_modules get_contract_at deploy_address existing proposal c
        ≡ apply_upgrade L H config modules get_contract_at deploy_address existing proposal c
  unfolding apply_upgrade is_completed
  apply_upgrade-checked existing proposal c =
      ap
        (λ (m : Action (World L.Contract H.network.State) (NamedContracts L.Contract)). do
          completed ← on_chain (
              is_completed L H config modules get_contract_at deploy_address existing c.proposal_id)
          (λ w. elim completed [ true ↦ (ok existing, w) | false ↦ m w ]))
        (upgrade_from-checked existing proposal c)

  apply_upgrades-checked :
      (proposals : TemplatedProposalsConfigMap) (existing : NamedContracts L.Contract)
      → apply_upgrades L H config checked_modules get_contract_at deploy_address proposals existing
        ≡ apply_upgrades L H config modules get_contract_at deploy_address proposals existing
  unfolding apply_upgrades
  apply_upgrades-checked [] existing = refl
  apply_upgrades-checked ((proposal, c) ∷ rest) existing = λ i w.
      (apply_upgrade-checked existing proposal c i >>= λ after. apply_upgrades-checked rest after i)
        w

  -- For a name of a table that names nothing twice: loading the environment with any proposals gives
  -- the same result, and leaves the same world, when each function of each proposal's module (the
  -- deployment, the setup, the teardown and the validation) is replaced by one that throws an error
  -- unless, in the addresses that it is given, the name has the table's address. So these functions
  -- see the table's address even after the name's contract was deployed anew.
  pub load_environment-guarded :
      (proposals : TemplatedProposalsConfigMap) (w : World L.Contract H.network.State)
      → load_environment L H config
          (guarded_modules name entry.address modules)
          get_contract_at
          deploy_address
          proposals
          w
        ≡ load_environment L H config modules get_contract_at deploy_address proposals w
  unfolding load_environment init_mainnet_contracts set_local_test_contracts finish final_addresses
  load_environment-guarded proposals w =
      ap
        (λ (apply : NamedContracts L.Contract
            → Action (World L.Contract H.network.State) (NamedContracts L.Contract)).
          (do
            on_chain (modify H.reset_fork)
            init_mainnet_contracts L H config modules get_contract_at deploy_address
            mainnet ← gets (λ v. v.mainnet_contracts)
            set_local_test_contracts L H config modules get_contract_at deploy_address mainnet
            on_chain (sudo L H mainnet)
            existing ← apply mainnet
            finish L H config modules get_contract_at deploy_address existing)
            w)
        (fun_ext (apply_upgrades-checked proposals))
