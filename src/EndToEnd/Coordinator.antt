-- ===== src/EndToEnd/Coordinator.antt =====
-- The class TestEndtoEndCoordinator. An assignment to a field of `this` changes the world. What only
-- writes the log is left out.
use fei_protocol_core.Prelude.{
  ℕ, String, Bool, true, false, Option, none, some, List, [], ◌∷◌, lookup, insert_all, Dict,
  text_eq, ◌==◌, if◌then◌else◌, Result, ok,
}
use fei_protocol_core.Types.{
  NamedAddresses, NamedContracts, TemplatedProposalConfig, TemplatedProposalsConfigMap,
  ProposalCategory, dao, debug, tc, debug_tc, MainnetContractsConfig,
  named_contracts_to_named_addresses,
}
use fei_protocol_core.Config.Permissions.{permissions}
use fei_protocol_core.Config.Load.{get_all_contract_addresses, get_all_contracts}
use fei_protocol_core.Scripts.Libraries.{Error, type_error, Libraries}
use fei_protocol_core.Scripts.ConstructProposal.{construct_proposal}
use fei_protocol_core.Scripts.SimulateTimelock.{simulate_tc_proposal}
use fei_protocol_core.Scripts.SimulateTimelock.Monad.{
  Action, pure, gets, lift, modify, try, or_throw, ◌>>=◌, ◌>>◌,
}
use fei_protocol_core.EndToEnd.Fork.{Chain, Upgrade, sudo, simulate_debug_proposal}

-- A value of `afterUpgradeAddresses`, to which the code also assigns contracts.
pub data Entry (C : Type 0) : Type 0 where
  an_address : ℕ → Entry C
  a_contract : C → Entry C

-- The coordinator's fields, and the network.
pub record World (C S : Type 0) : Type 0 where
  pub mainnet_contracts : NamedContracts C
  pub after_upgrade_contracts : NamedContracts C
  pub after_upgrade_addresses : Dict (Entry C)
  pub chain : S

-- `{ ...first, ...second }`
abbrev pub spread {ℓ} : {V : Type ℓ} → Dict V → Dict V → Dict V
spread first second = insert_all (λ v. v) second first

-- What `loadEnvironment` returns.
pub record ContractsAndAddresses (C : Type 0) : Type 0 where
  pub contracts : NamedContracts C
  pub contract_addresses : Dict (Entry C)

module _ {C S A : Type 0} where
  -- a script that works on the network
  abbrev pub on_chain : Action S A → Action (World C S) A
  on_chain m w = let (r, s) = m w.chain in (r, record w { chain = s })

module _ (L : Libraries) (H : Chain L) (config : MainnetContractsConfig)
    (modules : String → Result Error (Upgrade L.Contract H.network.State))
    (get_contract_at : String → ℕ → L.Contract) (deploy_address : ℕ) where
  abbrev pub Step : Type 0 → Type 0
  Step A = Action (World L.Contract H.network.State) A

  -- `contractAddressesBefore` and `contractAddresses` of `applyUpgrade`
  unfoldable pub upgrade_addresses :
      NamedContracts L.Contract → NamedContracts L.Contract → NamedAddresses
  unfolding named_contracts_to_named_addresses get_all_contract_addresses insert_all
  upgrade_addresses mainnet contracts =
      spread
        (spread (named_contracts_to_named_addresses H.address_of mainnet)
          (named_contracts_to_named_addresses H.address_of contracts))
        (get_all_contract_addresses config)

  -- The step-by-step simulation, in the name of a timelock.
  unfoldable pub simulate_as :
      String
      → TemplatedProposalConfig
      → NamedAddresses
      → NamedContracts L.Contract
      → Action H.network.State (Unit {0})
  unfolding simulate_debug_proposal lookup
  simulate_as name c addresses contracts = do
    info ← or_throw c.proposal type_error
    timelock ← or_throw (lookup name contracts) type_error
    modify (H.network.force_eth (H.address_of timelock))
    simulate_debug_proposal L H (H.address_of timelock) addresses contracts info.commands

  -- The simulation in `applyUpgrade` that the category chooses.
  unfoldable pub simulate_upgrade :
      TemplatedProposalConfig
      → NamedAddresses
      → NamedContracts L.Contract
      → Action H.network.State (Unit {0})
  unfolding construct_proposal simulate_tc_proposal simulate_as
  simulate_upgrade c addresses contracts = elim c.category [
    | dao ↦ (do
      info ← or_throw c.proposal type_error
      proposal ← lift (construct_proposal L contracts addresses info)
      try (H.simulate proposal))
    | tc ↦ (do
      info ← or_throw c.proposal type_error
      simulate_tc_proposal L H.network contracts addresses info)
    | debug ↦ simulate_as "feiDAOTimelock" c addresses contracts
    | debug_tc ↦ simulate_as "tribalCouncilTimelock" c addresses contracts
    | ProposalCategory.none ↦ pure tt
  ]

  -- `if (config.proposalId)`, and whether the proposal's state is 7
  unfoldable pub is_completed : NamedContracts L.Contract → String → Action H.network.State Bool
  unfolding lookup
  is_completed existing id s =
      if text_eq id ""
      then pure false s
      else ((do
        fei_dao ← or_throw (lookup "feiDAO" existing) type_error
        state ← (λ t. (H.proposal_state fei_dao id t, t))
        pure (state == 7))
          s)

  -- `setLocalTestContracts` and `setLocalTestContractAddresses`
  unfoldable pub set_local_test_contracts : NamedContracts L.Contract → Step (Unit {0})
  set_local_test_contracts contracts =
      modify (λ w. record w { after_upgrade_contracts = contracts })

  unfoldable pub set_local_test_contract_addresses : NamedContracts L.Contract → Step (Unit {0})
  set_local_test_contract_addresses contracts =
      modify (λ w. record w { after_upgrade_addresses = insert_all a_contract contracts [] })

  -- `if (config.deploy)`
  unfoldable pub deploy_upgrade :
      Bool
      → Upgrade L.Contract H.network.State
      → NamedAddresses
      → Action H.network.State (NamedContracts L.Contract)
  deploy_upgrade true upgrade addresses = upgrade.deploy deploy_address addresses
  deploy_upgrade false upgrade addresses = pure []

  abbrev pub validate_upgrade :
      Option (
        NamedAddresses
        → NamedContracts L.Contract
        → NamedContracts L.Contract
        → Action H.network.State (Unit {0}))
      → NamedAddresses
      → NamedContracts L.Contract
      → NamedContracts L.Contract
      → Action H.network.State (Unit {0})
  validate_upgrade none addresses existing contracts = pure tt
  validate_upgrade (some validate) addresses existing contracts =
      validate addresses existing contracts

  -- What `applyUpgrade` does to the network once the contracts are deployed.
  unfoldable pub carry_out :
      Upgrade L.Contract H.network.State
      → TemplatedProposalConfig
      → NamedAddresses
      → NamedContracts L.Contract
      → NamedContracts L.Contract
      → Action H.network.State (Unit {0})
  unfolding simulate_upgrade
  carry_out upgrade c addresses existing contracts = do
    upgrade.setup addresses existing contracts
    simulate_upgrade c addresses contracts
    upgrade.teardown addresses existing contracts
    validate_upgrade upgrade.validate addresses existing contracts

  -- `applyUpgrade` after the deployment
  unfoldable pub upgrade_to :
      Upgrade L.Contract H.network.State
      → TemplatedProposalConfig
      → NamedContracts L.Contract
      → NamedContracts L.Contract
      → NamedContracts L.Contract
      → Step (NamedContracts L.Contract)
  unfolding upgrade_addresses set_local_test_contracts set_local_test_contract_addresses carry_out
  upgrade_to upgrade c mainnet existing contracts = do
    set_local_test_contracts contracts
    set_local_test_contract_addresses contracts
    on_chain (carry_out upgrade c (upgrade_addresses mainnet contracts) existing contracts)
    pure contracts

  -- `applyUpgrade` for a proposal that is not completed
  unfoldable pub upgrade_from :
      NamedContracts L.Contract
      → String
      → TemplatedProposalConfig
      → Step (NamedContracts L.Contract)
  unfolding upgrade_addresses deploy_upgrade upgrade_to
  upgrade_from existing name c = do
    upgrade ← lift (modules name)
    mainnet ← gets (λ w. w.mainnet_contracts)
    deployed ← on_chain (deploy_upgrade c.deploy upgrade (upgrade_addresses mainnet existing))
    upgrade_to upgrade c mainnet existing (spread existing deployed)

  -- `applyUpgrade`
  unfoldable pub apply_upgrade :
      NamedContracts L.Contract
      → String
      → TemplatedProposalConfig
      → Step (NamedContracts L.Contract)
  unfolding is_completed upgrade_from
  apply_upgrade existing name c = do
    completed ← on_chain (is_completed existing c.proposal_id)
    (λ w. elim completed [ true ↦ (ok existing, w) | false ↦ upgrade_from existing name c w ])

  -- the loop of `loadEnvironment`
  unfoldable pub apply_upgrades :
      TemplatedProposalsConfigMap → NamedContracts L.Contract → Step (NamedContracts L.Contract)
  unfolding apply_upgrade
  apply_upgrades [] existing w = (ok existing, w)
  apply_upgrades ((name, c) ∷ rest) existing w =
      (apply_upgrade existing name c >>= apply_upgrades rest) w

  -- `initMainnetContracts`
  unfoldable pub init_mainnet_contracts : Step (Unit {0})
  unfolding get_all_contracts
  init_mainnet_contracts =
      modify (λ w. record w { mainnet_contracts = get_all_contracts get_contract_at config })

  -- `afterUpgradeAddresses` at the end of `loadEnvironment`
  unfoldable pub final_addresses : NamedContracts L.Contract → NamedAddresses
  unfolding named_contracts_to_named_addresses get_all_contract_addresses insert_all
  final_addresses contracts =
      spread (get_all_contract_addresses config)
        (named_contracts_to_named_addresses H.address_of contracts)

  -- the end of `loadEnvironment`
  unfoldable pub finish : NamedContracts L.Contract → Step (ContractsAndAddresses L.Contract)
  unfolding final_addresses
  finish existing = do
    modify (λ w. record w {
      after_upgrade_addresses = insert_all an_address (final_addresses existing) [];
    })
    gets (λ w. record {
      contracts = w.after_upgrade_contracts;
      contract_addresses = w.after_upgrade_addresses;
    })

  -- `loadEnvironment`, for a coordinator with these proposals; without proposals the map is empty.
  unfoldable pub load_environment :
      TemplatedProposalsConfigMap → Step (ContractsAndAddresses L.Contract)
  unfolding init_mainnet_contracts set_local_test_contracts sudo apply_upgrades finish
  load_environment proposals = do
    on_chain (modify H.reset_fork)
    init_mainnet_contracts
    mainnet ← gets (λ w. w.mainnet_contracts)
    set_local_test_contracts mainnet
    on_chain (sudo L H mainnet)
    existing ← apply_upgrades proposals mainnet
    finish existing

-- `getAccessControlMapping`: for each role of the table, what is loaded under the holders' names. The
-- five lists that the code starts with stay empty, since no role of the table has their names.
unfoldable pub addresses_of : {C : Type 0} → Dict (Entry C) → List String → List (Option (Entry C))
unfolding lookup
addresses_of addresses [] = []
addresses_of addresses (name ∷ names) = lookup name addresses ∷ addresses_of addresses names

unfoldable pub get_access_control_mapping :
    {C S : Type 0} → World C S → Dict (List (Option (Entry C)))
unfolding permissions addresses_of insert_all
get_access_control_mapping w = insert_all (addresses_of w.after_upgrade_addresses) permissions (
    ("minter", [])
    ∷ ("burner", [])
    ∷ ("pcvController", [])
    ∷ ("governor", [])
    ∷ ("guardian", [])
    ∷ [])
