-- ===== src/Tests/EndToEnd.antt =====
-- Environments that the coordinator loads.
use fei_protocol_core.Prelude.{
  ℕ, String, ◌≡◌, ◌∙◌, ap, refl, insert, if◌then◌else◌, true, none, some, List, [], ◌∷◌, map,
  lookup, distinct, contains, insert_all, Result, ok,
}
use fei_protocol_core.Types.{
  NamedContracts, MainnetContractsConfig, TemplatedProposalsConfigMap, ProposalCategory, core, peg,
}
use fei_protocol_core.Config.MainnetAddresses.{mainnet_contracts_config}
use fei_protocol_core.Config.Permissions.{permissions}
use fei_protocol_core.Config.Load.{get_all_contract_addresses, get_all_contracts, has_artifact}
use fei_protocol_core.Config.Loading.{bind_opt, lookup-get_all_contracts}
use fei_protocol_core.Config.Integrity.{mainnet-distinct}
use fei_protocol_core.Scripts.Libraries.{Error}
use fei_protocol_core.Scripts.SimulateTimelock.Monad.{◌>>=◌}
use fei_protocol_core.EndToEnd.{
  on_chain, Chain, Upgrade, Entry, an_address, World, ContractsAndAddresses, load_environment,
  final_addresses, addresses_of, get_access_control_mapping, sudo, finish,
}
use fei_protocol_core.EndToEnd.Lookups.{as_entry, loaded_address}
use fei_protocol_core.EndToEnd.Guards.{guarded_modules, load_environment-guarded}
use fei_protocol_core.EndToEnd.Addresses.{load_environment-addresses}
use fei_protocol_core.EndToEnd.Roles.{get_access_control_mapping-defined}
use fei_protocol_core.Tests.Libraries.{libraries, network}

-- A chain on which every transaction succeeds and no proposal is completed; a contract is its address.
abbrev chain : Chain libraries
chain = record {
  network = network;
  reset_fork = λ s. s;
  first_account = 9;
  address_of = λ c. c;
  transact = λ c signer method args s. ok s;
  send_transaction = λ signer calldata to value s. ok s;
  proposal_state = λ dao id s. ok 1;
  simulate = λ proposal s. ok s;
}

-- A proposal that deploys a new version of one contract.
abbrev upgrade : Upgrade ℕ chain.network.State
upgrade = record {
  deploy = λ account addresses s. (ok (("fei", 200) ∷ []), s);
  setup = λ addresses old new s. (ok tt, s);
  teardown = λ addresses old new s. (ok tt, s);
  validate = none;
}

abbrev modules : String → Result Error (Upgrade ℕ chain.network.State)
modules name = ok upgrade

abbrev at_address : String → ℕ → ℕ
at_address artifact a = a

abbrev table : MainnetContractsConfig
table =
    ("core", record { artifact_name = "Core"; address = 100; category = core })
    ∷ ("fei", record { artifact_name = "Fei"; address = 101; category = peg })
    ∷ ("feiDAOTimelock", record { artifact_name = "Timelock"; address = 102; category = core })
    ∷ []

abbrev proposals : TemplatedProposalsConfigMap
proposals =
    (
      "fip",
      record {
        deploy = true;
        category = ProposalCategory.none;
        total_value = 0;
        proposal = none;
        affected_contract_signoff = [];
        deprecated_contract_signoff = [];
        proposal_id = "";
      },
    )
    ∷ []

abbrev new_world : (S : Type 0) → S → World ℕ S
new_world S s = record {
  mainnet_contracts = [];
  after_upgrade_contracts = [];
  after_upgrade_addresses = [];
  chain = s;
}

-- what is loaded from the table with the proposal
abbrev loaded : ContractsAndAddresses ℕ
loaded = record {
  contracts = ("core", 100) ∷ ("fei", 200) ∷ ("feiDAOTimelock", 102) ∷ [];
  contract_addresses =
      ("core", an_address 100) ∷ ("fei", an_address 200) ∷ ("feiDAOTimelock", an_address 102) ∷ [];
}

abbrev loaded_world : World ℕ (List ℕ)
loaded_world = record {
  mainnet_contracts = ("core", 100) ∷ ("fei", 101) ∷ ("feiDAOTimelock", 102) ∷ [];
  after_upgrade_contracts = loaded.contracts;
  after_upgrade_addresses = loaded.contract_addresses;
  chain = 102 ∷ [];
}

proposal_loads :
    load_environment libraries chain table modules at_address 7 proposals (new_world (List ℕ) [])
    ≡ (ok loaded, loaded_world)
unfolding load_environment get_all_contracts get_all_contract_addresses insert
proposal_loads = refl

load_environment-addresses_example :
    (loaded_world.after_upgrade_addresses ≡ loaded.contract_addresses)
    × (lookup "fei" loaded.contract_addresses
        ≡ as_entry (loaded_address chain.address_of table "fei" loaded.contracts))
unfolding distinct contains
load_environment-addresses_example =
    load_environment-addresses libraries chain table modules at_address 7 proposals loaded
      (new_world (List ℕ) []) loaded_world "fei" refl proposal_loads

-- The proposal deploys another contract under the guarded name.
load_environment-guarded_example :
    load_environment libraries chain table
      (guarded_modules "fei" 101 modules)
      at_address
      7
      proposals
      (new_world (List ℕ) [])
    ≡ load_environment libraries chain table modules at_address 7 proposals (new_world (List ℕ) [])
unfolding distinct contains lookup
load_environment-guarded_example =
    load_environment-guarded libraries chain table modules at_address 7 "fei"
      (record { artifact_name = "Fei"; address = 101; category = peg }) refl refl proposals
      (new_world (List ℕ) [])

abbrev mainnet_contracts : NamedContracts ℕ
mainnet_contracts = get_all_contracts at_address mainnet_contracts_config

abbrev mainnet_entries : List (String × Entry ℕ)
mainnet_entries =
    insert_all an_address
      (final_addresses libraries chain mainnet_contracts_config modules at_address 7
        mainnet_contracts)
      []

abbrev timelock : ℕ
timelock = 0xd51dbA7a94e1adEa403553A8235C302cEbF41a3c

abbrev mainnet_loaded : ContractsAndAddresses ℕ
mainnet_loaded = record { contracts = mainnet_contracts; contract_addresses = mainnet_entries }

abbrev mainnet_world : World ℕ (List ℕ)
mainnet_world = record {
  mainnet_contracts = mainnet_contracts;
  after_upgrade_contracts = mainnet_contracts;
  after_upgrade_addresses = mainnet_entries;
  chain = timelock ∷ [];
}

sudo_ok :
    (contracts : NamedContracts ℕ) (a b c : ℕ) (s : List ℕ)
    → lookup "feiDAOTimelock" contracts ≡ some a
    → lookup "core" contracts ≡ some b
    → lookup "fei" contracts ≡ some c
    → sudo libraries chain contracts s ≡ (ok tt, a ∷ s)
unfolding sudo
sudo_ok contracts a b c s ha hb hc = rw (ha, hb, hc) refl

mainnet_contract :
    (name : String) (a : ℕ)
    → bind_opt
        (lookup name mainnet_contracts_config)
        (λ c. if has_artifact c then some c.address else none)
      ≡ some a
    → lookup name mainnet_contracts ≡ some a
mainnet_contract name a h =
    lookup-get_all_contracts at_address name mainnet_contracts_config mainnet-distinct ∙ h

mainnet_sudo : sudo libraries chain mainnet_contracts [] ≡ (ok tt, timelock ∷ [])
unfolding lookup mainnet_contracts_config
mainnet_sudo =
    sudo_ok mainnet_contracts timelock _ _ [] (mainnet_contract "feiDAOTimelock" timelock refl)
      (mainnet_contract "core" _ refl) (mainnet_contract "fei" _ refl)

mainnet_loads :
    load_environment libraries chain mainnet_contracts_config modules at_address 7 []
      (new_world (List ℕ) [])
    ≡ (ok mainnet_loaded, mainnet_world)
unfolding load_environment
mainnet_loads =
    ap
      (λ (r : Result Error (Unit {0}) × List ℕ).
        (on_chain (λ s. r) >>= λ u.
        finish libraries chain mainnet_contracts_config modules at_address 7 mainnet_contracts)
          (record (new_world (List ℕ) []) {
            mainnet_contracts = mainnet_contracts;
            after_upgrade_contracts = mainnet_contracts;
          }))
      mainnet_sudo

get_access_control_mapping-defined_example :
    (found : List ℕ) × (lookup "POD_VETO_ADMIN" (get_access_control_mapping mainnet_world)
      ≡ some (map (λ a. some (an_address a)) found))
    × (addresses_of mainnet_loaded.contract_addresses ("nopeDAO" ∷ [])
        ≡ map (λ a. some (an_address a)) found)
unfolding lookup permissions
get_access_control_mapping-defined_example =
    get_access_control_mapping-defined libraries chain modules at_address 7 [] mainnet_loaded
      (new_world (List ℕ) []) mainnet_world "POD_VETO_ADMIN" {holders = "nopeDAO" ∷ []}
      mainnet_loads refl
