-- ===== src/Scripts/SimulateTimelock/Runs.antt =====
-- Whole runs of the simulation that end with an error.
use fei_protocol_core.Prelude.{
  ℕ, String, ◌≡◌, true, false, List, [], ◌∷◌, ◌++◌, none, some, arith, ◌∙◌, >>=-eq-ok, lookup, keys,
  distinct, ok, err,
}
use fei_protocol_core.Types.{
  NamedAddresses, NamedContracts, TemplatedProposalCommand, TemplatedProposalDescription,
  ContractConfig, MainnetContractsConfig,
}
use fei_protocol_core.Config.Load.{get_all_contracts, has_artifact}
use fei_protocol_core.Config.Loading.{lookup-get_all_contracts}
use fei_protocol_core.Scripts.Libraries.{unknown_contract, Libraries}
use fei_protocol_core.Scripts.ProposalCalldata.{PodConfig}
use fei_protocol_core.Scripts.SimulateTimelock.{
  Batch, Network, encode_command, encode_commands, simulate_pod_proposal,
}

module _ (L : Libraries) (contracts : NamedContracts L.Contract) (addresses : NamedAddresses) where
  encode_commands_missing :
      (before : List TemplatedProposalCommand) (c : TemplatedProposalCommand)
      (after : List TemplatedProposalCommand) {b : Batch}
      → encode_commands L contracts addresses before ≡ ok b
      → lookup c.target contracts ≡ none
      → encode_commands L contracts addresses (before ++ c ∷ after)
        ≡ err (unknown_contract c.target)
  unfolding encode_commands encode_command
  encode_commands_missing [] c after e missing = ground arith
  encode_commands_missing (d ∷ before) c after {b} e missing =
      let (x, first, e') = >>=-eq-ok (encode_command L contracts addresses d) _ e in
      let (y, later, e'') = >>=-eq-ok (encode_commands L contracts addresses before) _ e' in
      rw (first, encode_commands_missing before c after later missing)

-- With the contracts loaded from a table in which no name stands twice: if a command of a proposal
-- targets an entry whose artifact is 'unknown', and all commands before it can be encoded, then the
-- simulation throws the error that names this target, and all that has changed on the network is
-- the ether forced to the multisig: nothing is scheduled, registered or executed.
pub simulate_unknown_artifact :
    (L : Libraries) (N : Network L.Contract) (get_contract_at : String → ℕ → L.Contract)
    (config : MainnetContractsConfig) (addresses : NamedAddresses)
    → distinct (keys config) ≡ true
    → let contracts = get_all_contracts get_contract_at config in
      (timelock : L.Contract) (multisig : ℕ) (info : TemplatedProposalDescription) (pod : PodConfig)
      (before : List TemplatedProposalCommand) (c : TemplatedProposalCommand)
      (after : List TemplatedProposalCommand) (b : Batch) (entry : ContractConfig) (s : N.State)
      → info.commands ≡ before ++ c ∷ after
      → encode_commands L contracts addresses before ≡ ok b
      → lookup c.target config ≡ some entry
      → has_artifact entry ≡ false
      → simulate_pod_proposal L N contracts addresses (some timelock) multisig info pod s
        ≡ (err (unknown_contract c.target), N.force_eth multisig s)
unfolding simulate_pod_proposal
simulate_unknown_artifact L N get_contract_at config addresses h timelock multisig info pod before c
      after b entry s commands e found unknown =
    let contracts = get_all_contracts get_contract_at config in
    let missing : lookup c.target contracts ≡ none =
      lookup-get_all_contracts get_contract_at c.target config h ∙ rw (found, unknown) in
    rw (commands, encode_commands_missing L contracts addresses before c after e missing)
