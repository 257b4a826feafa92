-- ===== src/Scripts/SimulateTimelock.antt =====
-- scripts/utils/simulateTimelockProposal.ts: a proposal of the tribal council's pod, scheduled and
-- executed on a fork of the network. A thrown error leaves the network as it is at that point.
pub mod Monad
mod Encode
pub mod Agreement
pub mod Runs
pub use Encode.{Batch}
unfoldable pub use Encode.{encode_command, encode_commands}
use fei_protocol_core.Prelude.{
  ℕ, String, Bool, true, false, not, ◌&&◌, ◌||◌, [], ◌∷◌, Option, lookup, Result,
}
use fei_protocol_core.Types.{NamedAddresses, NamedContracts, TemplatedProposalDescription}
use fei_protocol_core.Config.OptimisticGovernance.{tribal_council_pod_id}
use fei_protocol_core.Scripts.Libraries.{Hex, Error, type_error, Libraries}
use fei_protocol_core.Scripts.ProposalCalldata.{PodConfig, hash_zero}
use Monad.{Action, lift, gets, modify, try, when, or_throw, ◌>>=◌, ◌>>◌}

-- The forked network: Hardhat's helpers, and the methods of the timelock and of the metadata
-- registry, called by a signer. A call that reverts changes nothing.
pub record Network (C : Type 0) : Type 1 where
  pub State : Type 0
  pub force_eth : ℕ → State → State
  pub increase : ℕ → State → State
  pub get_min_delay : C → State → ℕ
  pub hash_operation_batch : C → Batch → Hex → Hex → Hex
  pub is_operation : C → Hex → State → Bool
  pub is_operation_ready : C → Hex → State → Bool
  pub is_operation_done : C → Hex → State → Bool
  pub schedule_batch : C → ℕ → Batch → Hex → Hex → ℕ → State → Result Error State
  pub execute_batch : C → ℕ → Batch → Hex → Hex → State → Result Error State
  pub register_proposal : C → ℕ → ℕ → Hex → String → State → Result Error State

-- `!text`
abbrev pub is_empty : Hex → Bool
is_empty [] = true
is_empty (c ∷ s) = false

module _ (L : Libraries) (N : Network L.Contract) (contracts : NamedContracts L.Contract)
    (addresses : NamedAddresses) where
  -- Schedules the operation and registers its metadata.
  unfoldable pub schedule_proposal :
      L.Contract → ℕ → Batch → Hex → Hex → Hex → ℕ → PodConfig → String → Action N.State (Unit {0})
  unfolding lookup
  schedule_proposal timelock signer b salt predecessor id delay pod description = do
    try (N.schedule_batch timelock signer b predecessor salt delay)
    registry ← or_throw (lookup "governanceMetadataRegistry" contracts) type_error
    try (N.register_proposal registry signer pod.id id description)

  unfoldable pub simulate_pod_proposal :
      Option L.Contract → ℕ → TemplatedProposalDescription → PodConfig → Action N.State (Unit {0})
  unfolding encode_commands schedule_proposal
  simulate_pod_proposal timelock multisig info pod = do
    modify (N.force_eth multisig)
    let salt = L.id info.title
    let predecessor = hash_zero
    t ← or_throw timelock type_error
    delay ← gets (N.get_min_delay t)
    b ← lift (encode_commands L contracts addresses info.commands)
    let id = N.hash_operation_batch t b predecessor salt
    unknown ← gets (λ s. is_empty id || not (N.is_operation t id s))
    when unknown (schedule_proposal t multisig b salt predecessor id delay pod info.description)
    modify (N.increase delay)
    due ← gets (λ s. N.is_operation_ready t id s && not (N.is_operation_done t id s))
    when due (try (N.execute_batch t multisig b predecessor salt))

  -- `forceEth(undefined)` throws.
  unfoldable pub simulate_tc_proposal : TemplatedProposalDescription → Action N.State (Unit {0})
  unfolding simulate_pod_proposal lookup
  simulate_tc_proposal info = do
    multisig ← or_throw (lookup "tribalCouncilSafe" addresses) type_error
    simulate_pod_proposal (lookup "tribalCouncilTimelock" contracts) multisig info (record {
      id = tribal_council_pod_id;
      timelock_address = lookup "tribalCouncilTimelock" addresses;
    })
