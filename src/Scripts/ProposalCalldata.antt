-- ===== src/Scripts/ProposalCalldata.antt =====
-- scripts/utils/constructProposalCalldata.ts: the calldata to submit a proposal with.
pub mod Payloads
use fei_protocol_core.Prelude.{
  ℕ, String, Bool, true, false, List, [], ◌∷◌, ◌++◌, Option, none, some, lookup, Result, ok, err,
  ◌>>=◌, if◌then◌else◌,
}
use fei_protocol_core.Types.{
  NamedAddresses, NamedContracts, TemplatedProposalDescription, TemplatedProposalsConfigMap,
  ProposalCategory, tc,
}
use fei_protocol_core.Config.OptimisticGovernance.{tribal_council_pod_id}
use fei_protocol_core.Scripts.Libraries.{
  Hex, codes, take, drop, Error, type_error, AlphaProposal, Libraries,
}
use fei_protocol_core.Scripts.ConstructProposal.{construct_proposal}

pub record PodConfig : Type 0 where
  pub id : ℕ
  -- `undefined` where the addresses lack the timelock
  pub timelock_address : Option ℕ

-- `ethers.constants.HashZero`
abbrev pub hash_zero : Hex
hash_zero = codes "0x0000000000000000000000000000000000000000000000000000000000000000"

abbrev is_tc : ProposalCategory → Bool
is_tc tc = true
is_tc _ = false

module _ (L : Libraries) where
  -- `${sighash}${calldata.slice(2)}`
  unfoldable pub combine : String → Hex → Hex
  combine signature calldata = take 10 (L.id signature) ++ drop 2 calldata

  -- The loop over the targets; reading past the end of another list gives `undefined`, on which the
  -- calls throw.
  unfoldable pub combined_calldatas : List ℕ → List String → List Hex → Result Error (List Hex)
  unfolding combine
  combined_calldatas [] signatures calldatas = ok []
  combined_calldatas (t ∷ targets) (s ∷ signatures) (c ∷ calldatas) = do
    rest ← combined_calldatas targets signatures calldatas
    ok (combine s c ∷ rest)
  combined_calldatas (t ∷ targets) _ _ = err type_error

  unfoldable pub get_dao_calldata : AlphaProposal → Result Error Hex
  unfolding combined_calldatas
  get_dao_calldata p = do
    combined ← combined_calldatas p.targets p.signatures p.calldatas
    ok (L.encode_propose p.targets p.values combined p.description)

  unfoldable pub compute_batch_proposal_id : List ℕ → List ℕ → List Hex → Hex → Hex → Hex
  compute_batch_proposal_id targets values payloads predecessor salt =
      L.keccak256 (L.encode_operation targets values payloads predecessor salt)

  -- the four texts that `getPodCalldata` prints
  pub record PodCalldata : Type 0 where
    pub schedule : Hex
    pub register_metadata : Hex
    pub execute : Hex
    pub pod_execute : Hex

  encode_pod_execute : Option ℕ → AlphaProposal → List Hex → Hex → Hex → Result Error Hex
  encode_pod_execute none p combined predecessor salt = err type_error
  encode_pod_execute (some timelock) p combined predecessor salt =
      ok (L.encode_pod_execute_batch timelock p.targets p.values combined predecessor salt)

  unfoldable pub get_pod_calldata :
      AlphaProposal → TemplatedProposalDescription → PodConfig → Result Error PodCalldata
  unfolding combined_calldatas compute_batch_proposal_id encode_pod_execute
  get_pod_calldata p info pod = do
    combined ← combined_calldatas p.targets p.signatures p.calldatas
    let salt = L.id info.title
    let proposal_id = compute_batch_proposal_id p.targets p.values combined hash_zero salt
    pod_execute ← encode_pod_execute pod.timelock_address p combined hash_zero salt
    ok (record {
      schedule = L.encode_schedule_batch p.targets p.values combined hash_zero salt 345600;
      register_metadata = L.encode_register_proposal pod.id proposal_id info.description;
      execute = L.encode_execute_batch p.targets p.values combined hash_zero salt;
      pod_execute = pod_execute;
    })

  -- the one text that is returned
  unfoldable pub pod_calldata_text : PodCalldata → Hex
  pod_calldata_text t =
      codes "Calldata: "
      ++ (t.schedule
          ++ (codes "\nMetadata Calldata: "
              ++ (t.register_metadata
                  ++ (codes "\nExecute Calldata: "
                      ++ (t.execute ++ (codes "\nPod Executor Calldata: " ++ t.pod_execute))))))

  -- `constructProposalCalldata`; the description and the dictionaries are what the imports give.
  unfoldable pub construct_proposal_calldata :
      TemplatedProposalsConfigMap
      → NamedContracts L.Contract
      → NamedAddresses
      → String
      → TemplatedProposalDescription
      → Result Error Hex
  unfolding construct_proposal get_pod_calldata get_dao_calldata pod_calldata_text lookup
  construct_proposal_calldata proposals contracts addresses name info = do
    p ← construct_proposal L contracts addresses info
    elim (lookup name proposals) [
      | none ↦ err type_error
      | some config ↦
          if is_tc config.category
          then (do
            t ← get_pod_calldata p info (record {
              id = tribal_council_pod_id;
              timelock_address = lookup "tribalCouncilTimelock" addresses;
            })
            ok (pod_calldata_text t))
          else get_dao_calldata p
    ]
