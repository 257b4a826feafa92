-- ===== src/Scripts/SimulateTimelock/Agreement.antt =====
-- The operation that is simulated against the calldata that is printed.
use mathlib.Core.List.{append_assoc, append-nil}
use fei_protocol_core.Prelude.{
  ℕ, String, ◌≡◌, refl, ap, ◌∙◌, List, [], ◌∷◌, ◌++◌, map, some, inl, inr, arith, lookup,
  Option-cases, ok, >>=-eq-ok,
}
use fei_protocol_core.Types.{
  NamedAddresses, NamedContracts, TemplatedProposalCommand, TemplatedProposalDescription, Arg,
}
use fei_protocol_core.Scripts.Libraries.{Hex, codes, AlphaProposal, Libraries, AreConsistent}
use fei_protocol_core.Scripts.ConstructProposal.{
  max_actions, empty_proposal, generate_args, add_command, add_commands, construct_proposal,
}
use fei_protocol_core.Scripts.ProposalCalldata.{
  combine, combined_calldatas, get_pod_calldata, hash_zero, PodCalldata,
}
use fei_protocol_core.Scripts.SimulateTimelock.{Batch, Network, encode_command, encode_commands}

-- The actions with which a proposal `q` extends `p`, and the batch with the same targets, values and
-- calls.
record Extends (L : Libraries) (K : AreConsistent L) (p q : AlphaProposal) (b : Batch)
    : Type 0 where
  signatures : List String
  calldatas : List Hex
  targets_eq : q.targets ≡ p.targets ++ b.targets
  values_eq : q.values ≡ p.values ++ map K.number b.values
  signatures_eq : q.signatures ≡ p.signatures ++ signatures
  calldatas_eq : q.calldatas ≡ p.calldatas ++ calldatas
  combined : combined_calldatas L b.targets signatures calldatas ≡ ok b.datas

module _ (L : Libraries) (K : AreConsistent L) (contracts : NamedContracts L.Contract)
    (addresses : NamedAddresses)
    (loaded : (name : String) (c : L.Contract)
      → lookup name contracts ≡ some c
      → lookup name addresses ≡ some (K.address c)) where
  record Adds (c : TemplatedProposalCommand) (p q : AlphaProposal) : Type 0 where
    contract : L.Contract
    args : List Arg
    found : lookup c.target contracts ≡ some contract
    generated : generate_args c.target addresses c.arguments ≡ ok args
    added : L.add_contract_action max_actions (some contract) c.method args c.values p ≡ ok q

  add_command-Adds :
      (c : TemplatedProposalCommand) (p q : AlphaProposal)
      → add_command L contracts addresses c p ≡ ok q
      → Adds c p q
  unfolding add_command
  add_command-Adds c p q e =
      let (args, generated, e') =
        >>=-eq-ok (generate_args c.target addresses c.arguments)
          (λ args.
            L.add_contract_action max_actions (lookup c.target contracts) c.method args c.values p)
          e in
      elim (Option-cases (lookup c.target contracts)) [
        | inl missing ↦
            let throws = K.needs_contract max_actions c.method args c.values p in
            absurd (ground arith)
        | inr (contract, found) ↦ record {
          contract = contract;
          args = args;
          found = found;
          generated = generated;
          added = rw found at e';
        }
      ]

  encode_command_of_Adds :
      (c : TemplatedProposalCommand) (p q : AlphaProposal) (a : Adds c p q)
      → encode_command L contracts addresses c
        ≡ ok (
          K.address a.contract,
          combine L
              (K.signature a.contract c.method)
              (codes "0x" ++ K.encode_args a.contract c.method a.args),
        )
  unfolding encode_command combine
  encode_command_of_Adds c p q a = ground (
    arith,
    a.found,
    loaded c.target a.contract a.found,
    a.generated,
    K.encodes max_actions a.contract c.method a.args c.values p q a.added,
  )

  Extends-cons :
      (c : TemplatedProposalCommand) (p r q : AlphaProposal) (b : Batch) (a : Adds c p r)
      → Extends L K r q b
      → Extends L K p q (record {
        targets = K.address a.contract ∷ b.targets;
        values = c.values ∷ b.values;
        datas =
            combine L
              (K.signature a.contract c.method)
              (codes "0x" ++ K.encode_args a.contract c.method a.args)
            ∷ b.datas;
      })
  unfolding combined_calldatas
  Extends-cons c p r q b a x =
      let same = K.adds_action max_actions a.contract c.method a.args c.values p r a.added in
      record {
        signatures = K.signature a.contract c.method ∷ x.signatures;
        calldatas = (codes "0x" ++ K.encode_args a.contract c.method a.args) ∷ x.calldatas;
        targets_eq = x.targets_eq ∙ rw (same, append_assoc);
        values_eq = x.values_eq ∙ rw (same, append_assoc);
        signatures_eq = x.signatures_eq ∙ rw (same, append_assoc);
        calldatas_eq = x.calldatas_eq ∙ rw (same, append_assoc);
        combined = rw x.combined;
      }

  add_commands-Extends :
      (commands : List TemplatedProposalCommand) (p q : AlphaProposal)
      → add_commands L contracts addresses commands p ≡ ok q
      → (b : Batch) × (encode_commands L contracts addresses commands ≡ ok b) × Extends L K p q b
  unfolding add_commands encode_commands combined_calldatas
  add_commands-Extends [] p q e =
      let same : p ≡ q = cc in
      (
        _,
        refl,
        record {
          signatures = [];
          calldatas = [];
          targets_eq = rw (← same, append-nil);
          values_eq = rw (← same, append-nil);
          signatures_eq = rw (← same, append-nil);
          calldatas_eq = rw (← same, append-nil);
          combined = refl;
        },
      )
  add_commands-Extends (c ∷ commands) p q e =
      let (r, first, e') =
        >>=-eq-ok (add_command L contracts addresses c p)
          (add_commands L contracts addresses commands) e in
      let a = add_command-Adds c p r first in
      let (b, later, x) = add_commands-Extends commands r q e' in
      (_, rw (encode_command_of_Adds c p r a, later), Extends-cons c p r q b a x)

  construct_proposal-encode_commands :
      (info : TemplatedProposalDescription) (p : AlphaProposal)
      → construct_proposal L contracts addresses info ≡ ok p
      → (b : Batch) × (encode_commands L contracts addresses info.commands ≡ ok b)
        × (p.targets ≡ b.targets)
        × (p.values ≡ map K.number b.values)
        × (combined_calldatas L p.targets p.signatures p.calldatas ≡ ok b.datas)
  unfolding construct_proposal
  construct_proposal-encode_commands info p e =
      let (q, added, e') =
        >>=-eq-ok (add_commands L contracts addresses info.commands empty_proposal) _ e in
      let (b, encoded, x) = add_commands-Extends info.commands empty_proposal q added in
      let described : p ≡ record q { description = p.description } = cc (K.describes _ q) in
      (
        b,
        encoded,
        ap (λ r. r.targets) described ∙ x.targets_eq,
        ap (λ r. r.values) described ∙ x.values_eq,
        cc (
          ap (λ r. r.targets) described ∙ x.targets_eq,
          ap (λ r. r.signatures) described ∙ x.signatures_eq,
          ap (λ r. r.calldatas) described ∙ x.calldatas_eq,
          x.combined,
        ),
      )

  -- The four texts for a batch, as the simulation schedules, registers and executes it.
  abbrev pub calldata_of :
      Network L.Contract → L.Contract → TemplatedProposalDescription → ℕ → ℕ → Batch → PodCalldata L
  calldata_of N timelock info id address b =
      let salt = L.id info.title in
      let values = map K.number b.values in
      record {
        schedule = L.encode_schedule_batch b.targets values b.datas hash_zero salt 345600;
        register_metadata =
            L.encode_register_proposal id (N.hash_operation_batch timelock b hash_zero salt)
              info.description;
        execute = L.encode_execute_batch b.targets values b.datas hash_zero salt;
        pod_execute = L.encode_pod_execute_batch address b.targets values b.datas hash_zero salt;
      }

  -- Where the loaded addresses are those of the loaded contracts, the proposals plugin and ethers.js
  -- behave as documented, and the timelock hashes an operation as OpenZeppelin's contract does: if a
  -- proposal can be constructed from a description, then the batch that the simulation makes of the same
  -- description exists, and the four printed texts are the calldata that schedules that batch with a
  -- delay of 345600 seconds, that registers its metadata under the identifier that the timelock
  -- computes for it, and that executes it, directly and by the pod's executor, each with the same
  -- predecessor and salt.
  pub get_pod_calldata_of_simulated :
      (N : Network L.Contract) (timelock : L.Contract)
      → ((b : Batch) (predecessor salt : Hex)
          → N.hash_operation_batch timelock b predecessor salt
            ≡ L.keccak256
                (L.encode_operation b.targets (map K.number b.values) b.datas predecessor salt))
      → (info : TemplatedProposalDescription) (p : AlphaProposal) (id address : ℕ)
      → construct_proposal L contracts addresses info ≡ ok p
      → (b : Batch) × (encode_commands L contracts addresses info.commands ≡ ok b)
        × (get_pod_calldata L p info (record { id = id; timelock_address = some address })
            ≡ ok (calldata_of N timelock info id address b))
  unfolding get_pod_calldata
  get_pod_calldata_of_simulated N timelock hashes info p id address e =
      let (b, encoded, same_targets, same_values, combined) =
        construct_proposal-encode_commands info p e in
      (b, encoded, rw (combined, same_targets, same_values, hashes))
