-- ===== src/Scripts/SimulateTimelock/Encode.antt =====
-- The loop of `simulatePodProposal` that turns the commands into a batch of calls.
use fei_protocol_core.Prelude.{ℕ, String, List, [], ◌∷◌, none, some, lookup, Result, ok, err, ◌>>=◌}
use fei_protocol_core.Types.{NamedAddresses, NamedContracts, TemplatedProposalCommand}
use fei_protocol_core.Scripts.Libraries.{Hex, Error, unknown_contract, unknown_address, Libraries}
use fei_protocol_core.Scripts.ConstructProposal.{generate_args}

-- the three arrays that the loop fills
pub record Batch : Type 0 where
  pub targets : List ℕ
  pub values : List String
  pub datas : List Hex

module _ (L : Libraries) (contracts : NamedContracts L.Contract) (addresses : NamedAddresses) where
  -- one round of the loop: the command's target and its encoded call
  unfoldable pub encode_command : TemplatedProposalCommand → Result Error (ℕ × Hex)
  unfolding lookup
  encode_command c = elim (lookup c.target contracts) [
    | none ↦ err (unknown_contract c.target)
    | some contract ↦ elim (lookup c.target addresses) [
      | none ↦ err (unknown_address c.target)
      | some target ↦ do
        args ← generate_args c.target addresses c.arguments
        encoded ← L.encode_function_data contract c.method args
        ok (target, encoded)
    ]
  ]

  unfoldable pub encode_commands : List TemplatedProposalCommand → Result Error Batch
  unfolding encode_command
  encode_commands [] = ok (record { targets = []; values = []; datas = [] })
  encode_commands (c ∷ commands) = do
    e ← encode_command c
    b ← encode_commands commands
    ok (record { targets = e.0 ∷ b.targets; values = c.values ∷ b.values; datas = e.1 ∷ b.datas })
