-- ===== src/Scripts/ConstructProposal.antt =====
-- scripts/utils/constructProposal.ts: a DAO proposal from the description's commands. The classes
-- that wrap the plugin's simulation are not modelled.
use fei_protocol_core.Prelude.{ℕ, String, List, [], ◌∷◌, lookup, Result, ok, err, ◌>>=◌}
use fei_protocol_core.Types.{
  NamedAddresses, NamedContracts, TemplatedProposalCommand, TemplatedProposalDescription, Arguments,
  template, direct, Arg,
}
use fei_protocol_core.Scripts.Libraries.{Libraries, AlphaProposal, Error, no_arguments_function}
use Prim.Native.String

abbrev pub max_actions : ℕ
max_actions = 50

abbrev pub empty_proposal : AlphaProposal
empty_proposal = record {
  targets = [];
  values = [];
  signatures = [];
  calldatas = [];
  description = "";
}

-- `typeof generateArgsFunc !== 'function'` throws, else the function is called.
abbrev pub generate_args : String → NamedAddresses → Arguments → Result Error (List Arg)
generate_args target addresses (template f) = ok (f addresses)
generate_args target addresses (direct args) = err (no_arguments_function target)

module _ (L : Libraries) (contracts : NamedContracts L.Contract) (addresses : NamedAddresses) where
  -- one round of the loop
  unfoldable pub add_command : TemplatedProposalCommand → AlphaProposal → Result Error AlphaProposal
  unfolding lookup
  add_command c p = do
    args ← generate_args c.target addresses c.arguments
    L.add_contract_action max_actions (lookup c.target contracts) c.method args c.values p

  unfoldable pub add_commands :
      List TemplatedProposalCommand → AlphaProposal → Result Error AlphaProposal
  unfolding add_command
  add_commands [] p = ok p
  add_commands (c ∷ commands) p = do q ← add_command c p; add_commands commands q

  unfoldable pub construct_proposal : TemplatedProposalDescription → Result Error AlphaProposal
  unfolding add_commands
  construct_proposal info = do
    p ← add_commands info.commands empty_proposal
    ok (L.set_description (String.◌++◌ info.title (String.◌++◌ "\n" info.description)) p)
