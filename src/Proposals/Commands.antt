-- ===== src/Proposals/Commands.antt =====
-- The commands of a proposal's description.
use fei_protocol_core.Prelude.{String, List}
use fei_protocol_core.Types.{NamedAddresses, Arg, template, TemplatedProposalCommand}

-- A command that sends no ether: its `values` are '0'.
abbrev pub command :
    String → String → (NamedAddresses → List Arg) → String → TemplatedProposalCommand
command target method arguments description = record {
  target = target;
  values = "0";
  method = method;
  arguments = template arguments;
  description = description;
}
