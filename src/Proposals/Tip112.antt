-- ===== src/Proposals/Tip112.antt =====
-- proposals/description/tip_112.ts
use fei_protocol_core.Prelude.{List, [], ◌∷◌}
use fei_protocol_core.Types.{named, TemplatedProposalCommand, TemplatedProposalDescription}
use fei_protocol_core.Proposals.Commands.{command}

unfoldable pub tip_112_commands : List TemplatedProposalCommand
unfolding named
tip_112_commands =
    command "pcvGuardianNew" "setSafeAddress(address)"
      (λ addresses. named addresses "fuseFixer" ∷ []) "Set FuseFixer as a safe address"
    ∷ []

unfoldable pub tip_112 : TemplatedProposalDescription
unfolding tip_112_commands
tip_112 = record {
  title = "Repay Fuse Bad Debt";
  commands = tip_112_commands;
  description =
      "  \n  TIP-112: Fuse Repayment\n\n  Summary: Whitelists the “Fuse Repayment Contract” as a safe PCV address for the Guardian to repay.\n  \n  Proposal:\n  \n  The community has signaled support for a PCV repayment of the Fuse exploit in a previous snapshot.\n  \n  This proposal provides some technical details and associated timelines.\n  \n  First, the strategy for repayment will be staged by asset.\n  \n  Repayment order will be assets currently in PCV first (RAI, DAI, FEI, ETH, LUSD), then external assets after associated conversions (USDC, USDT, FRAX). Both categories will be sorted by the smallest repayment amount first.\n  \n  For assets currently in PCV, the capital will be sourced from the most liquid deposit of that type.\n  \n  The proposal simply whitelists the repayment contract as a safe address for new PCV to be transferred in by the Guardian to repay. If any tokens remain in the contract after repayment, they can be withdrawn back into PCV.\n  \n  In terms of timelines, it would take 1-2 days to repay assets in PCV, and up to a week to source the non PCV assets from proposal execution.  \n  \n  Voting options are YES, whitelist the fuse repayment contract and begin immediate full repayment, and NO, do not whitelist the fuse repayment contract and begin immediate full repayment.";
}
