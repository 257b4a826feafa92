-- ===== src/Proposals/Tip115.antt =====
-- proposals/description/tip_115.ts
use fei_protocol_core.Prelude.{false, List, [], ◌∷◌}
use fei_protocol_core.Types.{
  text, named, flag, number, TemplatedProposalCommand, TemplatedProposalDescription,
}
use fei_protocol_core.Proposals.Commands.{command}

unfoldable pub tip_115_commands : List TemplatedProposalCommand
unfolding named
tip_115_commands =
    command "collateralizationOracle" "addDeposit(address)"
      (λ addresses. named addresses "rariTimelockFeiOldLens" ∷ [])
      "Add FEI lens to CR oracle for old timelocked FEI"
    ∷ command "collateralizationOracle" "addDeposit(address)"
        (λ addresses. named addresses "tribalCouncilTimelockFeiLens" ∷ [])
        "Add FEI lens to CR oracle for tribal council timelock FEI"
    ∷ command "collateralizationOracle" "removeDeposit(address)"
        (λ addresses. named addresses "namedStaticPCVDepositWrapper" ∷ [])
        "Remove NamedStaticPCVDepositWrapper from CR oracle"
    ∷ command "namedStaticPCVDepositWrapper" "removeDeposit(uint256)" (λ addresses. number 1 ∷ [])
        "Remove NamedStaticPCVDepositWrapper FEI deposit"
    ∷ command "namedStaticPCVDepositWrapper" "removeDeposit(uint256)" (λ addresses. number 0 ∷ [])
        "Remove NamedStaticPCVDepositWrapper INDEX deposit"
    ∷ command "rariInfraFeiTimelock" "acceptBeneficiary()" (λ addresses. [])
        "Accept beneficiary of rari infra fei timelock"
    ∷ command "rariInfraTribeTimelock" "acceptBeneficiary()" (λ addresses. [])
        "Accept beneficiary of rari infra tribe timelock"
    ∷ command "pcvGuardianNew" "withdrawToSafeAddress(address,address,uint256,bool,bool)"
        (λ addresses.
          named addresses "daiFixedPricePSM"
          ∷ named addresses "ethToDaiLBPSwapper"
          ∷ text "1000000000000000000000000"
          ∷ flag false
          ∷ flag false
          ∷ [])
        "Withdraw 1M DAI to LBP Swapper"
    ∷ command "pcvGuardianNew" "withdrawToSafeAddress(address,address,uint256,bool,bool)"
        (λ addresses.
          named addresses "ethPSM"
          ∷ named addresses "ethToDaiLBPSwapper"
          ∷ text "10000000000000000000000"
          ∷ flag false
          ∷ flag false
          ∷ [])
        "Withdraw 10k ETH to LBP Swapper"
    ∷ command "ethToDaiLBPSwapper" "swap()" (λ addresses. []) "Trigger new ETH LBP swap"
    ∷ command "core" "grantRole(bytes32,address)"
        (λ addresses.
          text "0x471cfe1a44bf1b786db7d7104d51e6728ed7b90a35394ad7cc424adf8ed16816"
          ∷ named addresses "tribalCouncilSafe"
          ∷ [])
        "Grant SWAP_ADMIN_ROLE to Tribal Council multisig"
    ∷ []

unfoldable pub tip_115 : TemplatedProposalDescription
unfolding tip_115_commands
tip_115 = record {
  title = "TIP-115: Collateralization and Operations Updates";
  commands = tip_115_commands;
  description =
      "Executes a few cleanup actions related to collateralization and operations:\n  1. Add a collateralization FEI lens to the FEI in the tribal council timelock and old rari timelocks\n  2. Accept beneficiary of the old rari timelocks to tribal council timelock.  \n  3. Remove deprecated namedStaticPCVDeposit from collateralization oracle. \n  4. Trigger new ETH LBP to convert 10k ETH to DAI.\n  5. Grant tribal council safe the SWAP_ADMIN_ROLE to initiate LBPs after governance funds them.\n  ";
}
