-- ===== src/Proposals/Tip117.antt =====
-- proposals/description/tip_117.ts
pub mod Roles
use fei_protocol_core.Prelude.{List, [], ◌∷◌, ◌++◌}
use fei_protocol_core.Types.{
  id_of, text, named, named_list, TemplatedProposalCommand, TemplatedProposalDescription,
}
use fei_protocol_core.Proposals.Commands.{command}

unfoldable pub first_revocations : List TemplatedProposalCommand
unfolding named
first_revocations =
    command "core" "revokeRole(bytes32,address)"
      (λ addresses. id_of "MINTER_ROLE" ∷ named addresses "collateralizationOracleKeeper" ∷ [])
      "Revoke MINTER_ROLE from collateralizationOracleKeeper (no more cache updates)"
    ∷ command "core" "revokeRole(bytes32,address)"
        (λ addresses. id_of "MINTER_ROLE" ∷ named addresses "dpiUniswapPCVDeposit" ∷ [])
        "Revoke MINTER_ROLE from dpiUniswapPCVDeposit (empty deposit)"
    ∷ command "core" "revokeRole(bytes32,address)"
        (λ addresses. id_of "MINTER_ROLE" ∷ named addresses "uniswapPCVDeposit" ∷ [])
        "Revoke MINTER_ROLE from uniswapPCVDeposit (empty deposit)"
    ∷ command "core" "revokeRole(bytes32,address)"
        (λ addresses. id_of "MINTER_ROLE" ∷ named addresses "balancerDepositFeiWeth" ∷ [])
        "Revoke MINTER_ROLE from balancerDepositFeiWeth (empty deposit)"
    ∷ command "core" "revokeRole(bytes32,address)"
        (λ addresses. id_of "MINTER_ROLE" ∷ named addresses "optimisticMinter" ∷ [])
        "Revoke MINTER_ROLE from optimisticMinter (fip-96 deprecates OA timelock)"
    ∷ command "core" "revokeRole(bytes32,address)"
        (λ addresses. id_of "PCV_CONTROLLER_ROLE" ∷ named addresses "raiPCVDripController" ∷ [])
        "Revoke PCV_CONTROLLER_ROLE from raiPCVDripController (RAI deposits are empty)"
    ∷ command "core" "revokeRole(bytes32,address)"
        (λ addresses. id_of "PCV_CONTROLLER_ROLE" ∷ named addresses "lusdPCVDripController" ∷ [])
        "Revoke PCV_CONTROLLER_ROLE from lusdPCVDripController (BAMMDeposit is deprecated)"
    ∷ []

unfoldable pub withdrawals_and_roles : List TemplatedProposalCommand
unfolding named
withdrawals_and_roles =
    command "bammDeposit" "pause()" (λ addresses. [])
      "Prevent surplus allocation from LUSD PSM to this deprecated deposit"
    ∷ command "ratioPCVControllerV2" "withdrawRatio(address,address,uint256)"
        (λ addresses.
          named addresses "aaveEthPCVDeposit" ∷ named addresses "ethPSM" ∷ text "10000" ∷ [])
        "Withdraw all ETH in Aave to the ETH PSM"
    ∷ command "core" "revokeRole(bytes32,address)"
        (λ addresses. id_of "PCV_CONTROLLER_ROLE" ∷ named addresses "aaveEthPCVDripController" ∷ [])
        "Revoke PCV_CONTROLLER_ROLE from aaveEthPCVDripController (Aave deposit is deprecated)"
    ∷ command "aaveEthPCVDeposit" "pause()" (λ addresses. [])
        "Prevent surplus allocation from ETH PSM to this deprecated deposit"
    ∷ command "core" "revokeRole(bytes32,address)"
        (λ addresses.
          id_of "ORACLE_ADMIN_ROLE" ∷ named addresses "collateralizationOracleGuardian" ∷ [])
        "Revoke ORACLE_ADMIN_ROLE from collateralizationOracleGuardian (no more guardian updates of cached CR Oracle)"
    ∷ command "core" "revokeRole(bytes32,address)"
        (λ addresses. id_of "ORACLE_ADMIN_ROLE" ∷ named addresses "optimisticTimelock" ∷ [])
        "Revoke ORACLE_ADMIN_ROLE from optimisticTimelock (OA is deprecated)"
    ∷ command "core" "revokeRole(bytes32,address)"
        (λ addresses. id_of "SWAP_ADMIN_ROLE" ∷ named addresses "optimisticTimelock" ∷ [])
        "Revoke SWAP_ADMIN_ROLE from optimisticTimelock (OA is deprecated)"
    ∷ command "core" "revokeRole(bytes32,address)"
        (λ addresses. id_of "FUSE_ADMIN" ∷ named addresses "optimisticTimelock" ∷ [])
        "Revoke FUSE_ADMIN from optimisticTimelock (OA is deprecated)"
    ∷ command "core" "revokeRole(bytes32,address)"
        (λ addresses. id_of "PCV_GUARDIAN_ADMIN_ROLE" ∷ named addresses "optimisticTimelock" ∷ [])
        "Revoke PCV_GUARDIAN_ADMIN_ROLE from optimisticTimelock (OA is deprecated)"
    ∷ command "core" "revokeRole(bytes32,address)"
        (λ addresses.
          id_of "METAGOVERNANCE_GAUGE_ADMIN" ∷ named addresses "optimisticTimelock" ∷ [])
        "Revoke METAGOVERNANCE_GAUGE_ADMIN from optimisticTimelock (OA is deprecated)"
    ∷ command "core" "revokeRole(bytes32,address)"
        (λ addresses. id_of "PCV_MINOR_PARAM_ROLE" ∷ named addresses "optimisticTimelock" ∷ [])
        "Revoke PCV_MINOR_PARAM_ROLE from optimisticTimelock (OA is deprecated)"
    ∷ command "core" "revokeRole(bytes32,address)"
        (λ addresses.
          id_of "TOKEMAK_DEPOSIT_ADMIN_ROLE" ∷ named addresses "optimisticTimelock" ∷ [])
        "Revoke TOKEMAK_DEPOSIT_ADMIN_ROLE from optimisticTimelock (OA is deprecated)"
    ∷ command "tribeReserveStabilizer" "setCollateralizationOracle(address)"
        (λ addresses. named addresses "collateralizationOracle" ∷ [])
        "Set CR Oracle in Tribe Reserve Stabilizer (backstop) to the uncached CR Oracle"
    ∷ command "pcvEquityMinter" "setCollateralizationOracle(address)"
        (λ addresses. named addresses "collateralizationOracle" ∷ [])
        "Set CR Oracle in PCV Equity Minter (buybacks) to the uncached CR Oracle"
    ∷ command "collateralizationOracle" "setOracle(address,address)"
        (λ addresses. named addresses "volt" ∷ named addresses "voltOracle" ∷ [])
        "Replace VOLT oracle in CR oracle"
    ∷ []

unfoldable pub reward_withdrawals : List TemplatedProposalCommand
unfolding named
reward_withdrawals =
    command "ratioPCVControllerV2" "withdrawRatio(address,address,uint256)"
      (λ addresses.
        named addresses "uniswapPCVDeposit" ∷ named addresses "ethPSM" ∷ text "10000" ∷ [])
      "Withdraw remaining ETH/FEI liquidity from Uniswap v2"
    ∷ command "ratioPCVControllerV2" "withdrawRatioERC20(address,address,address,uint256)"
        (λ addresses.
          named addresses "ethTokemakPCVDeposit"
          ∷ named addresses "toke"
          ∷ named addresses "tribalCouncilSafe"
          ∷ text "10000"
          ∷ [])
        "Withdraw all TOKE from Tokemak ETH deposit to TC Multisig where it can be sold"
    ∷ command "d3poolCurvePCVDeposit" "exitPool()" (λ addresses. []) "Exit d3pool position"
    ∷ command "ratioPCVControllerV2" "withdrawRatioERC20(address,address,address,uint256)"
        (λ addresses.
          named addresses "d3poolCurvePCVDeposit"
          ∷ named addresses "fei"
          ∷ named addresses "daiFixedPricePSM"
          ∷ text "10000"
          ∷ [])
        "Withdraw all FEI on d3 deposit to DAI PSM where it can be burnt"
    ∷ command "ratioPCVControllerV2" "withdrawRatioERC20(address,address,address,uint256)"
        (λ addresses.
          named addresses "d3poolCurvePCVDeposit"
          ∷ named addresses "frax"
          ∷ named addresses "tribalCouncilSafe"
          ∷ text "10000"
          ∷ [])
        "Withdraw all FRAX on d3 deposit to TC Multisig where it can be sold"
    ∷ command "ratioPCVControllerV2" "withdrawRatioERC20(address,address,address,uint256)"
        (λ addresses.
          named addresses "d3poolCurvePCVDeposit"
          ∷ named addresses "alusd"
          ∷ named addresses "tribalCouncilSafe"
          ∷ text "10000"
          ∷ [])
        "Withdraw all alUSD on d3 deposit to TC Multisig where it can be sold"
    ∷ command "ratioPCVControllerV2" "withdrawRatioERC20(address,address,address,uint256)"
        (λ addresses.
          named addresses "compoundEthPCVDeposit"
          ∷ named addresses "comp"
          ∷ named addresses "tribalCouncilSafe"
          ∷ text "10000"
          ∷ [])
        "Withdraw all COMP from Compound ETH deposit to TC Multisig where it can be sold"
    ∷ command "ratioPCVControllerV2" "withdrawRatioERC20(address,address,address,uint256)"
        (λ addresses.
          named addresses "compoundDaiPCVDeposit"
          ∷ named addresses "comp"
          ∷ named addresses "tribalCouncilSafe"
          ∷ text "10000"
          ∷ [])
        "Withdraw all COMP from Compound DAI deposit to TC Multisig where it can be sold"
    ∷ command "ratioPCVControllerV2" "withdrawRatioERC20(address,address,address,uint256)"
        (λ addresses.
          named addresses "aaveEthPCVDeposit"
          ∷ named addresses "stAAVE"
          ∷ named addresses "tribalCouncilSafe"
          ∷ text "10000"
          ∷ [])
        "Withdraw all stkAAVE from Aave ETH deposit to TC Multisig where it can be sold"
    ∷ command "ratioPCVControllerV2" "withdrawRatioERC20(address,address,address,uint256)"
        (λ addresses.
          named addresses "d3poolConvexPCVDeposit"
          ∷ named addresses "crv"
          ∷ named addresses "tribalCouncilSafe"
          ∷ text "10000"
          ∷ [])
        "Withdraw all CRV from Convex deposit to TC Multisig where it can be sold"
    ∷ command "ratioPCVControllerV2" "withdrawRatioERC20(address,address,address,uint256)"
        (λ addresses.
          named addresses "d3poolConvexPCVDeposit"
          ∷ named addresses "cvx"
          ∷ named addresses "tribalCouncilSafe"
          ∷ text "10000"
          ∷ [])
        "Withdraw all CVX from Convex deposit to TC Multisig where it can be sold"
    ∷ command "ratioPCVControllerV2" "withdrawRatioERC20(address,address,address,uint256)"
        (λ addresses.
          named addresses "bammDeposit"
          ∷ named addresses "lqty"
          ∷ named addresses "tribalCouncilTimelock"
          ∷ text "10000"
          ∷ [])
        "Withdraw all LQTY from B.AMM deposit to TC Timelock"
    ∷ command "ratioPCVControllerV2" "withdrawRatioERC20(address,address,address,uint256)"
        (λ addresses.
          named addresses "raiPriceBoundPSM"
          ∷ named addresses "rai"
          ∷ named addresses "tribalCouncilSafe"
          ∷ text "10000"
          ∷ [])
        "Withdraw all RAI from PSM to TC Multisig where it can be sold"
    ∷ command "ratioPCVControllerV2" "withdrawRatioERC20(address,address,address,uint256)"
        (λ addresses.
          named addresses "raiPriceBoundPSM"
          ∷ named addresses "fei"
          ∷ named addresses "daiFixedPricePSM"
          ∷ text "10000"
          ∷ [])
        "Withdraw all FEI from PSM to DAI PSM where it can be burnt"
    ∷ []

unfoldable pub removals_and_last_revocations : List TemplatedProposalCommand
unfolding named named_list
removals_and_last_revocations =
    command "collateralizationOracle" "removeDeposits(address[])"
      (λ addresses.
        named_list addresses (
          "dpiToDaiLensDai" ∷ "dpiToDaiLensDpi" ∷ "bammDeposit" ∷ "rariPool7LusdPCVDeposit"
          ∷ "rariPool6FeiPCVDepositWrapper" ∷ "rariPool19FeiPCVDepositWrapper"
          ∷ "rariPool24FeiPCVDepositWrapper" ∷ "agEurDepositWrapper" ∷ "wethDepositWrapper"
          ∷ "d3poolConvexPCVDeposit" ∷ "d3poolCurvePCVDeposit" ∷ "uniswapPCVDeposit"
          ∷ "compoundEthPCVDepositWrapper" ∷ "raiPriceBoundPSM" ∷ "balancerDepositFeiWeth"
          ∷ "balancerLensBpt30Fei70Weth" ∷ "ethTokemakPCVDeposit" ∷ [])
        ∷ [])
      "Remove deprecated/empty deposits from CR oracle"
    ∷ command "pcvGuardian" "unsetSafeAddresses(address[])"
        (λ addresses.
          named_list addresses (
            "raiPriceBoundPSM" ∷ "aaveRaiPCVDeposit" ∷ "rariPool9RaiPCVDeposit"
            ∷ "balancerDepositFeiWeth" ∷ "d3poolConvexPCVDeposit" ∷ "d3poolCurvePCVDeposit"
            ∷ "compoundEthPCVDeposit" ∷ [])
          ∷ [])
        "Remove deprecated deposits from safe address list"
    ∷ command "core" "revokeRole(bytes32,address)"
        (λ addresses.
          id_of "METAGOVERNANCE_VOTE_ADMIN" ∷ named addresses "opsOptimisticTimelock" ∷ [])
        "Revoke METAGOVERNANCE_VOTE_ADMIN role from the Ops Optimistic Timelock"
    ∷ command "core" "revokeRole(bytes32,address)"
        (λ addresses.
          id_of "METAGOVERNANCE_TOKEN_STAKING" ∷ named addresses "opsOptimisticTimelock" ∷ [])
        "Revoke METAGOVERNANCE_TOKEN_STAKING role from the Ops Optimistic Timelock"
    ∷ command "core" "revokeRole(bytes32,address)"
        (λ addresses. id_of "ORACLE_ADMIN_ROLE" ∷ named addresses "opsOptimisticTimelock" ∷ [])
        "Revoke ORACLE_ADMIN_ROLE role from the Ops Optimistic Timelock"
    ∷ []

unfoldable pub tip_117 : TemplatedProposalDescription
unfolding first_revocations withdrawals_and_roles reward_withdrawals removals_and_last_revocations
tip_117 = record {
  title = "TIP-117: Oracles, Roles, and OA Cleanup";
  commands =
      first_revocations ++ withdrawals_and_roles ++ reward_withdrawals
      ++ removals_and_last_revocations;
  description =
      "TIP-117: Oracles, Roles, and OA Cleanup\n\n  This proposal performs various technical maintenance, cleanup and deprecation tasks. It also completes tasks from \n  TIP-110 (https://tribe.fei.money/t/tip-110-simplify-pcv/4323) and deprecates the optimistic approval and ops timelocks, which as of\n  FIP-82: Governance Enhancements (https://tribe.fei.money/t/fip-82-governance-enhancements/3945) are no longer required.\n\n  Specifically, it:\n1. Deprecates old collaterization oracle caching Features :\n    - collateralizationOracle is now read directly by pcvEquityMinter (buybacks) and tribeReserveStabilizer (backstop)\n    - collateralizationOracleWrapper and collateralizationOracleWrapperImpl are no longer used anywhere in the system\n    - collateralizationOracleGuardian (used to update the cache) is no longer used (revoked ORACLE_ADMIN_ROLE role)\n    - collateralizationOracleKeeper (used to incentivize updates of the cache) is no longer used (revoked MINTER_ROLE role)\n\n2. Removes empty or deprecated PCV deposits from the collaterization oracle:\n    - DPI->DAI LBP swapper lenses\n    - B.AMM LUSD Deposit (deprecated, would need to redeploy to use the new B.AMM)\n    - Fuse pool 7 (Tetranode) LUSD deposit (0$ left)\n    - Fuse pool 6, 19, and 24 FEI deposit (114$, 0$, and 6k$ left)\n    - DAO Timelock lenses for agEUR and WETH\n    - Curve/Convex d3 deposits (0$ left)\n    - Withdraw remaining ETH/FEI liquidity from Uniswap v2 (0$ left)\n    - Aave/Compound FEI/ETH deposits (0$ left)\n    - Balancer FEI/WETH deposit (0$ left)\n\n3. Unsets deprecated contracts from the safe addresses list, so funds can no longer be transferred to these deprecated\n   contracts by the PCV Guardian\n\n4. Implements components of TIP-110 Simplify PCV (https://tribe.fei.money/t/tip-110-simplify-pcv/4323):\n - Move LM rewards (COMP, stkAAVE, CRV, CVX) to the TC Multisig where they can be sold.\n - Move leftover RAI that is in PSM to the TC Multisig where it can be sold.\n - Move LQTY to TC Timelock where it can be moved to a proper PCVDeposit later.\n\n5. Deprecates the optimistic approval timelock by removing its various access roles. \n   This is cleanup from FIP-82: Governance Enhancements (https://tribe.fei.money/t/fip-82-governance-enhancements/3945),\n   the optimistic approval timelock is no longer required.\n\n   The following roles are removed:\n      - ORACLE_ADMIN ROLE\n      - SWAP_ADMIN_ROLE\n      - FUSE_ADMIN\n      - PCV_GUARDIAN_ADMIN_ROLE\n      - METAGOVERNANCE_GAUGE_ADMIN\n      - PCV_MINOR_PARAM_ROLE\n      - TOKEMAK_DEPOSIT_ADMIN_ROLE\n\n 6. Deprecates the ops optimistic timelock, which as of FIP-82: Governance Enhancements (https://tribe.fei.money/t/fip-82-governance-enhancements/3945), \n    is no longer required. The following roles are removed:\n      - METAGOVERNANCE_TOKEN_STAKING\n      - METAGOVERNANCE_VOTE_ADMIN\n      - METAGOVERNANCE_TOKEN_STAKING\n";
}
