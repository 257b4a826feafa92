-- ===== src/Config/CollateralizationOracle.antt =====
-- protocol-configuration/collateralizationOracle.ts: the deposits that the oracle counts, by token.
use fei_protocol_core.Prelude.{String, List, [], ◌∷◌, Dict}

unfoldable pub collateralization_addresses : Dict (List String)
collateralization_addresses =
    (
      "fei",
      "feiOATimelockWrapper" ∷ "aaveFeiPCVDepositWrapper" ∷ "rariPool79FeiPCVDepositWrapper"
          ∷ "rariPool128FeiPCVDepositWrapper" ∷ "rariPool22FeiPCVDepositWrapper"
          ∷ "feiBuybackLensNoFee" ∷ "compoundFeiPCVDepositWrapper" ∷ "turboFusePCVDeposit"
          ∷ "rariTimelockFeiOldLens" ∷ "tribalCouncilTimelockFeiLens" ∷ [],
    )
    ∷ ("lusd", "lusdPSM" ∷ [])
    ∷ ("dai", "compoundDaiPCVDepositWrapper" ∷ "daiFixedPricePSM" ∷ "ethToDaiLensDai" ∷ [])
    ∷ ("bal", "balancerDepositBalWeth" ∷ "balancerLensVeBalBal" ∷ "balancerGaugeStaker" ∷ [])
    ∷ (
      "weth",
      "ethLidoPCVDeposit" ∷ "ethPSM" ∷ "balancerLensVeBalWeth" ∷ "ethToDaiLensEth"
          ∷ "aaveEthPCVDepositWrapper" ∷ [],
    )
    ∷ ("agEUR", "uniswapLensAgEurUniswapGauge" ∷ "agEurUniswapPCVDeposit" ∷ [])
    ∷ ("volt", "voltDepositWrapper" ∷ [])
    ∷ []
