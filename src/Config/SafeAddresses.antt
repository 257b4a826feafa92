-- ===== src/Config/SafeAddresses.antt =====
-- protocol-configuration/safeAddresses.ts: the deposits that the guardian may move PCV to.
use fei_protocol_core.Prelude.{String, List, [], ◌∷◌}

unfoldable pub safe_addresses_config : List String
safe_addresses_config =
    "ethToDaiLBPSwapper" ∷ "balancerGaugeStaker" ∷ "dpiToDaiLBPSwapper" ∷ "uniswapPCVDeposit"
    ∷ "raiPriceBoundPSM" ∷ "aaveRaiPCVDeposit" ∷ "rariPool9RaiPCVDeposit" ∷ "turboFusePCVDeposit"
    ∷ "veBalDelegatorPCVDeposit" ∷ "balancerDepositFeiWeth" ∷ "balancerDepositBalWeth"
    ∷ "agEurUniswapPCVDeposit" ∷ "d3poolConvexPCVDeposit" ∷ "d3poolCurvePCVDeposit" ∷ "lusdPSM"
    ∷ "daiFixedPricePSM" ∷ "aaveEthPCVDeposit" ∷ "ethPSM" ∷ "compoundEthPCVDeposit"
    ∷ "feiDAOTimelock" ∷ []
