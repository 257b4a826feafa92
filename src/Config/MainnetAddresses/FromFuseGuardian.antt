-- ===== src/Config/MainnetAddresses/FromFuseGuardian.antt =====
-- protocol-configuration/mainnetAddresses.ts, from `fuseGuardian` to `chainlinkRaiEthOracle`.
use fei_protocol_core.Prelude.{String, List, [], ◌∷◌}
use fei_protocol_core.Types.{ContractConfig, external, fei_rari, oracle, volt}
use fei_protocol_core.Config.Entry.{entry}

unfoldable pub from_fuse_guardian : List (String × ContractConfig)
from_fuse_guardian =
    entry "fuseGuardian" "FuseGuardian" 0xc0c59a2d3f278445f27ed4a00e2727d6c677c43f fei_rari
    ∷ entry "volt" "Fei" 0x559ebc30b0e58a45cc9ff573f77ef1e5eb1b3e18 volt
    ∷ entry "voltCore" "Core" 0xec7ad284f7ad256b64c6e69b84eb0f48f42e8196 volt
    ∷ entry "voltFeiSwapContract" "OtcEscrow" 0xef152e462b59940616e667e801762da9f2af97b9 volt
    ∷ entry "voltFusePCVDeposit" "ERC20CompoundPCVDeposit"
        0xfebdf448c8484834bb399d930d7e1bdc773e23ba volt
    ∷ entry "voltOraclePassthrough" "IOracle" 0x84dc71500d504163a87756db6368cc8bb654592f volt
    ∷ entry "voltOracle" "CompositeOracle" 0x8a1f9707abee2102da45a2392f2f992ba22ff446 oracle
    ∷ entry "dpiToDaiLBPPool" "IWeightedPool" 0xd10386804959a121a8a487e49f45aa9f5a2eb2a0 external
    ∷ entry "ethToDaiLBPPool" "IWeightedPool" 0x34809aedf93066b49f638562c42a9751edb36df5 external
    ∷ entry "veBal" "IVeToken" 0xc128a9954e6c874ea3d62ce62b468ba073093f25 external
    ∷ entry "bpt80Bal20Weth" "IERC20" 0x5c6ee304399dbdb9c8ef030ab642b10820db8f56 external
    ∷ entry "bpt30Fei70Weth" "IERC20" 0x90291319f1d4ea3ad4db0dd8fe9e12baf749e845 external
    ∷ entry "balancerMinter" "IBalancerMinter" 0x239e55f427d44c3cc793f49bfb507ebe76638a2b external
    ∷ entry "balancerGaugeController" "ILiquidityGaugeController"
        0xc128468b7ce63ea702c1f104d55a2566b13d3abd external
    ∷ entry "balancerGaugeBpt30Fei70Weth" "ILiquidityGauge"
        0x4f9463405f5bc7b4c1304222c1df76efbd81a407 external
    ∷ entry "tokemakManagerRollover" "unknown" 0x90b6c61b102ea260131ab48377e143d6eb3a9d4b external
    ∷ entry "tokemakManager" "unknown" 0xa86e412109f77c45a3bc1c5870b880492fb86a14 external
    ∷ entry "rariOpsMultisig" "unknown" 0x5a2e3420af551a48a1db056cac4d6ba752bf1488 external
    ∷ entry "aave" "IERC20" 0x7fc66500c84a76ad7e9c93437bfc5ac33e2ddae9 external
    ∷ entry "aaveGovernanceV2" "IAaveGovernanceV2" 0xec568fffba86c094cf06b22134b23074dfe2252c
        external
    ∷ entry "aaveIncentivesController" "IAaveIncentivesController"
        0xd784927ff2f95ba542bfc824c8a8a98f3495f6b5 external
    ∷ entry "aaveLendingPool" "ILendingPool" 0x7d2768de32b0b80b7a3454c06bdac94a69ddc7a9 external
    ∷ entry "aFei" "IERC20" 0x683923db55fead99a79fa01a27eec3cb19679cc3 external
    ∷ entry "aFeiStableDebt" "IERC20" 0xd89cf9e8a858f8b4b31faf793505e112d6c17449 external
    ∷ entry "aFeiVariableDebt" "IERC20" 0xc2e10006accab7b45d9184fcf5b7ec7763f5baae external
    ∷ entry "agEUR" "IERC20" 0x1a7e4e63778b4f12a199c062f3efdd288afcbce8 external
    ∷ entry "alusd" "IERC20" 0xbc6da0fe9ad5f3b0d58160288917aa56653660e9 external
    ∷ entry "angle" "Tribe" 0x31429d1856ad1377a8a0079410b297e1a9e214c2 external
    ∷ []

unfoldable pub from_angle_ag_eur_fei_pool : List (String × ContractConfig)
from_angle_ag_eur_fei_pool =
    entry "angleAgEurFeiPool" "IUniswapV2Pair" 0xf89ce5ed65737da8440411544b0499c9fad323b2 external
    ∷ entry "anglePoolManager" "IPoolManager" 0x53b981389cfc5dcda2dc2e903147b5dd0e985f44 external
    ∷ entry "angleStableMaster" "IStableMaster" 0x5addc89785d75c86ab939e9e15bfbbb7fc086a87 external
    ∷ entry "angleGaugeController" "ILiquidityGaugeController"
        0x9ad7e7b0877582e14c17702eecf49018dd6f2367 external
    ∷ entry "angleGaugeUniswapV2FeiAgEur" "ILiquidityGauge"
        0xd6282c5aeaad4d776b932451c44b8eb453e44244 external
    ∷ entry "veAngle" "IVeToken" 0x0c462dbb9ec8cd1630f1728b2cfd2769d09f0dd5 external
    ∷ entry "comp" "Tribe" 0xc00e94cb662c3520282e6f5717214004a7f26888 external
    ∷ entry "aRai" "IERC20" 0xc9bc48c72154ef3e5425641a3c747242112a46af external
    ∷ entry "aWETH" "IERC20" 0x030ba81f1c18d280636f32af80b9aad02cf0854e external
    ∷ entry "bal" "IERC20" 0xba100000625a3754423978a60c9317c58a424e3d external
    ∷ entry "usdc" "IERC20" 0xa0b86991c6218b36c1d19d4a2e9eb0ce3606eb48 external
    ∷ entry "balancerAdmin" "unknown" 0x10a19e7ee7d7f8a52822f6817de8ea18204f2e4f external
    ∷ entry "balancerAuthorizer" "Permissions" 0xa331d84ec860bf466b4cdccfb4ac09a1b43f3ae6 external
    ∷ entry "balancerWeightedPoolFactory" "IWeightedPool2TokensFactory"
        0xa5bf2ddf098bb0ef6d120c98217dd6b141c74ee0 external
    ∷ entry "balancerLBPoolFactory" "ILiquidityBootstrappingPoolFactory"
        0x751a0bc0e3f75b38e01cf25bfce7ff36de1c87de external
    ∷ entry "balancerLBPoolFactoryNoFee" "ILiquidityBootstrappingPoolFactory"
        0x0f3e0c4218b7b0108a3643cfe9d3ec0d4f57c54e external
    ∷ entry "balancerVault" "IVault" 0xba12222222228d8ba445958a75a0704d566bf2c8 external
    ∷ entry "balancerRewards" "IMerkleOrchard" 0xdae7e32adc5d490a43ccba1f0c736033f2b4efca external
    ∷ entry "barnbridgeAFei" "ISmartYield" 0xa3abb32c657ada8803bf6aeef6eb42b29c74bf28 external
    ∷ entry "bamm" "IBAMM" 0x0d3abaa7e088c2c82f54b2f47613da438ea8c598 external
    ∷ entry "bentoBox" "IMasterContractManager" 0xf5bce5077908a1b7370b9ae04adc565ebd643966 external
    ∷ entry "chainlinkDaiUsdOracle" "unknown" 0xaed0c38402a5d19df6e4c03f4e2dced6e29c1ee9 external
    ∷ entry "chainlinkDpiUsdOracle" "unknown" 0xd2a593bf7594ace1fad597adb697b5645d5eddb2 external
    ∷ entry "chainlinkEthUsdOracle" "unknown" 0x5f4ec3df9cbd43714fe2740f5e3616155c5b8419 external
    ∷ entry "chainlinkStEthUsdOracle" "unknown" 0xcfe54b5cd566ab89272946f602d76ea879cab4a8 external
    ∷ entry "chainlinkEurUsdOracle" "unknown" 0xb49f677943bc038e9857d61e7d053caa2c1734c1 external
    ∷ entry "chainlinkFeiEthOracle" "unknown" 0x7f0d2c2838c6ac24443d13e23d99490017bde370 external
    ∷ entry "chainlinkRaiEthOracle" "unknown" 0x4ad7b025127e89263242ab68f0f9c4e5c033b489 external
    ∷ []
