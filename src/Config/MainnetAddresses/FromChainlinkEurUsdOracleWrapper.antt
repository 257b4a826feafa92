-- ===== src/Config/MainnetAddresses/FromChainlinkEurUsdOracleWrapper.antt =====
-- protocol-configuration/mainnetAddresses.ts, from `chainlinkEurUsdOracleWrapper` to `fuseAdmin`.
use fei_protocol_core.Prelude.{String, List, [], ◌∷◌}
use fei_protocol_core.Types.{
  ContractConfig, collateralization, deprecated, fei_rari, fuse, oracle, rewards, turbo,
}
use fei_protocol_core.Config.Entry.{entry}

unfoldable pub from_chainlink_eur_usd_oracle_wrapper : List (String × ContractConfig)
from_chainlink_eur_usd_oracle_wrapper =
    entry "chainlinkEurUsdOracleWrapper" "ChainlinkOracleWrapper"
      0xfb3a062236a7e08b572f17bc9ad2bbc2becb87b1 oracle
    ∷ entry "chainlinkFeiEthOracleWrapper" "ChainlinkOracleWrapper"
        0x060be7b51f78dffd04749332fd306ba1228e7444 oracle
    ∷ entry "chainlinkLUSDOracleWrapper" "ChainlinkOracleWrapper"
        0xe61d11ec732d556a26fb863b192052bea03ef8b5 oracle
    ∷ entry "chainlinkRaiEthOracleWrapper" "ChainlinkOracleWrapper"
        0x3d49573ee6afcbde606f8a1c2aa1c498048e7190 oracle
    ∷ entry "chainlinkRaiUsdOracleWrapper" "ChainlinkOracleWrapper"
        0xc7a950418ec90df99b1516f3d0276423bf46d4c2 oracle
    ∷ entry "chainlinkRaiUsdCompositeOracle" "CompositeOracle"
        0x392b1d29edab680c5ca778d3a32b8284859bfbb0 oracle
    ∷ entry "chainlinkTribeEthOracleWrapper" "ChainlinkOracleWrapper"
        0x061118ccabf0c2c62f05a2e3c2bd4379c0c70079 oracle
    ∷ entry "compositeOracle" "CompositeOracle" 0x8721f9eaba0b9081069970bcbce38763d3d4f28e oracle
    ∷ entry "creamUsdCompositeOracle" "CompositeOracle" 0x2bdca027c7f57ed9ac1769ba3a3d64600578ba49
        oracle
    ∷ entry "oneConstantOracle" "ConstantOracle" 0x2374800337c6be8b935f96aa6c10b33f9f12bd40 oracle
    ∷ entry "tribeUsdCompositeOracle" "CompositeOracle" 0xd7b8207f8644ee5cc60095023a8fcb8bdcf54732
        oracle
    ∷ entry "zeroConstantOracle" "ConstantOracle" 0x43b99923cf06d6d9101110b595234670f73a4934 oracle
    ∷ entry "gaugeLensAgEurUniswapGauge" "AngleGaugeLens" 0x10f59bd0a100bcad86cab39751797d952ee1f76f
        oracle
    ∷ entry "collateralizationOracle" "CollateralizationOracle"
        0xff6f59333cfd8f4ebc14ad0a0e181a83e655d257 collateralization
    ∷ entry "collateralizationOracleGuardian" "CollateralizationOracleGuardian"
        0x81de6ba8df84a4b679061952e171a27f096f3eae deprecated
    ∷ entry "collateralizationOracleWrapper" "CollateralizationOracleWrapper"
        0xd1866289b4bd22d453fff676760961e0898ee9bf deprecated
    ∷ entry "collateralizationOracleWrapperImpl" "CollateralizationOracleWrapper"
        0x656aa9c9875eb089b11869d4730d6963d25e76ad deprecated
    ∷ entry "namedStaticPCVDepositWrapper" "NamedStaticPCVDepositWrapper"
        0x06dacca04e201ad31393754e68da04dc14778fa6 collateralization
    ∷ entry "rariTurboFusePool" "unknown" 0x081e7c60bcb8a2e7e43076a2988068c0a6e69e27 turbo
    ∷ entry "turboAdmin" "unknown" 0x18413d61b335d2f46235e9e1256fd5ec8ad03757 turbo
    ∷ entry "turboBooster" "unknown" 0xf6c7f4a90b10c9eaaf2a6676ce81fe8673453e72 turbo
    ∷ entry "turboMaster" "unknown" 0xf2e513d3b4171bb115cb9ffc45555217fbbbd00c turbo
    ∷ entry "turboFusePCVDeposit" "ERC20CompoundPCVDeposit"
        0x2c47fef515d2c70f2427706999e158533f7cf090 turbo
    ∷ entry "aaveTribeIncentivesController" "IAaveIncentivesController"
        0xdee5c1662bbff8f80f7c572d8091bf251b3b0dab rewards
    ∷ entry "aaveTribeIncentivesControllerImpl" "IAaveIncentivesController"
        0xff865335401f12b88fa3ff5a3a51685a7f224191 rewards
    ∷ entry "erc20Dripper" "ERC20Dripper" 0x3fe0ead3500e767f0f8bc2d3b5af7755b1b21a6a rewards
    ∷ entry "rariRewardsDistributorDelegate" "IRewardsDistributorAdmin"
        0x220f93183a69d1598e8405310cb361cff504146f rewards
    ∷ entry "rariRewardsDistributorDelegator" "IRewardsDistributorDelegator"
        0x73f16f0c0cd1a078a54894974c5c054d8dc1a3d7 rewards
    ∷ []

unfoldable pub from_tribal_chief : List (String × ContractConfig)
from_tribal_chief =
    entry "tribalChief" "TribalChief" 0x9e1076cc0d19f9b0b8019f384b0a29e48ee46f7f rewards
    ∷ entry "tribalChiefImpl" "TribalChief" 0x2d91362e8bcaa8826b482b531dcb170fc9d17777 rewards
    ∷ entry "votiumBriber3Crvpool" "VotiumBriber" 0x8b6a295a35171e2f05b1579e485017b999810dcb rewards
    ∷ entry "fuseERC4626Pool8Fei" "unknown" 0xf486608dbc7dd0eb80e4b9fa0fdb03e40f414030 fuse
    ∷ entry "fuseERC4626Pool18Fei" "unknown" 0x0a00f781508a2e3ff5c6aa80df97daebd0ffc259 fuse
    ∷ entry "rariPool8ConvexD3Plugin" "IConvexERC4626" 0xaa189e7f4aac757216b62849f78f1236749ba814
        fei_rari
    ∷ entry "rariCErc20PluginImpl" "unknown" 0xbfb8d550b53f64f581df1da41dda0cb9e596aa0e fei_rari
    ∷ entry "rariPool8Comptroller" "Unitroller" 0xc54172e34046c1653d1920d40333dd358c7a1af4 fei_rari
    ∷ entry "rariPool8MasterOracle" "IMasterOracle" 0x4d10bc156fbad2474a94f792fe0d6c3261469cdd
        fei_rari
    ∷ entry "rariChainlinkPriceOracleV3" "unknown" 0x058c345d3240001088b6280e008f9e78b3b2112d
        fei_rari
    ∷ entry "curveLPTokenOracle" "unknown" 0xa9f3faac3b8edf7b3dccfdbbf25033d6f5fc02f3 fei_rari
    ∷ entry "gUniFuseOracle" "unknown" 0xea3633b38c747cea231adb74b511dc2ed3992b43 fei_rari
    ∷ entry "rariPool8Lusd" "CErc20Delegator" 0x647a36d421183a0a9fa62717a64b664a24e469c7 fei_rari
    ∷ entry "rariPool8Dai" "CErc20Delegator" 0x7e9ce3caa9910cc048590801e64174957ed41d43 fei_rari
    ∷ entry "rariPool8DaiIrm" "unknown" 0xede47399e2aa8f076d40dc52896331cba8bd40f7 fei_rari
    ∷ entry "rariPool8Eth" "CErc20Delegator" 0xbb025d470162cc5ea24daf7d4566064ee7f5f111 fei_rari
    ∷ entry "rariPool8EthIrm" "unknown" 0xbab47e4b692195bf064923178a90ef999a15f819 fei_rari
    ∷ entry "rariPool8Fei" "CErc20Delegator" 0xd8553552f8868c1ef160eedf031cf0bcf9686945 fei_rari
    ∷ entry "rariPool8FeiIrm" "unknown" 0x8f47be5692180079931e2f983db6996647aba0a5 fei_rari
    ∷ entry "rariPool8Tribe" "CErc20Delegator" 0xfd3300a9a74b3250f1b2abc12b47611171910b07 fei_rari
    ∷ entry "rariPool8TribeIrm" "unknown" 0x075538650a9c69ac8019507a7dd1bd879b12c1d7 fei_rari
    ∷ entry "rariPool8CTokenImpl" "unknown" 0x67db14e73c2dce786b5bbbfa4d010deab4bbfcf9 fei_rari
    ∷ entry "rariPool8Fei3Crv" "CErc20Delegator" 0xbfb6f7532d2db0fe4d83abb001c5c2b0842af4db fei_rari
    ∷ entry "rariPool8FeiD3" "CErc20Delegator" 0x5ca8ffe4dad9452ed880fa429dd0a08574225936 fei_rari
    ∷ entry "rariPool146Comptroller" "Unitroller" 0x88f7c23ea6c4c404da463bc9ae03b012b32def9e
        fei_rari
    ∷ entry "rariPool146FuseAdmin" "FuseAdmin" 0x6d64d080345c446da31b8d3855ba6d9c0fc875d2 fei_rari
    ∷ entry "rariPool146Eth" "unknown" 0xfbd8aaf46ab3c2732fa930e5b343cd67cea5054c fei_rari
    ∷ entry "fuseAdmin" "FuseAdmin" 0x761dd1ae03d95bdabec3c228532dcdab4f2c7add fei_rari
    ∷ []
