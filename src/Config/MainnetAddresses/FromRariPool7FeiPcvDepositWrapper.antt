-- ===== src/Config/MainnetAddresses/FromRariPool7FeiPcvDepositWrapper.antt =====
-- protocol-configuration/mainnetAddresses.ts, from `rariPool7FeiPCVDepositWrapper` to `feiLusdLBPSwapper`.
use fei_protocol_core.Prelude.{String, List, [], ◌∷◌}
use fei_protocol_core.Types.{ContractConfig, deprecated}
use fei_protocol_core.Config.Entry.{entry}

unfoldable pub from_rari_pool7_fei_pcvdeposit_wrapper : List (String × ContractConfig)
from_rari_pool7_fei_pcvdeposit_wrapper =
    entry "rariPool7FeiPCVDepositWrapper" "PCVDepositWrapper"
      0xb13c755107301ebfed6a93190acde09281b2f8a5 deprecated
    ∷ entry "rariPool8FeiPCVDepositWrapper" "PCVDepositWrapper"
        0xd6598a23418c7fef7c0dc863265515b623b720f9 deprecated
    ∷ entry "rariPool9FeiPCVDepositWrapper" "PCVDepositWrapper"
        0x96a657ee40a79a964c6b4ea551c895d98e885a75 deprecated
    ∷ entry "rariPool28FeiPCVDepositWrapper" "PCVDepositWrapper"
        0x4e119714f625b2e82e5fb5a7e297978f020ea51e deprecated
    ∷ entry "rariPool31FeiPCVDepositWrapper" "PCVDepositWrapper"
        0x05e2e93cfb0b53d36a3151ee727bb581d4b918ce deprecated
    ∷ entry "rariPool90FeiPCVDepositWrapper" "PCVDepositWrapper"
        0xec54148cbc47bff8fcc5e04e5e8083adb8af9ad9 deprecated
    ∷ entry "rariPool91FeiPCVDepositWrapper" "PCVDepositWrapper"
        0x5d073fd34006e292583b7fc02b0f16ee8e29bca5 deprecated
    ∷ entry "rariPool72FeiPCVDepositWrapper" "PCVDepositWrapper"
        0x395b1bc1800fa0ad48ae3876e66d4c10d297650c deprecated
    ∷ entry "rariPool9RaiPCVDepositWrapper" "PCVDepositWrapper"
        0xcce230c087f31032fc17621a2cf5e425a0b80c96 deprecated
    ∷ entry "dpiDepositWrapper" "ERC20PCVDepositWrapper" 0xb250926e75b1cc6c53e77bb9426baac14ab1e24c
        deprecated
    ∷ entry "raiDepositWrapper" "ERC20PCVDepositWrapper" 0x7339ca4ac94020b83a34f5edfa6e0f26986c434b
        deprecated
    ∷ entry "autoRewardsDistributor" "AutoRewardsDistributor"
        0x61be49dfbd869a601fea076e1a1379903e61a895 deprecated
    ∷ entry "d3AutoRewardsDistributor" "AutoRewardsDistributorV2"
        0x9fd318c3f8f8583fd40a0c2fba058fb7097e11d4 deprecated
    ∷ entry "fei3CrvAutoRewardsDistributor" "AutoRewardsDistributorV2"
        0x15f6d0d95acecd7570e8ff6128d953bc6aa3573c deprecated
    ∷ entry "rewardsDistributorAdmin" "RewardsDistributorAdmin"
        0x4e979e8b136cd7bdebb83ea50a599c3bed1e15c0 deprecated
    ∷ entry "stakingTokenWrapperBribeD3pool" "StakingTokenWrapper"
        0x462515dc7c21c728c8b7a777fdc89eedacf74537 deprecated
    ∷ entry "stakingTokenWrapperFOXLaaS" "StakingTokenWrapper"
        0x3cd384ff1fa1cba8f06df326af4cbda634af94e8 deprecated
    ∷ entry "stakingTokenWrapperGROLaaS" "StakingTokenWrapper"
        0x508629e8e0b96986df4d0f1f60aadef1d0fbae96 deprecated
    ∷ entry "stakingTokenWrapperKYLINLaaS" "StakingTokenWrapper"
        0xfe266d143db42a9835e2b1ab43b64a46278398cc deprecated
    ∷ entry "stakingTokenWrapperMStableLaaS" "StakingTokenWrapper"
        0x9b9ad20cd99cac3b536b94497a18346d66db0379 deprecated
    ∷ entry "stakingTokenWrapperNEARLaaS" "StakingTokenWrapper"
        0x3b3591a4f7fd386e9987eb48d898e29b57c30c47 deprecated
    ∷ entry "stakingTokenWrapperPoolTogetherLaaS" "StakingTokenWrapper"
        0x6b018170311f3da23c3fa62afe1b2d0638522ccd deprecated
    ∷ entry "stakingTokenWrapperRari" "StakingTokenWrapper"
        0xd81be1b9a7895c996704a8dda794bba4454eeb90 deprecated
    ∷ entry "stakingTokenWrapperSYNLaaS" "StakingTokenWrapper"
        0x5db85e395735bb42eeb720fe2ee69627d246e300 deprecated
    ∷ entry "stakingTokenWrapperUMALaaS" "StakingTokenWrapper"
        0x90b336dff819b9e4b3d9a32cabdcab0e92836065 deprecated
    ∷ entry "fei3CrvStakingtokenWrapper" "StakingTokenWrapper"
        0x7013dc2e3c0d5ca3c0a6a66f6b5883ed203ac49c deprecated
    ∷ entry "feiDaiStakingTokenWrapper" "StakingTokenWrapper"
        0x601ffddaccaf7f05600d7e7561a51c745b8a2a3e deprecated
    ∷ entry "feiUsdcStakingTokenWrapper" "StakingTokenWrapper"
        0x0a0542adf2fa8e85dd797697da537448b2e7c3ee deprecated
    ∷ []

unfoldable pub from_fei_dai_auto_rewards_distributor : List (String × ContractConfig)
from_fei_dai_auto_rewards_distributor =
    entry "feiDaiAutoRewardsDistributor" "AutoRewardsDistributorV2"
      0xe6fef62a834d9b0ba1da832769d6e99135dd2e0e deprecated
    ∷ entry "feiUsdcAutoRewardsDistributor" "AutoRewardsDistributorV2"
        0x1126f1fa7da556f8f82846223e3c2176b5631707 deprecated
    ∷ entry "d3StakingTokenWrapper" "StakingTokenWrapper" 0xaa267d0a5a0a56ef0f17bb4a28f85a5c4e0394f6
        deprecated
    ∷ entry "stwBulkHarvest" "STWBulkHarvest" 0x83433d925048d7e9d2d7eec2a0efbb4456af2f93 deprecated
    ∷ entry "tribalChiefSyncV2" "TribalChiefSyncV2" 0xb41c594f9a6a2e0882212598337af8145f63731b
        deprecated
    ∷ entry "tribalChiefSyncExtension" "TribalChiefSyncExtension"
        0x7b834ca07f81d52bb52d98dae560d1442b2d7dba deprecated
    ∷ entry "stakingTokenWrapperBribe3Crvpool" "StakingTokenWrapper"
        0xac98807e5cc43f134b00e87349e4ea3edf927961 deprecated
    ∷ entry "votiumBriberD3pool" "VotiumBriber" 0x0bec570466b466ab689ad33f1ce5238ca43c8003
        deprecated
    ∷ entry "aavePassthroughETH" "unknown" 0x126ad2b5341a30d8115c443b3158e7661e4fad26 deprecated
    ∷ entry "balDepositWrapper" "ERC20PCVDepositWrapper" 0x7e28ba7a2d52af88242e588d868e927119ba45db
        deprecated
    ∷ entry "compoundPassthroughETH" "unknown" 0xf56b0b80ea6e986364c50177d396b988c3e41094 deprecated
    ∷ entry "daiBondingCurve" "unknown" 0xc0afe0e649e32528666f993ce63822c3840e941a deprecated
    ∷ entry "daiBondingCurveWrapper" "PCVDepositWrapper" 0x2547d76e2447e67f29d6bfee5d46fdd2183c88e4
        deprecated
    ∷ entry "creamFeiPCVDeposit" "ERC20CompoundPCVDeposit"
        0x243c601cc5daa3ac250b14509804188347bd2afb deprecated
    ∷ entry "bondingCurve" "unknown" 0xb783c0e21763bef9f2d04e6499abfbe23adb7e1f deprecated
    ∷ entry "compoundEthPCVDripController" "PCVDripController"
        0xa84c8be28f3d560059339f06c6b6c5b23f53c58c deprecated
    ∷ entry "ethReserveStabilizer" "unknown" 0x17305f0e18318994a57b494078cac866a857f7b6 deprecated
    ∷ entry "creamFeiPCVDepositWrapper" "PCVDepositWrapper"
        0xff419bc27483edb94b7ad5c97b7fab5db323c7e0 deprecated
    ∷ entry "daiPSMFeiSkimmer" "FeiSkimmer" 0xf8ca6c10a794c867497541f5b7a7f96ca2bcd1e8 deprecated
    ∷ entry "defiPulseOTC" "unknown" 0x673d140eed36385cb784e279f8759f495c97cf03 deprecated
    ∷ entry "dpiBondingCurve" "unknown" 0xbf5721c5e1c370f6f1a3e21b3972e0ace93a1e84 deprecated
    ∷ entry "dpiBondingCurveWrapper" "PCVDepositWrapper" 0x60b63ef8f461355207fe1d8102dda938bbd8c3fb
        deprecated
    ∷ entry "ethOTCEscrow" "OtcEscrow" 0x6cfed416f0729d5754f13fddf297789079208e2e deprecated
    ∷ entry "ethPCVDripper" "IPCVDeposit" 0xda079a280fc3e33eb11a78708b369d5ca2da54fe deprecated
    ∷ entry "feiBalOtcEscrow" "OtcEscrow" 0x7fb1f6cb94f01ba03d2af5cc13c4c1e74b9b9ecc deprecated
    ∷ entry "feiBuybackLens" "BPTLens" 0x107460564896377ba6cdcc7516c7eab65e32e360 deprecated
    ∷ entry "feiLusdLens" "BPTLens" 0x1f05b337cb16cea2a1c638ba9b9571f0cf4a5612 deprecated
    ∷ entry "feiLusdLBPSwapper" "BalancerLBPSwapper" 0x5fc76f8fc3af2b19d45ac841252dce711ed448ff
        deprecated
    ∷ []
