-- ===== src/Config/MainnetAddresses/FromFeiOtcEscrow.antt =====
-- protocol-configuration/mainnetAddresses.ts, from `feiOTCEscrow` to `rariInfraTribeTimelock`.
use fei_protocol_core.Prelude.{String, List, [], ◌∷◌}
use fei_protocol_core.Types.{ContractConfig, deprecated, tbd}
use fei_protocol_core.Config.Entry.{entry}

unfoldable pub from_fei_otcescrow : List (String × ContractConfig)
from_fei_otcescrow =
    entry "feiOTCEscrow" "OtcEscrow" 0x9b9fe1b732839a53948b02e5164c0a50fdf11e06 deprecated
    ∷ entry "feiRewardsDistributor" "unknown" 0xef1a94af192a88859eaf3f3d8c1b9705542174c5 deprecated
    ∷ entry "genesisGroup" "unknown" 0xbffb152b9392e38cddc275d818a3db7fe364596b deprecated
    ∷ entry "governorAlpha" "GovernorAlpha" 0xe087f94c3081e1832dc7a22b48c6f2b5faae579b deprecated
    ∷ entry "governorAlphaBackup" "GovernorAlpha" 0x4c895973334af8e06fd6da4f723ac24a5f259e6b
        deprecated
    ∷ entry "oldEthBondingCurve" "unknown" 0xe1578b4a32eaefcd563a9e6d0dc02a4213f673b7 deprecated
    ∷ entry "oldEthReserveStabilizer" "unknown" 0xa08a721dfb595753fff335636674d76c455b275c
        deprecated
    ∷ entry "ratioPCVController" "unknown" 0xb1410aece2c65fe9e107c58b5aa32e91b18f0bc7 deprecated
    ∷ entry "oldRatioPCVController" "unknown" 0xfc1ad6eb84351597cd3b9b65179633697d65b920 deprecated
    ∷ entry "raiBondingCurve" "unknown" 0x25d60212d47dd8f6ff0469367e4c6c98cd3411a5 deprecated
    ∷ entry "raiBondingCurveWrapper" "PCVDepositWrapper" 0xc42e155788f9f599fd437c7455f63810a395a81f
        deprecated
    ∷ entry "staticPcvDepositWrapper" "unknown" 0x8b41dcefae6064e6bc2a9b3ae20141d23efd6cbd
        deprecated
    ∷ entry "staticPcvDepositWrapper2" "unknown" 0xe72eb93de743f819fe91277582d7d0fa9bb9b023
        deprecated
    ∷ entry "tribalChiefOptimisticTimelock" "Timelock" 0x27fae9e49ad955a24bb578b66cdc962b5029fba9
        deprecated
    ∷ entry "tribalChiefSync" "unknown" 0x7a883825caa45fcbdcd76991c5972baf1551aa3d deprecated
    ∷ entry "tribeBalOtcEscrow" "OtcEscrow" 0xffdee6b0261d70278f5a3093a375c282ef8266db deprecated
    ∷ entry "tribeOTCEscrow" "OtcEscrow" 0xe2fe8041429e4bd51c40f92c6cdb699527171298 deprecated
    ∷ entry "tribeRagequit" "TRIBERagequit" 0xe77d572f04904ffea40899fd907f7add6ea5228a deprecated
    ∷ entry "uniswapOracle" "unknown" 0x087f35bd241e41fc28e43f0e8c58d283dd55bd65 deprecated
    ∷ entry "uniswapPCVController" "unknown" 0x0760dfe09bd6d04d0df9a60c51f01ecedceb5132 deprecated
    ∷ entry "uniswapRouter" "unknown" 0x7a250d5630b4cf539739df2c5dacb4c659f2488d deprecated
    ∷ entry "convexPoolPCVDepositWrapper" "PCVDepositWrapper"
        0x1370ca8655c255948d6c6110066d78680601b7c2 deprecated
    ∷ entry "timelock" "Timelock" 0x639572471f2f318464dc01066a56867130e45e25 deprecated
    ∷ entry "ohmEscrow" "OtcEscrow" 0x14d2f529576d3a5451bfba370408a899bb5261a9 deprecated
    ∷ entry "mergerGate" "MergerGate" 0xc2d452a4feb76b41659cd036d5746149b98453d6 deprecated
    ∷ entry "rariPool54FeiPCVDeposit" "ERC20CompoundPCVDeposit"
        0x9d28b8cb17c3e25b6cce17f88b259f75174b69f4 deprecated
    ∷ entry "reptbRedeemer" "REPTbRedeemer" 0xfea132a3b7b70089f3d58f04ec1d1c2f321ef660 deprecated
    ∷ entry "kashiRedeemer" "KashiPCVRedeemer" 0x14a38801fcc8a20b6c26cbcf85b7231218633928 deprecated
    ∷ []

unfoldable pub from_idle_tranches_redeemer : List (String × ContractConfig)
from_idle_tranches_redeemer =
    entry "idleTranchesRedeemer" "IdleTranchePCVRedeemer" 0x4e2f5e67e0a7a9bbfc257ceb1586d56f20364077
      deprecated
    ∷ entry "idleRedeemer" "IdlePCVRedeemer" 0xbca1d1ec00581ad3033eb88d9f0206bb4b9d1b90 deprecated
    ∷ entry "bbRedeemer" "SmartYieldRedeemer" 0x2dc77678be7f900e81c638b056f4835bb7203c96 deprecated
    ∷ entry "podExecutor" "PodExecutor" 0x99d8b669f48a708f7c0373af6ce31f0726ab6cad deprecated
    ∷ entry "clawbackVestingContractA" "QuadraticTimelockedDelegator"
        0x1b4948248e13dc6ec2a8e2b5baa5eb78739d9486 deprecated
    ∷ entry "clawbackVestingContractB" "QuadraticTimelockedDelegator"
        0xf2a5872a34e69101f5311a8196efac8d7b79dccd deprecated
    ∷ entry "clawbackVestingContractC" "QuadraticTimelockedDelegator"
        0xba7182c1b6df04bb730f0008bdded27fc7d13ea2 deprecated
    ∷ entry "clawbackVestingContractBeneficiary" "unknown"
        0x4bfa2625d50b68d622d1e71c82ba6db99ba0d17f deprecated
    ∷ entry "pegExchanger" "PegExchanger" 0xc09bb5ecf865e6f69fe62a43c27f036a426909f7 tbd
    ∷ entry "pegExchangerDripper" "PegExchangerDripper" 0xc416eee663eca29ceb726241cadffe6a77d61e2d
        tbd
    ∷ entry "newRariInfraFeiTimelock" "LinearTokenTimelock"
        0x5d39721ba1c734b395c2cadbdeec178f688f6ec9 tbd
    ∷ entry "newRariInfraTribeTimelock" "LinearTimelockedDelegator"
        0x20bc8fe104faded2d0ad9634d745f1488f9991ef tbd
    ∷ entry "laTribuFeiTimelock" "LinearTokenTimelock" 0xdb02630ed4f4994414122894b5082dc6d88a4ed4
        tbd
    ∷ entry "laTribuTribeTimelock" "QuadraticTokenTimelock"
        0x552b8a441e945d021d29ae58b6ae3de96da75a05 tbd
    ∷ entry "rariInfraFeiTimelock" "LinearTokenTimelock" 0xfafc562265a49975e8b20707eac966473795cf90
        tbd
    ∷ entry "rariInfraTribeTimelock" "LinearTimelockedDelegator"
        0x625cf6aa7dafb154f3eb6be87592110e30290dee tbd
    ∷ []
