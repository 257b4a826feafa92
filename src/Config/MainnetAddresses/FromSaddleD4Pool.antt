-- ===== src/Config/MainnetAddresses/FromSaddleD4Pool.antt =====
-- protocol-configuration/mainnetAddresses.ts, from `saddleD4Pool` to `rariPool27FeiPCVDepositWrapper`.
use fei_protocol_core.Prelude.{String, List, [], ◌∷◌}
use fei_protocol_core.Types.{ContractConfig, deprecated, external}
use fei_protocol_core.Config.Entry.{entry}

unfoldable pub from_saddle_d4_pool : List (String × ContractConfig)
from_saddle_d4_pool =
    entry "saddleD4Pool" "ISaddleSwap" 0xc69ddcd4dfef25d8a793241834d4cc4b3668ead6 external
    ∷ entry "snapshotDelegateRegistry" "DelegateRegistry" 0x469788fe6e9e9681c6ebf3bf78e7fd26fc015446
        external
    ∷ entry "stAAVE" "IERC20" 0x4da27a545c0c5b758a6ba100e3a049001de870f5 external
    ∷ entry "wstEth" "IERC20" 0x7f39c581f595b53c5cb19bd0b3f8da6c935e2ca0 external
    ∷ entry "steth" "IERC20" 0xae7ab96520de3a18e5e111b5eaab095312d7fe84 external
    ∷ entry "sushiswapDpiFei" "IUniswapV2Pair" 0x8775ae5e83bc5d926b6277579c2b0d40c7d9b528 external
    ∷ entry "sushiswapRouter" "unknown" 0xd9e1ce17f2641f24ae83637ab66a2cca9c378b9f external
    ∷ entry "usd" "unknown" 0x1111111111111111111111111111111111111111 external
    ∷ entry "toke" "IERC20" 0x2e9d63788249371f1dfc918a52f8d799f4a38c94 external
    ∷ entry "tToke" "IERC20" 0xa760e26aa76747020171fcf8bda108dfde8eb930 external
    ∷ entry "tWETH" "IERC20" 0xd3d13a578a53685b4ac36a1bab31912d2b2a2f36 external
    ∷ entry "votiumBribe" "IVotiumBribe" 0x19bbc3463dd8d07f55438014b021fb457ebd4595 external
    ∷ entry "weth" "WETH9" 0xc02aaa39b223fe8d0a0e5c4f27ead9083c756cc2 external
    ∷ entry "orcaPodController" "IControllerV1" 0x17fdc2eaf2bd46f3e1052ccbccd9e6ad0296c42c external
    ∷ entry "orcaMemberToken" "IMemberToken" 0x0762aa185b6ed2dca77945ebe92de705e0c37ae3 external
    ∷ entry "orcaShipToken" "unknown" 0x872edead0c56930777a82978d4d7deae3a2d1539 external
    ∷ entry "tribeDev1Deployer" "unknown" 0x64c4bffb220818f0f2ee6dae7a2f17d92b359c5d external
    ∷ entry "tribeDev2Deployer" "unknown" 0xce96fe7eb7186e9f894de7703b4df8ea60e2dd77 external
    ∷ entry "tribeDev3Deployer" "unknown" 0xe2388f22cf5e328c197d6530663809cc0408a510 external
    ∷ entry "tribeDev4Deployer" "unknown" 0x5346b4ff3e924508d33d93f352d11e392a7a9d3b external
    ∷ entry "feiTribeLBPSwapper" "BalancerLBPSwapper" 0x16ef9601076d45e8cc564cdd91e5df3ae83dd3b3
        deprecated
    ∷ entry "delayedPCVMoverWethUniToBal" "DelayedPCVMover"
        0x52b1d5be5005002afd76193add3a827c18e2db99 deprecated
    ∷ entry "rariGovernanceTokenSushiSwapDistributor" "RariGovernanceTokenUniswapDistributor"
        0x1fa69a416bcf8572577d3949b742fbb0a9cd98c7 deprecated
    ∷ entry "pcvGuardianV1" "PCVGuardian" 0x2d1b1b509b6432a73e3d798572f0648f6453a5d9 deprecated
    ∷ entry "daiPSM" "PriceBoundPSM" 0x210300c158f95e1342fd008ae417ef68311c49c2 deprecated
    ∷ entry "aaveRaiPCVDeposit" "AavePCVDeposit" 0xd2174d78637a40448112aa6b30f9b19e6cf9d1f9
        deprecated
    ∷ entry "ethLidoPCVDepositOld" "EthLidoPCVDeposit" 0xac38ee05c0204a1e119c625d0a560d6731478880
        deprecated
    ∷ entry "rariPool18FeiPCVDeposit" "ERC20CompoundPCVDeposit"
        0x5a8cb4556e5d5935af06beab8292905f48131479 deprecated
    ∷ []

unfoldable pub from_rari_pool25_fei_pcvdeposit : List (String × ContractConfig)
from_rari_pool25_fei_pcvdeposit =
    entry "rariPool25FeiPCVDeposit" "ERC20CompoundPCVDeposit"
      0xe1662531aa5de1dad8ab5b5756b8f6c8f3c759ca deprecated
    ∷ entry "rariPool26FeiPCVDeposit" "ERC20CompoundPCVDeposit"
        0xfdcc96967c86250f333ce52ba706ec2961c3302f deprecated
    ∷ entry "rariPool27FeiPCVDeposit" "ERC20CompoundPCVDeposit"
        0x91f50e3183a8cc30d2a981c3afa85a2bf6691c67 deprecated
    ∷ entry "rariPool19DpiPCVDeposit" "ERC20CompoundPCVDeposit"
        0x3dd3d945c4253bac5b4cc326a001b7d3f9c4dd66 deprecated
    ∷ entry "rariPool7FeiPCVDeposit" "ERC20CompoundPCVDeposit"
        0x74b235fef146cdb5be0d3786a9f3774674b3615e deprecated
    ∷ entry "rariPool9FeiPCVDeposit" "ERC20CompoundPCVDeposit"
        0xf2d8bee45f29a779cfb9f04ac233e703974a2c53 deprecated
    ∷ entry "rariPool9RaiPCVDeposit" "ERC20CompoundPCVDeposit"
        0x9aadffe00eae6d8e59bb4f7787c6b99388a6960d deprecated
    ∷ entry "rariPool28FeiPCVDeposit" "ERC20CompoundPCVDeposit"
        0xb0d5eba35e1cece568096064ed68a49c6a24d961 deprecated
    ∷ entry "rariPool31FeiPCVDeposit" "ERC20CompoundPCVDeposit"
        0x81dcb06ea4db474d1506ca6275ff7d870ba3a1be deprecated
    ∷ entry "rariPool72FeiPCVDeposit" "ERC20CompoundPCVDeposit"
        0x4a5af5a124e672c156241b76cad4e41d09dd4883 deprecated
    ∷ entry "rariPool90FeiPCVDeposit" "ERC20CompoundPCVDeposit"
        0x61d26126d2f8a44b41c1d8e1b1f276551dc8eec6 deprecated
    ∷ entry "rariPool91FeiPCVDeposit" "ERC20CompoundPCVDeposit"
        0x2296a2417d1f02d394ab22af794a0f426ed53436 deprecated
    ∷ entry "gaugeLensBpt30Fei70WethGaugeOld" "CurveGaugeLens"
        0xa8e388a1f19f2b33be8bf2ccec43641c10b4d1e5 deprecated
    ∷ entry "balancerLensBpt30Fei70WethOld" "BalancerPool2Lens"
        0x673f7dfa863b611de657759aede629b260f4e682 deprecated
    ∷ entry "dpiUniswapPCVDeposit" "UniswapPCVDeposit" 0x902199755219a9f8209862d09f1891cfb34f59a3
        deprecated
    ∷ entry "liquityFusePoolLusdPCVDeposit" "ERC20CompoundPCVDeposit"
        0x8c51e4532cc745cf3dfec5cebd835d07e7ba1002 deprecated
    ∷ entry "aaveRaiPCVDepositWrapper" "PCVDepositWrapper"
        0x1267b39c93711dd374deab15e0127e4adb259be0 deprecated
    ∷ entry "creamDepositWrapper" "ERC20PCVDepositWrapper"
        0x3a1838ac9eca864054bebb82c32455dd7d7fc89c deprecated
    ∷ entry "ethLidoPCVDepositOldWrapper" "PCVDepositWrapper"
        0xa271ff86426c7fdaaae72603e6ce68c892d69ed7 deprecated
    ∷ entry "ethReserveStabilizerWrapper" "PCVDepositWrapper"
        0xb24570bc46efdf97b4aa7f008b4268005eb7a27e deprecated
    ∷ entry "rariPool146EthPCVDeposit" "EthCompoundPCVDeposit"
        0xc68412b72e68c30d4e6c0854b439cbbe957146e4 deprecated
    ∷ entry "rariPool8DaiPCVDeposit" "ERC20CompoundPCVDeposit"
        0x9cc46ab5a714f7cd24c59f33c5769039b5872491 deprecated
    ∷ entry "rariPool8LusdPCVDeposit" "ERC20CompoundPCVDeposit"
        0xf846ee6e8ee9a6fbf51c7c65105cabc041c048ad deprecated
    ∷ entry "rariPool18FeiPCVDepositWrapper" "PCVDepositWrapper"
        0x07f2dd7e6a78d96c08d0a8212f4097dcc129d629 deprecated
    ∷ entry "rariPool19DpiPCVDepositWrapper" "PCVDepositWrapper"
        0x9a774a1b1208c323eded05e6daf592e6e59caa55 deprecated
    ∷ entry "rariPool25FeiPCVDepositWrapper" "PCVDepositWrapper"
        0xb4ffd10c4c290dc13e8e30bf186f1509001515fd deprecated
    ∷ entry "rariPool26FeiPCVDepositWrapper" "PCVDepositWrapper"
        0x82aebee64a52180d8541eb601a8381e012a1ed04 deprecated
    ∷ entry "rariPool27FeiPCVDepositWrapper" "PCVDepositWrapper"
        0xe2e35097638f0ff2eeca2ef70f352be37431945f deprecated
    ∷ []
