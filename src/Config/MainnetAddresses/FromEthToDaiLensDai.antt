-- ===== src/Config/MainnetAddresses/FromEthToDaiLensDai.antt =====
-- protocol-configuration/mainnetAddresses.ts, from `ethToDaiLensDai` to `compositeStEthEthOracle`.
use fei_protocol_core.Prelude.{String, List, [], ◌∷◌}
use fei_protocol_core.Types.{ContractConfig, deprecated, oracle, pcv, pcv_v1}
use fei_protocol_core.Config.Entry.{entry}

unfoldable pub from_eth_to_dai_lens_dai : List (String × ContractConfig)
from_eth_to_dai_lens_dai =
    entry "ethToDaiLensDai" "BPTLens" 0xdf9ff5c077d9f3427ade67ac2d27a864be6f3187 pcv
    ∷ entry "ethToDaiLensEth" "BPTLens" 0xf24401f6992faeacbc5d6c6991db15b5f8364a1b pcv
    ∷ entry "ethLidoPCVDeposit" "EthLidoPCVDeposit" 0x6e5f2745c08249a190239763706473be0b72816d pcv
    ∷ entry "agEurUniswapPCVDeposit" "UniswapPCVDeposit" 0xe8633c49ace655eb4a8b720e6b12f09bd3a97812
        pcv
    ∷ entry "bammDeposit" "BAMMDeposit" 0x374628ebe7ef6aca0574e750b618097531a26ff8 deprecated
    ∷ entry "balancerDepositFeiWeth" "BalancerPCVDepositWeightedPool"
        0xc5bb8f0253776bec6ff450c2b40f092f7e7f5b57 pcv
    ∷ entry "balancerDepositBalWeth" "BalancerPCVDepositWeightedPool"
        0xcd1ac0014e2ebd972f40f24df1694e6f528b2fd4 pcv
    ∷ entry "balancerLensBpt30Fei70Weth" "BalancerPool2Lens"
        0x8465e7cfa63aa6682531c7a34141966318ac5178 pcv
    ∷ entry "balancerLensVeBalBal" "BalancerPool2Lens" 0x8cba3149b95084a61bbab9e01110b0fb92c9a289
        pcv
    ∷ entry "balancerLensVeBalWeth" "BalancerPool2Lens" 0xd8eb546726d449fc1ded06dfeca800a2fa8bb930
        pcv
    ∷ entry "d3poolConvexPCVDeposit" "ConvexPCVDeposit" 0x5ae217de26f6ff5f481c6e10ec48b2cf2fc857c8
        deprecated
    ∷ entry "d3poolCurvePCVDeposit" "CurvePCVDepositPlainPool"
        0x24f663c69cd4b263cf5685a49013ff5f1c898d24 deprecated
    ∷ entry "ethTokemakPCVDeposit" "EthTokemakPCVDeposit" 0x0961d2a545e0c1201b313d14c57023682a546b9d
        deprecated
    ∷ entry "rariPool7LusdPCVDeposit" "ERC20CompoundPCVDeposit"
        0x6026a1559cdd44a63c5ca9a078cc996a9eb68abb deprecated
    ∷ entry "uniswapPCVDeposit" "UniswapPCVDeposit" 0x15958381e9e6dc98bd49655e36f524d2203a28bd
        deprecated
    ∷ entry "aaveEthPCVDepositWrapper" "PCVDepositWrapper"
        0x43ef03755991056681f01ee2182234ef6af1f658 pcv
    ∷ entry "aaveFeiPCVDepositWrapper" "PCVDepositWrapper"
        0xfac571b6054619053ac311da8112939c9a374a85 pcv
    ∷ entry "compoundDaiPCVDepositWrapper" "PCVDepositWrapper"
        0xfde7077aaecdaf2c4b85261aa858c96a7e737a61 pcv
    ∷ entry "compoundEthPCVDepositWrapper" "PCVDepositWrapper"
        0x0735e14d28ed395048d5fa4a8dbe6e6eb9fc0470 deprecated
    ∷ entry "feiBuybackLensNoFee" "BPTLens" 0x89dfbc12001b41985efabd7dfcae6a77b22e4ec3 pcv
    ∷ entry "feiOATimelockWrapper" "PCVDepositWrapper" 0x7eb88140af813294aedce981b6ac08fcd139d408
        pcv
    ∷ entry "rariPool19FeiPCVDepositWrapper" "PCVDepositWrapper"
        0x7e39bba9d0d967ee55524fae9e54900b02d9889a deprecated
    ∷ entry "rariPool24FeiPCVDepositWrapper" "PCVDepositWrapper"
        0x508f6fbd78b6569c29e9d75986a51558de9e5865 deprecated
    ∷ entry "rariPool6FeiPCVDepositWrapper" "PCVDepositWrapper"
        0x7aa4b1558c3e219cfffd6a356421c071f71966e7 deprecated
    ∷ entry "rariPool79FeiPCVDepositWrapper" "PCVDepositWrapper"
        0xb3a026b830796e43bfc8b135553a7573538ab341 pcv
    ∷ entry "rariPool128FeiPCVDepositWrapper" "PCVDepositWrapper"
        0xa62ddde8f799873e6fcdbb3acbba75da85d9dcde pcv
    ∷ entry "rariPool22FeiPCVDepositWrapper" "PCVDepositWrapper"
        0xa2bdbcb95d31c85bae6f0fa42d55f65d609d94ee pcv
    ∷ entry "wethDepositWrapper" "ERC20PCVDepositWrapper" 0x5e9fa7d783a7f7d4626ce450c8bd2ebbb26dfdb2
        deprecated
    ∷ []

unfoldable pub from_ag_eur_deposit_wrapper : List (String × ContractConfig)
from_ag_eur_deposit_wrapper =
    entry "agEurDepositWrapper" "ERC20PCVDepositWrapper" 0x485d23ce5725ecde46ca9033012984d90b514ffd
      deprecated
    ∷ entry "voltDepositWrapper" "ERC20PCVDepositWrapper" 0x564efce5c6873219a7fbe450187c23254e3d62a4
        pcv
    ∷ entry "uniswapLensAgEurUniswapGauge" "UniswapLens" 0xd2554839c2e8a87dd2cddd013ef828b6534abc26
        pcv
    ∷ entry "compoundFeiPCVDepositWrapper" "PCVDepositWrapper"
        0xb80b3dc4f8b30589477b2ba0e4ef2b8224bdf0a5 pcv
    ∷ entry "aaveEthPCVDeposit" "AavePCVDeposit" 0x5b86887e171bae0c2c826e87e34df8d558c079b9
        deprecated
    ∷ entry "aaveFeiPCVDeposit" "AavePCVDeposit" 0xafbd7bd91b4c1dd289ee47a4f030fbedfa7abc12 pcv_v1
    ∷ entry "compoundDaiPCVDeposit" "ERC20CompoundPCVDeposit"
        0xe0f73b8d76d2ad33492f995af218b03564b8ce20 pcv_v1
    ∷ entry "compoundEthPCVDeposit" "EthCompoundPCVDeposit"
        0x4fcb1435fd42ce7ce7af3cb2e98289f79d2962b3 deprecated
    ∷ entry "indexDelegator" "SnapshotDelegatorPCVDeposit"
        0x0ee81df08b20e4f9e0f534e50da437d24491c4ee pcv_v1
    ∷ entry "rariPool22FeiPCVDeposit" "ERC20CompoundPCVDeposit"
        0x7cebab7b4b4399343f6d0d36b550ee097f60d7fe pcv_v1
    ∷ entry "rariPool24FeiPCVDeposit" "ERC20CompoundPCVDeposit"
        0x1434f99edb2bd03decccfe21288767b8324b7403 deprecated
    ∷ entry "rariPool128FeiPCVDeposit" "ERC20CompoundPCVDeposit"
        0x02101960b3b317839254a17ba54a811a087cb3a0 pcv_v1
    ∷ entry "rariPool19FeiPCVDeposit" "ERC20CompoundPCVDeposit"
        0xd6960adba53212bbe96e54a7afeda2066437d000 deprecated
    ∷ entry "rariPool6FeiPCVDeposit" "ERC20CompoundPCVDeposit"
        0xb51f09b6f103d697dc5d64dc904ad6a2dad39987 deprecated
    ∷ entry "rariPool8FeiPCVDeposit" "ERC20CompoundPCVDeposit"
        0x37349d9cc523d28e6abfc03fc5f44879bc8bffd9 pcv_v1
    ∷ entry "rariPool79FeiPCVDeposit" "ERC20CompoundPCVDeposit"
        0x76dfcf06e7d7b8248094dc319b284fb244f06309 pcv_v1
    ∷ entry "gaugeLensBpt30Fei70WethGauge" "CurveGaugeLens"
        0xd9fc482e0af8fd509699f1074d72d137cac94d5b pcv_v1
    ∷ entry "convexPoolPCVDeposit" "ERC20CompoundPCVDeposit"
        0x525ea5983a2e02aba8aa0be7d15cd73150812379 pcv_v1
    ∷ entry "compoundFeiPCVDeposit" "PCVDeposit" 0xe1f2a7342459b54fbfea9f40695cdd46efadeeee pcv_v1
    ∷ entry "agEurAngleUniswapPCVDeposit" "AngleUniswapPCVDeposit"
        0x7ac2ab8143634419c5bc230a9f9955c3e29f64ef pcv_v1
    ∷ entry "balUsdCompositeOracle" "CompositeOracle" 0xde0407851aec6f073a63d27c7d29805ccd59d3e0
        oracle
    ∷ entry "chainlinkBALEthOracle" "ChainlinkOracleWrapper"
        0x7261d245454daa070c77b2a26ea192e3a4c8f655 oracle
    ∷ entry "chainlinkCREAMEthOracle" "ChainlinkOracleWrapper"
        0xde02522cdc4959117fe839a7326d80f9858f383c oracle
    ∷ entry "chainlinkDaiUsdOracleWrapper" "ChainlinkOracleWrapper"
        0x231ada12e273edf3fa54cbd90c5c1a73129d5bb9 oracle
    ∷ entry "chainlinkDpiUsdOracleWrapper" "ChainlinkOracleWrapper"
        0xb594d2bd55ede471e16b92ae6f7651648da871c3 oracle
    ∷ entry "chainlinkEthUsdOracleWrapper" "ChainlinkOracleWrapper"
        0xcd3c40ae1256922ba16c7872229385e20bc8351e oracle
    ∷ entry "chainlinkStEthUsdOracleWrapper" "ChainlinkOracleWrapper"
        0x011d15600671530c93818fdb1283e20748cb8c73 oracle
    ∷ entry "compositeStEthEthOracle" "CompositeOracle" 0x16a26876835cb3b06d948e7d166835ab28896a71
        oracle
    ∷ []
