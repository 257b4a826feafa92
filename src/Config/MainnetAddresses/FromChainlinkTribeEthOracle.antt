-- ===== src/Config/MainnetAddresses/FromChainlinkTribeEthOracle.antt =====
-- protocol-configuration/mainnetAddresses.ts, from `chainlinkTribeEthOracle` to `rgt`.
use fei_protocol_core.Prelude.{String, List, [], ◌∷◌}
use fei_protocol_core.Types.{ContractConfig, external}
use fei_protocol_core.Config.Entry.{entry}

unfoldable pub from_chainlink_tribe_eth_oracle : List (String × ContractConfig)
from_chainlink_tribe_eth_oracle =
    entry "chainlinkTribeEthOracle" "unknown" 0x84a24deca415acc0c395872a9e6a63e27d6225c8 external
    ∷ entry "communalFarm" "unknown" 0x0639076265e9f88542c91dcdeda65127974a5ca5 external
    ∷ entry "compoundDai" "unknown" 0x5d3a536e4d6dbd6114cc1ead35777bab948e3643 external
    ∷ entry "compoundEth" "unknown" 0x4ddc2d193948926d02f9b1fe9e1daa0718270ed5 external
    ∷ entry "convexBooster" "IConvexBooster" 0xf403c135812408bfbe8713b5a23a04b3d48aae31 external
    ∷ entry "convexD3poolRewards" "IConvexBaseRewardPool" 0x329cb014b562d5d42927cff0dedf4c13ab0442ef
        external
    ∷ entry "cream" "IERC20" 0x2ba592f78db6436527729929aaf6c908497cb200 external
    ∷ entry "creamFei" "CErc20Delegator" 0x8c3b7a4320ba70f8239f83770c4015b5bc4e6f91 external
    ∷ entry "crv" "IERC20" 0xd533a949740bb3306d119cc777fa900ba034cd52 external
    ∷ entry "curve3crv" "unknown" 0x6c3f90f043a72fa612cbac8115ee7e52bde6e490 external
    ∷ entry "curve3pool" "unknown" 0xbebc44782c7db0a1a60cb6fe97d0b483032ff1c7 external
    ∷ entry "curveD3pool" "ICurveStableSwap3" 0xbaaa1f5dba42c3389bdbc2c9d2de134f5cd0dc89 external
    ∷ entry "curveStethPool" "IStableSwapSTETH" 0xdc24316b9ae028f1497c275eb9192a3ea0f67022 external
    ∷ entry "curveFei3crvMetapool" "IERC20" 0x06cb22615ba53e60d67bf6c341a0fd5e718e1655 external
    ∷ entry "cvx" "IERC20" 0x4e3fbd56cd56c3e72c1403e103b45db9da5b9d2b external
    ∷ entry "dai" "IERC20" 0x6b175474e89094c44da98b954eedeac495271d0f external
    ∷ entry "dpi" "IERC20" 0x1494ca1f11d487c2bbe4543e90080aeba4ba3c2b external
    ∷ entry "feiEthPair" "IUniswapV2Pair" 0x94b0a3d511b6ecdb17ebf877278ab030acb0a878 external
    ∷ entry "feiLusdLBP" "IWeightedPool" 0xede4efcc5492cf41ed3f0109d60bc0543cfad23a external
    ∷ entry "feiTribeLBP" "IWeightedPool" 0xc1382fe6e17bcdbc3d35f73f5317fbf261ebeecd external
    ∷ entry "feiTribePair" "IUniswapV2Pair" 0x9928e4046d7c6513326ccea028cd3e7a91c7590a external
    ∷ entry "fuseFeeDistributor" "IFuseFeeDistributor" 0xa731585ab05fc9f83555cf9bff8f58ee94e18f85
        external
    ∷ entry "fuseMultisig" "unknown" 0x5ea4a9a7592683bf0bc187d6da706c6c4770976f external
    ∷ entry "frax" "IERC20" 0x853d955acef822db058eb8505911ed77f175b99e external
    ∷ entry "gfxAddress" "unknown" 0xa6e8772af29b29b9202a073f8e36f447689beef6 external
    ∷ entry "gUniFeiDaiLP" "unknown" 0x3d1556e84783672f2a3bd187a592520291442539 external
    ∷ entry "gUniFeiUsdcLP" "unknown" 0xcf84a3dc12319531e3debd48c86e68eaeaff224a external
    ∷ entry "idleBestYield" "IIdleToken" 0xb2d5cb72a621493fe83c6885e4a776279be595bc external
    ∷ []

unfoldable pub from_idle_tranches : List (String × ContractConfig)
from_idle_tranches =
    entry "idleTranches" "IERC20" 0x9ce3a740df498646939bcbb213a66bbfa1440af6 external
    ∷ entry "idleTranchesMinter" "IIdleTrancheMinter" 0x77648a2661687ef3b05214d824503f6717311596
        external
    ∷ entry "hypervisor" "IHypervisor" 0x704ececabe7855996cede5cefa660eccd3c01dbe external
    ∷ entry "index" "IERC20" 0x0954906da0bf32d5479e25f46056d22f08464cab external
    ∷ entry "kashiFeiDPI" "IKashiPair" 0xf352773f1d4d69deb4de8d0578e43b993ee76e5d external
    ∷ entry "kashiFeiEth" "IKashiPair" 0x329efec40f58054fc2f2cd4fd65809f2be3e11c8 external
    ∷ entry "kashiFeiTribe" "IKashiPair" 0x18c9584d9ce56a0f62f73f630f180d5278c873b7 external
    ∷ entry "kashiFeiXSushi" "IKashiPair" 0xf2028069cd88f75fcbcfe215c70fe6d77cb80b10 external
    ∷ entry "liquityFusePoolLusd" "CErc20Delegator" 0x5052bfbb7972e702179f3eeed43b9213819b681a
        external
    ∷ entry "lqty" "IERC20" 0x6dea81c8171d0ba574754ef6f8b412f2ed88c54d external
    ∷ entry "lusd" "IERC20" 0x5f98805a4e8be255a32880fdec7f6728c6568ba0 external
    ∷ entry "masterKashi" "unknown" 0x2cba6ab6574646badc84f0544d05059e57a5dc42 external
    ∷ entry "multisend" "IERC20Airdropper" 0x0b36b0f351ea8383506f596743a2da7dca204cc3 external
    ∷ entry "rai" "IERC20" 0x03ab458634910aad20ef5f1c8ee96f1d6ac54919 external
    ∷ entry "rariPool18Fei" "CErc20Delegator" 0x17b1a2e012cc4c31f83b90ff11d3942857664efc external
    ∷ entry "rariPool19Dpi" "CErc20Delegator" 0xf06f65a6b7d2c401fcb8b3273d036d21fe2a5963 external
    ∷ entry "rariPool19Fei" "CErc20Delegator" 0x04281f6715dea6a8ebbce143d86ea506ff326531 external
    ∷ entry "rariPool22Fei" "CErc20Delegator" 0x653a32ed7aaa3db37520125cdb45c17adb3fdf01 external
    ∷ entry "rariPool24Fei" "CErc20Delegator" 0xb5a817e5354736eafe3a0c85620433ee75daa649 external
    ∷ entry "rariPool25Fei" "CErc20Delegator" 0xe468d0244d75b9b18b27cb682aec3ab35d33663b external
    ∷ entry "rariPool26Fei" "CErc20Delegator" 0x38ee94fcf276cee403f4645341f80e671d25b352 external
    ∷ entry "rariPool27Fei" "CErc20Delegator" 0xda396c927e3e6bef77a98f372ce431b49edec43d external
    ∷ entry "rariPool6Fei" "CErc20Delegator" 0x185ab80a77d362447415a5b347d7cd86ecacc87c external
    ∷ entry "rariPool7Fei" "CErc20Delegator" 0xe640e9bec342b86266b2bd79f3847e7958cb30c4 external
    ∷ entry "rariPool9Fei" "CErc20Delegator" 0x11a9f6ae6b36b4b820777d05b90cd6cccb1cda31 external
    ∷ entry "rariPool9Rai" "CErc20Delegator" 0x752f119bd4ee2342ce35e2351648d21962c7cafe external
    ∷ entry "reptb" "IERC20" 0x6c806eddad78a5505fce27b18c6f859fc9739bec external
    ∷ entry "rgt" "ERC20VotesComp" 0xd291e7a03283640fdc51b121ac401383a46cc623 external
    ∷ []
