-- ===== src/Config/MainnetAddresses/FromCore.antt =====
-- protocol-configuration/mainnetAddresses.ts, from `core` to `dpiToDaiLensDpi`.
use fei_protocol_core.Prelude.{String, List, [], ◌∷◌}
use fei_protocol_core.Types.{
  ContractConfig, core, deprecated, governance, pcv, peg, security, utility,
}
use fei_protocol_core.Config.Entry.{entry}

unfoldable pub from_core : List (String × ContractConfig)
from_core =
    entry "core" "Core" 0x8d5ed43dca8c2f7dfb20cf7b53cc7e593635d7b9 core
    ∷ entry "fei" "Fei" 0x956f47f50a910163d8bf957cf5846d573e7f87ca core
    ∷ entry "proxyAdmin" "ProxyAdmin" 0xf8c2b645988b7658e7748ba637fe25bdd46a704a core
    ∷ entry "tribe" "Tribe" 0xc7283b66eb1eb5fb86327f08e1b5816b0720212b core
    ∷ entry "tribeMinter" "TribeMinter" 0xfc3532b443383d9022b1b2c6fd5fd0895943360a core
    ∷ entry "restrictedPermissions" "RestrictedPermissions"
        0x10ffa0cd36bc16b355d21a08df4a552c4a9fec10 core
    ∷ entry "pcvSentinel" "PCVSentinel" 0xc297705acf50134d256187c754b92fa37826c019 security
    ∷ entry "pcvGuardian" "PCVGuardian" 0x02435948f84d7465fb71de45aba6098fc6ec2993 security
    ∷ entry "guardianMultisig" "unknown" 0xb8f482539f2d3ae2c9ea6076894df36d1f632775 security
    ∷ entry "fuseWithdrawalGuard" "FuseWithdrawalGuard" 0xd079ec4b442600a381eac7e95662eb1b313cd113
        security
    ∷ entry "ratioPCVControllerV2" "RatioPCVControllerV2" 0x221fff24fb66da3c722c7c5b856956a6a30c0179
        utility
    ∷ entry "ethToDaiLBPSwapper" "BalancerLBPSwapper" 0xf7991f4698ffb6716982aec7f78964dd731c4a54
        utility
    ∷ entry "dpiToDaiLBPSwapper" "BalancerLBPSwapper" 0x05fd907528cf725c6f6d1d28e14619a313513ba8
        deprecated
    ∷ entry "fuseFixer" "FuseFixer" 0xfe7547f583aae1212e72e063aac25057c06c4797 utility
    ∷ entry "optimisticMinter" "OwnableTimedMinter" 0xe66c4de480bd317054b5a3cf8e8689649d0728c9
        deprecated
    ∷ entry "noFeeFeiTribeLBPSwapper" "BalancerLBPSwapper"
        0xc05faf6c5c4bc1bd841adfc92b3d3f20180f26e8 utility
    ∷ entry "pcvEquityMinter" "PCVEquityMinter" 0x904deb2dac1edfcbbb69b9c279ae5f75e57cf5e9 utility
    ∷ entry "aaveEthPCVDripController" "PCVDripController"
        0xb3d63876d95d3a5e591d4de536dc410b97244086 deprecated
    ∷ entry "daiPCVDripController" "PCVDripController" 0x3e0f66c5687ff917809a3f7fa7096e1bc409fb03
        utility
    ∷ entry "raiPCVDripController" "PCVDripController" 0x64d216dfbe31d0c88bbcadff51ab2ad704a3aad9
        deprecated
    ∷ entry "lusdPSMFeiSkimmer" "FeiSkimmer" 0xfc29429d8c8d80320c4ab454131f741f56239c2b utility
    ∷ entry "lusdPCVDripController" "PCVDripController" 0x59fa1bb4fbd7fcb055476645f228f13ac14754a8
        deprecated
    ∷ entry "collateralizationOracleKeeper" "CollateralizationOracleKeeper"
        0x62378c316a6161a613d02e11f65290aed79b3ed5 deprecated
    ∷ entry "feiDAO" "FeiDAO" 0x0bef27feb58e857046d630b2c03dfb7bae567494 governance
    ∷ entry "feiDAOTimelock" "FeiDAOTimelock" 0xd51dba7a94e1adea403553a8235c302cebf41a3c governance
    ∷ entry "optimisticMultisig" "unknown" 0x35ed000468f397aa943009bd60cc6d2d9a7d32ff governance
    ∷ entry "optimisticTimelock" "OptimisticTimelock" 0xbc9c084a12678ef5b516561df902fdc426d95483
        governance
    ∷ entry "rariTimelock" "Timelock" 0x8ace03fc45139fddba944c6a4082b604041d19fc governance
    ∷ []

unfoldable pub from_tribe_rari_dao : List (String × ContractConfig)
from_tribe_rari_dao =
    entry "tribeRariDAO" "FeiDAO" 0x637deeed4e4deb1d222650bd4b64192abf002c00 governance
    ∷ entry "opsOptimisticTimelock" "OptimisticTimelock" 0x7dc26a320a9f70db617e24b77aca1d3dc48c5721
        deprecated
    ∷ entry "weightedBalancerPoolManagerBase" "WeightedBalancerPoolManagerBase"
        0x75b984d8ad22007923b03b5d40daa1917ef35313 governance
    ∷ entry "veBalDelegatorPCVDeposit" "VeBalDelegatorPCVDeposit"
        0xc4eac760c2c631ee0b064e39888b89158ff808b2 governance
    ∷ entry "balancerGaugeStaker" "BalancerGaugeStaker" 0x66977ce30049cd0e443216bf26377966c3a109e2
        governance
    ∷ entry "balancerGaugeStakerImpl" "BalancerGaugeStaker"
        0xf53e251352683155898295569d77b8506ba00d80 governance
    ∷ entry "angleDelegatorPCVDeposit" "AngleDelegatorPCVDeposit"
        0xb91f96b7c62fe4a2301219956cc023fa7892f0c0 governance
    ∷ entry "rariGovernanceProxyAdmin" "ProxyAdmin" 0x1c9aa54a013962c2444ecae06902f31d532c6ad3
        governance
    ∷ entry "podExecutorV2" "PodExecutor" 0xc72e814314e79114354f1682111e07015826080d governance
    ∷ entry "podAdminGateway" "PodAdminGateway" 0xdde8aa537c5b289de9cede462e6f0ec3a3a99e39
        governance
    ∷ entry "podFactory" "PodFactory" 0x4b2c8894d29d05dbc0d5a1ce23535be08d844819 governance
    ∷ entry "governanceMetadataRegistry" "GovernanceMetadataRegistry"
        0xd78cd3aae6168be43b548877aac68312b9df9afb governance
    ∷ entry "nopeDAO" "NopeDAO" 0x6c7af43ce97686e0c8acbbc03b2e4f313c0394c7 governance
    ∷ entry "tribalCouncilTimelock" "TimelockController" 0xe0c7de94395b629860cbb3c42995f300f56e6d7a
        governance
    ∷ entry "tribalCouncilSafe" "unknown" 0x2ec598d8e3df35e5d6f13ae2f05a7bb2704e92ea governance
    ∷ entry "roleBastion" "RoleBastion" 0x8096314d9014ebb69fc777ed3791dde6ffbafaed governance
    ∷ entry "tribalCouncilTimelockFeiLens" "ERC20PCVDepositWrapper"
        0x4037a70152f4c88ad40522f35bd4ddd17e6b2052 pcv
    ∷ entry "rariTimelockFeiOldLens" "ERC20PCVDepositWrapper"
        0x614d46b7eb2ac1a359b8835d64954f3ee4e6f676 pcv
    ∷ entry "lusdPSM" "PegStabilityModule" 0xb0e731f036adfdec12da77c15aab0f90e8e45a0e peg
    ∷ entry "raiPriceBoundPSM" "PriceBoundPSM" 0x5dde9b4b14edf59cb23c1d4579b279846998205e deprecated
    ∷ entry "ethPSM" "PegStabilityModule" 0x98e5f5706897074a4664dd3a32eb80242d6e694b peg
    ∷ entry "ethPSMRouter" "PSMRouter" 0xfa6a07f3551bf0cee88d494780ce793af452cbca peg
    ∷ entry "tribeReserveStabilizer" "TribeReserveStabilizer"
        0xe1a468418f4d8d3f070a06d49b3575a9562b6cfd peg
    ∷ entry "ethPSMFeiSkimmer" "FeiSkimmer" 0xa8a25f8cbfc5053241ab6fa87b865755dcb5501f peg
    ∷ entry "daiFixedPricePSM" "FixedPricePSM" 0x2a188f9eb761f70ecea083ba6c2a40145078dfc2 peg
    ∷ entry "daiFixedPricePSMFeiSkimmer" "FeiSkimmer" 0xe49b608663eeb89f1e3abbe75744e5318f85029c peg
    ∷ entry "dpiToDaiLensDai" "BPTLens" 0x3aa57faf7114a9ebebda73a997a35eae06008a7b deprecated
    ∷ entry "dpiToDaiLensDpi" "BPTLens" 0xaddb7ebdca3fa3b72d2e57c8e660c90ec00af7cc deprecated
    ∷ []
