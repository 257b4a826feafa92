-- ===== src/Config/TribalChiefPools.antt =====
-- protocol-configuration/tribalchief.ts: the pools of the TribalChief, in the order of their ids.
use fei_protocol_core.Prelude.{ℕ, String, Bool, true, false, [], ◌∷◌}
use fei_protocol_core.Types.{TribalChiefPoolConfig, TribalChiefConfig}

abbrev pool : String → ℕ → Bool → String × TribalChiefPoolConfig
pool name points unlocked = (name, record { alloc_point = points; unlocked = unlocked })

unfoldable pub tribal_chief_config : TribalChiefConfig
tribal_chief_config =
    pool "feiTribePair" 1 false
    ∷ pool "curveFei3crvMetapool" 0 false
    ∷ pool "gUniFeiDaiLP" 0 true
    ∷ pool "stakingTokenWrapperRari" 0 false
    ∷ pool "stakingTokenWrapperGROLaaS" 0 false
    ∷ pool "stakingTokenWrapperFOXLaaS" 0 false
    ∷ pool "stakingTokenWrapperUMALaaS" 0 false
    ∷ pool "stakingTokenWrapperSYNLaaS" 0 false
    ∷ pool "stakingTokenWrapperNEARLaaS" 0 false
    ∷ pool "stakingTokenWrapperKYLINLaaS" 0 false
    ∷ pool "stakingTokenWrapperMStableLaaS" 0 false
    ∷ pool "stakingTokenWrapperPoolTogetherLaaS" 0 false
    ∷ pool "stakingTokenWrapperBribeD3pool" 0 false
    ∷ pool "d3StakingTokenWrapper" 0 false
    ∷ pool "fei3CrvStakingtokenWrapper" 0 false
    ∷ pool "feiDaiStakingTokenWrapper" 0 false
    ∷ pool "feiUsdcStakingTokenWrapper" 0 false
    ∷ pool "stakingTokenWrapperBribe3Crvpool" 0 false
    ∷ []
