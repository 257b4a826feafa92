-- ===== src/Contracts/TribalChief/Storage.antt =====
-- The contract's storage. A mapping is a function.
use fei_protocol_core.Prelude.{ℕ, Bool, List}

pub record PoolInfo : Type 0 where
  pub virtual_total_supply : ℕ
  pub acc_tribe_per_share : ℕ
  pub last_reward_block : ℕ
  pub alloc_point : ℕ
  pub unlocked : Bool

pub record RewardData : Type 0 where
  pub lock_length : ℕ
  pub reward_multiplier : ℕ

-- The variables that the allocation of rewards to pools reads and writes; addresses are numbers.
pub record Chief : Type 0 where
  pub pool_info : List PoolInfo
  pub staked_token : List ℕ
  pub rewarder : List ℕ
  pub reward_multipliers : ℕ → ℕ → ℕ
  pub total_alloc_point : ℕ
  pub tribe_per_block : ℕ
  pub acc_tribe_precision : ℕ
  pub scale_factor : ℕ
