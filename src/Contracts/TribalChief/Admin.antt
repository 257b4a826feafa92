-- ===== src/Contracts/TribalChief/Admin.antt =====
-- The functions that update the pools' rewards and that administer the pools. Events are left out.
use fei_protocol_core.Prelude.{
  ℕ, ◌*◌, ◌^◌, Bool, true, false, not, ◌&&◌, List, [], ◌∷◌, ◌++◌, ltb, leb, ◌==◌, if◌then◌else◌,
  set as write, length, ok, require, ◌>>=◌, ◌>>◌,
}
use fei_protocol_core.Contracts.Evm.{Call, reason, add, sub, mul, div, to_uint128, index}
use fei_protocol_core.Contracts.CoreRef.{Context, only_governor_or_admin, only_guardian_or_governor}
use fei_protocol_core.Contracts.TribalChief.Storage.{PoolInfo, RewardData, Chief}

-- The new `accTribePerShare`: what the pool earned in the blocks since its last update, by share.
unfoldable pub accrued : Context → Chief → PoolInfo → Call ℕ
accrued c s pool =
    if ltb 0 pool.virtual_total_supply && not (s.total_alloc_point == 0)
    then (do
      blocks ← sub c.block_number pool.last_reward_block
      rate ← mul blocks s.tribe_per_block
      share ← mul rate pool.alloc_point
      reward ← div share s.total_alloc_point
      scaled ← mul reward s.acc_tribe_precision
      by_share ← div scaled pool.virtual_total_supply
      add pool.acc_tribe_per_share by_share)
    else ok pool.acc_tribe_per_share

-- the body of `updatePool`, for the pool that is read
unfoldable pub update_found : Context → ℕ → Chief → PoolInfo → Call Chief
unfolding accrued to_uint128
update_found c pid s pool =
    if ltb pool.last_reward_block c.block_number
    then (do
      acc ← accrued c s pool
      last ← to_uint128 c.block_number
      ok (record s {
        pool_info =
            write s.pool_info pid
              (record pool { acc_tribe_per_share = acc; last_reward_block = last });
      }))
    else ok s

-- `updatePool`
unfoldable pub update_pool : Context → ℕ → Chief → Call Chief
unfolding update_found index
update_pool c pid s = do pool ← index s.pool_info pid; update_found c pid s pool

-- `massUpdatePools`
unfoldable pub mass_update_pools : Context → List ℕ → Chief → Call Chief
unfolding update_pool
mass_update_pools c [] s = ok s
mass_update_pools c (pid ∷ pids) s = do next ← update_pool c pid s; mass_update_pools c pids next

-- `updateBlockReward`
unfoldable pub update_block_reward : Context → ℕ → Chief → Call Chief
update_block_reward c new_block_reward s = do
  only_governor_or_admin c
  if c.is_contract_admin
      then require (ltb new_block_reward s.tribe_per_block)
          (reason "TribalChief: admin can only lower reward rate")
      else ok tt
  ok (record s { tribe_per_block = new_block_reward })

abbrev pub set_unlocked : Bool → ℕ → Chief → Call Chief
set_unlocked unlocked pid s = do
  pool ← index s.pool_info pid
  ok (record s { pool_info = write s.pool_info pid (record pool { unlocked = unlocked }) })

-- `lockPool` and `unlockPool`
unfoldable pub lock_pool : Context → ℕ → Chief → Call Chief
unfolding index
lock_pool c pid s = only_governor_or_admin c >> set_unlocked false pid s

unfoldable pub unlock_pool : Context → ℕ → Chief → Call Chief
unfolding index
unlock_pool c pid s = only_governor_or_admin c >> set_unlocked true pid s

abbrev pub write_multiplier : ℕ → ℕ → ℕ → (ℕ → ℕ → ℕ) → ℕ → ℕ → ℕ
write_multiplier pid lock_length multiplier table p l =
    if p == pid && l == lock_length then multiplier else table p l

-- `governorAddPoolMultiplier`
unfoldable pub governor_add_pool_multiplier : Context → ℕ → ℕ → ℕ → Chief → Call Chief
unfolding index
governor_add_pool_multiplier c pid lock_length multiplier s = do
  only_governor_or_admin c
  pool ← index s.pool_info pid
  next ←
      if ltb (s.reward_multipliers pid lock_length) multiplier
      then set_unlocked true pid s
      else ok s
  ok (record next {
    reward_multipliers = write_multiplier pid lock_length multiplier next.reward_multipliers;
  })

-- The loop of `add` over the reward data.
unfoldable pub add_multipliers : ℕ → List RewardData → Chief → Call Chief
add_multipliers pid [] s = ok s
add_multipliers pid (d ∷ rest) s = do
  if d.lock_length == 0
      then require (d.reward_multiplier == s.scale_factor)
          (reason "invalid multiplier for 0 lock length")
      else require (leb s.scale_factor d.reward_multiplier)
          (reason "invalid multiplier, must be above scale factor")
  add_multipliers pid rest (record s {
    reward_multipliers =
        write_multiplier pid d.lock_length d.reward_multiplier s.reward_multipliers;
  })

-- the pool that `add` pushes
abbrev pub empty_pool : ℕ → ℕ → PoolInfo
empty_pool alloc_point last = record {
  virtual_total_supply = 0;
  acc_tribe_per_share = 0;
  last_reward_block = last;
  alloc_point = alloc_point;
  unlocked = false;
}

-- `add`
unfoldable pub add_pool : Context → ℕ → ℕ → ℕ → List RewardData → Chief → Call Chief
unfolding to_uint128 add add_multipliers
add_pool c alloc_point staked_token rewarder reward_data s = do
  only_governor_or_admin c
  require (ltb 0 alloc_point) (reason "pool must have allocation points to be created")
  last ← to_uint128 c.block_number
  total ← add s.total_alloc_point alloc_point
  require (not (length reward_data == 0)) (reason "must specify rewards")
  next ← add_multipliers (length s.pool_info) reward_data (record s {
    total_alloc_point = total;
    staked_token = s.staked_token ++ staked_token ∷ [];
    rewarder = s.rewarder ++ rewarder ∷ [];
  })
  ok (record next { pool_info = next.pool_info ++ empty_pool alloc_point last ∷ [] })

-- the body of `set` after its call of `updatePool`
unfoldable pub reallocate : ℕ → ℕ → ℕ → Bool → Chief → Call Chief
unfolding sub add index
reallocate pid alloc_point rewarder overwrite s = do
  pool ← index s.pool_info pid
  others ← sub s.total_alloc_point pool.alloc_point
  total ← add others alloc_point
  require (ltb 0 total) (reason "total allocation points cannot be 0")
  old ← index s.rewarder pid
  ok (record s {
    total_alloc_point = total;
    pool_info = write s.pool_info pid (record pool { alloc_point = alloc_point });
    rewarder = write s.rewarder pid (if overwrite then rewarder else old);
  })

-- `set`
unfoldable pub set : Context → ℕ → ℕ → ℕ → Bool → Chief → Call Chief
unfolding update_pool reallocate
set c pid alloc_point rewarder overwrite s = do
  only_governor_or_admin c
  updated ← update_pool c pid s
  reallocate pid alloc_point rewarder overwrite updated

-- the body of `resetRewards` after its call of `updatePool`
unfoldable pub deallocate : ℕ → Chief → Call Chief
unfolding sub index
deallocate pid s = do
  pool ← index s.pool_info pid
  others ← sub s.total_alloc_point pool.alloc_point
  old ← index s.rewarder pid
  ok (record s {
    total_alloc_point = others;
    pool_info = write s.pool_info pid (record pool { alloc_point = 0; unlocked = true });
    rewarder = write s.rewarder pid 0;
  })

-- `resetRewards`
unfoldable pub reset_rewards : Context → ℕ → Chief → Call Chief
unfolding update_pool deallocate
reset_rewards c pid s = do
  only_guardian_or_governor c
  updated ← update_pool c pid s
  deallocate pid updated

-- `initialize`, without the addresses that it stores: the storage of a new contract, and its rate and
-- its scales.
unfoldable pub initialize : Chief
initialize = record {
  pool_info = [];
  staked_token = [];
  rewarder = [];
  reward_multipliers = λ pid lock_length. 0;
  total_alloc_point = 0;
  tribe_per_block = 75 * 10 ^ 18;
  acc_tribe_precision = 10 ^ 23;
  scale_factor = 10 ^ 4;
}

-- A call of one of these functions.
pub data Operation : Type 0 where
  update : ℕ → Operation
  mass_update : List ℕ → Operation
  block_reward : ℕ → Operation
  lock unlock reset : ℕ → Operation
  pool_multiplier : ℕ → ℕ → ℕ → Operation
  new_pool : ℕ → ℕ → ℕ → List RewardData → Operation
  set_pool : ℕ → ℕ → ℕ → Bool → Operation

unfoldable pub perform : Context → Operation → Chief → Call Chief
unfolding update_pool mass_update_pools update_block_reward lock_pool unlock_pool reset_rewards
    governor_add_pool_multiplier add_pool set
perform c (update pid) s = update_pool c pid s
perform c (mass_update pids) s = mass_update_pools c pids s
perform c (block_reward amount) s = update_block_reward c amount s
perform c (lock pid) s = lock_pool c pid s
perform c (unlock pid) s = unlock_pool c pid s
perform c (reset pid) s = reset_rewards c pid s
perform c (pool_multiplier pid lock_length multiplier) s =
    governor_add_pool_multiplier c pid lock_length multiplier s
perform c (new_pool alloc_point token rewarder reward_data) s =
    add_pool c alloc_point token rewarder reward_data s
perform c (set_pool pid alloc_point rewarder overwrite) s =
    set c pid alloc_point rewarder overwrite s
