-- ===== src/Contracts/TribalChief/Staking/Emergency.antt =====
-- When `emergencyWithdraw` succeeds.
use fei_protocol_core.Prelude.{
  ℕ, suc, ◌+◌, ◌-◌, ◌*◌, ◌/◌, ◌≤◌, ◌<◌, ◌≡◌, refl, sym, ◌∙◌, ap, ap₂, true, List, [], ◌∷◌, ◌++◌,
  some, arith, All, get_elem?, ok, set as write, get_elem?-set_self, lt-length_of_get_elem?,
}
use fei_protocol_core.Contracts.Evm.{
  uint256_mod, uint128_mod, add_ok, sub_ok, mul_ok, div_ok, index_ok,
}
use fei_protocol_core.Contracts.CoreRef.{Context}
use fei_protocol_core.Contracts.TribalChief.{PoolInfo, Chief, update_pool}
use fei_protocol_core.Contracts.TribalChief.Allocation.{
  Updated, unchanged, accrues, update_pool-Updated,
}
use fei_protocol_core.Contracts.TribalChief.Updates.{IsBounded, update_pool_ok}
use fei_protocol_core.Contracts.TribalChief.Staking.{
  DepositInfo, Staking, transfer, no_user, notify, store, mul_div, is_unlocked, unlock_all,
  emergency_withdraw, Action, run, new_staking,
}
use fei_protocol_core.Contracts.TribalChief.Staking.Supply.{
  le-total, value, supply_in, supply_of, virtual_of, IsBacked,
}
use fei_protocol_core.Contracts.TribalChief.Staking.Stores.{update_pool-KeepsSupply}
use fei_protocol_core.Contracts.TribalChief.Staking.Backing.{run-IsBacked}

-- The tokens that the deposits hold.
unfoldable pub staked : List DepositInfo → ℕ
staked [] = 0
staked (d ∷ ds) = d.amount + staked ds

-- The tokens of the caller's deposits in a pool, and what they count for.
abbrev pub staked_by : ℕ → Context → Staking → ℕ
staked_by pid c s = staked (s.deposit_info pid c.sender)

abbrev pub weight_of : ℕ → Context → Staking → ℕ
weight_of pid c s = value s.chief.scale_factor (s.deposit_info pid c.sender)

-- A deposit that can be withdrawn, and whose weight can be computed.
abbrev pub IsFree : Context → PoolInfo → DepositInfo → Type 0
IsFree c pool d = (is_unlocked c pool d ≡ true) × (d.amount * d.multiplier < uint256_mod)

mul_div_ok : (x y z : ℕ) → x * y < uint256_mod → 1 ≤ z → mul_div x y z ≡ ok (x * y / z)
unfolding mul_div
mul_div_ok x y z fits h = rw (mul_ok x y fits, div_ok (x * y) z h) refl

unlock_all_ok :
    (c : Context) (pool : PoolInfo) (scale : ℕ) (ds : List DepositInfo) (t d : ℕ)
    → 1 ≤ scale
    → All (IsFree c pool) ds
    → t + staked ds < uint256_mod
    → d + value scale ds < uint256_mod
    → unlock_all c pool scale ds t d ≡ ok (t + staked ds, d + value scale ds)
unfolding unlock_all staked value
unlock_all_ok c pool scale [] t d one free fits_t fits_d =
    ap₂ (λ x y. ok (x, y)) (omega arith) (omega arith)
unlock_all_ok c pool scale (x ∷ ds) t d one ((open_, fits), free) fits_t fits_d =
    let part = x.amount * x.multiplier / scale in
    let rest =
      unlock_all_ok c pool scale ds (t + x.amount) (d + part) one free (omega arith)
        (omega arith) in
    rw
      (
        open_,
        add_ok t x.amount (omega arith),
        mul_div_ok x.amount x.multiplier scale fits one,
        add_ok d part (omega arith),
        rest,
      )
      (ap₂ (λ x y. ok (x, y)) (omega arith) (omega arith))

Updated-unlocked :
    (c : Context) (pid : ℕ) (s s' : Chief) (p q : PoolInfo)
    → Updated c pid s s'
    → get_elem? s.pool_info pid ≡ some p
    → get_elem? s'.pool_info pid ≡ some q
    → q.unlocked ≡ p.unlocked
Updated-unlocked c pid s s' p q (unchanged same) before there = cc
Updated-unlocked c pid s s' p q (accrues pool acc last found same) before there =
    let x = record pool { acc_tribe_per_share = acc; last_reward_block = last } in
    let written =
      get_elem?-set_self s.pool_info pid x (lt-length_of_get_elem? s.pool_info pid found) in
    let pools : s'.pool_info ≡ write s.pool_info pid x = ap (λ k. k.pool_info) same in cc

-- What a user has in a pool that can be withdrawn at once: the pool and its addresses are there, its
-- update overflows nothing, and every deposit is free.
pub record IsWithdrawable (c : Context) (pid : ℕ) (s : Staking) : Type 0 where
  pub pool : PoolInfo
  pub rewarder : ℕ
  pub token : ℕ
  pub found : get_elem? s.chief.pool_info pid ≡ some pool
  pub rewards : get_elem? s.chief.rewarder pid ≡ some rewarder
  pub stakes : get_elem? s.chief.staked_token pid ≡ some token
  pub precise : 1 ≤ s.chief.acc_tribe_precision
  pub block_fits : c.block_number < uint128_mod
  pub bounded : IsBounded c s.chief pool
  pub supply_fits : pool.virtual_total_supply < uint256_mod
  pub staked_fits : staked (s.deposit_info pid c.sender) < uint256_mod
  pub free : All (IsFree c pool) (s.deposit_info pid c.sender)

IsFree-unlocked :
    (c : Context) (p q : PoolInfo) (ds : List DepositInfo)
    → q.unlocked ≡ p.unlocked
    → All (IsFree c p) ds
    → All (IsFree c q) ds
IsFree-unlocked c p q [] same free = tt
IsFree-unlocked c p q (d ∷ ds) same ((open_, fits), free) =
    ((rw same open_, fits), IsFree-unlocked c p q ds same free)

emergency_run :
    (c : Context) (pid to rewarder token amount delta : ℕ) (s : Staking) (chief : Chief)
    (pool : PoolInfo)
    → update_pool c pid s.chief ≡ ok chief
    → get_elem? chief.pool_info pid ≡ some pool
    → unlock_all c pool chief.scale_factor (s.deposit_info pid c.sender) 0 0 ≡ ok (amount, delta)
    → delta ≤ pool.virtual_total_supply
    → get_elem? chief.rewarder pid ≡ some rewarder
    → get_elem? chief.staked_token pid ≡ some token
    → emergency_withdraw c pid to s
      ≡ ok (
        store pid c.sender chief pool (pool.virtual_total_supply - delta) no_user [] s,
        notify rewarder pid c.sender to 0 0 ++ transfer token to amount ∷ [],
      )
unfolding emergency_withdraw
emergency_run c pid to rewarder token amount delta s chief pool updates found all less rewards
      stakes =
    rw
      (
        updates,
        index_ok chief.pool_info pid found,
        all,
        sub_ok pool.virtual_total_supply delta less,
        index_ok chief.rewarder pid rewards,
        index_ok chief.staked_token pid stakes,
      )
      refl

emergency_withdraw_ok :
    (c : Context) (pid to : ℕ) (s : Staking)
    → IsBacked s
    → (w : IsWithdrawable c pid s)
    → (s' : Staking) × (emergency_withdraw c pid to s
        ≡ ok (
          s',
          notify w.rewarder pid c.sender to 0 0
              ++ transfer w.token to (staked (s.deposit_info pid c.sender)) ∷ [],
        ))
      × (s'.deposit_info pid c.sender ≡ [])
      × (supply_of s'.chief pid + value s.chief.scale_factor (s.deposit_info pid c.sender)
          ≡ supply_of s.chief pid)
emergency_withdraw_ok c pid to s h w =
    let ds = s.deposit_info pid c.sender in
    let (chief, updates, u) =
      update_pool_ok c pid s.chief w.pool w.precise w.block_fits w.found w.bounded in
    let k = update_pool-KeepsSupply c pid s.chief chief updates in
    let unlocked =
      Updated-unlocked c pid s.chief chief w.pool u.pool
        (update_pool-Updated c pid s.chief chief updates) w.found u.there in
    let supply_is : u.pool.virtual_total_supply ≡ w.pool.virtual_total_supply =
      sym (ap supply_in u.there) ∙ k.supply pid ∙ ap supply_in w.found in
    let covered : value chief.scale_factor ds ≤ w.pool.virtual_total_supply = omega (
      arith,
      ap (λ x. value x ds) k.scale,
      h.covers pid c.sender,
      le-total (suc c.sender) c.sender (virtual_of s pid) (omega arith),
      h.supplies pid (suc c.sender),
      ap supply_in w.found,
    ) in
    let all =
      unlock_all_ok c u.pool chief.scale_factor ds 0 0 (omega (arith, k.scale, h.scaled))
        (IsFree-unlocked c w.pool u.pool ds unlocked w.free) (omega (arith, w.staked_fits))
        (omega (arith, covered, w.supply_fits)) in
    let rewards : get_elem? chief.rewarder pid ≡ some w.rewarder =
      ap (λ x. get_elem? x.rewarder pid) u.same ∙ w.rewards in
    let stakes : get_elem? chief.staked_token pid ≡ some w.token =
      ap (λ x. get_elem? x.staked_token pid) u.same ∙ w.stakes in
    let amount_is : 0 + staked ds ≡ staked ds = omega arith in
    let delta_is : 0 + value chief.scale_factor ds ≡ value chief.scale_factor ds = omega arith in
    let runs =
      emergency_run c pid to w.rewarder w.token (staked ds) (value chief.scale_factor ds) s chief
        u.pool updates u.there (rw (amount_is, delta_is) at all) (omega (arith, covered, supply_is))
        rewards stakes in
    let supply = u.pool.virtual_total_supply - value chief.scale_factor ds in
    let q = record u.pool { virtual_total_supply = supply } in
    let written : supply_in (get_elem? (write chief.pool_info pid q) pid) ≡ supply = ap supply_in (
      get_elem?-set_self chief.pool_info pid q
        (lt-length_of_get_elem? chief.pool_info pid u.there)) in
    (
      store pid c.sender chief u.pool supply no_user [] s,
      runs,
      ground arith,
      omega
          (arith, written, covered, supply_is, ap supply_in w.found, ap (λ x. value x ds) k.scale),
    )

-- After any calls on a new contract, a user all of whose deposits in a pool are unlocked, or whose pool
-- is, can leave it with `emergencyWithdraw`, paused or not, where the pool, its token and its rewarder
-- are there, the precision is positive, and the block's number, the pool's update, its virtual supply,
-- the user's tokens and each deposit's product with its multiplier fit in their types. The call tells
-- the rewarder, if there is one, then sends all the tokens of the deposits, leaves the user no deposit,
-- and takes what they count for off the virtual supply.
pub emergency_withdraw-returns_all :
    (actions : List (Context × Action)) (c : Context) (pid to : ℕ)
    (w : IsWithdrawable c pid (run actions new_staking))
    → (s' : Staking) × (emergency_withdraw c pid to (run actions new_staking)
        ≡ ok (
          s',
          notify w.rewarder pid c.sender to 0 0
              ++ transfer w.token to (staked_by pid c (run actions new_staking)) ∷ [],
        ))
      × (s'.deposit_info pid c.sender ≡ [])
      × (supply_of s'.chief pid + weight_of pid c (run actions new_staking)
          ≡ supply_of (run actions new_staking).chief pid)
emergency_withdraw-returns_all actions c pid to w =
    emergency_withdraw_ok c pid to (run actions new_staking) (run-IsBacked actions) w
