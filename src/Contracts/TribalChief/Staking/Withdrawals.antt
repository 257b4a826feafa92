-- ===== src/Contracts/TribalChief/Staking/Withdrawals.antt =====
-- `withdrawAllAndHarvest`, `withdrawFromDeposit` and `emergencyWithdraw`. Events are left out.
use fei_protocol_core.Prelude.{
  ℕ, Bool, ◌||◌, List, [], ◌∷◌, ◌++◌, ltb, leb, ◌==◌, if◌then◌else◌, set as write, length, ok,
  require, ◌>>=◌, ◌>>◌,
}
use fei_protocol_core.Contracts.Evm.{Call, reason, add, sub, to_int256, sub_int256, index}
use fei_protocol_core.Contracts.CoreRef.{Context}
use fei_protocol_core.Contracts.TribalChief.Storage.{PoolInfo, Chief}
use fei_protocol_core.Contracts.TribalChief.Admin.{update_pool}
use fei_protocol_core.Contracts.TribalChief.Staking.Ledger.{
  UserInfo, DepositInfo, Staking, Interaction, transfer, Outcome, no_user, notify, mul_div, store,
}
use fei_protocol_core.Contracts.TribalChief.Staking.Deposits.{harvest_user}

-- `poolDeposit.unlockBlock <= block.number || pool.unlocked == true`
abbrev pub is_unlocked : Context → PoolInfo → DepositInfo → Bool
is_unlocked c pool d = leb d.unlock_block c.block_number || pool.unlocked

-- what the loop of `withdrawAllAndHarvest` has gathered
pub record Gathered : Type 0 where
  pub processed : ℕ
  pub unlocked_total : ℕ
  pub virtual_delta : ℕ
  pub deposits : List DepositInfo

unfoldable pub gather : Context → PoolInfo → ℕ → List DepositInfo → Gathered → Call Gathered
unfolding mul_div add
gather c pool scale [] g = ok g
gather c pool scale (d ∷ ds) g =
    if is_unlocked c pool d
    then (do
      processed ← add g.processed 1
      total ← add g.unlocked_total d.amount
      part ← mul_div d.amount d.multiplier scale
      delta ← add g.virtual_delta part
      gather c pool scale ds (record {
        processed = processed;
        unlocked_total = total;
        virtual_delta = delta;
        deposits = g.deposits ++ record { amount = 0; unlock_block = 0; multiplier = 0 } ∷ [];
      }))
    else gather c pool scale ds (record g { deposits = g.deposits ++ d ∷ [] })

abbrev pub nothing_gathered : Gathered
nothing_gathered = record { processed = 0; unlocked_total = 0; virtual_delta = 0; deposits = [] }

-- the user's data and deposits that `withdrawAllAndHarvest` leaves
unfoldable pub settle_user :
    Chief → PoolInfo → UserInfo → Gathered → ℕ → Call (UserInfo × List DepositInfo)
unfolding sub mul_div to_int256
settle_user chief pool user g count = if g.processed == count then ok (no_user, []) else (do
  virtual ← sub user.virtual_amount g.virtual_delta
  share ← mul_div virtual pool.acc_tribe_per_share chief.acc_tribe_precision
  debt ← to_int256 share
  ok (record { reward_debt = debt; virtual_amount = virtual }, g.deposits))

-- the transfer at the end of `withdrawAllAndHarvest`
unfoldable pub send_unlocked : Chief → ℕ → ℕ → ℕ → Call (List Interaction)
unfolding index
send_unlocked chief pid to amount =
    if amount == 0
    then ok []
    else (do token ← index chief.staked_token pid; ok (transfer token to amount ∷ []))

-- `withdrawAllAndHarvest`
unfoldable pub withdraw_all_and_harvest : Context → ℕ → ℕ → Staking → Call Outcome
unfolding update_pool harvest_user gather settle_user sub index send_unlocked
withdraw_all_and_harvest c pid to s = do
  chief ← update_pool c pid s.chief
  pool ← index chief.pool_info pid
  let user = s.user_info pid c.sender
  let deposits = s.deposit_info pid c.sender
  paid ← harvest_user c pid to chief pool user
  g ← gather c pool chief.scale_factor deposits nothing_gathered
  left ← settle_user chief pool user g (length deposits)
  supply ← sub pool.virtual_total_supply g.virtual_delta
  rewarder ← index chief.rewarder pid
  payment ← send_unlocked chief pid to g.unlocked_total
  ok (
    store pid c.sender chief pool supply left.0 left.1 s,
    paid.1 ++ (notify rewarder pid c.sender to 0 left.0.virtual_amount ++ payment),
  )

-- `withdrawFromDeposit`
unfoldable pub withdraw_from_deposit : Context → ℕ → ℕ → ℕ → ℕ → Staking → Call Outcome
unfolding update_pool mul_div sub to_int256 sub_int256 index
withdraw_from_deposit c pid amount to i s = do
  let deposits = s.deposit_info pid c.sender
  require (ltb i (length deposits)) (reason "invalid index")
  chief ← update_pool c pid s.chief
  pool ← index chief.pool_info pid
  d ← index deposits i
  let user = s.user_info pid c.sender
  require (is_unlocked c pool d) (reason "tokens locked")
  delta ← mul_div amount d.multiplier chief.scale_factor
  rest ← sub d.amount amount
  share ← mul_div delta pool.acc_tribe_per_share chief.acc_tribe_precision
  debt ← to_int256 share
  reward_debt ← sub_int256 user.reward_debt debt
  virtual ← sub user.virtual_amount delta
  supply ← sub pool.virtual_total_supply delta
  token ← index chief.staked_token pid
  ok (
    store pid c.sender chief pool supply
        (record { reward_debt = reward_debt; virtual_amount = virtual })
        (write deposits i (record d { amount = rest })) s,
    transfer token to amount ∷ [],
  )

-- the loop of `emergencyWithdraw`: the amount and the virtual amount of all deposits
unfoldable pub unlock_all : Context → PoolInfo → ℕ → List DepositInfo → ℕ → ℕ → Call (ℕ × ℕ)
unfolding mul_div add
unlock_all c pool scale [] total delta = ok (total, delta)
unlock_all c pool scale (d ∷ ds) total delta = do
  require (is_unlocked c pool d) (reason "tokens locked")
  total' ← add total d.amount
  part ← mul_div d.amount d.multiplier scale
  delta' ← add delta part
  unlock_all c pool scale ds total' delta'

-- `emergencyWithdraw`
unfoldable pub emergency_withdraw : Context → ℕ → ℕ → Staking → Call Outcome
unfolding update_pool unlock_all sub index
emergency_withdraw c pid to s = do
  chief ← update_pool c pid s.chief
  pool ← index chief.pool_info pid
  all ← unlock_all c pool chief.scale_factor (s.deposit_info pid c.sender) 0 0
  supply ← sub pool.virtual_total_supply all.1
  rewarder ← index chief.rewarder pid
  token ← index chief.staked_token pid
  ok (
    store pid c.sender chief pool supply no_user [] s,
    notify rewarder pid c.sender to 0 0 ++ transfer token to all.0 ∷ [],
  )
