-- ===== src/Tests/Staking.antt =====
-- A pool with one deposit: the witnesses of the theorems on what users do with TribalChief.
use fei_protocol_core.Prelude.{
  Bool, err, some, get_elem?, ◌==◌, if◌then◌else◌, ℕ, ◌+◌, ◌≤◌, ◌≡◌, refl, true, false, List, [],
  ◌∷◌, ◌++◌, arith, ok,
}
use fei_protocol_core.Contracts.Evm.{Call, panic, mul, div}
use fei_protocol_core.Contracts.CoreRef.{Context}
use fei_protocol_core.Contracts.TribalChief.{PoolInfo, RewardData, initialize, perform, new_pool}
use fei_protocol_core.Contracts.TribalChief.Staking.{
  Staking, transfer, notify, Action, stake, withdraw_one, withdraw_all, administer, run,
  new_staking, deposit, withdraw_from_deposit, withdraw_all_and_harvest, emergency_withdraw,
}
use fei_protocol_core.Contracts.TribalChief.{reset, set_pool}
use fei_protocol_core.Contracts.TribalChief.Allocation.{allocated}
use fei_protocol_core.Contracts.TribalChief.Staking.Balance.{run-IsBalanced}
use fei_protocol_core.Contracts.TribalChief.Staking.{harvest, after, transfer_tribe, Interaction}
use fei_protocol_core.Contracts.TribalChief.Staking.Pending.{
  pending_rewards, pending_rewards-of_harvest, pending_rewards_reverts,
}
use fei_protocol_core.Contracts.TribalChief.Staking.Supply.{total, value, supply_of, virtual_of}
use fei_protocol_core.Contracts.TribalChief.Staking.Backing.{staked-le-supply}
use fei_protocol_core.Contracts.TribalChief.Staking.Emergency.{
  staked, staked_by, weight_of, IsWithdrawable, emergency_withdraw-returns_all,
}

abbrev governor_at : ℕ → Context
governor_at block = record {
  sender = 1;
  block_number = block;
  block_timestamp = 0;
  is_governor = true;
  is_guardian = false;
  is_contract_admin = false;
}

abbrev user_at : ℕ → Context
user_at block = record {
  sender = 3;
  block_number = block;
  block_timestamp = 0;
  is_governor = false;
  is_guardian = false;
  is_contract_admin = false;
}

abbrev rewards : List RewardData
rewards =
    record { lock_length = 0; reward_multiplier = 10000 }
    ∷ record { lock_length = 5; reward_multiplier = 15000 }
    ∷ []

-- The governor adds a pool, and the user stakes 101 tokens for five blocks.
abbrev one_deposit : List (Context × Action)
one_deposit =
    (governor_at 10, administer (new_pool 100 7 0 rewards)) ∷ (user_at 20, stake 0 101 5) ∷ []

abbrev used_pool : PoolInfo
used_pool = record {
  virtual_total_supply = 151;
  acc_tribe_per_share = 0;
  last_reward_block = 20;
  alloc_point = 100;
  unlocked = false;
}

one_deposit-supply : supply_of (run one_deposit new_staking).chief 0 ≡ 151
unfolding run new_staking initialize perform deposit mul div
one_deposit-supply = refl

staked-le-supply_example :
    ((who : ℕ)
      → value
          (run one_deposit new_staking).chief.scale_factor
          ((run one_deposit new_staking).deposit_info 0 who)
        ≤ virtual_of (run one_deposit new_staking) 0 who)
    × (total 4 (virtual_of (run one_deposit new_staking) 0)
        ≤ supply_of (run one_deposit new_staking).chief 0)
staked-le-supply_example = staked-le-supply one_deposit 0 4

-- The governor also adds a second pool and changes the points of the first.
abbrev busy : List (Context × Action)
busy =
    one_deposit
    ++ (governor_at 22, administer (new_pool 60 8 0 rewards))
      ∷ (governor_at 24, administer (set_pool 0 30 0 false))
      ∷ (user_at 26, withdraw_all 0 9)
      ∷ (governor_at 30, administer (reset 1))
      ∷ []

run-IsBalanced_example :
    allocated (run busy new_staking).chief.pool_info
    ≡ (run busy new_staking).chief.total_alloc_point
run-IsBalanced_example = run-IsBalanced busy

one_deposit-IsWithdrawable : IsWithdrawable (user_at 25) 0 (run one_deposit new_staking)
unfolding run new_staking initialize perform deposit mul div staked
one_deposit-IsWithdrawable = record {
  pool = used_pool;
  rewarder = 0;
  token = 7;
  found = refl;
  rewards = refl;
  stakes = refl;
  precise = omega arith;
  block_fits = omega arith;
  bounded = omega arith;
  supply_fits = omega arith;
  staked_fits = omega arith;
  free = ((refl, omega arith), tt);
}

emergency_withdraw-returns_all_example :
    (s' : Staking) × (emergency_withdraw (user_at 25) 0 9 (run one_deposit new_staking)
      ≡ ok (
        s',
        notify one_deposit-IsWithdrawable.rewarder 0 3 9 0 0
            ++ transfer one_deposit-IsWithdrawable.token 9
                (staked_by 0 (user_at 25) (run one_deposit new_staking))
              ∷ [],
      ))
    × (s'.deposit_info 0 3 ≡ [])
    × (supply_of s'.chief 0 + weight_of 0 (user_at 25) (run one_deposit new_staking)
        ≡ supply_of (run one_deposit new_staking).chief 0)
emergency_withdraw-returns_all_example =
    emergency_withdraw-returns_all one_deposit (user_at 25) 0 9 one_deposit-IsWithdrawable

-- The weight of what is left and of what is taken out is less than that of the whole: the pool counts
-- 1 for a deposit that is empty.
dust :
    supply_of
      (run
        (one_deposit
          ++ (user_at 25, withdraw_one 0 1 9 0)
            ∷ (user_at 25, withdraw_one 0 1 9 0)
            ∷ (user_at 25, withdraw_one 0 99 9 0)
            ∷ (user_at 25, withdraw_all 0 9)
            ∷ [])
        new_staking).chief
      0
    ≡ 1
unfolding run new_staking initialize perform deposit mul div withdraw_from_deposit
    withdraw_all_and_harvest
dust = refl

abbrev staked_once : Staking
staked_once = run one_deposit new_staking

abbrev harvested : Staking
harvested = after (harvest (user_at 30) 0 9 staked_once) staked_once

first_payment :
    harvest (user_at 30) 0 9 staked_once
    ≡ ok (harvested, transfer_tribe 9 749999999999999999999 ∷ [])
unfolding run new_staking initialize perform deposit harvest mul div
first_payment = refl

pending_rewards-of_harvest_example :
    (pending rewarder : ℕ) × (pending_rewards (user_at 30) 0 3 staked_once ≡ ok pending)
    × (get_elem? staked_once.chief.rewarder 0 ≡ some rewarder)
    × (transfer_tribe 9 749999999999999999999 ∷ []
        ≡ (if pending == 0 then [] else transfer_tribe 9 pending ∷ [])
          ++ notify rewarder 0 3 9 pending (staked_once.user_info 0 3).virtual_amount)
unfolding run new_staking initialize perform deposit mul div
pending_rewards-of_harvest_example =
    pending_rewards-of_harvest (user_at 30) 0 9 staked_once harvested
      (transfer_tribe 9 749999999999999999999 ∷ []) (λ e. omega (arith, e)) first_payment

abbrev without_points : Staking
without_points = run (one_deposit ++ (governor_at 20, administer (reset 0)) ∷ []) new_staking

pending_rewards_reverts_example : pending_rewards (user_at 25) 0 3 without_points ≡ err panic
unfolding run new_staking initialize perform deposit mul div
pending_rewards_reverts_example =
    pending_rewards_reverts (user_at 25) 0 3 without_points
      (record used_pool { alloc_point = 0; unlocked = true }) refl refl (omega arith) (omega arith)

-- The harvest of the same user in the same block succeeds.
abbrev succeeds : Call (Staking × List Interaction) → Bool
succeeds (ok r) = true
succeeds (err e) = false

unallocated_harvest : succeeds (harvest (user_at 25) 0 3 without_points) ≡ true
unfolding run new_staking initialize perform deposit harvest mul div
unallocated_harvest = refl
