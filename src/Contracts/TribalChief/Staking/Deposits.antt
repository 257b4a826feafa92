-- ===== src/Contracts/TribalChief/Staking/Deposits.antt =====
-- `deposit` and `harvest`. Events are left out.
use fei_protocol_core.Prelude.{
  ℕ, ℤ, pos, negsuc, not, List, [], ◌∷◌, ◌++◌, leb, ◌==◌, if◌then◌else◌, ok, err, require, ◌>>=◌,
  ◌>>◌,
}
use fei_protocol_core.Contracts.Evm.{
  Call, panic, reason, add, to_uint128, to_int256, to_uint256, add_int256, sub_int256, index,
}
use fei_protocol_core.Contracts.CoreRef.{Context}
use fei_protocol_core.Contracts.TribalChief.Storage.{PoolInfo, Chief}
use fei_protocol_core.Contracts.TribalChief.Admin.{update_pool}
use fei_protocol_core.Contracts.TribalChief.Staking.Ledger.{
  UserInfo, DepositInfo, Staking, Interaction, transfer_from, transfer_tribe, Outcome, write_at,
  notify, mul_div, store,
}

-- `deposit`
unfoldable pub deposit : Context → ℕ → ℕ → ℕ → Staking → Call Outcome
unfolding update_pool mul_div add to_uint128 add_int256 to_int256 index
deposit c pid amount lock_length s = do
  require (not s.paused) (reason "Pausable: paused")
  chief ← update_pool c pid s.chief
  pool ← index chief.pool_info pid
  let user = s.user_info pid c.sender
  let multiplier = chief.reward_multipliers pid lock_length
  require (leb chief.scale_factor multiplier) (reason "invalid lock length")
  block ← add lock_length c.block_number
  unlock_block ← to_uint128 block
  delta ← mul_div amount multiplier chief.scale_factor
  virtual ← add user.virtual_amount delta
  share ← mul_div delta pool.acc_tribe_per_share chief.acc_tribe_precision
  debt ← to_int256 share
  reward_debt ← add_int256 user.reward_debt debt
  supply ← add pool.virtual_total_supply delta
  rewarder ← index chief.rewarder pid
  token ← index chief.staked_token pid
  let new : DepositInfo = record {
    amount = amount;
    unlock_block = unlock_block;
    multiplier = multiplier;
  }
  ok (
    store pid c.sender chief pool supply
        (record { reward_debt = reward_debt; virtual_amount = virtual })
        (s.deposit_info pid c.sender ++ new ∷ []) s,
    notify rewarder pid c.sender c.sender 0 virtual ++ transfer_from token c.sender amount ∷ [],
  )

-- `_harvest`, after `updatePool`: the user's new debt and the calls
unfoldable pub harvest_user :
    Context → ℕ → ℕ → Chief → PoolInfo → UserInfo → Call (ℤ × List Interaction)
unfolding mul_div to_int256 sub_int256 to_uint256 index
harvest_user c pid to chief pool user = do
  share ← mul_div user.virtual_amount pool.acc_tribe_per_share chief.acc_tribe_precision
  accumulated ← to_int256 share
  rest ← sub_int256 accumulated user.reward_debt
  pending ← elim rest [ pos n ↦ ok n | negsuc n ↦ err panic ]
  again ← to_int256 pending
  rewarder ← index chief.rewarder pid
  ok (
    accumulated,
    (if pending == 0 then [] else transfer_tribe to pending ∷ [])
        ++ notify rewarder pid c.sender to pending user.virtual_amount,
  )

-- `harvest`
unfoldable pub harvest : Context → ℕ → ℕ → Staking → Call Outcome
unfolding update_pool harvest_user index
harvest c pid to s = do
  chief ← update_pool c pid s.chief
  pool ← index chief.pool_info pid
  let user = s.user_info pid c.sender
  paid ← harvest_user c pid to chief pool user
  ok (
    record s {
      chief = chief;
      user_info = write_at pid c.sender (record user { reward_debt = paid.0 }) s.user_info;
    },
    paid.1,
  )
