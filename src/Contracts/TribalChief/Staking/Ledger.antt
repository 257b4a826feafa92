-- ===== src/Contracts/TribalChief/Staking/Ledger.antt =====
-- What the contract keeps of its users, and the calls of other contracts that it makes. Such a call that
-- reverts reverts the whole.
use fei_protocol_core.Prelude.{
  ℕ, ℤ, pos, Bool, ◌&&◌, List, [], ◌∷◌, ◌==◌, if◌then◌else◌, set as write, ◌>>=◌,
}
use fei_protocol_core.Contracts.Evm.{Call, mul, div}
use fei_protocol_core.Contracts.TribalChief.Storage.{PoolInfo, Chief}

pub record UserInfo : Type 0 where
  pub reward_debt : ℤ
  pub virtual_amount : ℕ

pub record DepositInfo : Type 0 where
  pub amount : ℕ
  pub unlock_block : ℕ
  pub multiplier : ℕ

-- The contract's storage with that of its users, by pool and address.
pub record Staking : Type 0 where
  pub chief : Chief
  pub user_info : ℕ → ℕ → UserInfo
  pub deposit_info : ℕ → ℕ → List DepositInfo
  pub paused : Bool

-- A call of another contract: `onSushiReward` of a rewarder, or a transfer of a token.
pub data Interaction : Type 0 where
  on_sushi_reward : ℕ → ℕ → ℕ → ℕ → ℕ → ℕ → Interaction
  transfer_from : ℕ → ℕ → ℕ → Interaction
  transfer : ℕ → ℕ → ℕ → Interaction
  transfer_tribe : ℕ → ℕ → Interaction

abbrev pub Outcome : Type 0
Outcome = Staking × List Interaction

-- A mapping of mappings with one value replaced.
abbrev pub write_at {ℓ} : {A : Type ℓ} → ℕ → ℕ → A → (ℕ → ℕ → A) → ℕ → ℕ → A
write_at pid who value table p u = if p == pid && u == who then value else table p u

abbrev pub no_user : UserInfo
no_user = record { reward_debt = pos 0; virtual_amount = 0 }

-- `if (address(_rewarder) != address(0)) _rewarder.onSushiReward(...)`
abbrev pub notify : ℕ → ℕ → ℕ → ℕ → ℕ → ℕ → List Interaction
notify rewarder pid user to amount virtual =
    if rewarder == 0 then [] else on_sushi_reward rewarder pid user to amount virtual ∷ []

-- `(x * y) / z`
unfoldable pub mul_div : ℕ → ℕ → ℕ → Call ℕ
mul_div x y z = do product ← mul x y; div product z

-- the storage with a pool's supply and one user's data replaced
abbrev pub store : ℕ → ℕ → Chief → PoolInfo → ℕ → UserInfo → List DepositInfo → Staking → Staking
store pid who chief pool supply user deposits s = record s {
  chief = record chief {
    pool_info = write chief.pool_info pid (record pool { virtual_total_supply = supply });
  };
  user_info = write_at pid who user s.user_info;
  deposit_info = write_at pid who deposits s.deposit_info;
}
