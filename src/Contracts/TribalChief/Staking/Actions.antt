-- ===== src/Contracts/TribalChief/Staking/Actions.antt =====
-- The calls that change what is staked, and sequences of them.
use fei_protocol_core.Prelude.{ℕ, true, false, not, List, [], ◌∷◌, ok, err, require, ◌>>=◌, ◌>>◌}
use fei_protocol_core.Contracts.Evm.{Call, reason}
use fei_protocol_core.Contracts.CoreRef.{Context, only_guardian_or_governor}
use fei_protocol_core.Contracts.TribalChief.Admin.{Operation, perform, initialize}
use fei_protocol_core.Contracts.TribalChief.Staking.Ledger.{no_user, Staking, Outcome}
use fei_protocol_core.Contracts.TribalChief.Staking.Deposits.{deposit, harvest}
use fei_protocol_core.Contracts.TribalChief.Staking.Withdrawals.{
  withdraw_all_and_harvest, withdraw_from_deposit, emergency_withdraw,
}

-- A user's call of one of these functions, a call that administers the pools, or `pause` or `unpause` of
-- CoreRef.sol.
pub data Action : Type 0 where
  stake : ℕ → ℕ → ℕ → Action
  collect : ℕ → ℕ → Action
  withdraw_all : ℕ → ℕ → Action
  withdraw_one : ℕ → ℕ → ℕ → ℕ → Action
  emergency : ℕ → ℕ → Action
  administer : Operation → Action
  halt resume : Action

unfoldable pub act : Context → Action → Staking → Call Outcome
unfolding deposit harvest withdraw_all_and_harvest withdraw_from_deposit emergency_withdraw perform
act c (stake pid amount lock_length) s = deposit c pid amount lock_length s
act c (collect pid to) s = harvest c pid to s
act c (withdraw_all pid to) s = withdraw_all_and_harvest c pid to s
act c (withdraw_one pid amount to i) s = withdraw_from_deposit c pid amount to i s
act c (emergency pid to) s = emergency_withdraw c pid to s
act c (administer op) s = do chief ← perform c op s.chief; ok (record s { chief = chief }, [])
act c halt s = do
  only_guardian_or_governor c
  require (not s.paused) (reason "Pausable: paused")
  ok (record s { paused = true }, [])
act c resume s = do
  only_guardian_or_governor c
  require s.paused (reason "Pausable: not paused")
  ok (record s { paused = false }, [])

-- The state that an action leaves: one that reverts changes nothing.
abbrev pub after : Call Outcome → Staking → Staking
after (ok (s', interactions)) s = s'
after (err e) s = s

-- A sequence of actions, each in its own context.
unfoldable pub run : List (Context × Action) → Staking → Staking
unfolding act
run [] s = s
run ((c, a) ∷ rest) s = run rest (after (act c a s) s)

-- A contract that nobody has used.
unfoldable pub new_staking : Staking
unfolding initialize
new_staking = record {
  chief = initialize;
  user_info = λ pid who. no_user;
  deposit_info = λ pid who. [];
  paused = false;
}
