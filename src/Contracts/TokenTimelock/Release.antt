-- ===== src/Contracts/TokenTimelock/Release.antt =====
-- contracts/utils/Timed.sol, and the two releases of contracts/timelocks/TokenTimelock.sol with the linear
-- schedule of contracts/timelocks/LinearTokenTimelock.sol.
use fei_protocol_core.Prelude.{ℕ, not, ltb, leb, ◌==◌, if◌then◌else◌, ok, require, ◌>>=◌, ◌>>◌}
use fei_protocol_core.Contracts.Evm.{Call, reason, add, sub, mul, div}
use fei_protocol_core.Contracts.CoreRef.{Context}

pub record Timelock : Type 0 where
  pub start_time : ℕ
  pub duration : ℕ
  pub beneficiary : ℕ
  pub pending_beneficiary : ℕ
  pub initial_balance : ℕ
  pub last_balance : ℕ
  pub cliff_seconds : ℕ
  pub clawback_admin : ℕ
  -- `lockedToken.balanceOf(address(this))`
  pub total_token : ℕ

-- `timeSinceStart`
unfoldable pub time_since_start : Context → Timelock → Call ℕ
time_since_start c s = if s.start_time == 0 then ok 0 else (do
  passed ← sub c.block_timestamp s.start_time
  ok (if ltb s.duration passed then s.duration else passed))

-- `_proportionAvailable` of LinearTokenTimelock
unfoldable pub proportion_available : ℕ → ℕ → ℕ → Call ℕ
proportion_available initial_balance elapsed duration = do
  product ← mul initial_balance elapsed
  div product duration

-- `availableForRelease`
unfoldable pub available_for_release : Context → Timelock → Call ℕ
unfolding time_since_start proportion_available
available_for_release c s = do
  elapsed ← time_since_start c s
  total ← proportion_available s.initial_balance elapsed s.duration
  released ← sub s.initial_balance s.total_token
  sub total released

-- `passedCliff`, as the test that the callers require
unfoldable pub require_passed_cliff : Context → Timelock → Call (Unit {0})
unfolding time_since_start
require_passed_cliff c s = do
  elapsed ← time_since_start c s
  require (leb s.cliff_seconds elapsed) (reason "TokenTimelock: Cliff not passed")

-- the part of `balanceCheck` before the function's body
unfoldable pub check_balance : Timelock → Call Timelock
check_balance s =
    if ltb s.last_balance s.total_token
    then (do
      delta ← sub s.total_token s.last_balance
      initial ← add s.initial_balance delta
      ok (record s { initial_balance = initial }))
    else ok s

module _ (transfer : ℕ → ℕ → ℕ → Call ℕ) where
  -- `_release`, and the part of `balanceCheck` after it
  unfoldable pub send : ℕ → ℕ → Timelock → Call Timelock
  send to amount s = do
    left ← transfer to s.total_token amount
    ok (record s { total_token = left; last_balance = left })

  -- `release`
  unfoldable pub release : Context → ℕ → ℕ → Timelock → Call Timelock
  unfolding check_balance require_passed_cliff available_for_release send
  release c to amount s = do
    require (c.sender == s.beneficiary) (reason "TokenTimelock: Caller is not a beneficiary")
    checked ← check_balance s
    require (not (amount == 0)) (reason "TokenTimelock: no amount desired")
    require_passed_cliff c checked
    available ← available_for_release c checked
    require (leb amount available) (reason "TokenTimelock: not enough released tokens")
    send to amount checked

  -- `releaseMax`
  unfoldable pub release_max : Context → ℕ → Timelock → Call Timelock
  unfolding check_balance require_passed_cliff available_for_release send
  release_max c to s = do
    require (c.sender == s.beneficiary) (reason "TokenTimelock: Caller is not a beneficiary")
    checked ← check_balance s
    require_passed_cliff c checked
    available ← available_for_release c checked
    send to available checked
