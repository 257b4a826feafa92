-- ===== src/Contracts/TokenTimelock/Control.antt =====
-- contracts/timelocks/TokenTimelock.sol: `clawback`, the change of the beneficiary, and sequences of calls.
use fei_protocol_core.Prelude.{
  ℕ, List, [], ◌∷◌, ◌++◌, leb, ◌==◌, if◌then◌else◌, ok, err, require, ◌>>=◌, ◌>>◌,
}
use fei_protocol_core.Contracts.Evm.{Call, reason}
use fei_protocol_core.Contracts.CoreRef.{Context}
use fei_protocol_core.Contracts.TokenTimelock.Release.{
  Timelock, time_since_start, available_for_release, check_balance, send, release, release_max,
}

-- A payment: the receiver and the amount.
abbrev pub Payment : Type 0
Payment = ℕ × ℕ

-- `setPendingBeneficiary`
unfoldable pub set_pending_beneficiary : Context → ℕ → Timelock → Call Timelock
set_pending_beneficiary c who s = do
  require (c.sender == s.beneficiary) (reason "TokenTimelock: Caller is not a beneficiary")
  ok (record s { pending_beneficiary = who })

-- `acceptBeneficiary`
unfoldable pub accept_beneficiary : Context → Timelock → Call Timelock
accept_beneficiary c s = do
  require (c.sender == s.pending_beneficiary)
      (reason "TokenTimelock: Caller is not pending beneficiary")
  ok (record s { beneficiary = c.sender; pending_beneficiary = 0 })

-- A call of one of these functions.
pub data Operation : Type 0 where
  release_some : ℕ → ℕ → Operation
  release_all : ℕ → Operation
  claw : Operation
  appoint : ℕ → Operation
  accept : Operation

-- The state that a call leaves: one that reverts changes nothing.
abbrev pub settle : Call Timelock → Timelock → Timelock
settle (ok s') s = s'
settle (err e) s = s

module _ (transfer : ℕ → ℕ → ℕ → Call ℕ) where
  -- the `if` of `clawback`: the beneficiary is paid what is available, after the cliff
  unfoldable pub pay_beneficiary : Context → Timelock → Call (Timelock × List Payment)
  pay_beneficiary c s = do
    elapsed ← time_since_start c s
    if leb s.cliff_seconds elapsed
        then (do
          available ← available_for_release c s
          left ← send transfer s.beneficiary available s
          ok (left, (s.beneficiary, available) ∷ []))
        else ok (s, [])

  -- `clawback`: the new state, and the second payment after the first, if there is one
  unfoldable pub clawback : Context → Timelock → Call (Timelock × List Payment)
  clawback c s = do
    checked ← check_balance s
    require (c.sender == s.clawback_admin) (reason "TokenTimelock: Only clawbackAdmin")
    paid ← pay_beneficiary c checked
    left ← send transfer s.clawback_admin paid.0.total_token paid.0
    ok (left, paid.1 ++ (s.clawback_admin, paid.0.total_token) ∷ [])

  unfoldable pub perform : Context → Operation → Timelock → Call Timelock
  perform c (release_some to amount) s = release transfer c to amount s
  perform c (release_all to) s = release_max transfer c to s
  perform c claw s = do done ← clawback c s; ok done.0
  perform c (appoint who) s = set_pending_beneficiary c who s
  perform c accept s = accept_beneficiary c s

  -- A sequence of calls, each in its own context.
  unfoldable pub history : List (Context × Operation) → Timelock → Timelock
  history [] s = s
  history ((c, op) ∷ rest) s = history rest (settle (perform c op s) s)
