-- ===== src/Tests/Timelocks.antt =====
-- Runs of the token timelock.
use fei_protocol_core.Prelude.{
  List, [], ◌∷◌, leb, ℕ, ◌≢◌, ◌==◌, if◌then◌else◌, ◌>>=◌, ◌+◌, ◌-◌, ◌*◌, ◌/◌, ◌≤◌, ◌≡◌, refl, false,
  arith, ok,
}
use fei_protocol_core.Contracts.Evm.{Call, sub, add, mul, div, sub_ok}
use fei_protocol_core.Contracts.CoreRef.{Context}
use fei_protocol_core.Contracts.TokenTimelock.{
  Timelock, release, release_max, check_balance, require_passed_cliff, available_for_release,
  time_since_start, proportion_available, send, clawback, Operation, claw, accept, appoint, history,
}
use fei_protocol_core.Contracts.TokenTimelock.Schedule.{
  elapsed_at, received, release_within_schedule,
}
use fei_protocol_core.Contracts.TokenTimelock.Max.{release_max_ok}
use fei_protocol_core.Contracts.TokenTimelock.Clawback.{scheduled, clawback_ok}
use fei_protocol_core.Contracts.TokenTimelock.Handover.{beneficiary_kept}

abbrev context : Context
context = record {
  sender = 1;
  block_number = 10;
  block_timestamp = 100;
  is_governor = false;
  is_guardian = false;
  is_contract_admin = false;
}

-- Half of the period has passed; 100 of 1000 tokens were released, and 100 came in since.
abbrev timelock : Timelock
timelock = record {
  start_time = 50;
  duration = 100;
  beneficiary = 1;
  pending_beneficiary = 0;
  initial_balance = 1000;
  last_balance = 900;
  cliff_seconds = 10;
  clawback_admin = 9;
  total_token = 1000;
}

abbrev after_release : Timelock
after_release = record timelock { initial_balance = 1100; last_balance = 700; total_token = 700 }

-- A token whose holder 77 is the timelock: a transfer to itself leaves its balance as it is.
abbrev token_transfer : ℕ → ℕ → ℕ → Call ℕ
token_transfer to balance amount = do
  left ← sub balance amount
  ok (if to == 77 then balance else left)

transfer_leaves :
    (to balance amount : ℕ)
    → to ≢ 77
    → amount ≤ balance
    → token_transfer to balance amount ≡ ok (balance - amount)
transfer_leaves to balance amount away less =
    let other : to == 77 ≡ false = ground arith in rw (sub_ok balance amount less, other) refl

transfer_takes :
    (to balance amount left : ℕ)
    → to ≢ 77
    → token_transfer to balance amount ≡ ok left
    → left + amount ≡ balance
unfolding sub
transfer_takes to balance amount left away e = ground arith

released : release token_transfer context 5 300 timelock ≡ ok after_release
unfolding release check_balance require_passed_cliff available_for_release time_since_start
    proportion_available send sub add mul div
released = refl

release_within_schedule_example :
    (1100 ≡ received timelock)
    × (700 + 300 ≡ 1000)
    × (after_release.last_balance ≡ 700)
    × (1100 - 700 ≤ 1100 * elapsed_at context timelock / 100)
release_within_schedule_example =
    release_within_schedule token_transfer 77 transfer_takes context 5 300 timelock after_release
      (λ e. omega (arith, e)) (omega arith) released

halfway : elapsed_at context timelock ≡ 50
unfolding elapsed_at
halfway = refl

behind : received timelock - 1000 ≤ received timelock * elapsed_at context timelock / 100
behind = rw halfway (omega arith)

release_max_ok_example :
    (s' : Timelock) × (release_max token_transfer context 5 timelock ≡ ok s')
    × (received timelock - s'.total_token ≡ received timelock * elapsed_at context timelock / 100)
    × (elapsed_at context timelock ≡ 100 → s'.total_token ≡ 0)
release_max_ok_example =
    release_max_ok token_transfer 77 transfer_leaves context 5 timelock (λ e. omega (arith, e)) refl
      (omega arith) (omega (arith, halfway)) (omega arith) (omega arith) (omega arith) (omega arith)
      behind

abbrev admin_context : Context
admin_context = record context { sender = 9 }

admin_halfway : elapsed_at admin_context timelock ≡ 50
unfolding elapsed_at
admin_halfway = refl

admin_behind : received timelock - 1000 ≤ scheduled admin_context timelock
admin_behind = rw admin_halfway (omega arith)

clawback_ok_example :
    (s' : Timelock) × (clawback token_transfer admin_context timelock
      ≡ ok (
        s',
        if leb 10 (elapsed_at admin_context timelock)
            then (1, scheduled admin_context timelock - (received timelock - 1000))
              ∷ (9, received timelock - scheduled admin_context timelock)
              ∷ []
            else (9, 1000) ∷ [],
      ))
    × (s'.total_token ≡ 0)
    × (s'.beneficiary ≡ 1)
clawback_ok_example =
    clawback_ok token_transfer 77 transfer_leaves admin_context timelock (λ e. omega (arith, e))
      (λ e. omega (arith, e)) refl (omega arith) (omega arith) (omega arith) (omega arith)
      (omega arith) admin_behind

-- The admin claws back; two others try to take over.
abbrev attempts : List (Context × Operation)
attempts =
    (admin_context, claw)
    ∷ (record context { sender = 4 }, accept)
    ∷ (record context { sender = 5 }, appoint 5)
    ∷ []

beneficiary_kept_example :
    ((history token_transfer attempts timelock).beneficiary ≡ 1)
    × ((history token_transfer attempts timelock).pending_beneficiary ≡ 0)
beneficiary_kept_example = beneficiary_kept token_transfer attempts timelock (
  ((λ e. omega (arith, e)), (λ e. omega (arith, e))),
  (
    ((λ e. omega (arith, e)), (λ e. omega (arith, e))),
    (((λ e. omega (arith, e)), (λ e. omega (arith, e))), tt),
  ),
)
