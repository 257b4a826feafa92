-- ===== src/Contracts/TokenTimelock/Max.antt =====
-- Releasing as much as the schedule allows.
use native.Mathlib.Nat.{le-div_iff_mul-le}
use fei_protocol_core.Prelude.{
  ℕ, ◌-◌, ◌*◌, ◌/◌, ◌≤◌, ◌<◌, ◌≡◌, ◌≢◌, refl, ap, true, arith, inl, inr, ltb, leb, ◌==◌, Bool-cases,
  ok,
}
use fei_protocol_core.Contracts.Evm.{uint256_mod, Call, sub_ok, add_ok, mul_ok, div_ok}
use fei_protocol_core.Contracts.CoreRef.{Context}
use fei_protocol_core.Contracts.TokenTimelock.{
  Timelock, time_since_start, proportion_available, available_for_release, require_passed_cliff,
  check_balance, send, release_max,
}
use fei_protocol_core.Contracts.TokenTimelock.Schedule.{elapsed_at, received}

pub mul_mono : (a b k : ℕ) → a ≤ b → k * a ≤ k * b
mul_mono a b k h = grind arith

pub share_le : (a e d : ℕ) → e ≤ d → 0 < d → a * e / d ≤ a
share_le a e d le positive = let h = mul_mono e d a le in grind arith

pub elapsed-le-duration : (c : Context) (s : Timelock) → elapsed_at c s ≤ s.duration
unfolding elapsed_at
elapsed-le-duration c s = ground arith

pub time_since_start_ok :
    (c : Context) (s : Timelock)
    → s.start_time ≤ c.block_timestamp
    → time_since_start c s ≡ ok (elapsed_at c s)
unfolding time_since_start elapsed_at
time_since_start_ok c s started = rw (sub_ok c.block_timestamp s.start_time started) (ground arith)

pub check_balance_ok :
    (s : Timelock)
    → s.last_balance ≤ s.total_token
    → received s < uint256_mod
    → check_balance s ≡ ok (record s { initial_balance = received s })
unfolding check_balance
check_balance_ok s le fits = elim (Bool-cases (ltb s.last_balance s.total_token)) [
  | inl more ↦
      rw
        (
          more,
          sub_ok s.total_token s.last_balance le,
          add_ok s.initial_balance (s.total_token - s.last_balance) fits,
        )
        refl
  | inr none_came ↦
      let equal : s.total_token ≤ s.last_balance = ground arith in
      let is_received : received s ≡ s.initial_balance = omega arith in
      rw (none_came, is_received) refl
]

pub available_ok :
    (c : Context) (k : Timelock)
    → k.start_time ≤ c.block_timestamp
    → 0 < k.duration
    → k.initial_balance * k.duration < uint256_mod
    → k.total_token ≤ k.initial_balance
    → k.initial_balance - k.total_token ≤ k.initial_balance * elapsed_at c k / k.duration
    → available_for_release c k
      ≡ ok (k.initial_balance * elapsed_at c k / k.duration - (k.initial_balance - k.total_token))
unfolding available_for_release proportion_available
available_ok c k started positive fits some_gone behind =
    let bound = mul_mono (elapsed_at c k) k.duration k.initial_balance (elapsed-le-duration c k) in
    rw
      (
        time_since_start_ok c k started,
        mul_ok k.initial_balance (elapsed_at c k) (omega (arith, bound, fits)),
        div_ok (k.initial_balance * elapsed_at c k) k.duration positive,
        sub_ok k.initial_balance k.total_token some_gone,
      )
      (sub_ok (k.initial_balance * elapsed_at c k / k.duration) (k.initial_balance - k.total_token)
        behind)

require_passed_cliff_ok :
    (c : Context) (k : Timelock)
    → k.start_time ≤ c.block_timestamp
    → k.cliff_seconds ≤ elapsed_at c k
    → require_passed_cliff c k ≡ ok tt
unfolding require_passed_cliff
require_passed_cliff_ok c k started cliff =
    let passed : leb k.cliff_seconds (elapsed_at c k) ≡ true = ground arith in
    rw (time_since_start_ok c k started, passed) refl

-- Where the token's transfers to others of at most the balance take the amount from it, and `to` is not
-- the timelock's own address: the beneficiary of a timelock that has started, whose cliff has passed,
-- whose duration is not 0, which holds at least what it held at its last check and at most what it
-- received, whose received tokens times the duration fit in 256 bits, and from which no more was
-- released than the schedule allows, can release the maximum to `to`; the tokens released so far are
-- then exactly those of the schedule, so that at the end of the period the timelock is empty.
pub release_max_ok :
    (transfer : ℕ → ℕ → ℕ → Call ℕ) (this : ℕ)
    → ((to balance amount : ℕ)
        → to ≢ this
        → amount ≤ balance
        → transfer to balance amount ≡ ok (balance - amount))
    → (c : Context) (to : ℕ) (s : Timelock) → to ≢ this
    → c.sender ≡ s.beneficiary
    → s.start_time ≤ c.block_timestamp
    → s.cliff_seconds ≤ elapsed_at c s
    → 0 < s.duration
    → s.last_balance ≤ s.total_token
    → s.total_token ≤ received s
    → received s * s.duration < uint256_mod
    → received s - s.total_token ≤ received s * elapsed_at c s / s.duration
    → (s' : Timelock) × (release_max transfer c to s ≡ ok s')
      × (received s - s'.total_token ≡ received s * elapsed_at c s / s.duration)
      × (elapsed_at c s ≡ s.duration → s'.total_token ≡ 0)
unfolding release_max send elapsed_at
release_max_ok transfer this pays c to s away who started cliff positive le some_gone fits behind =
    let counted : Timelock = record s { initial_balance = received s } in
    let whole = received s in
    let share = whole * elapsed_at c s / s.duration in
    let amount = share - (whole - s.total_token) in
    let self = mul_mono 1 s.duration whole positive in
    let most = share_le whole (elapsed_at c s) s.duration (elapsed-le-duration c s) positive in
    let is_beneficiary : c.sender == s.beneficiary ≡ true = ground arith in
    (
      record counted {
        total_token = s.total_token - amount;
        last_balance = s.total_token - amount;
      },
      rw
          (
            is_beneficiary,
            check_balance_ok s le (omega (arith, self, fits)),
            require_passed_cliff_ok c counted started cliff,
            available_ok c counted started positive fits some_gone behind,
            pays to s.total_token amount away (omega (arith, most)),
          )
          refl,
      omega (arith, most, some_gone, behind),
      λ ended.
          let all : whole ≤ whole * s.duration / s.duration =
            (le-div_iff_mul-le positive).1 (omega arith) in
          let whole_share : share ≡ whole * s.duration / s.duration =
            ap (λ t. whole * t / s.duration) ended in
          omega (arith, all, whole_share, some_gone),
    )
