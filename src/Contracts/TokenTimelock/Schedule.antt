-- ===== src/Contracts/TokenTimelock/Schedule.antt =====
-- What has been released against the schedule.
use fei_protocol_core.Prelude.{
  ℕ, ◌+◌, ◌-◌, ◌*◌, ◌/◌, ◌≤◌, ◌≡◌, ◌≢◌, refl, ap, ◌∙◌, not, arith, inl, inr, ltb, leb, ◌==◌,
  if◌then◌else◌, Bool-cases, ok, require, >>=-eq-ok,
}
use fei_protocol_core.Contracts.Evm.{Call, add, sub, mul, div, sub-eq-ok, add-eq-ok, mul-eq-ok}
use fei_protocol_core.Contracts.CoreRef.{Context}
use fei_protocol_core.Contracts.TokenTimelock.{
  Timelock, time_since_start, proportion_available, available_for_release, require_passed_cliff,
  check_balance, send, release,
}

div-eq-ok : (a b : ℕ) {c : ℕ} → div a b ≡ ok c → c ≡ a / b
unfolding div
div-eq-ok a b e = ground arith

-- The seconds of the period that have passed.
unfoldable pub elapsed_at : Context → Timelock → ℕ
elapsed_at c s =
    if s.start_time == 0
    then 0
    else if ltb s.duration (c.block_timestamp - s.start_time)
    then s.duration
    else c.block_timestamp - s.start_time

time_since_start-eq-elapsed_at :
    (c : Context) (s : Timelock) {t : ℕ} → time_since_start c s ≡ ok t → t ≡ elapsed_at c s
unfolding time_since_start elapsed_at sub
time_since_start-eq-elapsed_at c s e = ground arith

-- What was available is what the schedule gives beyond what has been released.
available_within :
    (c : Context) (s : Timelock) {a : ℕ}
    → available_for_release c s ≡ ok a
    → (a + (s.initial_balance - s.total_token) ≡ s.initial_balance * elapsed_at c s / s.duration)
      × (s.total_token ≤ s.initial_balance)
unfolding available_for_release proportion_available
available_within c s e =
    let (t, passed, e1) = >>=-eq-ok (time_since_start c s) _ e in
    let (total, share, e2) = >>=-eq-ok (proportion_available s.initial_balance t s.duration) _ e1 in
    let (released, gone, e3) = >>=-eq-ok (sub s.initial_balance s.total_token) _ e2 in
    let (product, times, e4) = >>=-eq-ok (mul s.initial_balance t) _ share in
    let time = time_since_start-eq-elapsed_at c s passed in
    let is_product = mul-eq-ok s.initial_balance t times in
    let is_total = div-eq-ok product s.duration e4 in
    let is_released = sub-eq-ok s.initial_balance s.total_token gone in
    let is_rest = sub-eq-ok total released e3 in
    let whole : total ≡ s.initial_balance * elapsed_at c s / s.duration =
      is_total ∙ ap (λ x. x / s.duration) (is_product ∙ ap (λ x. s.initial_balance * x) time) in
    (omega (arith, whole), omega arith)

-- All the tokens that the timelock has received, with those that came since its last check.
abbrev pub received : Timelock → ℕ
received s = s.initial_balance + (s.total_token - s.last_balance)

check_balance-eq-ok :
    (s k : Timelock)
    → s.last_balance ≤ s.total_token
    → check_balance s ≡ ok k
    → record s { initial_balance = received s } ≡ k
unfolding check_balance
check_balance-eq-ok s k le e = elim (Bool-cases (ltb s.last_balance s.total_token)) [
  | inl more ↦
      let (delta, came, e1) = >>=-eq-ok (sub s.total_token s.last_balance) _ (rw more at e) in
      let (initial, sum, e2) = >>=-eq-ok (add s.initial_balance delta) _ e1 in
      let is_delta = sub-eq-ok s.total_token s.last_balance came in
      let is_sum = add-eq-ok s.initial_balance delta sum in
      let is_received : received s ≡ initial = omega arith in rw is_received (cc)
  | inr none_came ↦
      let equal : s.total_token ≤ s.last_balance = ground arith in
      let is_received : received s ≡ s.initial_balance = omega arith in
      let kept : s ≡ k = ground arith in rw is_received kept
]

-- `this` is the timelock's own address.
module _ (transfer : ℕ → ℕ → ℕ → Call ℕ) (this : ℕ)
    (moves : (to balance amount left : ℕ)
      → to ≢ this
      → transfer to balance amount ≡ ok left
      → left + amount ≡ balance) where
  pay_within :
      (c : Context) (to amount : ℕ) (k s' : Timelock) {a : ℕ}
      → to ≢ this
      → available_for_release c k ≡ ok a
      → amount ≤ a
      → send transfer to amount k ≡ ok s'
      → (s'.initial_balance ≡ k.initial_balance)
        × (s'.total_token + amount ≡ k.total_token)
        × (s'.last_balance ≡ s'.total_token)
        × (s'.initial_balance - s'.total_token ≤ s'.initial_balance * elapsed_at c k / k.duration)
  unfolding send
  pay_within c to amount k s' away available enough e =
      let (left, sent, e') = >>=-eq-ok (transfer to k.total_token amount) _ e in
      let same : record k { total_token = left; last_balance = left } ≡ s' = cc in
      let moved = moves to k.total_token amount left away sent in
      let (schedule, some_gone) = available_within c k available in
      rw (← same) (refl, moved, refl, omega (arith, schedule, some_gone, moved, enough))

  -- Where the token's transfers to others take the amount from the balance, and the timelock holds at
  -- least what it held at its last check: a release to another address that succeeds pays out the amount, counts all tokens received,
  -- and leaves the tokens released so far within the schedule, which is the received tokens times the
  -- seconds that have passed, divided by the duration and rounded down.
  pub release_within_schedule :
      (c : Context) (to amount : ℕ) (s s' : Timelock)
      → to ≢ this
      → s.last_balance ≤ s.total_token
      → release transfer c to amount s ≡ ok s'
      → (s'.initial_balance ≡ received s)
        × (s'.total_token + amount ≡ s.total_token)
        × (s'.last_balance ≡ s'.total_token)
        × (s'.initial_balance - s'.total_token ≤ s'.initial_balance * elapsed_at c s / s.duration)
  unfolding release elapsed_at
  release_within_schedule c to amount s s' away le e =
      let (who, is_beneficiary, e1) = >>=-eq-ok (require (c.sender == s.beneficiary) _) _ e in
      let (k, checked, e2) = >>=-eq-ok (check_balance s) _ e1 in
      let (some_amount, not_zero, e3) = >>=-eq-ok (require (not (amount == 0)) _) _ e2 in
      let (cliff, passed, e4) = >>=-eq-ok (require_passed_cliff c k) _ e3 in
      let (available, is_available, e5) = >>=-eq-ok (available_for_release c k) _ e4 in
      let (enough, within, e6) = >>=-eq-ok (require (leb amount available) _) _ e5 in
      let is_k = check_balance-eq-ok s k le checked in
      let counted : Timelock = record s { initial_balance = received s } in
      let enough : amount ≤ available = ground arith in
      pay_within c to amount counted s' away (ap (available_for_release c) is_k ∙ is_available)
        enough (ap (send transfer to amount) is_k ∙ e6)
