-- ===== src/Contracts/RateLimited/Limit.antt =====
-- What one call can use.
use fei_protocol_core.Prelude.{
  ℕ, ◌+◌, ◌*◌, ◌≤◌, ◌≡◌, refl, sym, ap, ◌∙◌, ◌&&◌, not, min, arith, ltb, leb, ◌==◌, if◌then◌else◌,
  inl, inr, ok, require, Bool-cases, >>=-eq-ok,
}
use fei_protocol_core.Contracts.Evm.{add, sub, mul, sub-eq-ok, add-eq-ok, mul-eq-ok}
use fei_protocol_core.Contracts.CoreRef.{Context, only_governor_or_admin}
use fei_protocol_core.Contracts.RateLimited.{
  Limiter, buffer, update_buffer_stored, write_buffer_cap, set_rate_limit_per_second,
  set_buffer_cap, deplete_buffer, replenish_buffer,
}

mul_mono : (a b k : ℕ) → a ≤ b → a * k ≤ b * k
mul_mono a b k h = grind arith

pub mul_plus : (m a b : ℕ) → m * (a + b) ≡ m * a + m * b
mul_plus m a b = grind arith

-- The most that can have been used between two storages, when `granted` was put back: both buffers and
-- the time between them count.
pub record IsLimited (granted used : ℕ) (s s' : Limiter) : Type 0 where
  pub same_max : s'.max_rate_limit_per_second ≡ s.max_rate_limit_per_second
  pub below_max : s'.rate_limit_per_second ≤ s'.max_rate_limit_per_second
  pub limited :
      used + s'.buffer_stored + s.max_rate_limit_per_second * s.last_buffer_used_time
      ≤ s.buffer_stored + granted + s.max_rate_limit_per_second * s'.last_buffer_used_time
  pub later : s.last_buffer_used_time ≤ s'.last_buffer_used_time

record IsBuffer (c : Context) (s : Limiter) (b : ℕ) : Type 0 where
  refilled :
      b + s.max_rate_limit_per_second * s.last_buffer_used_time
      ≤ s.buffer_stored + s.max_rate_limit_per_second * c.block_timestamp
  capped : b ≤ s.buffer_cap
  not_before : s.last_buffer_used_time ≤ c.block_timestamp

buffer-IsBuffer :
    (c : Context) (s : Limiter) {b : ℕ}
    → s.rate_limit_per_second ≤ s.max_rate_limit_per_second
    → buffer c s ≡ ok b
    → IsBuffer c s b
unfolding buffer
buffer-IsBuffer c s {b} below e =
    let (elapsed, passed, e1) = >>=-eq-ok (sub c.block_timestamp s.last_buffer_used_time) _ e in
    let (refilled, product, e2) = >>=-eq-ok (mul s.rate_limit_per_second elapsed) _ e1 in
    let (total, sum, e3) = >>=-eq-ok (add s.buffer_stored refilled) _ e2 in
    let rate = s.rate_limit_per_second in
    let most = s.max_rate_limit_per_second in
    let last = s.last_buffer_used_time in
    let time : elapsed + last ≡ c.block_timestamp = sub-eq-ok c.block_timestamp last passed in
    let split : most * c.block_timestamp ≡ most * elapsed + most * last =
      ap (λ t. most * t) (sym time) ∙ mul_plus most elapsed last in
    let is_min : b ≡ min total s.buffer_cap = cc in
    let amount = mul-eq-ok rate elapsed product in
    let whole = add-eq-ok s.buffer_stored refilled sum in
    let slower = mul_mono rate most elapsed below in
    record {
      refilled = rw is_min (omega arith);
      capped = rw is_min (omega arith);
      not_before = omega arith;
    }

update_buffer_stored-IsLimited :
    (c : Context) (s s' : Limiter)
    → s.rate_limit_per_second ≤ s.max_rate_limit_per_second
    → update_buffer_stored c s ≡ ok s'
    → IsLimited 0 0 s s'
unfolding update_buffer_stored
update_buffer_stored-IsLimited c s s' below e =
    let (b, is_b, e') = >>=-eq-ok (buffer c s) _ e in
    let h = buffer-IsBuffer c s below is_b in
    let refilled = h.refilled in
    let same : record s { buffer_stored = b; last_buffer_used_time = c.block_timestamp } ≡ s' =
      cc in
    rw (← same)
      (record { same_max = refl; below_max = below; limited = omega arith; later = h.not_before })

pub deplete_buffer-IsLimited :
    (c : Context) (amount used : ℕ) (s s' : Limiter)
    → s.rate_limit_per_second ≤ s.max_rate_limit_per_second
    → deplete_buffer c amount s ≡ ok (used, s')
    → IsLimited 0 used s s'
unfolding deplete_buffer
deplete_buffer-IsLimited c amount used s s' below e =
    let (b, is_b, e1) = >>=-eq-ok (buffer c s) _ e in
    let spent = if s.do_partial_action && ltb b amount then b else amount in
    let (filled, some_left, e2) = >>=-eq-ok (require (not (b == 0)) _) _ e1 in
    let (enough, within, e3) = >>=-eq-ok (require (leb spent b) _) _ e2 in
    let (stored, left, e4) = >>=-eq-ok (sub b spent) _ e3 in
    let h = buffer-IsBuffer c s below is_b in
    let refilled = h.refilled in
    let difference = sub-eq-ok b spent left in
    let same_used : spent ≡ used = cc in
    let same : record s { buffer_stored = stored; last_buffer_used_time = c.block_timestamp } ≡ s' =
      cc in
    rw (← same, ← same_used)
      (record { same_max = refl; below_max = below; limited = omega arith; later = h.not_before })

pub replenish_buffer-IsLimited :
    (c : Context) (amount : ℕ) (s s' : Limiter)
    → s.rate_limit_per_second ≤ s.max_rate_limit_per_second
    → replenish_buffer c amount s ≡ ok s'
    → IsLimited amount 0 s s'
unfolding replenish_buffer
replenish_buffer-IsLimited c amount s s' below e =
    let (b, is_b, e1) = >>=-eq-ok (buffer c s) _ e in
    let h = buffer-IsBuffer c s below is_b in
    let refilled = h.refilled in
    elim (Bool-cases (b == s.buffer_cap)) [
      | inl full ↦
          let same : s ≡ s' = ground arith in
          rw (← same) (record {
            same_max = refl;
            below_max = below;
            limited = omega arith;
            later = omega arith;
          })
      | inr room ↦
          let (total, sum, e2) = >>=-eq-ok (add b amount) _ (rw room at e1) in
          let whole = add-eq-ok b amount sum in
          let same : record s {
            last_buffer_used_time = c.block_timestamp;
            buffer_stored = min total s.buffer_cap;
          }
              ≡ s' =
            cc in
          rw (← same) (record {
            same_max = refl;
            below_max = below;
            limited = omega arith;
            later = h.not_before;
          })
    ]

pub set_buffer_cap-IsLimited :
    (c : Context) (new_buffer_cap : ℕ) (s s' : Limiter)
    → s.rate_limit_per_second ≤ s.max_rate_limit_per_second
    → set_buffer_cap c new_buffer_cap s ≡ ok s'
    → IsLimited 0 0 s s'
unfolding set_buffer_cap write_buffer_cap
set_buffer_cap-IsLimited c new_buffer_cap s s' below e =
    let (done, allowed, e1) = >>=-eq-ok (only_governor_or_admin c) _ e in
    let (updated, first, e2) = >>=-eq-ok (update_buffer_stored c s) _ e1 in
    let h = update_buffer_stored-IsLimited c s updated below first in
    let same : record updated { buffer_cap = new_buffer_cap } ≡ s' = cc in
    rw (← same) (record {
      same_max = h.same_max;
      below_max = h.below_max;
      limited = h.limited;
      later = h.later;
    })

pub set_rate_limit_per_second-IsLimited :
    (c : Context) (new_rate : ℕ) (s s' : Limiter)
    → s.rate_limit_per_second ≤ s.max_rate_limit_per_second
    → set_rate_limit_per_second c new_rate s ≡ ok s'
    → IsLimited 0 0 s s'
unfolding set_rate_limit_per_second
set_rate_limit_per_second-IsLimited c new_rate s s' below e =
    let (done, allowed, e1) = >>=-eq-ok (only_governor_or_admin c) _ e in
    let (checked, in_range, e2) =
      >>=-eq-ok (require (leb new_rate s.max_rate_limit_per_second) _) _ e1 in
    let (updated, first, e3) = >>=-eq-ok (update_buffer_stored c s) _ e2 in
    let h = update_buffer_stored-IsLimited c s updated below first in
    let same : record updated { rate_limit_per_second = new_rate } ≡ s' = cc in
    let same_max = h.same_max in
    let small : new_rate ≤ s.max_rate_limit_per_second = ground arith in
    rw (← same) (record {
      same_max = h.same_max;
      below_max = omega arith;
      limited = h.limited;
      later = h.later;
    })
