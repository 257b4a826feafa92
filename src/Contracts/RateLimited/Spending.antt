-- ===== src/Contracts/RateLimited/Spending.antt =====
-- What a sequence of calls can use.
use fei_protocol_core.Prelude.{
  ℕ, ◌+◌, ◌-◌, ◌*◌, ◌≤◌, ◌≡◌, refl, sym, ap, ◌∙◌, List, [], ◌∷◌, arith, ok, err,
}
use fei_protocol_core.Contracts.Evm.{Call}
use fei_protocol_core.Contracts.CoreRef.{Context}
use fei_protocol_core.Contracts.RateLimited.{
  Limiter, deplete_buffer, replenish_buffer, set_buffer_cap, set_rate_limit_per_second, Action,
  deplete, replenish, cap_change, rate_change, used_nothing, used_some, act, acts,
}
use fei_protocol_core.Contracts.RateLimited.Limit.{
  IsLimited, mul_plus, deplete_buffer-IsLimited, replenish_buffer-IsLimited,
  set_buffer_cap-IsLimited, set_rate_limit_per_second-IsLimited,
}

-- The amounts by which calls ask to replenish the buffer.
abbrev amount_of : Action → ℕ
amount_of (replenish amount) = amount
amount_of _ = 0

pub replenished : List (Context × Action) → ℕ
replenished [] = 0
replenished ((c, a) ∷ rest) = amount_of a + replenished rest

-- A call that reverts stays within any limit.
IsLimited-refl :
    (granted : ℕ) (s : Limiter)
    → s.rate_limit_per_second ≤ s.max_rate_limit_per_second
    → IsLimited granted 0 s s
IsLimited-refl granted s below = record {
  same_max = refl;
  below_max = below;
  limited = omega arith;
  later = omega arith;
}

used_nothing-IsLimited :
    (granted : ℕ) (r : Call Limiter) (s : Limiter)
    → s.rate_limit_per_second ≤ s.max_rate_limit_per_second
    → ((s' : Limiter) → r ≡ ok s' → IsLimited granted 0 s s')
    → IsLimited granted (used_nothing r s).0 s (used_nothing r s).1
used_nothing-IsLimited granted (ok s') s below h = h s' refl
used_nothing-IsLimited granted (err e) s below h = IsLimited-refl granted s below

used_some-IsLimited :
    (r : Call (ℕ × Limiter)) (s : Limiter)
    → s.rate_limit_per_second ≤ s.max_rate_limit_per_second
    → ((used : ℕ) (s' : Limiter) → r ≡ ok (used, s') → IsLimited 0 used s s')
    → IsLimited 0 (used_some r s).0 s (used_some r s).1
used_some-IsLimited (ok (used, s')) s below h = h used s' refl
used_some-IsLimited (err e) s below h = IsLimited-refl 0 s below

act-IsLimited :
    (c : Context) (a : Action) (s : Limiter)
    → s.rate_limit_per_second ≤ s.max_rate_limit_per_second
    → IsLimited (amount_of a) (act c a s).0 s (act c a s).1
unfolding act
act-IsLimited c (deplete amount) s below =
    used_some-IsLimited (deplete_buffer c amount s) s below
      (λ used s'. deplete_buffer-IsLimited c amount used s s' below)
act-IsLimited c (replenish amount) s below =
    used_nothing-IsLimited amount (replenish_buffer c amount s) s below
      (λ s'. replenish_buffer-IsLimited c amount s s' below)
act-IsLimited c (cap_change new_cap) s below =
    used_nothing-IsLimited 0 (set_buffer_cap c new_cap s) s below
      (λ s'. set_buffer_cap-IsLimited c new_cap s s' below)
act-IsLimited c (rate_change rate) s below =
    used_nothing-IsLimited 0 (set_rate_limit_per_second c rate s) s below
      (λ s'. set_rate_limit_per_second-IsLimited c rate s s' below)

acts-IsLimited :
    (calls : List (Context × Action)) (s : Limiter)
    → s.rate_limit_per_second ≤ s.max_rate_limit_per_second
    → IsLimited (replenished calls) (acts calls s).0 s (acts calls s).1
unfolding acts replenished
acts-IsLimited [] s below = IsLimited-refl 0 s below
acts-IsLimited ((c, a) ∷ rest) s below =
    let next = (act c a s).1 in
    let first = act-IsLimited c a s below in
    let others = acts-IsLimited rest next first.below_max in
    let most = first.same_max in
    let here = first.limited in
    let there = rw most at others.limited in
    record {
      same_max = others.same_max ∙ first.same_max;
      below_max = others.below_max;
      limited = omega arith;
      later = omega (arith, first.later, others.later);
    }

-- Over any sequence of calls that deplete, replenish or reconfigure a limiter whose rate is at most
-- its greatest rate, by whatever callers, at whatever times and whether or not they revert: all that is
-- used and the buffer that is left are together at most the buffer at the start, the amounts by
-- which it was asked to be replenished, and the greatest rate times the seconds between the
-- first and the last recorded use.
pub acts_limited :
    (calls : List (Context × Action)) (s : Limiter)
    → s.rate_limit_per_second ≤ s.max_rate_limit_per_second
    → let final = (acts calls s).1 in
      (acts calls s).0 + final.buffer_stored
      ≤ s.buffer_stored
        + replenished calls
        + s.max_rate_limit_per_second * (final.last_buffer_used_time - s.last_buffer_used_time)
acts_limited calls s below =
    let h = acts-IsLimited calls s below in
    let final = (acts calls s).1 in
    let most = s.max_rate_limit_per_second in
    let last = s.last_buffer_used_time in
    let elapsed = final.last_buffer_used_time - last in
    let time : elapsed + last ≡ final.last_buffer_used_time = omega (arith, h.later) in
    let split : most * final.last_buffer_used_time ≡ most * elapsed + most * last =
      ap (λ t. most * t) (sym time) ∙ mul_plus most elapsed last in
    omega (arith, h.limited, split)
