-- ===== src/Contracts/MultiRateLimited/Individual.antt =====
-- The limit of one address.
use fei_protocol_core.Prelude.{
  ℕ, ◌+◌, ◌-◌, ◌*◌, ◌≤◌, ◌≡◌, ◌≢◌, sym, ap, ◌∙◌, Bool, false, true, not, ◌&&◌, List, [], ◌∷◌, arith,
  ok, >>=-elim, min, ◌==◌, if◌then◌else◌,
}
use fei_protocol_core.Contracts.Evm.{add, mul, sub, sub-eq-ok, add-eq-ok, mul-eq-ok}
use fei_protocol_core.Contracts.CoreRef.{Context}
use fei_protocol_core.Contracts.RateLimited as Inherited
use fei_protocol_core.Contracts.RateLimited.{Limiter, buffer, deplete_buffer}
use fei_protocol_core.Contracts.MultiRateLimited.{
  MultiLimiter, RateLimitData, Caller, write_limit, to_uint32, cast_uint112, individual_buffer,
}
use fei_protocol_core.Contracts.MultiRateLimited.Calls.{Action, use_by, remove, act}

module _ (a : ℕ) where
  -- What a call uses of the address's limit, and whether it is the removal of the address.
  abbrev pub share : Action → ℕ → ℕ
  share (use_by who amount) used = if who == a then used else 0
  share _ used = 0

  abbrev pub removes : Action → Bool
  removes (remove who) = who == a
  removes _ = false

  unfoldable pub used_by : List (Caller × Action) → MultiLimiter → ℕ
  unfolding act
  used_by [] s = 0
  used_by ((c, x) ∷ rest) s = share x (act c x s).0 + used_by rest (act c x s).1

  unfoldable pub is_kept : List (Caller × Action) → Bool
  is_kept [] = true
  is_kept ((c, x) ∷ rest) = not (removes x) && is_kept rest

  abbrev pub limit_in : MultiLimiter → RateLimitData
  limit_in s = s.rate_limit_per_address a

  -- An address that has been added, with a rate that is at most the contract's greatest.
  pub record IsRegistered (s : MultiLimiter) : Type 0 where
    pub added : 1 ≤ (limit_in s).last_buffer_used_time
    pub below : (limit_in s).rate_limit_per_second ≤ s.limiter.max_rate_limit_per_second

  -- What the address can have used between two storages.
  pub record IsWithin (used : ℕ) (s s' : MultiLimiter) : Type 0 where
    pub same_max : s'.limiter.max_rate_limit_per_second ≡ s.limiter.max_rate_limit_per_second
    pub below : (limit_in s').rate_limit_per_second ≤ s.limiter.max_rate_limit_per_second
    pub limited :
        used
          + (limit_in s').buffer_stored
          + s.limiter.max_rate_limit_per_second * (limit_in s).last_buffer_used_time
        ≤ (limit_in s).buffer_stored
          + s.limiter.max_rate_limit_per_second * (limit_in s').last_buffer_used_time
    pub later : (limit_in s).last_buffer_used_time ≤ (limit_in s').last_buffer_used_time

  pub IsWithin-same :
      (s s' : MultiLimiter)
      → IsRegistered s
      → s'.limiter.max_rate_limit_per_second ≡ s.limiter.max_rate_limit_per_second
      → limit_in s' ≡ limit_in s
      → IsWithin 0 s s'
  IsWithin-same s s' r same_max same = record {
    same_max = same_max;
    below = rw same r.below;
    limited = rw same (omega arith);
    later = rw same (omega arith);
  }

  pub write_limit_other :
      (who : ℕ) (d : RateLimitData) (s : MultiLimiter)
      → who ≢ a
      → limit_in (write_limit who d s) ≡ limit_in s
  write_limit_other who d s apart = ground arith

  pub write_limit_self : (d : RateLimitData) (s : MultiLimiter) → limit_in (write_limit a d s) ≡ d
  write_limit_self d s = ground arith

refilled_le :
    (rate most last now elapsed : ℕ)
    → rate ≤ most
    → elapsed + last ≡ now
    → rate * elapsed + most * last ≤ most * now
refilled_le rate most last now elapsed below time =
    let split : most * (elapsed + last) ≡ most * elapsed + most * last = grind arith in
    let less : rate * elapsed ≤ most * elapsed = grind arith in
    rw (← time, split) (omega (arith, less))

pub times_between : (k n m : ℕ) → m ≤ n → k * (n - m) + k * m ≡ k * n
times_between k n m h = grind arith

pub individual_buffer_le :
    (c : Context) (a b most : ℕ) (s : MultiLimiter)
    → (s.rate_limit_per_address a).rate_limit_per_second ≤ most
    → individual_buffer c a s ≡ ok b
    → (b + most * (s.rate_limit_per_address a).last_buffer_used_time
        ≤ (s.rate_limit_per_address a).buffer_stored + most * c.block_timestamp)
      × ((s.rate_limit_per_address a).last_buffer_used_time ≤ c.block_timestamp)
unfolding individual_buffer
individual_buffer_le c a b most s below e =
    let d = s.rate_limit_per_address a in
    >>=-elim (sub c.block_timestamp d.last_buffer_used_time) _ e (λ elapsed passes e1.
      >>=-elim (mul d.rate_limit_per_second elapsed) _ e1 (λ refilled refills e2.
        >>=-elim (add d.buffer_stored refilled) _ e2 (λ sum adds e3.
          let time = sub-eq-ok c.block_timestamp d.last_buffer_used_time passes in
          let is : cast_uint112 (min sum d.buffer_cap) ≡ b = cc in
          let less =
            refilled_le d.rate_limit_per_second most d.last_buffer_used_time c.block_timestamp
              elapsed below time in
          let capped : cast_uint112 (min sum d.buffer_cap) ≤ sum = omega arith in
          (
            omega (
              arith,
              is,
              capped,
              less,
              add-eq-ok d.buffer_stored refilled adds,
              mul-eq-ok d.rate_limit_per_second elapsed refills,
            ),
            omega (arith, time),
          ))))

pub to_uint32-eq-ok : (x : ℕ) {y : ℕ} → to_uint32 x ≡ ok y → y ≡ x
to_uint32-eq-ok x e = ground arith

pub act-keeps_max :
    (c : Context) (a : Inherited.Action) (s : Limiter)
    → (Inherited.act c a s).1.max_rate_limit_per_second ≡ s.max_rate_limit_per_second
unfolding Inherited.act deplete_buffer Inherited.replenish_buffer Inherited.set_buffer_cap
    Inherited.set_rate_limit_per_second
act-keeps_max c (Inherited.deplete amount) s = ground arith
act-keeps_max c (Inherited.replenish amount) s = ground arith
act-keeps_max c (Inherited.cap_change cap) s = ground arith
act-keeps_max c (Inherited.rate_change rate) s = ground arith

pub deplete_buffer-keeps_max :
    (c : Context) (amount : ℕ) (s : Limiter) (depleted : ℕ × Limiter)
    → deplete_buffer c amount s ≡ ok depleted
    → depleted.1.max_rate_limit_per_second ≡ s.max_rate_limit_per_second
unfolding Inherited.act
deplete_buffer-keeps_max c amount s depleted e =
    sym (ap (λ m. (Inherited.used_some m s).1.max_rate_limit_per_second) e)
    ∙ act-keeps_max c (Inherited.deplete amount) s
