-- ===== src/Contracts/MultiRateLimited/Writes.antt =====
-- What the writes of an address's data do to the limit of one address.
use fei_protocol_core.Prelude.{
  ℕ, ◌+◌, ◌*◌, ◌≤◌, ◌≡◌, ◌≢◌, refl, sym, ap, ◌∙◌, not, arith, ok, require, >>=-elim, leb, ◌==◌,
  if◌then◌else◌, Bool-cases, inl, inr,
}
use fei_protocol_core.Contracts.Evm.{Call, sub, sub-eq-ok}
use fei_protocol_core.Contracts.CoreRef.{Context}
use fei_protocol_core.Contracts.RateLimited.{deplete_buffer}
use fei_protocol_core.Contracts.MultiRateLimited.{
  MultiLimiter, RateLimitData, write_limit, to_uint32, cast_uint112, deplete_individual_buffer,
  individual_buffer, write_address, rewrite_address,
}
use fei_protocol_core.Contracts.MultiRateLimited.Individual.{
  limit_in, IsRegistered, IsWithin, IsWithin-same, write_limit_other, write_limit_self,
  individual_buffer_le, to_uint32-eq-ok, deplete_buffer-keeps_max,
}

module _ (a : ℕ) (s : MultiLimiter) (r : IsRegistered a s) where
  abbrev pub Within : ℕ → Call MultiLimiter → Type 0
  Within used m = (s' : MultiLimiter) → m ≡ ok s' → IsWithin a used s s'

  pub write_address-Within :
      (c : Context) (who rate cap : ℕ) → Within 0 (write_address c who rate cap s)
  unfolding write_address
  write_address-Within c who rate cap s' e =
      >>=-elim (require (leb cap s.limiter.buffer_cap) _) _ e (λ u1 small e1.
        >>=-elim (require ((s.rate_limit_per_address who).last_buffer_used_time == 0) _) _ e1
          (λ u2 new e2.
            >>=-elim (require (leb rate s.limiter.max_rate_limit_per_second) _) _ e2 (λ u3 slow e3.
              >>=-elim (to_uint32 c.block_timestamp) _ e3 (λ now casts e4.
                let apart : who ≢ a = λ same. omega (arith, fresh who same (ground arith)) in
                let d : RateLimitData = record {
                  last_buffer_used_time = now;
                  buffer_cap = cap;
                  buffer_stored = cap;
                  rate_limit_per_second = rate;
                } in
                let is : write_limit who d s ≡ s' = cc in
                rw (← is) (
                  IsWithin-same a s (write_limit who d s) r refl
                    (write_limit_other a who d s apart))))))
    where
      fresh :
          (who : ℕ)
          → who ≡ a
          → (s.rate_limit_per_address who).last_buffer_used_time ≡ 0
          → ◌≡◌ {A = ℕ} 0 1
      fresh who same none =
          let here : (s.rate_limit_per_address a).last_buffer_used_time ≡ 0 =
            ap (λ x. (s.rate_limit_per_address x).last_buffer_used_time) (sym same) ∙ none in
          omega (arith, here, r.added)

  -- The address's data is written anew at the time `now`, with `left` of the buffer after a use.
  writes-IsWithin :
      (used b now : ℕ) (d : RateLimitData) (next : MultiLimiter)
      → next.limiter.max_rate_limit_per_second ≡ s.limiter.max_rate_limit_per_second
      → d.last_buffer_used_time ≡ now
      → used + d.buffer_stored ≤ b
      → d.rate_limit_per_second ≤ s.limiter.max_rate_limit_per_second
      → b + s.limiter.max_rate_limit_per_second * (limit_in a s).last_buffer_used_time
        ≤ (limit_in a s).buffer_stored + s.limiter.max_rate_limit_per_second * now
      → (limit_in a s).last_buffer_used_time ≤ now
      → IsWithin a used s (write_limit a d next)
  writes-IsWithin used b now d next same_max time spent below limited later =
      let self = write_limit_self a d next in
      record {
        same_max = same_max;
        below = rw self below;
        limited = rw (self, time) (omega (arith, spent, limited));
        later = rw (self, time) later;
      }

  pub rewrite_address-Within :
      (c : Context) (who rate cap : ℕ)
      → rate ≤ s.limiter.max_rate_limit_per_second
      → Within 0 (rewrite_address c who rate cap s)
  unfolding rewrite_address
  rewrite_address-Within c who rate cap slow s' e =
      >>=-elim (individual_buffer c who s) _ e (λ stored buffers e1.
        >>=-elim (to_uint32 c.block_timestamp) _ e1 (λ now casts e2.
          let d : RateLimitData = record {
            last_buffer_used_time = now;
            buffer_cap = cap;
            buffer_stored = stored;
            rate_limit_per_second = rate;
          } in
          let is : write_limit who d s ≡ s' = cc in
          rw (← is) (elim (Bool-cases (who == a)) [
            | inl same ↦
                let self : who ≡ a = ground arith in
                let most = s.limiter.max_rate_limit_per_second in
                let (limited, later) =
                  individual_buffer_le c a stored most s r.below
                    (ap (λ x. individual_buffer c x s) (sym self) ∙ buffers) in
                let time : now ≡ c.block_timestamp = to_uint32-eq-ok c.block_timestamp casts in
                rw self (
                  writes-IsWithin 0 stored now d s refl refl (omega arith) slow (rw time limited)
                    (rw time later))
            | inr other ↦
                IsWithin-same a s (write_limit who d s) r refl
                  (write_limit_other a who d s (ground arith))
          ])))

  pub deplete-Within :
      (c : Context) (who amount : ℕ)
      → Within (if who == a then amount else 0) (deplete_individual_buffer c who amount s)
  unfolding deplete_individual_buffer
  deplete-Within c who amount s' e =
      >>=-elim (deplete_buffer c amount s.limiter) _ e (λ depleted depletes e1.
        let next = record s { limiter = depleted.1 } in
        >>=-elim (individual_buffer c who next) _ e1 (λ b fills e2.
          >>=-elim (require (not (b == 0)) _) _ e2 (λ u1 some_left e3.
            >>=-elim (require (leb amount b) _) _ e3 (λ u2 enough e4.
              >>=-elim (to_uint32 c.block_timestamp) _ e4 (λ now casts e5.
                >>=-elim (sub b amount) _ e5 (λ left leaves e6.
                  let d = record (s.rate_limit_per_address who) {
                    last_buffer_used_time = now;
                    buffer_stored = cast_uint112 left;
                  } in
                  let is : write_limit who d next ≡ s' = cc in
                  let same_max : depleted.1.max_rate_limit_per_second
                      ≡ s.limiter.max_rate_limit_per_second =
                    deplete_buffer-keeps_max c amount s.limiter depleted depletes in
                  rw (← is) (elim (Bool-cases (who == a)) [
                    | inl same ↦
                        let self : who ≡ a = ground arith in
                        let most = s.limiter.max_rate_limit_per_second in
                        let (limited, later) =
                          individual_buffer_le c a b most next r.below
                            (ap (λ x. individual_buffer c x next) (sym self) ∙ fills) in
                        let time : now ≡ c.block_timestamp =
                          to_uint32-eq-ok c.block_timestamp casts in
                        let cast_le : cast_uint112 left ≤ left = omega arith in
                        let spent = sub-eq-ok b amount leaves in
                        let used : amount + cast_uint112 left ≤ b = omega (arith, cast_le, spent) in
                        let d_a = record (s.rate_limit_per_address a) {
                          last_buffer_used_time = now;
                          buffer_stored = cast_uint112 left;
                        } in
                        let here : IsWithin a amount s (write_limit a d_a next) =
                          writes-IsWithin amount b now d_a next same_max refl used r.below
                            (rw time limited) (rw time later) in
                        rw (same, self) here
                    | inr other ↦ rw other (
                        IsWithin-same a s (write_limit who d next) r same_max
                          (write_limit_other a who d next (ground arith)))
                  ])))))))
