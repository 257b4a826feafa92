-- ===== src/Contracts/MultiRateLimited/Usage.antt =====
-- What one address can use over a sequence of calls.
use fei_protocol_core.Prelude.{
  ℕ, ◌+◌, ◌-◌, ◌*◌, ◌≤◌, ◌≡◌, refl, ap, ◌∙◌, false, true, ◌||◌, List, [], ◌∷◌, arith, ok, err,
  require, >>=-elim, leb, ◌==◌, if◌then◌else◌,
}
use fei_protocol_core.Contracts.Evm.{Call}
use fei_protocol_core.Contracts.CoreRef.{only_governor, only_guardian_or_governor}
use fei_protocol_core.Contracts.MultiRateLimited.{
  MultiLimiter, Caller, write_limit, no_limit, update_max_rate_limit_per_second,
  update_max_buffer_cap, add_address, update_address, add_address_as_minter,
  add_limited_address_as_minter, remove_address, address_is_registered, only_add_minter_role,
  within_role, deplete_individual_buffer,
}
use fei_protocol_core.Contracts.MultiRateLimited.Calls.{
  Action, use_by, add_limit, change_limit, add_minter, add_limited_minter, remove, change_max_rate,
  change_max_cap, inherited, settle, act, acts,
}
use fei_protocol_core.Contracts.MultiRateLimited.Individual.{
  share, removes, used_by, is_kept, limit_in, IsRegistered, IsWithin, IsWithin-same,
  write_limit_other, times_between, act-keeps_max,
}
use fei_protocol_core.Contracts.MultiRateLimited.Writes.{
  Within, write_address-Within, rewrite_address-Within, deplete-Within,
}

module _ (a : ℕ) (s : MultiLimiter) (r : IsRegistered a s) where
  settle-IsWithin : (m : Call MultiLimiter) → Within a s r 0 m → IsWithin a 0 s (settle 0 m s).1
  settle-IsWithin (ok s') h = h s' refl
  settle-IsWithin (err e) h = IsWithin-same a s s r refl refl

  settle_use-IsWithin :
      (who amount : ℕ) (m : Call MultiLimiter)
      → Within a s r (if who == a then amount else 0) m
      → IsWithin a (share a (use_by who amount) (settle amount m s).0) s (settle amount m s).1
  settle_use-IsWithin who amount (ok s') h = h s' refl
  settle_use-IsWithin who amount (err e) h =
      let none : ◌≡◌ {A = ℕ} (if who == a then 0 else 0) 0 = ground arith in
      rw none (IsWithin-same a s s r refl refl)

  kept-Within :
      (m : Call MultiLimiter)
      → ((s' : MultiLimiter)
          → m ≡ ok s'
          → (s'.limiter ≡ s.limiter) × (limit_in a s' ≡ limit_in a s))
      → Within a s r 0 m
  kept-Within m keeps s' e =
      let (same_limiter, same) = keeps s' e in
      IsWithin-same a s s' r (ap (λ l. l.max_rate_limit_per_second) same_limiter) same

  update_address-Within :
      (c : Caller) (who rate cap : ℕ) → Within a s r 0 (update_address c who rate cap s)
  unfolding update_address
  update_address-Within c who rate cap s' e =
      >>=-elim (address_is_registered who s) _ e (λ u1 there e1.
        >>=-elim (require (c.can_add_minter || c.context.is_governor) _) _ e1 (λ u2 allowed e2.
          >>=-elim (within_role c rate cap s) _ e2 (λ u3 within e3.
            >>=-elim (require (leb cap s.limiter.buffer_cap) _) _ e3 (λ u4 small e4.
              >>=-elim (require (leb rate s.limiter.max_rate_limit_per_second) _) _ e4
                (λ u5 slow e5.
                  rewrite_address-Within a s r c.context who rate cap (ground arith) s' e5)))))

  add_limited_address_as_minter-Within :
      (c : Caller) (who rate cap : ℕ)
      → Within a s r 0 (add_limited_address_as_minter c who rate cap s)
  unfolding add_limited_address_as_minter
  add_limited_address_as_minter-Within c who rate cap s' e =
      >>=-elim (only_add_minter_role c) _ e (λ u1 allowed e1.
        >>=-elim (require (leb rate s.individual_max_rate_limit_per_second) _) _ e1 (λ u2 slow e2.
          >>=-elim (require (leb cap s.individual_max_buffer_cap) _) _ e2
            (λ u3 small e3. write_address-Within a s r c.context who rate cap s' e3)))

  remove_address-Within :
      (c : Caller) (who : ℕ) → who == a ≡ false → Within a s r 0 (remove_address c who s)
  unfolding remove_address
  remove_address-Within c who other = kept-Within (remove_address c who s) (λ s' e.
      >>=-elim (address_is_registered who s) _ e (λ u1 there e1.
        >>=-elim (only_guardian_or_governor c.context) _ e1 (λ u2 allowed e2.
          let is : write_limit who no_limit s ≡ s' = cc in
          rw (← is) (refl, write_limit_other a who no_limit s (ground arith)))))

  act-IsWithin :
      (c : Caller) (x : Action)
      → removes a x ≡ false
      → IsWithin a (share a x (act c x s).0) s (act c x s).1
  unfolding act add_address add_address_as_minter update_max_rate_limit_per_second
      update_max_buffer_cap
  act-IsWithin c (use_by who amount) kept =
      settle_use-IsWithin who amount (deplete_individual_buffer c.context who amount s)
        (deplete-Within a s r c.context who amount)
  act-IsWithin c (add_limit who rate cap) kept =
      settle-IsWithin (add_address c who rate cap s) (λ s' e.
        >>=-elim (only_governor c.context) _ e
          (λ u allowed e1. write_address-Within a s r c.context who rate cap s' e1))
  act-IsWithin c (change_limit who rate cap) kept =
      settle-IsWithin (update_address c who rate cap s) (update_address-Within c who rate cap)
  act-IsWithin c (add_minter who) kept = settle-IsWithin (add_address_as_minter c who s) (λ s' e.
      >>=-elim (only_add_minter_role c) _ e
        (λ u allowed e1. write_address-Within a s r c.context who _ _ s' e1))
  act-IsWithin c (add_limited_minter who rate cap) kept =
      settle-IsWithin (add_limited_address_as_minter c who rate cap s)
        (add_limited_address_as_minter-Within c who rate cap)
  act-IsWithin c (remove who) kept =
      settle-IsWithin (remove_address c who s) (remove_address-Within c who kept)
  act-IsWithin c (change_max_rate rate) kept =
      settle-IsWithin (update_max_rate_limit_per_second c rate s) (
        kept-Within (update_max_rate_limit_per_second c rate s)
          (λ s' e. (ground arith, ground arith)))
  act-IsWithin c (change_max_cap cap) kept =
      settle-IsWithin (update_max_buffer_cap c cap s)
        (kept-Within (update_max_buffer_cap c cap s) (λ s' e. (ground arith, ground arith)))
  act-IsWithin c (inherited b) kept =
      IsWithin-same a s _ r (act-keeps_max c.context b s.limiter) refl

acts-IsWithin :
    (a : ℕ) (calls : List (Caller × Action)) (s : MultiLimiter)
    → IsRegistered a s
    → is_kept a calls ≡ true
    → IsWithin a (used_by a calls s) s (acts calls s).1
unfolding acts used_by is_kept
acts-IsWithin a [] s r kept = IsWithin-same a s s r refl refl
acts-IsWithin a ((c, x) ∷ rest) s r kept =
    let first = act-IsWithin a s r c x (ground arith) in
    let next = (act c x s).1 in
    let registered : IsRegistered a next = record {
      added = omega (arith, r.added, first.later);
      below = rw first.same_max first.below;
    } in
    let others = acts-IsWithin a rest next registered (ground arith) in
    let limited = rw first.same_max at others.limited in
    record {
      same_max = others.same_max ∙ first.same_max;
      below = omega (arith, others.below, first.same_max);
      limited = omega (arith, first.limited, limited);
      later = omega (arith, first.later, others.later);
    }

-- Over any sequence of calls in which a registered address is not removed, where its rate is at most
-- the contract's greatest rate: all that this address uses and its buffer that is left are together at
-- most its buffer at the start and the contract's greatest rate times the seconds between its first and
-- its last recorded use, however its limit is updated and whatever the other addresses do.
pub individual_use_limited :
    (a : ℕ) (calls : List (Caller × Action)) (s : MultiLimiter)
    → IsRegistered a s
    → is_kept a calls ≡ true
    → used_by a calls s + (limit_in a (acts calls s).1).buffer_stored
      ≤ (limit_in a s).buffer_stored
        + s.limiter.max_rate_limit_per_second
          * ((limit_in a (acts calls s).1).last_buffer_used_time
              - (limit_in a s).last_buffer_used_time)
individual_use_limited a calls s r kept =
    let h = acts-IsWithin a calls s r kept in
    let most = s.limiter.max_rate_limit_per_second in
    let last = (limit_in a s).last_buffer_used_time in
    let end = (limit_in a (acts calls s).1).last_buffer_used_time in
    let split : most * (end - last) + most * last ≡ most * end =
      times_between most end last h.later in
    omega (arith, h.limited, split)
