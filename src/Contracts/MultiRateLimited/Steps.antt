-- ===== src/Contracts/MultiRateLimited/Steps.antt =====
-- What single functions do to the limit that the contract inherits.
use fei_protocol_core.Prelude.{
  ℕ, ◌≡◌, ap₂, ◌∙◌, false, not, ◌||◌, arith, ok, require, >>=-elim, leb, ◌==◌,
}
use fei_protocol_core.Contracts.Evm.{Call, sub}
use fei_protocol_core.Contracts.CoreRef.{Context, only_governor}
use fei_protocol_core.Contracts.RateLimited as Inherited
use fei_protocol_core.Contracts.RateLimited.{Limiter, buffer, deplete_buffer}
use fei_protocol_core.Contracts.MultiRateLimited.{
  MultiLimiter, Caller, to_uint32, update_max_rate_limit_per_second, update_max_buffer_cap,
  add_address, update_address, add_address_as_minter, add_limited_address_as_minter, remove_address,
  address_is_registered, only_add_minter_role, within_role, deplete_individual_buffer,
  individual_buffer, write_address, rewrite_address,
}

-- An administrative call leaves the inherited limit alone.
abbrev pub KeepsLimiter : MultiLimiter → Call MultiLimiter → Type 0
KeepsLimiter s r = (s' : MultiLimiter) → r ≡ ok s' → s'.limiter ≡ s.limiter

pub write_address-KeepsLimiter :
    (c : Context) (who rate cap : ℕ) (s : MultiLimiter)
    → KeepsLimiter s (write_address c who rate cap s)
unfolding write_address
write_address-KeepsLimiter c who rate cap s s' e = ground arith

pub rewrite_address-KeepsLimiter :
    (c : Context) (who rate cap : ℕ) (s : MultiLimiter)
    → KeepsLimiter s (rewrite_address c who rate cap s)
unfolding rewrite_address
rewrite_address-KeepsLimiter c who rate cap s s' e =
    >>=-elim (individual_buffer c who s) _ e
      (λ stored buffers e1. >>=-elim (to_uint32 c.block_timestamp) _ e1 (λ now casts e2. cc))

pub add_address-KeepsLimiter :
    (c : Caller) (who rate cap : ℕ) (s : MultiLimiter)
    → KeepsLimiter s (add_address c who rate cap s)
unfolding add_address
add_address-KeepsLimiter c who rate cap s s' e =
    >>=-elim (only_governor c.context) _ e
      (λ u allowed. write_address-KeepsLimiter c.context who rate cap s s')

pub update_address-KeepsLimiter :
    (c : Caller) (who rate cap : ℕ) (s : MultiLimiter)
    → KeepsLimiter s (update_address c who rate cap s)
unfolding update_address
update_address-KeepsLimiter c who rate cap s s' e =
    >>=-elim (address_is_registered who s) _ e (λ u1 there e1.
      >>=-elim (require (c.can_add_minter || c.context.is_governor) _) _ e1 (λ u2 allowed e2.
        >>=-elim (within_role c rate cap s) _ e2 (λ u3 within e3.
          >>=-elim (require (leb cap s.limiter.buffer_cap) _) _ e3 (λ u4 small e4.
            >>=-elim (require (leb rate s.limiter.max_rate_limit_per_second) _) _ e4
              (λ u5 slow. rewrite_address-KeepsLimiter c.context who rate cap s s')))))

pub add_address_as_minter-KeepsLimiter :
    (c : Caller) (who : ℕ) (s : MultiLimiter) → KeepsLimiter s (add_address_as_minter c who s)
unfolding add_address_as_minter
add_address_as_minter-KeepsLimiter c who s s' e =
    >>=-elim (only_add_minter_role c) _ e
      (λ u allowed. write_address-KeepsLimiter c.context who _ _ s s')

pub add_limited_address_as_minter-KeepsLimiter :
    (c : Caller) (who rate cap : ℕ) (s : MultiLimiter)
    → KeepsLimiter s (add_limited_address_as_minter c who rate cap s)
unfolding add_limited_address_as_minter
add_limited_address_as_minter-KeepsLimiter c who rate cap s s' e =
    >>=-elim (only_add_minter_role c) _ e (λ u1 allowed e1.
      >>=-elim (require (leb rate s.individual_max_rate_limit_per_second) _) _ e1 (λ u2 slow e2.
        >>=-elim (require (leb cap s.individual_max_buffer_cap) _) _ e2
          (λ u3 small. write_address-KeepsLimiter c.context who rate cap s s')))

pub remove_address-KeepsLimiter :
    (c : Caller) (who : ℕ) (s : MultiLimiter) → KeepsLimiter s (remove_address c who s)
unfolding remove_address
remove_address-KeepsLimiter c who s s' e = ground arith

pub update_max_rate_limit_per_second-KeepsLimiter :
    (c : Caller) (rate : ℕ) (s : MultiLimiter)
    → KeepsLimiter s (update_max_rate_limit_per_second c rate s)
unfolding update_max_rate_limit_per_second
update_max_rate_limit_per_second-KeepsLimiter c rate s s' e = ground arith

pub update_max_buffer_cap-KeepsLimiter :
    (c : Caller) (cap : ℕ) (s : MultiLimiter) → KeepsLimiter s (update_max_buffer_cap c cap s)
unfolding update_max_buffer_cap
update_max_buffer_cap-KeepsLimiter c cap s s' e = ground arith

-- Without partial actions a depletion uses its amount.
pub deplete_buffer-uses :
    (c : Context) (amount used : ℕ) (s s' : Limiter)
    → s.do_partial_action ≡ false
    → deplete_buffer c amount s ≡ ok (used, s')
    → used ≡ amount
unfolding deplete_buffer
deplete_buffer-uses c amount used s s' off e =
    >>=-elim (buffer c s) _ e (λ b fills e1. ground arith)

pub deplete_individual_buffer-depletes :
    (c : Context) (who amount : ℕ) (s s' : MultiLimiter)
    → s.limiter.do_partial_action ≡ false
    → deplete_individual_buffer c who amount s ≡ ok s'
    → deplete_buffer c amount s.limiter ≡ ok (amount, s'.limiter)
unfolding deplete_individual_buffer
deplete_individual_buffer-depletes c who amount s s' off e =
    >>=-elim (deplete_buffer c amount s.limiter) _ e (λ depleted depletes e1.
      let next = record s { limiter = depleted.1 } in
      >>=-elim (individual_buffer c who next) _ e1 (λ b fills e2.
        >>=-elim (require (not (b == 0)) _) _ e2 (λ u1 some_left e3.
          >>=-elim (require (leb amount b) _) _ e3 (λ u2 enough e4.
            >>=-elim (to_uint32 c.block_timestamp) _ e4 (λ now casts e5.
              >>=-elim (sub b amount) _ e5 (λ left leaves e6.
                let same : depleted.1 ≡ s'.limiter = cc in
                let uses =
                  deplete_buffer-uses c amount depleted.0 s.limiter depleted.1 off depletes in
                depletes ∙ ap₂ (λ x y. ok (x, y)) uses same))))))

pub act-keeps_partial :
    (c : Context) (a : Inherited.Action) (s : Limiter)
    → (Inherited.act c a s).1.do_partial_action ≡ s.do_partial_action
unfolding Inherited.act deplete_buffer Inherited.replenish_buffer Inherited.set_buffer_cap
    Inherited.set_rate_limit_per_second
act-keeps_partial c (Inherited.deplete amount) s = ground arith
act-keeps_partial c (Inherited.replenish amount) s = ground arith
act-keeps_partial c (Inherited.cap_change cap) s = ground arith
act-keeps_partial c (Inherited.rate_change rate) s = ground arith
