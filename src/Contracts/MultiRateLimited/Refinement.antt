-- ===== src/Contracts/MultiRateLimited/Refinement.antt =====
-- The limit of all addresses together: the contract refines RateLimited.
use fei_protocol_core.Prelude.{
  ℕ, ◌+◌, ◌-◌, ◌*◌, ◌≤◌, ◌≡◌, refl, sym, ap, ◌∙◌, false, List, [], ◌∷◌, ◌++◌, arith, ok, err,
}
use fei_protocol_core.Contracts.Evm.{Call}
use fei_protocol_core.Contracts.CoreRef.{Context}
use fei_protocol_core.Contracts.RateLimited as Inherited
use fei_protocol_core.Contracts.RateLimited.{Limiter, buffer, deplete_buffer}
use fei_protocol_core.Contracts.RateLimited.Spending as Spending
use fei_protocol_core.Contracts.MultiRateLimited.{
  MultiLimiter, Caller, update_max_rate_limit_per_second, update_max_buffer_cap, add_address,
  update_address, add_address_as_minter, add_limited_address_as_minter, remove_address,
  deplete_individual_buffer,
}
use fei_protocol_core.Contracts.MultiRateLimited.Calls.{
  Action, use_by, add_limit, change_limit, add_minter, add_limited_minter, remove, change_max_rate,
  change_max_cap, inherited, settle, act, acts,
}
use fei_protocol_core.Contracts.MultiRateLimited.Steps.{
  KeepsLimiter, add_address-KeepsLimiter, update_address-KeepsLimiter,
  add_address_as_minter-KeepsLimiter, add_limited_address_as_minter-KeepsLimiter,
  remove_address-KeepsLimiter, update_max_rate_limit_per_second-KeepsLimiter,
  update_max_buffer_cap-KeepsLimiter, deplete_individual_buffer-depletes, act-keeps_partial,
}

-- The calls of RateLimited that a call amounts to: a use that does not revert is a depletion, whoever
-- uses; the administration of addresses is none.
abbrev seen : Context → ℕ → Call MultiLimiter → List (Context × Inherited.Action)
seen c amount (ok s') = (c, Inherited.deplete amount) ∷ []
seen c amount (err e) = []

unfoldable seen_call : Caller → Action → MultiLimiter → List (Context × Inherited.Action)
unfolding deplete_individual_buffer
seen_call c (use_by who amount) s =
    seen c.context amount (deplete_individual_buffer c.context who amount s)
seen_call c (inherited b) s = (c.context, b) ∷ []
seen_call c _ s = []

unfoldable pub seen_calls :
    List (Caller × Action) → MultiLimiter → List (Context × Inherited.Action)
unfolding act seen_call
seen_calls [] s = []
seen_calls ((c, a) ∷ rest) s = seen_call c a s ++ seen_calls rest (act c a s).1

-- One step: what is used, the inherited limit, and that partial actions stay off.
record Refines (seen_list : List (Context × Inherited.Action)) (s : MultiLimiter)
    (r : ℕ × MultiLimiter) : Type 0 where
  pub used : r.0 ≡ (Inherited.acts seen_list s.limiter).0
  pub left : r.1.limiter ≡ (Inherited.acts seen_list s.limiter).1
  pub off : r.1.limiter.do_partial_action ≡ false

module _ (s : MultiLimiter) (off : s.limiter.do_partial_action ≡ false) where
  settle-Refines : (r : Call MultiLimiter) → KeepsLimiter s r → Refines [] s (settle 0 r s)
  unfolding Inherited.acts
  settle-Refines (ok s') keeps =
      let same = keeps s' refl in
      record { used = refl; left = same; off = ap (λ l. l.do_partial_action) same ∙ off }
  settle-Refines (err e) keeps = record { used = refl; left = refl; off = off }

  use-Refines :
      (c : Context) (amount : ℕ) (r : Call MultiLimiter)
      → ((s' : MultiLimiter)
          → r ≡ ok s'
          → deplete_buffer c amount s.limiter ≡ ok (amount, s'.limiter))
      → Refines (seen c amount r) s (settle amount r s)
  unfolding Inherited.acts Inherited.act
  use-Refines c amount (ok s') depletes =
      let does = depletes s' refl in
      let same : Inherited.act c (Inherited.deplete amount) s.limiter ≡ (amount, s'.limiter) =
        ap (λ r. Inherited.used_some r s.limiter) does in
      record {
        used = rw same (omega arith);
        left = rw same refl;
        off =
            ap (λ x. x.1.do_partial_action) (sym same)
            ∙ act-keeps_partial c (Inherited.deplete amount) s.limiter
            ∙ off;
      }
  use-Refines c amount (err e) depletes = record { used = refl; left = refl; off = off }

act-Refines :
    (c : Caller) (a : Action) (s : MultiLimiter)
    → s.limiter.do_partial_action ≡ false
    → Refines (seen_call c a s) s (act c a s)
unfolding act seen_call Inherited.acts
act-Refines c (use_by who amount) s off =
    use-Refines s off c.context amount (deplete_individual_buffer c.context who amount s)
      (λ s'. deplete_individual_buffer-depletes c.context who amount s s' off)
act-Refines c (add_limit who rate cap) s off =
    settle-Refines s off (add_address c who rate cap s) (add_address-KeepsLimiter c who rate cap s)
act-Refines c (change_limit who rate cap) s off =
    settle-Refines s off (update_address c who rate cap s)
      (update_address-KeepsLimiter c who rate cap s)
act-Refines c (add_minter who) s off =
    settle-Refines s off (add_address_as_minter c who s)
      (add_address_as_minter-KeepsLimiter c who s)
act-Refines c (add_limited_minter who rate cap) s off =
    settle-Refines s off (add_limited_address_as_minter c who rate cap s)
      (add_limited_address_as_minter-KeepsLimiter c who rate cap s)
act-Refines c (remove who) s off =
    settle-Refines s off (remove_address c who s) (remove_address-KeepsLimiter c who s)
act-Refines c (change_max_rate rate) s off =
    settle-Refines s off (update_max_rate_limit_per_second c rate s)
      (update_max_rate_limit_per_second-KeepsLimiter c rate s)
act-Refines c (change_max_cap cap) s off =
    settle-Refines s off (update_max_buffer_cap c cap s)
      (update_max_buffer_cap-KeepsLimiter c cap s)
act-Refines c (inherited b) s off = record {
  used = omega arith;
  left = refl;
  off = act-keeps_partial c.context b s.limiter ∙ off;
}

acts-append :
    (xs ys : List (Context × Inherited.Action)) (l : Limiter)
    → ((Inherited.acts (xs ++ ys) l).0
        ≡ (Inherited.acts xs l).0 + (Inherited.acts ys (Inherited.acts xs l).1).0)
      × ((Inherited.acts (xs ++ ys) l).1 ≡ (Inherited.acts ys (Inherited.acts xs l).1).1)
unfolding Inherited.acts
acts-append [] ys l = (omega arith, refl)
acts-append ((c, a) ∷ xs) ys l =
    let (used, left) = acts-append xs ys (Inherited.act c a l).1 in (omega (arith, used), left)

-- A contract whose inherited limit takes no partial actions refines RateLimited: over any sequence of
-- calls it uses what RateLimited uses over the calls that are seen of it, and leaves the inherited
-- storage that RateLimited leaves.
pub acts-refine :
    (calls : List (Caller × Action)) (s : MultiLimiter)
    → s.limiter.do_partial_action ≡ false
    → ((acts calls s).0 ≡ (Inherited.acts (seen_calls calls s) s.limiter).0)
      × ((acts calls s).1.limiter ≡ (Inherited.acts (seen_calls calls s) s.limiter).1)
unfolding acts seen_calls Inherited.acts
acts-refine [] s off = (refl, refl)
acts-refine ((c, a) ∷ rest) s off =
    let step = act-Refines c a s off in
    let next = (act c a s).1 in
    let (used, left) = acts-refine rest next step.off in
    let (both, end) = acts-append (seen_call c a s) (seen_calls rest next) s.limiter in
    (
      omega (
        arith,
        step.used,
        used,
        both,
        ap (λ l. (Inherited.acts (seen_calls rest next) l).0) step.left,
      ),
      left ∙ ap (λ l. (Inherited.acts (seen_calls rest next) l).1) step.left ∙ sym end,
    )

-- Over any sequence of calls, all that the addresses use together and the contract's buffer that is
-- left are at most the buffer at the start, what was put back, and the greatest rate times the seconds
-- between the first and the last recorded use, however many addresses are added and whatever their
-- limits are, where the rate is at most the greatest rate and no partial actions are taken.
pub multi_acts_limited :
    (calls : List (Caller × Action)) (s : MultiLimiter)
    → s.limiter.do_partial_action ≡ false
    → s.limiter.rate_limit_per_second ≤ s.limiter.max_rate_limit_per_second
    → (acts calls s).0 + (acts calls s).1.limiter.buffer_stored
      ≤ s.limiter.buffer_stored
        + Spending.replenished (seen_calls calls s)
        + s.limiter.max_rate_limit_per_second
          * ((acts calls s).1.limiter.last_buffer_used_time - s.limiter.last_buffer_used_time)
multi_acts_limited calls s off below =
    let (used, left) = acts-refine calls s off in
    rw (used, left) (Spending.acts_limited (seen_calls calls s) s.limiter below)
