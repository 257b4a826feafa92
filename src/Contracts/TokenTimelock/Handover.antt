-- ===== src/Contracts/TokenTimelock/Handover.antt =====
-- Who can become the beneficiary.
use fei_protocol_core.Prelude.{
  ℕ, ◌≡◌, ◌≢◌, refl, List, [], ◌∷◌, arith, leb, ◌==◌, ◌∙◌, inl, inr, Bool-cases, ok, err, require,
  All, >>=-elim,
}
use fei_protocol_core.Contracts.Evm.{Call}
use fei_protocol_core.Contracts.CoreRef.{Context}
use fei_protocol_core.Contracts.TokenTimelock.{
  Timelock, time_since_start, available_for_release, check_balance, send, release, release_max,
  pay_beneficiary, clawback, set_pending_beneficiary, accept_beneficiary, Operation, release_some,
  release_all, claw, appoint, accept, perform, settle, history,
}

-- The beneficiary and the one that it appointed are as before.
abbrev SameOwners : Timelock → Timelock → Type 0
SameOwners s s' =
    (s'.beneficiary ≡ s.beneficiary) × (s'.pending_beneficiary ≡ s.pending_beneficiary)

module _ (transfer : ℕ → ℕ → ℕ → Call ℕ) where
  check_balance-SameOwners : (s s' : Timelock) → check_balance s ≡ ok s' → SameOwners s s'
  unfolding check_balance
  check_balance-SameOwners s s' e = ground arith

  send-SameOwners :
      (to amount : ℕ) (s s' : Timelock) → send transfer to amount s ≡ ok s' → SameOwners s s'
  unfolding send
  send-SameOwners to amount s s' e = ground arith

  pay_beneficiary-SameOwners :
      (c : Context) (s : Timelock) (r : Timelock × List (ℕ × ℕ))
      → pay_beneficiary transfer c s ≡ ok r
      → SameOwners s r.0
  unfolding pay_beneficiary
  pay_beneficiary-SameOwners c s r e = >>=-elim (time_since_start c s) _ e (λ elapsed timed e1.
      elim (Bool-cases (leb s.cliff_seconds elapsed)) [
        | inl passed ↦
            >>=-elim (available_for_release c s) _ (rw passed at e1) (λ available gives e2.
              >>=-elim (send transfer s.beneficiary available s) _ e2 (λ left sends e3.
                let same : left ≡ r.0 = cc in
                rw (← same) (send-SameOwners s.beneficiary available s left sends)))
        | inr before ↦
            let e1' = rw before at e1 in let same : s ≡ r.0 = cc in rw (← same) (refl, refl)
      ])

  clawback-SameOwners :
      (c : Context) (s : Timelock) (r : Timelock × List (ℕ × ℕ))
      → clawback transfer c s ≡ ok r
      → SameOwners s r.0
  unfolding clawback
  clawback-SameOwners c s r e = >>=-elim (check_balance s) _ e (λ k checks e1.
      >>=-elim (require (c.sender == s.clawback_admin) _) _ e1 (λ u allowed e2.
        >>=-elim (pay_beneficiary transfer c k) _ e2 (λ paid pays e3.
          >>=-elim (send transfer s.clawback_admin paid.0.total_token paid.0) _ e3 (λ left sends e4.
            let same : left ≡ r.0 = cc in
            let a = check_balance-SameOwners s k checks in
            let b = pay_beneficiary-SameOwners c k paid pays in
            let d = send-SameOwners s.clawback_admin paid.0.total_token paid.0 left sends in
            rw (← same) (d.0 ∙ b.0 ∙ a.0, d.1 ∙ b.1 ∙ a.1)))))

  perform-SameOwners :
      (c : Context) (op : Operation) (s s' : Timelock)
      → c.sender ≢ s.beneficiary
      → c.sender ≢ s.pending_beneficiary
      → perform transfer c op s ≡ ok s'
      → SameOwners s s'
  unfolding perform release release_max set_pending_beneficiary accept_beneficiary
  perform-SameOwners c (release_some to amount) s s' other other' e = absurd (ground arith)
  perform-SameOwners c (release_all to) s s' other other' e = absurd (ground arith)
  perform-SameOwners c claw s s' other other' e =
      >>=-elim (clawback transfer c s) _ e (λ done claws e1.
        let same : done.0 ≡ s' = cc in rw (← same) (clawback-SameOwners c s done claws))
  perform-SameOwners c (appoint who) s s' other other' e = absurd (ground arith)
  perform-SameOwners c accept s s' other other' e = absurd (ground arith)

  settle-SameOwners :
      (r : Call Timelock) (s : Timelock)
      → ((s' : Timelock) → r ≡ ok s' → SameOwners s s')
      → SameOwners s (settle r s)
  settle-SameOwners (ok s') s keeps = keeps s' refl
  settle-SameOwners (err e) s keeps = (refl, refl)

  -- Over any sequence of calls, releases, clawbacks, appointments and acceptances, none of which is
  -- sent by the beneficiary or by the one that it has appointed: the beneficiary stays, and so does
  -- the one appointed. So neither the clawback admin nor anyone else takes over the timelock.
  pub beneficiary_kept :
      (calls : List (Context × Operation)) (s : Timelock)
      → All
          (λ call. (call.0.sender ≢ s.beneficiary) × (call.0.sender ≢ s.pending_beneficiary))
          calls
      → ((history transfer calls s).beneficiary ≡ s.beneficiary)
        × ((history transfer calls s).pending_beneficiary ≡ s.pending_beneficiary)
  unfolding history
  beneficiary_kept [] s others = (refl, refl)
  beneficiary_kept ((c, op) ∷ rest) s others =
      let first =
        settle-SameOwners (perform transfer c op s) s
          (λ s' e. perform-SameOwners c op s s' others.0.0 others.0.1 e) in
      let next = settle (perform transfer c op s) s in
      let later = beneficiary_kept rest next (rw (first.0, first.1) others.1) in
      (later.0 ∙ first.0, later.1 ∙ first.1)
