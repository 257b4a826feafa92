-- ===== src/Proposals/EndTribeIncentives/Clearing.antt =====
-- Setting the allocation points of the TribalChief's pools 1 to 17 to 0, one after another.
use fei_protocol_core.Prelude.{
  ℕ, zero, suc, ◌+◌, ◌≤◌, ◌<◌, ◌≡◌, ◌≢◌, refl, sym, ap, ◌∙◌, true, false, ◌||◌, List, [], ◌∷◌, ◌++◌,
  arith, inl, inr, ◌==◌, ltb, All, get_elem?_of_lt, Bool-cases, ok,
}
use fei_protocol_core.Contracts.CoreRef.{Context}
use fei_protocol_core.Contracts.TribalChief.{Chief, set_pool, perform, set, update_block_reward}
use fei_protocol_core.Contracts.TribalChief.Totals.{two_allocs, allocated-eq-first, points_past}
use fei_protocol_core.Contracts.TribalChief.Sets.{
  IsReady, alloc_of, points_in, set_ok, alloc_of-HasSet,
}
use fei_protocol_core.Proposals.EndTribeIncentives.{
  Effect, calls, execute, validate, validate_pools, pool_ids, new_tribe_block_reward,
}

-- Pool 0 has the only point among the pools before `first`.
pub record IsCleared (c : Context) (first rate : ℕ) (s : Chief) : Type 0 where
  pub ready : IsReady c 18 s
  pub kept : alloc_of s 0 ≡ 1
  pub cleared : (i : ℕ) → 1 ≤ i → i < first → alloc_of s i ≡ 0
  pub rate_is : s.tribe_per_block ≡ rate

total_above :
    (c : Context) (first rate : ℕ) (s : Chief)
    → 1 ≤ first
    → first < 18
    → IsCleared c first rate s
    → alloc_of s first < s.total_alloc_point
total_above c first rate s after inside h =
    let (p, here) = get_elem?_of_lt s.pool_info 0 (omega (arith, h.ready.pools)) in
    let (q, there) = get_elem?_of_lt s.pool_info first (omega (arith, h.ready.pools)) in
    omega (
      arith,
      ap points_in here,
      ap points_in there,
      h.kept,
      two_allocs s.pool_info 0 first here there (λ e. omega (arith, e)),
      h.ready.balanced,
    )

final_total : (c : Context) (rate : ℕ) (s : Chief) → IsCleared c 18 rate s → s.total_alloc_point ≡ 1
final_total c rate s h =
    let later : (i : ℕ) → alloc_of s (suc i) ≡ 0 = λ i. elim (Bool-cases (ltb (suc i) 18)) [
      | inl inside ↦ h.cleared (suc i) (omega arith) (ground arith)
      | inr past ↦
          let beyond : 18 ≤ suc i = ground arith in
          points_past s.pool_info (suc i) (omega (arith, h.ready.pools))
    ] in
    omega (arith, allocated-eq-first s.pool_info later, h.kept, h.ready.balanced)

abbrev pub zeros : ℕ → ℕ → ℕ → List Effect
zeros rewarder first zero = []
zeros rewarder first (suc m) =
    calls (set_pool first 0 rewarder false) ∷ zeros rewarder (suc first) m

clear_next :
    (c : Context) (first rate rewarder : ℕ) (s : Chief)
    → c.is_governor || c.is_contract_admin ≡ true
    → 1 ≤ first
    → first < 18
    → IsCleared c first rate s
    → (s' : Chief) × (set c first 0 rewarder false s ≡ ok s') × IsCleared c (suc first) rate s'
clear_next c first rate rewarder s allowed after inside h =
    let above = total_above c first rate s after inside h in
    let (s', e, done) =
      set_ok c 18 first 0 rewarder false s allowed h.ready inside (omega arith)
        (omega (arith, h.ready.total_fits)) in
    (
      s',
      e,
      record {
        ready = done.ready;
        kept = ap points_in (done.elsewhere 0 (λ e. omega (arith, e))) ∙ h.kept;
        cleared = λ i positive before. elim (Bool-cases (first == i)) [
          | inl same ↦
              let here : first ≡ i = ground arith in
              ap (alloc_of s') (sym here)
              ∙ alloc_of-HasSet c 18 first 0 rewarder false s s' h.ready.pools inside done
          | inr other ↦
              let apart : first ≢ i = ground arith in
              ap points_in (done.elsewhere i apart) ∙ h.cleared i positive (omega arith)
        ];
        rate_is = ap (λ x. x.tribe_per_block) done.rest ∙ h.rate_is;
      },
    )

pub clear_all :
    (c : Context) (first rate rewarder m : ℕ) (rest : List Effect) (s : Chief)
    → c.is_governor || c.is_contract_admin ≡ true
    → 1 ≤ first
    → first + m ≡ 18
    → IsCleared c first rate s
    → (s' : Chief) × (execute c (zeros rewarder first m ++ rest) s ≡ execute c rest s')
      × IsCleared c 18 rate s'
unfolding execute perform
clear_all c first rate rewarder zero rest s allowed after sum h =
    let all : first ≡ 18 = omega (arith, sum) in (s, refl, rw (← all) h)
clear_all c first rate rewarder (suc m) rest s allowed after sum h =
    let (next, e, h') = clear_next c first rate rewarder s allowed after (omega arith) h in
    let (s', e', done) =
      clear_all c (suc first) rate rewarder m rest next allowed (omega arith) (omega arith) h' in
    (s', rw e e', done)

pub finish :
    (c : Context) (rate amount : ℕ) (s : Chief)
    → c.is_governor || c.is_contract_admin ≡ true
    → amount < rate
    → IsCleared c 18 rate s
    → update_block_reward c amount s ≡ ok (record s { tribe_per_block = amount })
unfolding update_block_reward
finish c rate amount s allowed lower h =
    let below : ltb amount s.tribe_per_block ≡ true = let same = h.rate_is in ground arith in
    rw (allowed, below)
      (elim (Bool-cases c.is_contract_admin) [
        | inl admin ↦ rw admin refl
        | inr governor ↦ rw governor refl
      ])

validate_pools-of-cleared :
    (c : Context) (rate amount : ℕ) (s : Chief) (pids : List ℕ)
    → All (λ i. i < 18) pids
    → IsCleared c 18 rate s
    → validate_pools pids (record s { tribe_per_block = amount }) ≡ true
unfolding validate_pools
validate_pools-of-cleared c rate amount s [] inside h = refl
validate_pools-of-cleared c rate amount s (pid ∷ pids) (here, inside) h =
    let (p, found) = get_elem?_of_lt s.pool_info pid (omega (arith, h.ready.pools)) in
    let later = validate_pools-of-cleared c rate amount s pids inside h in
    let points = ap points_in found in
    rw (found, later)
      (elim (Bool-cases (pid == 0)) [
        | inl first ↦
            let is_first : pid ≡ 0 = ground arith in
            let one : alloc_of s pid ≡ 1 = ap (alloc_of s) is_first ∙ h.kept in ground arith
        | inr other ↦
            let none_left : alloc_of s pid ≡ 0 = h.cleared pid (ground arith) here in ground arith
      ])

pub validate-of-cleared :
    (c : Context) (rate : ℕ) (s : Chief)
    → IsCleared c 18 rate s
    → validate (record s { tribe_per_block = new_tribe_block_reward }) ≡ true
unfolding validate
validate-of-cleared c rate s h =
    rw
      (
        h.ready.pools,
        validate_pools-of-cleared c rate new_tribe_block_reward s pool_ids (ground arith) h,
        final_total c rate s h,
      )
      refl
