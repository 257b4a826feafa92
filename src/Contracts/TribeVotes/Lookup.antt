-- ===== src/Contracts/TribeVotes/Lookup.antt =====
-- The binary search against the scan.
use fei_protocol_core.Prelude.{
  ℕ, zero, suc, ◌+◌, ◌-◌, ◌/◌, ◌≤◌, ◌<◌, ◌≡◌, sym, ap, true, arith, inl, inr, ltb, leb, ◌==◌,
  Bool-cases, ok,
}
use fei_protocol_core.Contracts.CoreRef.{Context}
use fei_protocol_core.Contracts.TribeVotes.{Checkpoint, Account, search, get_prior_votes}
use fei_protocol_core.Contracts.TribeVotes.Reference.{
  votes_at, IsOrdered, votes_at-eq-votes, votes_at-eq-zero,
}

module _ (checkpoints : ℕ → Checkpoint) (block n : ℕ) (ordered : IsOrdered checkpoints n) where
  -- The search keeps the last checkpoint at or before the block between its two ends.
  search-eq-votes_at :
      (fuel lower upper : ℕ)
      → lower ≤ upper
      → upper < n
      → upper < lower + fuel
      → (checkpoints lower).from_block ≤ block
      → ((j : ℕ) → upper < j → j < n → block < (checkpoints j).from_block)
      → search fuel checkpoints block lower upper ≡ ok (votes_at checkpoints block n)
  unfolding search
  search-eq-votes_at zero lower upper le inside enough here later = absurd (omega arith)
  search-eq-votes_at (suc fuel) lower upper le inside enough here later =
      let center = upper - (upper - lower) / 2 in
      let from = (checkpoints center).from_block in
      elim (Bool-cases (ltb lower upper)) [
        | inr done ↦
            let met : lower ≡ upper = ground arith in
            rw (done) (
              ap ok (
                sym (
                  votes_at-eq-votes checkpoints block n lower (omega arith) here
                    (λ j above inside'. later j (omega arith) inside'))))
        | inl wide ↦
            let apart : lower < upper = ground arith in
            let after_lower : lower < center = omega arith in
            let to_upper : center ≤ upper = omega arith in
            elim (Bool-cases (from == block)) [
              | inl hit ↦
                  let same : from ≡ block = ground arith in
                  rw (wide, hit)
                    (ap ok (
                      sym (
                        votes_at-eq-votes checkpoints block n center (omega arith) (omega arith)
                          (λ j above inside'. omega (arith, ordered center j above inside')))))
              | inr missed ↦ elim (Bool-cases (ltb from block)) [
                | inl before ↦
                    let earlier : from < block = ground arith in
                    rw (wide, missed, before)
                      (search-eq-votes_at fuel center upper to_upper inside (omega arith)
                        (omega arith) later)
                | inr not_before ↦
                    let after : block < from = ground arith in
                    rw (wide, missed, not_before)
                      (search-eq-votes_at fuel lower (center - 1) (omega arith) (omega arith)
                        (omega arith) here
                        (λ j above inside'. elim (Bool-cases (center == j)) [
                          | inl same ↦
                              let is_center : center ≡ j = ground arith in
                              let moved = ap (λ k. (checkpoints k).from_block) is_center in
                              omega (arith, moved)
                          | inr other ↦
                              let beyond : center < j = ground arith in
                              omega (arith, ordered center j beyond inside')
                        ]))
              ]
            ]
      ]

all_after :
    (checkpoints : ℕ → Checkpoint) (block n : ℕ)
    → IsOrdered checkpoints n
    → block < (checkpoints 0).from_block
    → (j : ℕ) → j < n
    → block < (checkpoints j).from_block
all_after checkpoints block n ordered first zero inside = first
all_after checkpoints block n ordered first (suc j) inside =
    omega (arith, ordered 0 (suc j) (omega arith) inside)

-- Where the blocks of an account's checkpoints increase, the lookup of the votes at a block before the
-- current one never runs out of fuel or reverts, and gives the votes of the newest checkpoint at or
-- before that block, or 0 if there is none.
pub get_prior_votes-eq-votes_at :
    (c : Context) (block : ℕ) (a : Account)
    → IsOrdered a.checkpoints a.num_checkpoints
    → block < c.block_number
    → get_prior_votes c block a ≡ ok (votes_at a.checkpoints block a.num_checkpoints)
unfolding get_prior_votes
get_prior_votes-eq-votes_at c block a ordered past =
    let n = a.num_checkpoints in
    let determined : ltb block c.block_number ≡ true = ground arith in
    rw determined (elim (Bool-cases (n == 0)) [
      | inl none_yet ↦
          let none_there : n ≡ 0 = ground arith in
          rw none_yet (
            ap ok (
              sym (
                votes_at-eq-zero a.checkpoints block n
                  (λ j inside. absurd (omega (arith, none_there, inside))))))
      | inr some_yet ↦
          let positive : 0 < n = ground arith in
          elim (Bool-cases (leb (a.checkpoints (n - 1)).from_block block)) [
            | inl newest ↦
                let reached : (a.checkpoints (n - 1)).from_block ≤ block = ground arith in
                rw (some_yet, newest)
                  (ap ok (
                    sym (
                      votes_at-eq-votes a.checkpoints block n (n - 1) (omega arith) reached
                        (λ j above inside. absurd (omega arith)))))
            | inr older ↦
                let beyond : block < (a.checkpoints (n - 1)).from_block = ground arith in
                elim (Bool-cases (ltb block (a.checkpoints 0).from_block)) [
                  | inl before_all ↦
                      rw (some_yet, older, before_all)
                        (ap ok (
                          sym (
                            votes_at-eq-zero a.checkpoints block n
                              (all_after a.checkpoints block n ordered (ground arith)))))
                  | inr inside ↦
                      rw (some_yet, older, inside)
                        (search-eq-votes_at a.checkpoints block n ordered n 0 (n - 1) (omega arith)
                          (omega arith) (omega arith) (ground arith)
                          (λ j above inside'. absurd (omega arith)))
                ]
          ]
    ])
