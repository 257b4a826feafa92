-- ===== src/Contracts/TribeVotes/Reference.antt =====
-- An account's votes at a block, by a scan from the newest checkpoint to the oldest.
use fei_protocol_core.Prelude.{
  ℕ, zero, suc, ◌≤◌, ◌<◌, ◌≡◌, refl, sym, ap, true, false, arith, inl, inr, leb, ◌==◌,
  if◌then◌else◌, Bool-cases,
}
use fei_protocol_core.Contracts.TribeVotes.{Checkpoint}

unfoldable pub votes_at : (ℕ → Checkpoint) → ℕ → ℕ → ℕ
votes_at checkpoints block zero = 0
votes_at checkpoints block (suc i) =
    let older = votes_at checkpoints block i in
    if leb (checkpoints i).from_block block then (checkpoints i).votes else older

-- The blocks of the first `n` checkpoints increase.
abbrev pub IsOrdered : (ℕ → Checkpoint) → ℕ → Type 0
IsOrdered checkpoints n =
    (i j : ℕ) → i < j → j < n → (checkpoints i).from_block < (checkpoints j).from_block

pub votes_at-eq-votes :
    (checkpoints : ℕ → Checkpoint) (block n i : ℕ)
    → i < n
    → (checkpoints i).from_block ≤ block
    → ((j : ℕ) → i < j → j < n → block < (checkpoints j).from_block)
    → votes_at checkpoints block n ≡ (checkpoints i).votes
unfolding votes_at
votes_at-eq-votes checkpoints block zero i inside here later = elim inside [ ]
votes_at-eq-votes checkpoints block (suc n) i inside here later = elim (Bool-cases (i == n)) [
  | inl same ↦
      let last : i ≡ n = ground arith in
      let found : leb (checkpoints n).from_block block ≡ true =
        let h = ap (λ k. (checkpoints k).from_block) last in ground arith in
      rw found (ap (λ k. (checkpoints k).votes) (sym last))
  | inr other ↦
      let below : i < n = ground arith in
      let after = later n below (omega arith) in
      let missed : leb (checkpoints n).from_block block ≡ false = ground arith in
      rw missed (
        votes_at-eq-votes checkpoints block n i below here
          (λ j above inside'. later j above (omega arith)))
]

pub votes_at-eq-zero :
    (checkpoints : ℕ → Checkpoint) (block n : ℕ)
    → ((j : ℕ) → j < n → block < (checkpoints j).from_block)
    → votes_at checkpoints block n ≡ 0
unfolding votes_at
votes_at-eq-zero checkpoints block zero later = refl
votes_at-eq-zero checkpoints block (suc n) later =
    let after = later n (omega arith) in
    let missed : leb (checkpoints n).from_block block ≡ false = ground arith in
    rw missed (votes_at-eq-zero checkpoints block n (λ j inside. later j (omega arith)))
