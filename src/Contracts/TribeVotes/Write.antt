-- ===== src/Contracts/TribeVotes/Write.antt =====
-- What writing a checkpoint changes.
use fei_protocol_core.Prelude.{
  ℕ, zero, suc, ◌+◌, ◌-◌, ◌≤◌, ◌<◌, ◌≡◌, refl, ap, true, false, ◌&&◌, arith, inl, inr, ltb, leb,
  ◌==◌, if◌then◌else◌, Bool-cases, ok,
}
use fei_protocol_core.Contracts.CoreRef.{Context}
use fei_protocol_core.Contracts.TribeVotes.{
  Checkpoint, Account, uint32_mod, write_at, write_checkpoint, get_prior_votes,
}
use fei_protocol_core.Contracts.TribeVotes.Lookup.{get_prior_votes-eq-votes_at}
use fei_protocol_core.Contracts.TribeVotes.Reference.{votes_at, IsOrdered}

-- A write at or after the first `n` checkpoints is not seen by them.
votes_at-write_at :
    (i : ℕ) (cp : Checkpoint) (checkpoints : ℕ → Checkpoint) (block n : ℕ)
    → n ≤ i
    → votes_at (write_at i cp checkpoints) block n ≡ votes_at checkpoints block n
unfolding votes_at
votes_at-write_at i cp checkpoints block zero le = refl
votes_at-write_at i cp checkpoints block (suc n) le =
    let other : i == n ≡ false = ground arith in
    rw (other, votes_at-write_at i cp checkpoints block n (omega arith)) refl

-- An account whose checkpoints stand in order, none of them after the current block.
pub record IsCurrentAt (c : Context) (a : Account) : Type 0 where
  pub ordered : IsOrdered a.checkpoints a.num_checkpoints
  pub not_after : (i : ℕ) → i < a.num_checkpoints → (a.checkpoints i).from_block ≤ c.block_number

-- What a write of new votes has done: the votes from the current block on are the new ones, those at
-- every earlier block are as before, and the account is still in order.
pub record HasWritten (c : Context) (new_votes : ℕ) (a a' : Account) : Type 0 where
  pub current : IsCurrentAt c a'
  pub votes :
      (block : ℕ)
      → votes_at a'.checkpoints block a'.num_checkpoints ≡ (
          if leb c.block_number block
          then new_votes
          else votes_at a.checkpoints block a.num_checkpoints)

same_at :
    (i : ℕ) (cp : Checkpoint) (checkpoints : ℕ → Checkpoint) → write_at i cp checkpoints i ≡ cp
same_at i cp checkpoints = let here : i == i ≡ true = ground arith in rw here refl

other_at :
    (i j : ℕ) (cp : Checkpoint) (checkpoints : ℕ → Checkpoint)
    → j < i
    → write_at i cp checkpoints j ≡ checkpoints j
other_at i j cp checkpoints less = let other : i == j ≡ false = ground arith in rw other refl

votes_at-next :
    (checkpoints : ℕ → Checkpoint) (block n : ℕ)
    → votes_at checkpoints block (n + 1) ≡ (
        if leb (checkpoints n).from_block block
        then (checkpoints n).votes
        else votes_at checkpoints block n)
unfolding votes_at
votes_at-next checkpoints block n = let next : n + 1 ≡ suc n = omega arith in rw next refl

append-HasWritten :
    (c : Context) (new_votes : ℕ) (a : Account)
    → IsCurrentAt c a
    → ((i : ℕ) → i < a.num_checkpoints → (a.checkpoints i).from_block < c.block_number)
    → HasWritten c new_votes a (record {
      checkpoints =
          write_at a.num_checkpoints
            (record { from_block = c.block_number; votes = new_votes })
            a.checkpoints;
      num_checkpoints = a.num_checkpoints + 1;
    })
append-HasWritten c new_votes a h before =
    let n = a.num_checkpoints in
    let cp : Checkpoint = record { from_block = c.block_number; votes = new_votes } in
    let written = write_at n cp a.checkpoints in
    let newest : (written n).from_block ≡ c.block_number =
      ap (λ (x : Checkpoint). x.from_block) (same_at n cp a.checkpoints) in
    let older : (i : ℕ) → i < n → (written i).from_block ≡ (a.checkpoints i).from_block =
      λ i inside. ap (λ (x : Checkpoint). x.from_block) (other_at n i cp a.checkpoints inside) in
    record {
      current = record {
        ordered = λ i j less inside.
            let first = older i (omega arith) in
            elim (Bool-cases (j == n)) [
              | inl last ↦
                  let at_n : j ≡ n = ground arith in
                  let there = ap (λ k. (written k).from_block) at_n in
                  omega (arith, there, newest, first, before i (omega arith))
              | inr other ↦
                  let below : j < n = ground arith in
                  omega (arith, first, older j below, h.ordered i j less below)
            ];
        not_after = λ i inside. elim (Bool-cases (i == n)) [
          | inl last ↦
              let at_n : i ≡ n = ground arith in
              let there = ap (λ k. (written k).from_block) at_n in omega (arith, there, newest)
          | inr other ↦
              let below : i < n = ground arith in omega (arith, older i below, before i below)
        ];
      };
      votes = λ block.
          rw
            (
              votes_at-next written block n,
              same_at n cp a.checkpoints,
              votes_at-write_at n cp a.checkpoints block n (omega arith),
            )
            refl;
    }

overwrite-HasWritten :
    (c : Context) (new_votes m : ℕ) (a : Account)
    → IsCurrentAt c a
    → a.num_checkpoints ≡ suc m
    → (a.checkpoints m).from_block ≡ c.block_number
    → HasWritten c new_votes a (record a {
      checkpoints = write_at m (record (a.checkpoints m) { votes = new_votes }) a.checkpoints;
    })
unfolding votes_at
overwrite-HasWritten c new_votes m a h count newest =
    let cp : Checkpoint = record (a.checkpoints m) { votes = new_votes } in
    let written = write_at m cp a.checkpoints in
    let same_block : (i : ℕ) → (written i).from_block ≡ (a.checkpoints i).from_block = λ i.
      elim (Bool-cases (m == i)) [
        | inl here ↦
            let at_m : m ≡ i = ground arith in rw here (ap (λ k. (a.checkpoints k).from_block) at_m)
        | inr other ↦ rw other refl
      ] in
    record {
      current = record {
        ordered =
            λ i j less inside. omega (arith, same_block i, same_block j, h.ordered i j less inside);
        not_after = λ i inside. omega (arith, same_block i, h.not_after i inside);
      };
      votes = λ block. rw count (
          rw
            (
              same_at m cp a.checkpoints,
              votes_at-write_at m cp a.checkpoints block m (omega arith),
              newest,
            )
            (elim (Bool-cases (leb c.block_number block)) [
              | inl now ↦ rw now refl
              | inr before ↦ rw before refl
            ]));
    }

all_before :
    (c : Context) (a : Account)
    → IsCurrentAt c a
    → ltb 0 a.num_checkpoints
        && (a.checkpoints (a.num_checkpoints - 1)).from_block == c.block_number
      ≡ false
    → (i : ℕ) → i < a.num_checkpoints
    → (a.checkpoints i).from_block < c.block_number
all_before c a h fresh i inside =
    let n = a.num_checkpoints in
    let not_after = h.not_after (n - 1) (omega arith) in
    let newest : (a.checkpoints (n - 1)).from_block < c.block_number = ground arith in
    elim (Bool-cases (i == n - 1)) [
      | inl last ↦
          let at_last : i ≡ n - 1 = ground arith in
          let there = ap (λ k. (a.checkpoints k).from_block) at_last in omega (arith, there, newest)
      | inr other ↦
          let below : i < n - 1 = ground arith in
          omega (arith, h.ordered i (n - 1) below (omega arith), newest)
    ]

-- For an account whose checkpoints stand in order, none of them after the current block, and in a block
-- whose number, like the number of checkpoints after the write, fits in 32 bits: writing new votes
-- succeeds, the votes at the current block and later are the new ones, the votes at every earlier
-- block are as before, and the account is still in order.
pub write_checkpoint_ok :
    (c : Context) (new_votes : ℕ) (a : Account)
    → IsCurrentAt c a
    → c.block_number < uint32_mod
    → a.num_checkpoints + 1 < uint32_mod
    → (a' : Account) × (write_checkpoint c new_votes a ≡ ok a') × HasWritten c new_votes a a'
unfolding write_checkpoint
write_checkpoint_ok c new_votes a h block_fits count_fits =
    let n = a.num_checkpoints in
    let in_range : ltb c.block_number uint32_mod ≡ true = ground arith in
    let room : ltb (n + 1) uint32_mod ≡ true = ground arith in
    elim (Bool-cases (ltb 0 n && (a.checkpoints (n - 1)).from_block == c.block_number)) [
      | inl again ↦
          let newest : (a.checkpoints (n - 1)).from_block ≡ c.block_number = ground arith in
          let positive : 0 < n = ground arith in
          (
            _,
            rw (in_range, again),
            overwrite-HasWritten c new_votes (n - 1) a h (omega (arith, positive)) newest,
          )
      | inr fresh ↦ (
        _,
        rw (in_range, fresh, room),
        append-HasWritten c new_votes a h (all_before c a h fresh),
      )
    ]

-- Under the same conditions, for a block before some later context's current one: after the write the
-- lookup of the votes at that block gives the new votes if it is the block of the write or a later
-- one, and gives what it gave before the write if it is an earlier one.
pub get_prior_votes-write_checkpoint :
    (c later : Context) (new_votes block : ℕ) (a : Account)
    → IsCurrentAt c a
    → c.block_number < uint32_mod
    → a.num_checkpoints + 1 < uint32_mod
    → block < later.block_number
    → (a' : Account) × (write_checkpoint c new_votes a ≡ ok a')
      × (get_prior_votes later block a'
          ≡ (if leb c.block_number block then ok new_votes else get_prior_votes later block a))
get_prior_votes-write_checkpoint c later new_votes block a h block_fits count_fits past =
    let (a', e, done) = write_checkpoint_ok c new_votes a h block_fits count_fits in
    let new = get_prior_votes-eq-votes_at later block a' done.current.ordered past in
    let old = get_prior_votes-eq-votes_at later block a h.ordered past in
    (
      a',
      e,
      rw (new, old, done.votes block)
          (elim (Bool-cases (leb c.block_number block)) [
            | inl at_write ↦ rw at_write refl
            | inr earlier ↦ rw earlier refl
          ]),
    )
