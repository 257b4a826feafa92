-- ===== src/Contracts/TribeVotes.antt =====
-- contracts/tribe/Tribe.sol: the checkpoints of one account's votes, how they are written and how the
-- votes at an earlier block are looked up.
pub mod Reference
pub mod Lookup
pub mod Write
use fei_protocol_core.Prelude.{
  ℕ, zero, suc, ◌+◌, ◌-◌, ◌/◌, ◌^◌, ◌&&◌, ltb, leb, ◌==◌, if◌then◌else◌, ok, err, require, ◌>>=◌,
  ◌>>◌,
}
use fei_protocol_core.Contracts.Evm.{Call, panic, reason}
use fei_protocol_core.Contracts.CoreRef.{Context}

pub record Checkpoint : Type 0 where
  pub from_block : ℕ
  pub votes : ℕ

-- `checkpoints[account]` and `numCheckpoints[account]`
pub record Account : Type 0 where
  pub checkpoints : ℕ → Checkpoint
  pub num_checkpoints : ℕ

abbrev pub uint32_mod : ℕ
uint32_mod = 2 ^ 32

-- The loop of `getPriorVotes`; without fuel it panics.
unfoldable pub search : ℕ → (ℕ → Checkpoint) → ℕ → ℕ → ℕ → Call ℕ
search zero checkpoints block lower upper = err panic
search (suc fuel) checkpoints block lower upper =
    let center = upper - (upper - lower) / 2 in
    let cp = checkpoints center in
    let before = ltb cp.from_block block in
    let rest =
      search fuel checkpoints block (if before then center else lower)
        (if before then upper else center - 1) in
    if ltb lower upper
    then (if cp.from_block == block then ok cp.votes else rest)
    else ok (checkpoints lower).votes

-- `getPriorVotes`
unfoldable pub get_prior_votes : Context → ℕ → Account → Call ℕ
unfolding search
get_prior_votes c block a = do
  require (ltb block c.block_number) (reason "Tribe: not yet determined")
  let n = a.num_checkpoints
  let newest = a.checkpoints (n - 1)
  if n == 0
      then ok 0
      else if leb newest.from_block block
      then ok newest.votes
      else if ltb block (a.checkpoints 0).from_block
      then ok 0
      else search n a.checkpoints block 0 (n - 1)

abbrev pub write_at : ℕ → Checkpoint → (ℕ → Checkpoint) → ℕ → Checkpoint
write_at i cp checkpoints j = if i == j then cp else checkpoints j

-- `_writeCheckpoint`, whose argument `nCheckpoints` is the account's count
unfoldable pub write_checkpoint : Context → ℕ → Account → Call Account
write_checkpoint c new_votes a = do
  require (ltb c.block_number uint32_mod) (reason "Tribe: block number exceeds 32 bits")
  let n = a.num_checkpoints
  let newest = a.checkpoints (n - 1)
  if ltb 0 n && newest.from_block == c.block_number
      then ok (record a {
        checkpoints = write_at (n - 1) (record newest { votes = new_votes }) a.checkpoints;
      })
      else if ltb (n + 1) uint32_mod
      then ok (record {
        checkpoints =
            write_at n (record { from_block = c.block_number; votes = new_votes }) a.checkpoints;
        num_checkpoints = n + 1;
      })
      else err panic
