-- ===== src/Contracts/RateLimited.antt =====
-- contracts/utils/RateLimited.sol: a buffer that limits how fast a contract acts. Events are left out.
mod Limit
pub mod Spending
use fei_protocol_core.Prelude.{
  ℕ, ◌+◌, List, [], ◌∷◌, err, Bool, not, ◌&&◌, min, ltb, leb, ◌==◌, if◌then◌else◌, ok, require,
  ◌>>=◌, ◌>>◌,
}
use fei_protocol_core.Contracts.Evm.{Call, reason, add, sub, mul}
use fei_protocol_core.Contracts.CoreRef.{Context, only_governor_or_admin}

pub record Limiter : Type 0 where
  pub max_rate_limit_per_second : ℕ
  pub rate_limit_per_second : ℕ
  pub last_buffer_used_time : ℕ
  pub buffer_cap : ℕ
  pub do_partial_action : Bool
  pub buffer_stored : ℕ

-- `buffer`
unfoldable pub buffer : Context → Limiter → Call ℕ
buffer c s = do
  elapsed ← sub c.block_timestamp s.last_buffer_used_time
  refilled ← mul s.rate_limit_per_second elapsed
  total ← add s.buffer_stored refilled
  ok (min total s.buffer_cap)

-- `_updateBufferStored`
unfoldable pub update_buffer_stored : Context → Limiter → Call Limiter
unfolding buffer
update_buffer_stored c s = do
  stored ← buffer c s
  ok (record s { buffer_stored = stored; last_buffer_used_time = c.block_timestamp })

-- `_setBufferCap`
unfoldable pub write_buffer_cap : Context → ℕ → Limiter → Call Limiter
unfolding update_buffer_stored
write_buffer_cap c new_buffer_cap s = do
  updated ← update_buffer_stored c s
  ok (record updated { buffer_cap = new_buffer_cap })

-- `setRateLimitPerSecond`
unfoldable pub set_rate_limit_per_second : Context → ℕ → Limiter → Call Limiter
unfolding update_buffer_stored
set_rate_limit_per_second c new_rate s = do
  only_governor_or_admin c
  require (leb new_rate s.max_rate_limit_per_second)
      (reason "RateLimited: rateLimitPerSecond too high")
  updated ← update_buffer_stored c s
  ok (record updated { rate_limit_per_second = new_rate })

-- `setBufferCap`
unfoldable pub set_buffer_cap : Context → ℕ → Limiter → Call Limiter
unfolding write_buffer_cap
set_buffer_cap c new_buffer_cap s = do only_governor_or_admin c; write_buffer_cap c new_buffer_cap s

-- `_depleteBuffer`: the amount used, and the storage
unfoldable pub deplete_buffer : Context → ℕ → Limiter → Call (ℕ × Limiter)
unfolding buffer
deplete_buffer c amount s = do
  new_buffer ← buffer c s
  let used = if s.do_partial_action && ltb new_buffer amount then new_buffer else amount
  require (not (new_buffer == 0)) (reason "RateLimited: no rate limit buffer")
  require (leb used new_buffer) (reason "RateLimited: rate limit hit")
  stored ← sub new_buffer used
  ok (used, record s { buffer_stored = stored; last_buffer_used_time = c.block_timestamp })

-- `_replenishBuffer`
unfoldable pub replenish_buffer : Context → ℕ → Limiter → Call Limiter
unfolding buffer
replenish_buffer c amount s = do
  new_buffer ← buffer c s
  if new_buffer == s.buffer_cap then ok s else (do
    total ← add new_buffer amount
    ok (record s {
      last_buffer_used_time = c.block_timestamp;
      buffer_stored = min total s.buffer_cap;
    }))

-- The constructor, from storage that is all zero.
unfoldable pub construct : Context → ℕ → ℕ → ℕ → Bool → Call Limiter
unfolding write_buffer_cap
construct c max_rate rate cap partial = do
  s ← write_buffer_cap c cap (record {
    max_rate_limit_per_second = max_rate;
    rate_limit_per_second = 0;
    last_buffer_used_time = c.block_timestamp;
    buffer_cap = 0;
    do_partial_action = partial;
    buffer_stored = 0;
  })
  require (leb rate max_rate) (reason "RateLimited: rateLimitPerSecond too high")
  ok (record s { buffer_stored = cap; rate_limit_per_second = rate })

-- A call that reaches the limiter.
pub data Action : Type 0 where
  deplete replenish cap_change rate_change : ℕ → Action

-- What a call uses, and the storage that it leaves; one that reverts uses and changes nothing.
abbrev pub used_nothing : Call Limiter → Limiter → ℕ × Limiter
used_nothing (ok s') s = (0, s')
used_nothing (err e) s = (0, s)

abbrev pub used_some : Call (ℕ × Limiter) → Limiter → ℕ × Limiter
used_some (ok r) s = r
used_some (err e) s = (0, s)

unfoldable pub act : Context → Action → Limiter → ℕ × Limiter
unfolding deplete_buffer replenish_buffer set_buffer_cap set_rate_limit_per_second
act c (deplete amount) s = used_some (deplete_buffer c amount s) s
act c (replenish amount) s = used_nothing (replenish_buffer c amount s) s
act c (cap_change cap) s = used_nothing (set_buffer_cap c cap s) s
act c (rate_change rate) s = used_nothing (set_rate_limit_per_second c rate s) s

-- A sequence of calls: all that they use, and the storage at the end.
unfoldable pub acts : List (Context × Action) → Limiter → ℕ × Limiter
unfolding act
acts [] s = (0, s)
acts ((c, a) ∷ rest) s =
    let (used, next) = act c a s in let (later, final) = acts rest next in (used + later, final)
