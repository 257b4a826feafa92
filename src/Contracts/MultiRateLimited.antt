-- ===== src/Contracts/MultiRateLimited.antt =====
-- contracts/utils/MultiRateLimited.sol: a rate limit for each of several addresses, all within the limit
-- that the contract inherits from RateLimited. Events are left out.
pub mod Calls
pub mod Steps
pub mod Refinement
pub mod Individual
pub mod Writes
pub mod Usage
use fei_protocol_core.Prelude.{
  ℕ, ◌+◌, ◌%◌, ◌^◌, Bool, true, false, not, ◌||◌, List, [], ◌∷◌, min, ltb, leb, ◌==◌, if◌then◌else◌,
  ok, err, require, ◌>>=◌, ◌>>◌,
}
use fei_protocol_core.Contracts.Evm.{Call, reason, add, sub, mul}
use fei_protocol_core.Contracts.CoreRef.{Context, only_governor, only_guardian_or_governor}
use fei_protocol_core.Contracts.RateLimited
use fei_protocol_core.Contracts.RateLimited.{Limiter, deplete_buffer, construct}

pub record RateLimitData : Type 0 where
  pub last_buffer_used_time : ℕ
  pub buffer_cap : ℕ
  pub buffer_stored : ℕ
  pub rate_limit_per_second : ℕ

pub record MultiLimiter : Type 0 where
  pub limiter : Limiter
  pub rate_limit_per_address : ℕ → RateLimitData
  pub individual_max_rate_limit_per_second : ℕ
  pub individual_max_buffer_cap : ℕ

-- A call's context, with `core().hasRole(TribeRoles.ADD_MINTER_ROLE, msg.sender)`.
pub record Caller : Type 0 where
  pub context : Context
  pub can_add_minter : Bool

abbrev pub no_limit : RateLimitData
no_limit = record {
  last_buffer_used_time = 0;
  buffer_cap = 0;
  buffer_stored = 0;
  rate_limit_per_second = 0;
}

-- `uint112(x)` and `x.toUint32()`
abbrev pub cast_uint112 : ℕ → ℕ
cast_uint112 x = x % 2 ^ 112

abbrev pub to_uint32 : ℕ → Call ℕ
to_uint32 x = if ltb x (2 ^ 32) then ok x else err (reason "SafeCast: value doesn't fit in 32 bits")

abbrev pub write_limit : ℕ → RateLimitData → MultiLimiter → MultiLimiter
write_limit who d s = record s {
  rate_limit_per_address = λ a. if a == who then d else s.rate_limit_per_address a;
}

-- `addressIsRegistered`
abbrev pub address_is_registered : ℕ → MultiLimiter → Call (Unit {0})
address_is_registered who s =
    require (not ((s.rate_limit_per_address who).last_buffer_used_time == 0))
      (reason "MultiRateLimited: rate limit address does not exist")

-- `onlyTribeRole(TribeRoles.ADD_MINTER_ROLE)`
abbrev pub only_add_minter_role : Caller → Call (Unit {0})
only_add_minter_role c = require c.can_add_minter (reason "UNAUTHORIZED")

-- The constructor, from storage that is all zero.
unfoldable pub construct_multi : Context → ℕ → ℕ → ℕ → ℕ → ℕ → Call MultiLimiter
unfolding construct
construct_multi c max_rate rate individual_rate individual_cap global_cap = do
  limiter ← construct c max_rate rate global_cap false
  require (ltb individual_cap global_cap) (reason "MultiRateLimited: max buffer cap invalid")
  ok (record {
    limiter = limiter;
    rate_limit_per_address = λ a. no_limit;
    individual_max_rate_limit_per_second = individual_rate;
    individual_max_buffer_cap = individual_cap;
  })

-- `updateMaxRateLimitPerSecond` and `updateMaxBufferCap`
unfoldable pub update_max_rate_limit_per_second : Caller → ℕ → MultiLimiter → Call MultiLimiter
update_max_rate_limit_per_second c rate s = do
  only_governor c.context
  require (leb rate s.limiter.max_rate_limit_per_second)
      (reason "MultiRateLimited: exceeds global max rate limit per second")
  ok (record s { individual_max_rate_limit_per_second = rate })

unfoldable pub update_max_buffer_cap : Caller → ℕ → MultiLimiter → Call MultiLimiter
update_max_buffer_cap c cap s = do
  only_governor c.context
  require (leb cap s.limiter.buffer_cap) (reason "MultiRateLimited: exceeds global buffer cap")
  ok (record s { individual_max_buffer_cap = cap })

-- `individualBuffer`
unfoldable pub individual_buffer : Context → ℕ → MultiLimiter → Call ℕ
individual_buffer c who s = do
  let d = s.rate_limit_per_address who
  elapsed ← sub c.block_timestamp d.last_buffer_used_time
  refilled ← mul d.rate_limit_per_second elapsed
  sum ← add d.buffer_stored refilled
  ok (cast_uint112 (min sum d.buffer_cap))

-- `_addAddress`
unfoldable pub write_address : Context → ℕ → ℕ → ℕ → MultiLimiter → Call MultiLimiter
write_address c who rate cap s = do
  require (leb cap s.limiter.buffer_cap) (reason "MultiRateLimited: new buffercap too high")
  require ((s.rate_limit_per_address who).last_buffer_used_time == 0)
      (reason "MultiRateLimited: address already added")
  require (leb rate s.limiter.max_rate_limit_per_second)
      (reason "MultiRateLimited: rateLimitPerSecond too high")
  now ← to_uint32 c.block_timestamp
  ok (
      write_limit who
        (record {
          last_buffer_used_time = now;
          buffer_cap = cap;
          buffer_stored = cap;
          rate_limit_per_second = rate;
        })
        s)

-- `_updateAddress`
unfoldable pub rewrite_address : Context → ℕ → ℕ → ℕ → MultiLimiter → Call MultiLimiter
unfolding individual_buffer
rewrite_address c who rate cap s = do
  stored ← individual_buffer c who s
  now ← to_uint32 c.block_timestamp
  ok (
      write_limit who
        (record {
          last_buffer_used_time = now;
          buffer_cap = cap;
          buffer_stored = stored;
          rate_limit_per_second = rate;
        })
        s)

-- `addAddress`
unfoldable pub add_address : Caller → ℕ → ℕ → ℕ → MultiLimiter → Call MultiLimiter
unfolding write_address
add_address c who rate cap s = only_governor c.context >> write_address c.context who rate cap s

-- the checks of `updateAddress` on a caller that has ADD_MINTER_ROLE
abbrev pub within_role : Caller → ℕ → ℕ → MultiLimiter → Call (Unit {0})
within_role c rate cap s =
    if c.can_add_minter
    then (do
      require (leb rate s.individual_max_rate_limit_per_second)
          (reason "MultiRateLimited: rate limit per second exceeds non governor allowable amount")
      require (leb cap s.individual_max_buffer_cap)
          (reason "MultiRateLimited: max buffer cap exceeds non governor allowable amount"))
    else ok tt

-- `updateAddress`
unfoldable pub update_address : Caller → ℕ → ℕ → ℕ → MultiLimiter → Call MultiLimiter
unfolding rewrite_address
update_address c who rate cap s = do
  address_is_registered who s
  require (c.can_add_minter || c.context.is_governor) (reason "UNAUTHORIZED")
  within_role c rate cap s
  require (leb cap s.limiter.buffer_cap) (reason "MultiRateLimited: buffercap too high")
  require (leb rate s.limiter.max_rate_limit_per_second)
      (reason "MultiRateLimited: rateLimitPerSecond too high")
  rewrite_address c.context who rate cap s

-- `addAddressAsMinter`, with the greatest rate and buffer and with given ones
unfoldable pub add_address_as_minter : Caller → ℕ → MultiLimiter → Call MultiLimiter
unfolding write_address
add_address_as_minter c who s = do
  only_add_minter_role c
  write_address c.context who (cast_uint112 s.individual_max_rate_limit_per_second)
      (cast_uint112 s.individual_max_buffer_cap) s

unfoldable pub add_limited_address_as_minter : Caller → ℕ → ℕ → ℕ → MultiLimiter → Call MultiLimiter
unfolding write_address
add_limited_address_as_minter c who rate cap s = do
  only_add_minter_role c
  require (leb rate s.individual_max_rate_limit_per_second)
      (reason "MultiRateLimited: rlps exceeds role amt")
  require (leb cap s.individual_max_buffer_cap)
      (reason "MultiRateLimited: buffercap exceeds role amt")
  write_address c.context who rate cap s

-- `removeAddress`
unfoldable pub remove_address : Caller → ℕ → MultiLimiter → Call MultiLimiter
remove_address c who s = do
  address_is_registered who s
  only_guardian_or_governor c.context
  ok (write_limit who no_limit s)

-- `_depleteIndividualBuffer`
unfoldable pub deplete_individual_buffer : Context → ℕ → ℕ → MultiLimiter → Call MultiLimiter
unfolding deplete_buffer individual_buffer
deplete_individual_buffer c who amount s = do
  depleted ← deplete_buffer c amount s.limiter
  let next = record s { limiter = depleted.1 }
  new_buffer ← individual_buffer c who next
  require (not (new_buffer == 0)) (reason "MultiRateLimited: no rate limit buffer")
  require (leb amount new_buffer) (reason "MultiRateLimited: rate limit hit")
  now ← to_uint32 c.block_timestamp
  left ← sub new_buffer amount
  ok (
      write_limit who
        (record (s.rate_limit_per_address who) {
          last_buffer_used_time = now;
          buffer_stored = cast_uint112 left;
        })
        next)
