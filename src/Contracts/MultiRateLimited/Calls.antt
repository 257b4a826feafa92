-- ===== src/Contracts/MultiRateLimited/Calls.antt =====
-- Sequences of calls of the contract's functions.
use fei_protocol_core.Prelude.{ℕ, ◌+◌, List, [], ◌∷◌, ok, err}
use fei_protocol_core.Contracts.Evm.{Call}
use fei_protocol_core.Contracts.RateLimited as Inherited
use fei_protocol_core.Contracts.MultiRateLimited.{
  MultiLimiter, Caller, update_max_rate_limit_per_second, update_max_buffer_cap, add_address,
  update_address, add_address_as_minter, add_limited_address_as_minter, remove_address,
  deplete_individual_buffer,
}

-- A call: an address's use, the administration of addresses, or a function of RateLimited that the
-- contract inherits.
pub data Action : Type 0 where
  use_by : ℕ → ℕ → Action
  add_limit : ℕ → ℕ → ℕ → Action
  change_limit : ℕ → ℕ → ℕ → Action
  add_minter : ℕ → Action
  add_limited_minter : ℕ → ℕ → ℕ → Action
  remove : ℕ → Action
  change_max_rate change_max_cap : ℕ → Action
  inherited : Inherited.Action → Action

-- What a call uses, and the storage that it leaves; one that reverts uses and changes nothing.
abbrev pub settle : ℕ → Call MultiLimiter → MultiLimiter → ℕ × MultiLimiter
settle amount (ok s') s = (amount, s')
settle amount (err e) s = (0, s)

unfoldable pub act : Caller → Action → MultiLimiter → ℕ × MultiLimiter
unfolding update_max_rate_limit_per_second update_max_buffer_cap add_address update_address
    add_address_as_minter add_limited_address_as_minter remove_address deplete_individual_buffer
    Inherited.act
act c (use_by who amount) s = settle amount (deplete_individual_buffer c.context who amount s) s
act c (add_limit who rate cap) s = settle 0 (add_address c who rate cap s) s
act c (change_limit who rate cap) s = settle 0 (update_address c who rate cap s) s
act c (add_minter who) s = settle 0 (add_address_as_minter c who s) s
act c (add_limited_minter who rate cap) s =
    settle 0 (add_limited_address_as_minter c who rate cap s) s
act c (remove who) s = settle 0 (remove_address c who s) s
act c (change_max_rate rate) s = settle 0 (update_max_rate_limit_per_second c rate s) s
act c (change_max_cap cap) s = settle 0 (update_max_buffer_cap c cap s) s
act c (inherited a) s =
    let (used, limiter) = Inherited.act c.context a s.limiter in
    (used, record s { limiter = limiter })

-- A sequence of calls: all that they use, and the storage at the end.
unfoldable pub acts : List (Caller × Action) → MultiLimiter → ℕ × MultiLimiter
unfolding act
acts [] s = (0, s)
acts ((c, a) ∷ rest) s =
    let (used, next) = act c a s in let (later, final) = acts rest next in (used + later, final)
