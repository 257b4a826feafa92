-- ===== src/Contracts/TribalChief/Updates.antt =====
-- When `updatePool` succeeds, and what it changes.
use fei_protocol_core.Prelude.{
  ◌≢◌, get_elem?-set_self, get_elem?-set_ne, lt-length_of_get_elem?, ℕ, ◌+◌, ◌-◌, ◌*◌, ◌/◌, ◌≤◌,
  ◌<◌, ◌≡◌, refl, not, ◌&&◌, some, inl, inr, arith, ltb, ◌==◌, get_elem?, length, length-set,
  if◌then◌else◌, Bool-cases, set as write, ok,
}
use native.Mathlib.Nat.{zero-mul, zero-div}
use fei_protocol_core.Contracts.Evm.{
  uint256_mod, uint128_mod, to_uint128, add_ok, sub_ok, mul_ok, div_ok, index_ok,
}
use fei_protocol_core.Contracts.CoreRef.{Context}
use fei_protocol_core.Contracts.TribalChief.{PoolInfo, Chief, accrued, update_found, update_pool}

le-mul_right : (a k : ℕ) → 1 ≤ k → a ≤ a * k
le-mul_right a k h = grind arith

mul_mono : (a b k : ℕ) → a ≤ b → a * k ≤ b * k
mul_mono a b k h = grind arith

-- A bound for all that an update of the pool computes, whatever the total of the allocation points.
abbrev pub IsBounded : Context → Chief → PoolInfo → Type 0
IsBounded c s p =
    p.acc_tribe_per_share
      + (c.block_number - p.last_reward_block)
        * s.tribe_per_block
        * (p.alloc_point + 1)
        * s.acc_tribe_precision
    < uint256_mod

module _ (blocks rate alloc precision : ℕ) (one : 1 ≤ precision) where
  abbrev bound : ℕ
  bound = blocks * rate * (alloc + 1) * precision

  rate-le-bound : blocks * rate ≤ bound
  rate-le-bound = omega (
    arith,
    le-mul_right (blocks * rate) (alloc + 1) (omega arith),
    le-mul_right (blocks * rate * (alloc + 1)) precision one,
  )

  share-le : blocks * rate * alloc ≤ blocks * rate * (alloc + 1)
  share-le = grind arith

  share-le-bound : blocks * rate * alloc ≤ bound
  share-le-bound = omega (arith, share-le, le-mul_right (blocks * rate * (alloc + 1)) precision one)

  scaled-le-bound : (total : ℕ) → blocks * rate * alloc / total * precision ≤ bound
  scaled-le-bound total = omega (
    arith,
    mul_mono (blocks * rate * alloc / total) (blocks * rate * (alloc + 1)) precision
        (omega (arith, share-le)),
  )

-- What the share of a pool is in a block, in numbers without a bound: its rewards since the last update
-- are weighed by its allocation points and divided among its virtual supply.
abbrev pub share_at : Context → Chief → PoolInfo → ℕ
share_at c s p =
    if ltb 0 p.virtual_total_supply && not (s.total_alloc_point == 0)
    then p.acc_tribe_per_share
      + (c.block_number - p.last_reward_block)
        * s.tribe_per_block
        * p.alloc_point
        / s.total_alloc_point
        * s.acc_tribe_precision
        / p.virtual_total_supply
    else p.acc_tribe_per_share

accrued_ok :
    (c : Context) (s : Chief) (p : PoolInfo)
    → 1 ≤ s.acc_tribe_precision
    → p.last_reward_block < c.block_number
    → IsBounded c s p
    → (accrued c s p ≡ ok (share_at c s p)) × (share_at c s p < uint256_mod)
unfolding accrued
accrued_ok c s p one later h =
    let blocks = c.block_number - p.last_reward_block in
    let r = s.tribe_per_block in
    let a = p.alloc_point in
    let k = s.acc_tribe_precision in
    let t = s.total_alloc_point in
    let n = p.virtual_total_supply in
    elim (Bool-cases (ltb 0 n && not (t == 0))) [
      | inl divides ↦
          let small : blocks * r * a / t * k / n ≤ blocks * r * a / t * k = omega arith in
          (
            rw (
              divides,
              sub_ok c.block_number p.last_reward_block (omega arith),
              mul_ok blocks r (omega (arith, rate-le-bound blocks r a k one)),
              mul_ok (blocks * r) a (omega (arith, share-le-bound blocks r a k one)),
              div_ok (blocks * r * a) t (ground arith),
              mul_ok (blocks * r * a / t) k (omega (arith, scaled-le-bound blocks r a k one t)),
              div_ok (blocks * r * a / t * k) n (ground arith),
              add_ok p.acc_tribe_per_share (blocks * r * a / t * k / n)
                  (omega (arith, scaled-le-bound blocks r a k one t, small)),
            ),
            rw divides (omega (arith, scaled-le-bound blocks r a k one t, small)),
          )
      | inr nothing ↦ (rw nothing, rw nothing (omega arith))
    ]

nothing_earned : (b r a t k n : ℕ) → b ≡ 0 → b * r * a / t * k / n ≡ 0
nothing_earned b r a t k n none_passed = simp (none_passed, zero-mul, zero-div)

-- Where no block has passed, the share is as it was.
share_at-of_no_blocks :
    (c : Context) (s : Chief) (p : PoolInfo)
    → c.block_number ≤ p.last_reward_block
    → p.acc_tribe_per_share ≡ share_at c s p
share_at-of_no_blocks c s p now = ground (
  arith,
  nothing_earned (c.block_number - p.last_reward_block) s.tribe_per_block p.alloc_point
      s.total_alloc_point s.acc_tribe_precision p.virtual_total_supply (omega arith),
)

-- What an update does: the pool that it is called on has the share of the block, and the block as its
-- last one if that is later; nothing else changes, in the pool or in the contract. The pool stays
-- within the bound, for any points.
pub record IsUpdated (c : Context) (pid : ℕ) (s : Chief) (p : PoolInfo) (s' : Chief) : Type 0 where
  pub pool : PoolInfo
  pub there : get_elem? s'.pool_info pid ≡ some pool
  pub share : pool.acc_tribe_per_share ≡ share_at c s p
  pub last :
      pool.last_reward_block
      ≡ (if ltb p.last_reward_block c.block_number then c.block_number else p.last_reward_block)
  pub kept : pool ≡ record p {
    acc_tribe_per_share = pool.acc_tribe_per_share;
    last_reward_block = pool.last_reward_block;
  }
  pub bounded : (points : ℕ) → IsBounded c s (record pool { alloc_point = points })
  pub others : (i : ℕ) → pid ≢ i → get_elem? s'.pool_info i ≡ get_elem? s.pool_info i
  pub same : s' ≡ record s { pool_info = s'.pool_info }
  pub same_length : length s'.pool_info ≡ length s.pool_info

no_blocks : (a b r k m : ℕ) → a ≤ b → (a - b) * r * k * m ≡ 0
no_blocks a b r k m h = let none_passed : a - b ≡ 0 = omega arith in rw none_passed (omega arith)

-- Where no block has passed since the last update, only the share counts.
IsBounded-of_no_blocks :
    (c : Context) (s : Chief) (p : PoolInfo)
    → c.block_number ≤ p.last_reward_block
    → p.acc_tribe_per_share < uint256_mod
    → IsBounded c s p
IsBounded-of_no_blocks c s p now h = omega (
  arith,
  no_blocks c.block_number p.last_reward_block s.tribe_per_block (p.alloc_point + 1)
      s.acc_tribe_precision now,
)

to_uint128_ok : (x : ℕ) → x < uint128_mod → to_uint128 x ≡ ok x
unfolding to_uint128
to_uint128_ok x h = ground arith

update_found_ok :
    (c : Context) (pid : ℕ) (s : Chief) (p : PoolInfo)
    → 1 ≤ s.acc_tribe_precision
    → c.block_number < uint128_mod
    → get_elem? s.pool_info pid ≡ some p
    → IsBounded c s p
    → (s' : Chief) × (update_found c pid s p ≡ ok s') × IsUpdated c pid s p s'
unfolding update_found
update_found_ok c pid s p one small found h =
    elim (Bool-cases (ltb p.last_reward_block c.block_number)) [
      | inl later ↦
          let acc = share_at c s p in
          let (earned, fits) = accrued_ok c s p one (ground arith) h in
          let q = record p { acc_tribe_per_share = acc; last_reward_block = c.block_number } in
          let here = lt-length_of_get_elem? s.pool_info pid found in
          (
            record s { pool_info = write s.pool_info pid q },
            rw (later, earned, to_uint128_ok c.block_number small),
            record {
              pool = q;
              there = get_elem?-set_self s.pool_info pid q here;
              share = refl;
              last = rw later;
              kept = refl;
              bounded = λ points.
                  IsBounded-of_no_blocks c s (record q { alloc_point = points }) (omega arith) fits;
              others = λ i other. get_elem?-set_ne s.pool_info pid i q other;
              same = refl;
              same_length = length-set s.pool_info pid q;
            },
          )
      | inr now ↦ (
        s,
        rw now,
        record {
          pool = p;
          there = found;
          share = share_at-of_no_blocks c s p (ground arith);
          last = rw now;
          kept = refl;
          bounded = λ points.
              IsBounded-of_no_blocks c s (record p { alloc_point = points }) (ground arith)
                (omega arith);
          others = λ i other. refl;
          same = refl;
          same_length = refl;
        },
      )
    ]

-- An update succeeds at a pool within the bound, where the precision is not 0 and the block's number
-- fits in 128 bits. The pool then has the share of the block, which is its old share and its rewards
-- since its last update divided among its virtual supply (the old share alone if nothing is staked or
-- no pool has points), and as its last block the later one of its own and the current. Its points,
-- supply and lock, the other pools and all else of the contract are as before, and the pool is
-- within the bound for any points.
pub update_pool_ok :
    (c : Context) (pid : ℕ) (s : Chief) (p : PoolInfo)
    → 1 ≤ s.acc_tribe_precision
    → c.block_number < uint128_mod
    → get_elem? s.pool_info pid ≡ some p
    → IsBounded c s p
    → (s' : Chief) × (update_pool c pid s ≡ ok s') × IsUpdated c pid s p s'
unfolding update_pool
update_pool_ok c pid s p one small found h =
    let (s', e, u) = update_found_ok c pid s p one small found h in
    (s', rw (index_ok s.pool_info pid found) e, u)
