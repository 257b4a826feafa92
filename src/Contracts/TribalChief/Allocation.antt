-- ===== src/Contracts/TribalChief/Allocation.antt =====
-- `totalAllocPoint` and the allocation points of the pools.
use fei_protocol_core.Prelude.{
  ℕ, suc, zero, ◌+◌, ◌≤◌, ◌≡◌, refl, Bool, not, true, false, List, [], ◌∷◌, ◌++◌, some, inl, inr,
  arith, ltb, get_elem?, length, Bool-cases, set as write, ◌==◌, if◌then◌else◌, require, ok,
  >>=-eq-ok,
}
use fei_protocol_core.Contracts.Evm.{sub, add, index, to_uint128, sub-eq-ok, add-eq-ok, index-eq-ok}
use fei_protocol_core.Contracts.CoreRef.{Context, only_governor_or_admin, only_guardian_or_governor}
use fei_protocol_core.Contracts.TribalChief.{
  PoolInfo, RewardData, Chief, Operation, update, mass_update, block_reward, lock, unlock, reset,
  pool_multiplier, new_pool, set_pool, perform, empty_pool, reallocate, deallocate, set_unlocked,
  accrued, update_found, update_pool, mass_update_pools, update_block_reward, lock_pool,
  unlock_pool, governor_add_pool_multiplier, add_multipliers, add_pool, set, reset_rewards,
}

unfoldable pub allocated : List PoolInfo → ℕ
allocated [] = 0
allocated (p ∷ ps) = p.alloc_point + allocated ps

pub allocated-write :
    (ps : List PoolInfo) (i : ℕ) (p q : PoolInfo)
    → get_elem? ps i ≡ some p
    → allocated (write ps i q) + p.alloc_point ≡ allocated ps + q.alloc_point
unfolding allocated
allocated-write [] i p q e = absurd (cc)
allocated-write (x ∷ ps) zero p q e = let same : x ≡ p = cc in rw same (omega arith)
allocated-write (x ∷ ps) (suc i) p q e = omega (arith, allocated-write ps i p q e)

pub alloc-le-allocated :
    (ps : List PoolInfo) (i : ℕ) {p : PoolInfo}
    → get_elem? ps i ≡ some p
    → p.alloc_point ≤ allocated ps
unfolding allocated
alloc-le-allocated [] i e = absurd (cc)
alloc-le-allocated (x ∷ ps) zero {p} e = let same : x ≡ p = cc in rw (← same) (omega arith)
alloc-le-allocated (x ∷ ps) (suc i) e = omega (arith, alloc-le-allocated ps i e)

allocated-append :
    (ps : List PoolInfo) (p : PoolInfo) → allocated (ps ++ p ∷ []) ≡ allocated ps + p.alloc_point
unfolding allocated
allocated-append [] p = omega arith
allocated-append (x ∷ ps) p = omega (arith, allocated-append ps p)

abbrev pub IsBalanced : Chief → Type 0
IsBalanced s = allocated s.pool_info ≡ s.total_alloc_point

-- An update leaves the contract alone, or writes the share and the block of one pool.
pub data Updated (c : Context) (pid : ℕ) (s : Chief) (s' : Chief) : Type 0 where
  unchanged : s' ≡ s → Updated c pid s s'
  accrues :
      (pool : PoolInfo) (acc last : ℕ)
      → get_elem? s.pool_info pid ≡ some pool
      → s' ≡ record s {
        pool_info =
            write s.pool_info pid
              (record pool { acc_tribe_per_share = acc; last_reward_block = last });
      }
      → Updated c pid s s'

update_found-Updated :
    (c : Context) (pid : ℕ) (s s' : Chief) (pool : PoolInfo)
    → get_elem? s.pool_info pid ≡ some pool
    → update_found c pid s pool ≡ ok s'
    → Updated c pid s s'
unfolding update_found
update_found-Updated c pid s s' pool found e =
    elim (Bool-cases (ltb pool.last_reward_block c.block_number)) [
      | inl later ↦
          let (acc, earned, e') = >>=-eq-ok (accrued c s pool) _ (rw later at e) in
          let (last, cast, e'') = >>=-eq-ok (to_uint128 c.block_number) _ e' in
          accrues pool acc last found (cc)
      | inr now ↦ unchanged (ground arith)
    ]

pub update_pool-Updated :
    (c : Context) (pid : ℕ) (s s' : Chief) → update_pool c pid s ≡ ok s' → Updated c pid s s'
unfolding update_pool
update_pool-Updated c pid s s' e =
    let (pool, found, e') = >>=-eq-ok (index s.pool_info pid) (update_found c pid s) e in
    update_found-Updated c pid s s' pool (index-eq-ok s.pool_info pid found) e'

-- A change of the contract that leaves the sum of the points and their total alone.
pub record KeepsPoints (s s' : Chief) : Type 0 where
  pub points : allocated s'.pool_info ≡ allocated s.pool_info
  pub total : s'.total_alloc_point ≡ s.total_alloc_point

pub KeepsPoints-IsBalanced : {s s' : Chief} → KeepsPoints s s' → IsBalanced s → IsBalanced s'
KeepsPoints-IsBalanced k h = omega (arith, k.points, k.total, h)

-- A write of a pool with the points that it had.
pub allocated-write_same :
    (ps : List PoolInfo) (i : ℕ) (p q : PoolInfo)
    → get_elem? ps i ≡ some p
    → q.alloc_point ≡ p.alloc_point
    → allocated (write ps i q) ≡ allocated ps
allocated-write_same ps i p q found same = omega (arith, allocated-write ps i p q found, same)

pub Updated-KeepsPoints :
    (c : Context) (pid : ℕ) (s s' : Chief) → Updated c pid s s' → KeepsPoints s s'
Updated-KeepsPoints c pid s s' (unchanged same) = rw same (record { points = refl; total = refl })
Updated-KeepsPoints c pid s s' (accrues pool acc last found same) =
    rw same
      (record { points = allocated-write_same s.pool_info pid pool _ found refl; total = refl })

pub Updated-IsBalanced :
    (c : Context) (pid : ℕ) (s s' : Chief) → Updated c pid s s' → IsBalanced s → IsBalanced s'
Updated-IsBalanced c pid s s' u = KeepsPoints-IsBalanced (Updated-KeepsPoints c pid s s' u)

mass_update_pools-IsBalanced :
    (c : Context) (pids : List ℕ) (s s' : Chief)
    → mass_update_pools c pids s ≡ ok s'
    → IsBalanced s
    → IsBalanced s'
unfolding mass_update_pools
mass_update_pools-IsBalanced c [] s s' e h = let same : s ≡ s' = cc in rw (← same) h
mass_update_pools-IsBalanced c (pid ∷ pids) s s' e h =
    let (next, first, later) = >>=-eq-ok (update_pool c pid s) (mass_update_pools c pids) e in
    mass_update_pools-IsBalanced c pids next s' later
      (Updated-IsBalanced c pid s next (update_pool-Updated c pid s next first) h)

reallocate-IsBalanced :
    (pid alloc rewarder : ℕ) (overwrite : Bool) (s s' : Chief)
    → reallocate pid alloc rewarder overwrite s ≡ ok s'
    → IsBalanced s
    → IsBalanced s'
unfolding reallocate
reallocate-IsBalanced pid alloc rewarder overwrite s s' e h =
    let (pool, found, e1) = >>=-eq-ok (index s.pool_info pid) _ e in
    let (others, less, e2) = >>=-eq-ok (sub s.total_alloc_point pool.alloc_point) _ e1 in
    let (total, more, e3) = >>=-eq-ok (add others alloc) _ e2 in
    let (done, positive, e4) = >>=-eq-ok (require (ltb 0 total) _) _ e3 in
    let (old, there, e5) = >>=-eq-ok (index s.rewarder pid) _ e4 in
    let q = record pool { alloc_point = alloc } in
    let same_pools : s'.pool_info ≡ write s.pool_info pid q = cc in
    let same_total : s'.total_alloc_point ≡ total = cc in
    rw (same_pools, same_total)
      (omega (
        arith,
        allocated-write s.pool_info pid pool q (index-eq-ok s.pool_info pid found),
        sub-eq-ok s.total_alloc_point pool.alloc_point less,
        add-eq-ok others alloc more,
      ))

deallocate-IsBalanced :
    (pid : ℕ) (s s' : Chief) → deallocate pid s ≡ ok s' → IsBalanced s → IsBalanced s'
unfolding deallocate
deallocate-IsBalanced pid s s' e h =
    let (pool, found, e1) = >>=-eq-ok (index s.pool_info pid) _ e in
    let (others, less, e2) = >>=-eq-ok (sub s.total_alloc_point pool.alloc_point) _ e1 in
    let (old, there, e3) = >>=-eq-ok (index s.rewarder pid) _ e2 in
    let q = record pool { alloc_point = 0; unlocked = true } in
    let same_pools : s'.pool_info ≡ write s.pool_info pid q = cc in
    let same_total : s'.total_alloc_point ≡ others = cc in
    rw (same_pools, same_total)
      (omega (
        arith,
        allocated-write s.pool_info pid pool q (index-eq-ok s.pool_info pid found),
        sub-eq-ok s.total_alloc_point pool.alloc_point less,
      ))

-- The functions that only write a pool's lock keep its allocation.
set_unlocked-IsBalanced :
    (unlocked : Bool) (pid : ℕ) (s s' : Chief)
    → set_unlocked unlocked pid s ≡ ok s'
    → IsBalanced s
    → IsBalanced s'
set_unlocked-IsBalanced unlocked pid s s' e h =
    let (pool, found, e1) = >>=-eq-ok (index s.pool_info pid) _ e in
    let q = record pool { unlocked = unlocked } in
    let same_pools : s'.pool_info ≡ write s.pool_info pid q = cc in
    let same_total : s'.total_alloc_point ≡ s.total_alloc_point = cc in
    rw (same_pools, same_total)
      (omega (arith, allocated-write s.pool_info pid pool q (index-eq-ok s.pool_info pid found)))

-- The loop of `add` writes multipliers only.
add_multipliers_keeps :
    (pid : ℕ) (rewards : List RewardData) (s s' : Chief)
    → add_multipliers pid rewards s ≡ ok s'
    → (s'.pool_info ≡ s.pool_info) × (s'.total_alloc_point ≡ s.total_alloc_point)
unfolding add_multipliers
add_multipliers_keeps pid [] s s' e = (cc, cc)
add_multipliers_keeps pid (d ∷ rest) s s' e =
    let (done, passed, e') = >>=-eq-ok (if d.lock_length == 0 then _ else _) _ e in
    add_multipliers_keeps pid rest _ s' e'

pub perform-IsBalanced :
    (c : Context) (op : Operation) (s s' : Chief)
    → perform c op s ≡ ok s'
    → IsBalanced s
    → IsBalanced s'
unfolding perform update_block_reward lock_pool unlock_pool governor_add_pool_multiplier add_pool
    set reset_rewards
perform-IsBalanced c (update pid) s s' e h =
    Updated-IsBalanced c pid s s' (update_pool-Updated c pid s s' e) h
perform-IsBalanced c (mass_update pids) s s' e h = mass_update_pools-IsBalanced c pids s s' e h
perform-IsBalanced c (block_reward amount) s s' e h = ground arith
perform-IsBalanced c (lock pid) s s' e h =
    let (done, allowed, e') = >>=-eq-ok (only_governor_or_admin c) _ e in
    set_unlocked-IsBalanced false pid s s' e' h
perform-IsBalanced c (unlock pid) s s' e h =
    let (done, allowed, e') = >>=-eq-ok (only_governor_or_admin c) _ e in
    set_unlocked-IsBalanced true pid s s' e' h
perform-IsBalanced c (reset pid) s s' e h =
    let (done, allowed, e1) = >>=-eq-ok (only_guardian_or_governor c) _ e in
    let (updated, first, e2) = >>=-eq-ok (update_pool c pid s) _ e1 in
    deallocate-IsBalanced pid updated s' e2
      (Updated-IsBalanced c pid s updated (update_pool-Updated c pid s updated first) h)
perform-IsBalanced c (pool_multiplier pid lock_length multiplier) s s' e h =
    let (done, allowed, e1) = >>=-eq-ok (only_governor_or_admin c) _ e in
    let (pool, found, e') = >>=-eq-ok (index s.pool_info pid) _ e1 in
    let (next, maybe, e2) =
      >>=-eq-ok
        (if ltb (s.reward_multipliers pid lock_length) multiplier
          then set_unlocked true pid s
          else ok s)
        _ e' in
    let kept : IsBalanced next =
      elim (Bool-cases (ltb (s.reward_multipliers pid lock_length) multiplier)) [
        | inl more ↦ set_unlocked-IsBalanced true pid s next (rw more at maybe) h
        | inr less ↦ let same : s ≡ next = ground arith in rw (← same) h
      ] in
    let same_pools : s'.pool_info ≡ next.pool_info = cc in
    let same_total : s'.total_alloc_point ≡ next.total_alloc_point = cc in
    rw (same_pools, same_total) kept
perform-IsBalanced c (new_pool alloc token rewarder rewards) s s' e h =
    let (done, allowed, e1) = >>=-eq-ok (only_governor_or_admin c) _ e in
    let (done', positive, e2) = >>=-eq-ok (require (ltb 0 alloc) _) _ e1 in
    let (last, cast, e3) = >>=-eq-ok (to_uint128 c.block_number) _ e2 in
    let (total, more, e4) = >>=-eq-ok (add s.total_alloc_point alloc) _ e3 in
    let (done'', given, e5) = >>=-eq-ok (require (not (length rewards == 0)) _) _ e4 in
    let (next, written, e6) = >>=-eq-ok (add_multipliers (length s.pool_info) rewards _) _ e5 in
    let (kept, same) = add_multipliers_keeps (length s.pool_info) rewards _ next written in
    let same_pools : s'.pool_info ≡ s.pool_info ++ empty_pool alloc last ∷ [] = cc in
    let same_total : s'.total_alloc_point ≡ total = cc in
    rw (same_pools, same_total)
      (omega (
        arith,
        allocated-append s.pool_info (empty_pool alloc last),
        add-eq-ok s.total_alloc_point alloc more,
      ))
perform-IsBalanced c (set_pool pid alloc rewarder overwrite) s s' e h =
    let (done, allowed, e1) = >>=-eq-ok (only_governor_or_admin c) _ e in
    let (updated, first, e2) = >>=-eq-ok (update_pool c pid s) _ e1 in
    reallocate-IsBalanced pid alloc rewarder overwrite updated s' e2
      (Updated-IsBalanced c pid s updated (update_pool-Updated c pid s updated first) h)
