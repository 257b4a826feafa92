-- ===== src/Contracts/TribalChief/Sets.antt =====
-- When `set` succeeds, and what it changes.
use fei_protocol_core.Prelude.{
  ℕ, ◌+◌, ◌-◌, ◌≤◌, ◌<◌, ◌≡◌, ◌≢◌, refl, sym, ◌∙◌, ap, Bool, true, ◌||◌, Option, none, some, inl,
  inr, false, arith, ltb, ◌==◌, if◌then◌else◌, get_elem?, List, set-same, length, length-set,
  get_elem?-set_self, get_elem?-set_ne, get_elem?_of_lt, lt-length_of_get_elem?, Bool-cases,
  set as write, ok,
}
use fei_protocol_core.Contracts.Evm.{uint256_mod, uint128_mod, add_ok, sub_ok, index_ok}
use fei_protocol_core.Contracts.CoreRef.{Context}
use fei_protocol_core.Contracts.TribalChief.{PoolInfo, Chief, reallocate, set}
use fei_protocol_core.Contracts.TribalChief.Allocation.{
  allocated, allocated-write, alloc-le-allocated, IsBalanced, update_pool-Updated,
  Updated-IsBalanced,
}
use fei_protocol_core.Contracts.TribalChief.Updates.{share_at, IsBounded, IsUpdated, update_pool_ok}

abbrev pub points_in : Option PoolInfo → ℕ
points_in none = 0
points_in (some p) = p.alloc_point

-- The allocation points of a pool; a pool that is not there has none.
abbrev pub alloc_of : Chief → ℕ → ℕ
alloc_of s pid = points_in (get_elem? s.pool_info pid)

-- A contract with `n` pools that can be administered in the block: its totals are consistent, and
-- no pool's accrued reward overflows.
pub record IsReady (c : Context) (n : ℕ) (s : Chief) : Type 0 where
  pub pools : length s.pool_info ≡ n
  pub rewarders : length s.rewarder ≡ n
  pub balanced : allocated s.pool_info ≡ s.total_alloc_point
  pub scaled : 1 ≤ s.acc_tribe_precision
  pub total_fits : s.total_alloc_point < uint256_mod
  pub block_fits : c.block_number < uint128_mod
  pub bounded : (i : ℕ) (p : PoolInfo) → get_elem? s.pool_info i ≡ some p → IsBounded c s p

-- What a call of `set` has done: the pool is updated and has the new points, the other pools are as they
-- were, the rewarder is replaced if `overwrite` says so, the total counts the new points, and
-- nothing else changes.
pub record HasSet (c : Context) (n pid points rewarder : ℕ) (overwrite : Bool) (s s' : Chief)
    : Type 0 where
  pub ready : IsReady c n s'
  pub here :
      (p : PoolInfo)
      → get_elem? s.pool_info pid ≡ some p
      → get_elem? s'.pool_info pid
        ≡ some (record p {
          acc_tribe_per_share = share_at c s p;
          last_reward_block =
              if ltb p.last_reward_block c.block_number
              then c.block_number
              else p.last_reward_block;
          alloc_point = points;
        })
  pub elsewhere : (i : ℕ) → pid ≢ i → get_elem? s'.pool_info i ≡ get_elem? s.pool_info i
  pub rest : s' ≡ record s {
    pool_info = s'.pool_info;
    total_alloc_point = s.total_alloc_point - alloc_of s pid + points;
    rewarder = if overwrite then write s.rewarder pid rewarder else s.rewarder;
  }

-- The pool's points after the call, in numbers.
pub alloc_of-HasSet :
    (c : Context) (n pid points rewarder : ℕ) (overwrite : Bool) (s s' : Chief)
    → length s.pool_info ≡ n
    → pid < n
    → HasSet c n pid points rewarder overwrite s s'
    → alloc_of s' pid ≡ points
alloc_of-HasSet c n pid points rewarder overwrite s s' pools inside done =
    let (p, found) = get_elem?_of_lt s.pool_info pid (omega (arith, pools)) in
    ap points_in (done.here p found)

-- A rewarder that is not replaced is written back.
write_rewarder :
    (pid rewarder old : ℕ) (overwrite : Bool) (rewarders : List ℕ)
    → get_elem? rewarders pid ≡ some old
    → write rewarders pid (if overwrite then rewarder else old)
      ≡ (if overwrite then write rewarders pid rewarder else rewarders)
write_rewarder pid rewarder old true rewarders there = refl
write_rewarder pid rewarder old false rewarders there = set-same rewarders pid old there

reallocate_ok :
    (pid points rewarder old total : ℕ) (overwrite : Bool) (s : Chief) (p : PoolInfo)
    → get_elem? s.pool_info pid ≡ some p
    → get_elem? s.rewarder pid ≡ some old
    → p.alloc_point ≤ s.total_alloc_point
    → total ≡ s.total_alloc_point - p.alloc_point + points
    → 0 < total
    → total < uint256_mod
    → reallocate pid points rewarder overwrite s
      ≡ ok (record s {
        total_alloc_point = total;
        pool_info = write s.pool_info pid (record p { alloc_point = points });
        rewarder = write s.rewarder pid (if overwrite then rewarder else old);
      })
unfolding reallocate
reallocate_ok pid points rewarder old total overwrite s p found there less sum positive fits =
    let positive_test : ltb 0 (s.total_alloc_point - p.alloc_point + points) ≡ true =
      ground arith in
    rw (
      index_ok s.pool_info pid found,
      sub_ok s.total_alloc_point p.alloc_point less,
      add_ok (s.total_alloc_point - p.alloc_point) points (omega arith),
      positive_test,
      index_ok s.rewarder pid there,
      sum,
    )

-- The contract after `set`, from the contract `s1` after its update.
abbrev after_set : ℕ → ℕ → ℕ → PoolInfo → Chief → Chief
after_set pid points rewarder q s1 = record s1 {
  total_alloc_point = s1.total_alloc_point - q.alloc_point + points;
  pool_info = write s1.pool_info pid (record q { alloc_point = points });
  rewarder = write s1.rewarder pid rewarder;
}

module _ (c : Context) (n pid points rewarder old : ℕ) (overwrite : Bool) (s s1 : Chief)
    (p : PoolInfo) (found : get_elem? s.pool_info pid ≡ some p)
    (there : get_elem? s.rewarder pid ≡ some old) (ready : IsReady c n s) (balanced : IsBalanced s1)
    (u : IsUpdated c pid s p s1) where
  same_rate : s1.tribe_per_block ≡ s.tribe_per_block
  same_rate = ap (λ x. x.tribe_per_block) u.same

  same_precision : s1.acc_tribe_precision ≡ s.acc_tribe_precision
  same_precision = ap (λ x. x.acc_tribe_precision) u.same

  same_total : s1.total_alloc_point ≡ s.total_alloc_point
  same_total = ap (λ x. x.total_alloc_point) u.same

  same_rewarder : s1.rewarder ≡ s.rewarder
  same_rewarder = ap (λ x. x.rewarder) u.same

  abbrev result : Chief
  result = after_set pid points (if overwrite then rewarder else old) u.pool s1

  same_points : u.pool.alloc_point ≡ p.alloc_point
  same_points = ap (λ x. x.alloc_point) u.kept

  result-rest : result ≡ record s {
    pool_info = result.pool_info;
    total_alloc_point = s.total_alloc_point - alloc_of s pid + points;
    rewarder = if overwrite then write s.rewarder pid rewarder else s.rewarder;
  }
  result-rest =
      let q = record u.pool { alloc_point = points } in
      let pools = write s1.pool_info pid q in
      let writes = write s1.rewarder pid (if overwrite then rewarder else old) in
      let total_is : s1.total_alloc_point - u.pool.alloc_point + points
          ≡ s.total_alloc_point - alloc_of s pid + points =
        omega (arith, same_total, same_points, ap points_in found) in
      let rewarder_is =
        ap (λ l. write l pid (if overwrite then rewarder else old)) same_rewarder
        ∙ write_rewarder pid rewarder old overwrite s.rewarder there in
      ap {A = Chief} {B = Chief}
        (λ x. record x {
          total_alloc_point = s1.total_alloc_point - u.pool.alloc_point + points;
          pool_info = pools;
          rewarder = writes;
        })
        u.same
      ∙ ap {A = ℕ} {B = Chief}
          (λ t. record s { total_alloc_point = t; pool_info = pools; rewarder = writes }) total_is
      ∙ ap {A = List ℕ} {B = Chief}
          (λ r. record s {
            total_alloc_point = s.total_alloc_point - alloc_of s pid + points;
            pool_info = pools;
            rewarder = r;
          })
          rewarder_is

  written_pool : record u.pool { alloc_point = points } ≡ record p {
    acc_tribe_per_share = share_at c s p;
    last_reward_block =
        if ltb p.last_reward_block c.block_number then c.block_number else p.last_reward_block;
    alloc_point = points;
  }
  written_pool =
      ap {A = PoolInfo} {B = PoolInfo} (λ x. record x { alloc_point = points }) u.kept
      ∙ ap {A = ℕ} {B = PoolInfo}
          (λ a. record p {
            acc_tribe_per_share = a;
            last_reward_block = u.pool.last_reward_block;
            alloc_point = points;
          })
          u.share
      ∙ ap {A = ℕ} {B = PoolInfo}
          (λ b. record p {
            acc_tribe_per_share = share_at c s p;
            last_reward_block = b;
            alloc_point = points;
          })
          u.last

  result-IsBounded :
      (i : ℕ) (x : PoolInfo) → get_elem? result.pool_info i ≡ some x → IsBounded c result x
  result-IsBounded i x e = elim (Bool-cases (pid == i)) [
    | inl same ↦
        let here : pid ≡ i = ground arith in
        let q = record u.pool { alloc_point = points } in
        let written : get_elem? (write s1.pool_info pid q) pid ≡ some q =
          get_elem?-set_self s1.pool_info pid q (lt-length_of_get_elem? s1.pool_info pid u.there) in
        let found : get_elem? (write s1.pool_info pid q) pid ≡ some x =
          ap (λ k. get_elem? (write s1.pool_info pid q) k) here ∙ e in
        let is_q : x ≡ q = cc in rw (is_q, same_rate, same_precision) (u.bounded points)
    | inr other ↦
        let apart : pid ≢ i = ground arith in
        let kept : get_elem? result.pool_info i ≡ get_elem? s.pool_info i =
          get_elem?-set_ne s1.pool_info pid i _ apart ∙ u.others i apart in
        rw (same_rate, same_precision) (ready.bounded i x (sym kept ∙ e))
  ]

  result-HasSet :
      s.total_alloc_point - p.alloc_point + points < uint256_mod
      → HasSet c n pid points rewarder overwrite s result
  result-HasSet fits =
      let q = record u.pool { alloc_point = points } in
      let spread = allocated-write s1.pool_info pid u.pool q u.there in
      let part = alloc-le-allocated s1.pool_info pid u.there in
      record {
        ready = record {
          pools = length-set s1.pool_info pid q ∙ u.same_length ∙ ready.pools;
          rewarders = length-set s1.rewarder pid _ ∙ ap length same_rewarder ∙ ready.rewarders;
          balanced = omega (arith, spread, part, balanced);
          scaled = rw same_precision ready.scaled;
          total_fits = omega (arith, same_total, same_points, fits);
          block_fits = ready.block_fits;
          bounded = result-IsBounded;
        };
        here = λ p' found'.
            let same : p ≡ p' = cc in
            let written =
              get_elem?-set_self s1.pool_info pid q
                (lt-length_of_get_elem? s1.pool_info pid u.there) in
            rw (← same) (written ∙ ap some written_pool);
        elsewhere = λ i other. get_elem?-set_ne s1.pool_info pid i q other ∙ u.others i other;
        rest = result-rest;
      }

-- A call of `set` by the governor or the contract's admin at a pool of a contract that can be
-- administered succeeds if some allocation points remain and fit in 256 bits. The pool is then
-- updated to the block and has the new points, its virtual supply and lock are as before; the
-- rewarder is replaced if `overwrite` is true and kept if not; the total counts the new points for
-- the old; the other pools, the multipliers and all else are as before, and the contract can be
-- administered.
pub set_ok :
    (c : Context) (n pid points rewarder : ℕ) (overwrite : Bool) (s : Chief)
    → c.is_governor || c.is_contract_admin ≡ true
    → IsReady c n s
    → pid < n
    → 0 < s.total_alloc_point - alloc_of s pid + points
    → s.total_alloc_point - alloc_of s pid + points < uint256_mod
    → (s' : Chief) × (set c pid points rewarder overwrite s ≡ ok s')
      × HasSet c n pid points rewarder overwrite s s'
unfolding set
set_ok c n pid points rewarder overwrite s allowed ready inside positive fits =
    let (p, found) = get_elem?_of_lt s.pool_info pid (omega (arith, ready.pools)) in
    let (old, there) = get_elem?_of_lt s.rewarder pid (omega (arith, ready.rewarders)) in
    let points_are : alloc_of s pid ≡ p.alloc_point = ap points_in found in
    let (s1, updates, u) =
      update_pool_ok c pid s p ready.scaled ready.block_fits found (ready.bounded pid p found) in
    let balanced =
      Updated-IsBalanced c pid s s1 (update_pool-Updated c pid s s1 updates) ready.balanced in
    let total_is : s1.total_alloc_point ≡ s.total_alloc_point =
      ap (λ x. x.total_alloc_point) u.same in
    let kept : u.pool.alloc_point ≡ p.alloc_point = ap (λ x. x.alloc_point) u.kept in
    let rewarder_there : get_elem? s1.rewarder pid ≡ some old =
      ap (λ x. get_elem? x.rewarder pid) u.same ∙ there in
    let less : u.pool.alloc_point ≤ s1.total_alloc_point =
      omega (arith, alloc-le-allocated s1.pool_info pid u.there, balanced) in
    (
      after_set pid points (if overwrite then rewarder else old) u.pool s1,
      rw (allowed, updates)
          (reallocate_ok pid points rewarder old
            (s1.total_alloc_point - u.pool.alloc_point + points) overwrite s1 u.pool u.there
            rewarder_there less refl (omega (arith, points_are, total_is, kept))
            (omega (arith, points_are, total_is, kept))),
      result-HasSet c n pid points rewarder old overwrite s s1 p found there ready balanced u
          (omega (arith, points_are)),
    )
