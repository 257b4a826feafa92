-- ===== src/Contracts/TribalChief/Staking/Pending.antt =====
-- `pendingRewards`, and what `harvest` pays.
use fei_protocol_core.Prelude.{
  ℕ, ℤ, pos, negsuc, ◌<◌, ◌≡◌, ◌≢◌, refl, sym, ◌∙◌, ap, not, ◌&&◌, true, false, List, [], ◌∷◌, ◌++◌,
  some, arith, ltb, ◌==◌, if◌then◌else◌, ok, err, get_elem?, get_elem?-set_self,
  lt-length_of_get_elem?, set as write, ◌>>=◌, >>=-elim, Bool-cases, inl, inr,
}
use fei_protocol_core.Contracts.Evm.{
  Call, panic, add, sub, mul, div, to_int256, to_uint256, to_uint128, sub_int256, index, index_ok,
  index-eq-ok,
}
use fei_protocol_core.Contracts.CoreRef.{Context}
use fei_protocol_core.Contracts.TribalChief.{PoolInfo, Chief, accrued, update_found, update_pool}
use fei_protocol_core.Contracts.TribalChief.Staking.{
  Staking, Interaction, transfer_tribe, notify, mul_div, harvest_user, harvest,
}

-- The share that `pendingRewards` computes.
unfoldable pub current_share : Context → Chief → PoolInfo → Call ℕ
current_share c s pool =
    if ltb pool.last_reward_block c.block_number && not (pool.virtual_total_supply == 0)
    then (do
      blocks ← sub c.block_number pool.last_reward_block
      rate ← mul blocks s.tribe_per_block
      share ← mul rate pool.alloc_point
      reward ← div share s.total_alloc_point
      scaled ← mul reward s.acc_tribe_precision
      by_share ← div scaled pool.virtual_total_supply
      add pool.acc_tribe_per_share by_share)
    else ok pool.acc_tribe_per_share

-- `pendingRewards`
unfoldable pub pending_rewards : Context → ℕ → ℕ → Staking → Call ℕ
unfolding current_share mul_div to_int256 sub_int256 to_uint256 index
pending_rewards c pid who s = do
  pool ← index s.chief.pool_info pid
  let user = s.user_info pid who
  acc ← current_share c s.chief pool
  share ← mul_div user.virtual_amount acc s.chief.acc_tribe_precision
  accumulated ← to_int256 share
  rest ← sub_int256 accumulated user.reward_debt
  to_uint256 rest

current_share-of_accrued :
    (c : Context) (s : Chief) (pool : PoolInfo)
    → s.total_alloc_point ≢ 0
    → ltb pool.last_reward_block c.block_number ≡ true
    → current_share c s pool ≡ accrued c s pool
unfolding current_share accrued
current_share-of_accrued c s pool allocates later =
    elim (Bool-cases (pool.virtual_total_supply == 0)) [
      | inl empty ↦
          let none : ltb 0 pool.virtual_total_supply ≡ false = ground arith in
          rw (later, empty, none) refl
      | inr counts ↦
          let some_ : ltb 0 pool.virtual_total_supply ≡ true = ground arith in
          let total : (s.total_alloc_point == 0) ≡ false = ground arith in
          rw (later, counts, some_, total) refl
    ]

current_share-now :
    (c : Context) (s : Chief) (pool : PoolInfo)
    → ltb pool.last_reward_block c.block_number ≡ false
    → current_share c s pool ≡ ok pool.acc_tribe_per_share
unfolding current_share
current_share-now c s pool now = rw now refl

-- After an update the pool has the share that the view computes before it.
updated_share :
    (c : Context) (pid : ℕ) (s s' : Chief) (pool pool' : PoolInfo)
    → s.total_alloc_point ≢ 0
    → get_elem? s.pool_info pid ≡ some pool
    → update_found c pid s pool ≡ ok s'
    → get_elem? s'.pool_info pid ≡ some pool'
    → (current_share c s pool ≡ ok pool'.acc_tribe_per_share)
      × (s'.acc_tribe_precision ≡ s.acc_tribe_precision)
      × (s'.rewarder ≡ s.rewarder)
unfolding update_found
updated_share c pid s s' pool pool' allocates found e there =
    elim (Bool-cases (ltb pool.last_reward_block c.block_number)) [
      | inl later ↦ >>=-elim (accrued c s pool) _ (rw later at e) (λ acc earns e1.
          >>=-elim (to_uint128 c.block_number) _ e1 (λ last casts e2.
            let q = record pool { acc_tribe_per_share = acc; last_reward_block = last } in
            let written =
              get_elem?-set_self s.pool_info pid q (lt-length_of_get_elem? s.pool_info pid found) in
            let is : record s { pool_info = write s.pool_info pid q } ≡ s' = cc in
            let both : some q ≡ some pool' =
              sym written ∙ ap (λ x. get_elem? x.pool_info pid) is ∙ there in
            let same : acc ≡ pool'.acc_tribe_per_share = cc in
            (
              current_share-of_accrued c s pool allocates later ∙ earns ∙ ap ok same,
              sym (ap (λ x. x.acc_tribe_precision) is),
              sym (ap (λ x. x.rewarder) is),
            )))
      | inr now ↦
          let is : s ≡ s' = ground arith in
          let both : some pool ≡ some pool' =
            sym found ∙ ap (λ x. get_elem? x.pool_info pid) is ∙ there in
          let same : pool.acc_tribe_per_share ≡ pool'.acc_tribe_per_share = cc in
          (
            current_share-now c s pool now ∙ ap ok same,
            sym (ap (λ x. x.acc_tribe_precision) is),
            sym (ap (λ x. x.rewarder) is),
          )
    ]

-- The view from what it reads.
pending_run :
    (c : Context) (pid who acc share pending : ℕ) (s : Staking) (pool : PoolInfo)
    (accumulated rest : ℤ)
    → get_elem? s.chief.pool_info pid ≡ some pool
    → current_share c s.chief pool ≡ ok acc
    → mul_div (s.user_info pid who).virtual_amount acc s.chief.acc_tribe_precision ≡ ok share
    → to_int256 share ≡ ok accumulated
    → sub_int256 accumulated (s.user_info pid who).reward_debt ≡ ok rest
    → to_uint256 rest ≡ ok pending
    → pending_rewards c pid who s ≡ ok pending
unfolding pending_rewards
pending_run c pid who acc share pending s pool accumulated rest found shares divides casts owes
      fits =
    rw (index_ok s.chief.pool_info pid found, shares, divides, casts, owes) fits

to_uint256-of_assert :
    (rest : ℤ) (pending : ℕ)
    → ◌≡◌ {A = Call ℕ} (elim rest [ pos n ↦ ok n | negsuc n ↦ err panic ]) (ok pending)
    → to_uint256 rest ≡ ok pending
unfolding to_uint256
to_uint256-of_assert (pos n) pending e = e
to_uint256-of_assert (negsuc n) pending e = absurd (cc)

-- Where some pool has allocation points and a harvest succeeds: the view pendingRewards shows, in the
-- same block, the amount that the harvest sends, and the amount that it tells the pool's rewarder.
pub pending_rewards-of_harvest :
    (c : Context) (pid to : ℕ) (s s' : Staking) (calls : List Interaction)
    → s.chief.total_alloc_point ≢ 0
    → harvest c pid to s ≡ ok (s', calls)
    → (pending rewarder : ℕ) × (pending_rewards c pid c.sender s ≡ ok pending)
      × (get_elem? s.chief.rewarder pid ≡ some rewarder)
      × (calls
          ≡ (if pending == 0 then [] else transfer_tribe to pending ∷ [])
            ++ notify rewarder pid c.sender to pending (s.user_info pid c.sender).virtual_amount)
unfolding harvest harvest_user update_pool
pending_rewards-of_harvest c pid to s s' calls allocates e =
    let user = s.user_info pid c.sender in
    >>=-elim (update_pool c pid s.chief) _ e (λ chief updates e1.
      >>=-elim (index s.chief.pool_info pid) (update_found c pid s.chief) updates
        (λ before founds update. >>=-elim (index chief.pool_info pid) _ e1 (λ pool finds e2.
          >>=-elim (harvest_user c pid to chief pool user) _ e2 (λ paid pays e3.
            >>=-elim
              (mul_div user.virtual_amount pool.acc_tribe_per_share chief.acc_tribe_precision) _
              pays
              (λ share divides p1. >>=-elim (to_int256 share) _ p1 (λ accumulated casts p2.
                >>=-elim (sub_int256 accumulated user.reward_debt) _ p2 (λ rest owes p3.
                  >>=-elim (elim rest [ pos n ↦ ok n | negsuc n ↦ err panic ]) _ p3
                    (λ pending asserts p4. >>=-elim (to_int256 pending) _ p4 (λ again fits p5.
                      >>=-elim (index chief.rewarder pid) _ p5 (λ rewarder rewards p6.
                        let found = index-eq-ok s.chief.pool_info pid founds in
                        let (shares, precision, rewarders) =
                          updated_share c pid s.chief chief before pool allocates found update
                            (index-eq-ok chief.pool_info pid finds) in
                        let divides' : mul_div user.virtual_amount pool.acc_tribe_per_share
                              s.chief.acc_tribe_precision
                            ≡ ok share =
                          rw (← precision) divides in
                        (
                          pending,
                          rewarder,
                          pending_run c pid c.sender pool.acc_tribe_per_share share pending s before
                              accumulated rest found shares divides' casts owes
                              (to_uint256-of_assert rest pending asserts),
                          ap (λ x. get_elem? x pid) (sym rewarders)
                              ∙ index-eq-ok chief.rewarder pid rewards,
                          cc,
                        )))))))))))

-- Where no pool has allocation points, in a block after the last update of a pool in which something is
-- staked, pendingRewards reverts for every user.
pub pending_rewards_reverts :
    (c : Context) (pid who : ℕ) (s : Staking) (pool : PoolInfo)
    → get_elem? s.chief.pool_info pid ≡ some pool
    → s.chief.total_alloc_point ≡ 0
    → 0 < pool.virtual_total_supply
    → pool.last_reward_block < c.block_number
    → pending_rewards c pid who s ≡ err panic
unfolding pending_rewards current_share sub mul div
pending_rewards_reverts c pid who s pool found none counts later =
    rw (index_ok s.chief.pool_info pid found, none) (ground arith)
