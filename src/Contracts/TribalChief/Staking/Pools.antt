-- ===== src/Contracts/TribalChief/Staking/Pools.antt =====
-- The functions that administer the pools leave what the pools count for their users alone.
use fei_protocol_core.Prelude.{
  ℕ, zero, suc, ◌≡◌, refl, ◌∙◌, List, [], ◌∷◌, ◌++◌, inl, inr, arith, get_elem?, Bool-cases, true,
  false, Bool, not, ok, require, >>=-elim, ltb, leb, ◌==◌, length, if◌then◌else◌, set as write,
}
use fei_protocol_core.Contracts.Evm.{add, sub, index, index-eq-ok, to_uint128}
use fei_protocol_core.Contracts.CoreRef.{Context, only_governor_or_admin, only_guardian_or_governor}
use fei_protocol_core.Contracts.TribalChief.{
  PoolInfo, RewardData, Chief, Operation, update, mass_update, block_reward, lock, unlock, reset,
  pool_multiplier, new_pool, set_pool, perform, empty_pool, reallocate, deallocate, set_unlocked,
  update_pool, mass_update_pools, update_block_reward, lock_pool, unlock_pool,
  governor_add_pool_multiplier, add_multipliers, add_pool, set, reset_rewards,
}
use fei_protocol_core.Contracts.TribalChief.Staking.Supply.{supply_in}
use fei_protocol_core.Contracts.TribalChief.Staking.Stores.{
  KeepsSupply, supply_in-write, update_pool-KeepsSupply,
}

KeepsSupply-refl : (s : Chief) → KeepsSupply s s
KeepsSupply-refl s = record { scale = refl; supply = λ p. refl }

KeepsSupply-trans : {s t u : Chief} → KeepsSupply s t → KeepsSupply t u → KeepsSupply s u
KeepsSupply-trans a b = record { scale = b.scale ∙ a.scale; supply = λ p. b.supply p ∙ a.supply p }

mass_update_pools-KeepsSupply :
    (c : Context) (pids : List ℕ) (s s' : Chief)
    → mass_update_pools c pids s ≡ ok s'
    → KeepsSupply s s'
unfolding mass_update_pools
mass_update_pools-KeepsSupply c [] s s' e =
    let same : s ≡ s' = cc in rw (← same) (KeepsSupply-refl s)
mass_update_pools-KeepsSupply c (pid ∷ pids) s s' e =
    >>=-elim (update_pool c pid s) _ e (λ t first rest.
      KeepsSupply-trans (update_pool-KeepsSupply c pid s t first)
        (mass_update_pools-KeepsSupply c pids t s' rest))

set_unlocked-KeepsSupply :
    (open_ : Bool) (pid : ℕ) (s s' : Chief) → set_unlocked open_ pid s ≡ ok s' → KeepsSupply s s'
set_unlocked-KeepsSupply open_ pid s s' e = >>=-elim (index s.pool_info pid) _ e (λ pool found e1.
    let same : record s { pool_info = write s.pool_info pid (record pool { unlocked = open_ }) }
        ≡ s' =
      cc in
    rw (← same) (record {
      scale = refl;
      supply =
          λ p. supply_in-write s.pool_info pid p pool _ (index-eq-ok s.pool_info pid found) refl;
    }))

reallocate-KeepsSupply :
    (pid points rewarder : ℕ) (overwrite : Bool) (s s' : Chief)
    → reallocate pid points rewarder overwrite s ≡ ok s'
    → KeepsSupply s s'
unfolding reallocate
reallocate-KeepsSupply pid points rewarder overwrite s s' e =
    >>=-elim (index s.pool_info pid) _ e (λ pool found e1.
      >>=-elim (sub s.total_alloc_point pool.alloc_point) _ e1 (λ others subs e2.
        >>=-elim (add others points) _ e2 (λ sum adds e3.
          >>=-elim (require (ltb 0 sum) _) _ e3 (λ u positive e4.
            >>=-elim (index s.rewarder pid) _ e4 (λ old there e5.
              let q = record pool { alloc_point = points } in
              let pools : s'.pool_info ≡ write s.pool_info pid q = cc in
              record {
                scale = cc;
                supply = λ p. rw pools (
                    supply_in-write s.pool_info pid p pool q (index-eq-ok s.pool_info pid found)
                      refl);
              })))))

deallocate-KeepsSupply : (pid : ℕ) (s s' : Chief) → deallocate pid s ≡ ok s' → KeepsSupply s s'
unfolding deallocate
deallocate-KeepsSupply pid s s' e = >>=-elim (index s.pool_info pid) _ e (λ pool found e1.
    >>=-elim (sub s.total_alloc_point pool.alloc_point) _ e1 (λ others subs e2.
      >>=-elim (index s.rewarder pid) _ e2 (λ old there e3.
        let q = record pool { alloc_point = 0; unlocked = true } in
        let pools : s'.pool_info ≡ write s.pool_info pid q = cc in
        record {
          scale = cc;
          supply = λ p.
              rw pools
                (supply_in-write s.pool_info pid p pool q (index-eq-ok s.pool_info pid found) refl);
        })))

add_multipliers_same :
    (pid : ℕ) (rewards : List RewardData) (s s' : Chief)
    → add_multipliers pid rewards s ≡ ok s'
    → (s'.pool_info ≡ s.pool_info) × (s'.scale_factor ≡ s.scale_factor)
unfolding add_multipliers
add_multipliers_same pid [] s s' e = let same : s ≡ s' = cc in rw (← same) (refl, refl)
add_multipliers_same pid (d ∷ rest) s s' e =
    >>=-elim
      (if d.lock_length == 0
        then require (d.reward_multiplier == s.scale_factor) _
        else require (leb s.scale_factor d.reward_multiplier) _)
      _ e (λ u valid e1. add_multipliers_same pid rest _ s' e1)

supply_in-append :
    (ps : List PoolInfo) (q : PoolInfo) (p : ℕ)
    → q.virtual_total_supply ≡ 0
    → supply_in (get_elem? (ps ++ q ∷ []) p) ≡ supply_in (get_elem? ps p)
supply_in-append [] q zero h = h
supply_in-append [] q (suc p) h = refl
supply_in-append (x ∷ ps) q zero h = refl
supply_in-append (x ∷ ps) q (suc p) h = supply_in-append ps q p h

pub perform-KeepsSupply :
    (c : Context) (op : Operation) (s s' : Chief) → perform c op s ≡ ok s' → KeepsSupply s s'
unfolding perform update_block_reward lock_pool unlock_pool governor_add_pool_multiplier add_pool
    set reset_rewards
perform-KeepsSupply c (update pid) s s' e = update_pool-KeepsSupply c pid s s' e
perform-KeepsSupply c (mass_update pids) s s' e = mass_update_pools-KeepsSupply c pids s s' e
perform-KeepsSupply c (block_reward amount) s s' e =
    >>=-elim (only_governor_or_admin c) _ e (λ u allowed e1.
      >>=-elim (if c.is_contract_admin then require (ltb amount s.tribe_per_block) _ else ok tt) _
        e1
        (λ v lower e2.
          let same : record s { tribe_per_block = amount } ≡ s' = cc in
          rw (← same) (record { scale = refl; supply = λ p. refl })))
perform-KeepsSupply c (lock pid) s s' e =
    >>=-elim (only_governor_or_admin c) _ e
      (λ u allowed e1. set_unlocked-KeepsSupply false pid s s' e1)
perform-KeepsSupply c (unlock pid) s s' e =
    >>=-elim (only_governor_or_admin c) _ e
      (λ u allowed e1. set_unlocked-KeepsSupply true pid s s' e1)
perform-KeepsSupply c (reset pid) s s' e =
    >>=-elim (only_guardian_or_governor c) _ e (λ u allowed e1.
      >>=-elim (update_pool c pid s) _ e1 (λ t updates e2.
        KeepsSupply-trans (update_pool-KeepsSupply c pid s t updates)
          (deallocate-KeepsSupply pid t s' e2)))
perform-KeepsSupply c (pool_multiplier pid lock_length multiplier) s s' e =
    >>=-elim (only_governor_or_admin c) _ e (λ u allowed e1.
      >>=-elim (index s.pool_info pid) _ e1 (λ pool found e2.
        >>=-elim
          (if ltb (s.reward_multipliers pid lock_length) multiplier
            then set_unlocked true pid s
            else ok s)
          _ e2
          (λ t unlocks e3.
            let kept : KeepsSupply s t =
              elim (Bool-cases (ltb (s.reward_multipliers pid lock_length) multiplier)) [
                | inl more ↦ set_unlocked-KeepsSupply true pid s t (rw more at unlocks)
                | inr less ↦ let same : s ≡ t = ground arith in rw (← same) (KeepsSupply-refl s)
              ] in
            let pools : s'.pool_info ≡ t.pool_info = cc in
            let scale : s'.scale_factor ≡ t.scale_factor = cc in
            KeepsSupply-trans kept (record { scale = scale; supply = λ p. rw pools refl }))))
perform-KeepsSupply c (new_pool alloc token rewarder rewards) s s' e =
    >>=-elim (only_governor_or_admin c) _ e (λ u allowed e1.
      >>=-elim (require (ltb 0 alloc) _) _ e1 (λ v positive e2.
        >>=-elim (to_uint128 c.block_number) _ e2 (λ last casts e3.
          >>=-elim (add s.total_alloc_point alloc) _ e3 (λ sum adds e4.
            >>=-elim (require (not (length rewards == 0)) _) _ e4 (λ w given e5.
              >>=-elim (add_multipliers (length s.pool_info) rewards _) _ e5 (λ t writes e6.
                let (same_pools, same_scale) =
                  add_multipliers_same (length s.pool_info) rewards _ t writes in
                let pools : s'.pool_info ≡ s.pool_info ++ empty_pool alloc last ∷ [] = cc in
                record {
                  scale = cc;
                  supply =
                      λ p. rw pools (supply_in-append s.pool_info (empty_pool alloc last) p refl);
                }))))))
perform-KeepsSupply c (set_pool pid alloc rewarder overwrite) s s' e =
    >>=-elim (only_governor_or_admin c) _ e (λ u allowed e1.
      >>=-elim (update_pool c pid s) _ e1 (λ t updates e2.
        KeepsSupply-trans (update_pool-KeepsSupply c pid s t updates)
          (reallocate-KeepsSupply pid alloc rewarder overwrite t s' e2)))
