-- ===== src/Contracts/TribalChief/Staking/Moves.antt =====
-- What `deposit`, `harvest` and the withdrawals do to the virtual amounts.
use fei_protocol_core.Prelude.{
  ℕ, ◌+◌, ◌*◌, ◌/◌, ◌≤◌, ◌≡◌, List, [], ◌∷◌, ◌++◌, inl, inr, arith, ltb, leb, ◌==◌, Bool-cases, not,
  ok, require, >>=-elim, set as write, length,
}
use fei_protocol_core.Contracts.Evm.{
  add, sub, index, index-eq-ok, add-eq-ok, sub-eq-ok, to_uint128, to_int256, add_int256, sub_int256,
}
use fei_protocol_core.Contracts.CoreRef.{Context}
use fei_protocol_core.Contracts.TribalChief.Storage.{PoolInfo, Chief}
use fei_protocol_core.Contracts.TribalChief.Admin.{update_pool}
use fei_protocol_core.Contracts.TribalChief.Staking.{
  UserInfo, DepositInfo, Staking, Interaction, write_at, no_user, mul_div, store, deposit,
  harvest_user, harvest, is_unlocked, Gathered, gather, nothing_gathered, settle_user,
  send_unlocked, withdraw_all_and_harvest, withdraw_from_deposit, unlock_all, emergency_withdraw,
}
use fei_protocol_core.Contracts.TribalChief.Staking.Supply.{value, virtual_of, IsBacked, Moves}
use fei_protocol_core.Contracts.TribalChief.Staking.Loops.{
  mul_div-eq-ok, value-append, value-write, parts_le, gather-value, unlock_all-value,
}
use fei_protocol_core.Contracts.TribalChief.Staking.Stores.{
  update_pool-KeepsPools, store-Moves, debt-Moves,
}

-- `deposit` counts for the user and in the pool what the new deposit counts for.
pub deposit-Moves :
    (c : Context) (pid amount lock_length : ℕ) (s s' : Staking) (calls : List Interaction)
    → IsBacked s
    → deposit c pid amount lock_length s ≡ ok (s', calls)
    → (gained : ℕ) × Moves pid c.sender gained 0 s s'
unfolding deposit value
deposit-Moves c pid amount lock_length s s' calls h e =
    >>=-elim (require (not s.paused) _) _ e (λ u1 run e1.
      >>=-elim (update_pool c pid s.chief) _ e1 (λ chief updates e2.
        let kp = update_pool-KeepsPools c pid s.chief chief updates in
        let k = kp.kept in
        >>=-elim (index chief.pool_info pid) _ e2 (λ pool found e3.
          let multiplier = chief.reward_multipliers pid lock_length in
          >>=-elim (require (leb chief.scale_factor multiplier) _) _ e3 (λ u2 valid e4.
            >>=-elim (add lock_length c.block_number) _ e4 (λ block sums e5.
              >>=-elim (to_uint128 block) _ e5 (λ unlock casts e6.
                >>=-elim (mul_div amount multiplier chief.scale_factor) _ e6 (λ delta computes e7.
                  let (delta_is, scaled) =
                    mul_div-eq-ok amount multiplier chief.scale_factor computes in
                  >>=-elim (add (virtual_of s pid c.sender) delta) _ e7 (λ virtual adds e8.
                    >>=-elim (mul_div delta pool.acc_tribe_per_share _) _ e8 (λ share shares e9.
                      >>=-elim (to_int256 share) _ e9 (λ debt owes e10.
                        >>=-elim (add_int256 _ debt) _ e10 (λ reward_debt owed e11.
                          >>=-elim (add pool.virtual_total_supply delta) _ e11
                            (λ supply supplies e12.
                              >>=-elim (index chief.rewarder pid) _ e12 (λ rewarder rewards e13.
                                >>=-elim (index chief.staked_token pid) _ e13 (λ token stakes e14.
                                  let new : DepositInfo = record {
                                    amount = amount;
                                    unlock_block = unlock;
                                    multiplier = multiplier;
                                  } in
                                  let old = s.deposit_info pid c.sender in
                                  let user : UserInfo = record {
                                    reward_debt = reward_debt;
                                    virtual_amount = virtual;
                                  } in
                                  let counted : value s.chief.scale_factor (new ∷ []) ≡ delta =
                                    rw (← k.scale) (omega (arith, delta_is)) in
                                  let moves =
                                    store-Moves pid c.sender delta 0 supply s chief pool user
                                      (old ++ new ∷ []) kp (index-eq-ok chief.pool_info pid found)
                                      (omega
                                        (arith, add-eq-ok pool.virtual_total_supply delta supplies))
                                      (omega
                                        (arith, add-eq-ok (virtual_of s pid c.sender) delta adds))
                                      (omega (
                                        arith,
                                        value-append s.chief.scale_factor old (new ∷ []),
                                        counted,
                                        h.covers pid c.sender,
                                        add-eq-ok (virtual_of s pid c.sender) delta adds,
                                      )) in
                                  let same : store pid c.sender chief pool supply user
                                        (old ++ new ∷ []) s
                                      ≡ s' =
                                    cc in
                                  (delta, rw (← same) moves)))))))))))))))

pub harvest-Moves :
    (c : Context) (pid to : ℕ) (s s' : Staking) (calls : List Interaction)
    → IsBacked s
    → harvest c pid to s ≡ ok (s', calls)
    → Moves pid c.sender 0 0 s s'
unfolding harvest
harvest-Moves c pid to s s' calls h e =
    >>=-elim (update_pool c pid s.chief) _ e (λ chief updates e1.
      >>=-elim (index chief.pool_info pid) _ e1 (λ pool found e2.
        >>=-elim (harvest_user c pid to chief pool (s.user_info pid c.sender)) _ e2 (λ paid pays e3.
          let kp = update_pool-KeepsPools c pid s.chief chief updates in
          let k = kp.kept in
          let user = record (s.user_info pid c.sender) { reward_debt = paid.0 } in
          let same : record s { chief = chief; user_info = write_at pid c.sender user s.user_info }
              ≡ s' =
            cc in
          rw (← same) (debt-Moves pid c.sender paid.0 s chief kp (h.covers pid c.sender)))))

settle_user-virtual :
    (chief : Chief) (pool : PoolInfo) (user user' : UserInfo) (g : Gathered) (count scale : ℕ)
    (deposits : List DepositInfo)
    → value scale g.deposits + g.virtual_delta ≤ user.virtual_amount
    → settle_user chief pool user g count ≡ ok (user', deposits)
    → (user'.virtual_amount + g.virtual_delta ≤ user.virtual_amount)
      × (value scale deposits ≤ user'.virtual_amount)
unfolding settle_user value
settle_user-virtual chief pool user user' g count scale deposits h e =
    elim (Bool-cases (g.processed == count)) [
      | inl all ↦
          let e' = rw all at e in
          let same_user : no_user ≡ user' = cc in
          let same_deposits : [] ≡ deposits = cc in
          rw (← same_user, ← same_deposits) (omega arith, omega arith)
      | inr some_left ↦
          >>=-elim (sub user.virtual_amount g.virtual_delta) _ (rw some_left at e)
            (λ virtual subs e1.
              >>=-elim (mul_div virtual pool.acc_tribe_per_share _) _ e1 (λ share shares e2.
                >>=-elim (to_int256 share) _ e2 (λ debt casts e3.
                  let is = sub-eq-ok user.virtual_amount g.virtual_delta subs in
                  let left : UserInfo = record { reward_debt = debt; virtual_amount = virtual } in
                  let same_user : left ≡ user' = cc in
                  let same_deposits : g.deposits ≡ deposits = cc in
                  rw (← same_user, ← same_deposits) (omega (arith, is), omega (arith, is)))))
    ]

pub withdraw_all_and_harvest-Moves :
    (c : Context) (pid to : ℕ) (s s' : Staking) (calls : List Interaction)
    → IsBacked s
    → withdraw_all_and_harvest c pid to s ≡ ok (s', calls)
    → (lost : ℕ) × Moves pid c.sender 0 lost s s'
unfolding withdraw_all_and_harvest
withdraw_all_and_harvest-Moves c pid to s s' calls h e =
    let user = s.user_info pid c.sender in
    let deposits = s.deposit_info pid c.sender in
    >>=-elim (update_pool c pid s.chief) _ e (λ chief updates e1.
      >>=-elim (index chief.pool_info pid) _ e1 (λ pool found e2.
        >>=-elim (harvest_user c pid to chief pool user) _ e2 (λ paid pays e3.
          >>=-elim (gather c pool chief.scale_factor deposits nothing_gathered) _ e3
            (λ g gathers e4.
              >>=-elim (settle_user chief pool user g (length deposits)) _ e4 (λ left settles e5.
                >>=-elim (sub pool.virtual_total_supply g.virtual_delta) _ e5 (λ supply subs e6.
                  >>=-elim (index chief.rewarder pid) _ e6 (λ rewarder rewards e7.
                    >>=-elim (send_unlocked chief pid to g.unlocked_total) _ e7 (λ payment sends e8.
                      let kp = update_pool-KeepsPools c pid s.chief chief updates in
                      let k = kp.kept in
                      let one : 1 ≤ chief.scale_factor = omega (arith, k.scale, h.scaled) in
                      let gathered =
                        gather-value c pool chief.scale_factor deposits nothing_gathered g one
                          gathers in
                      let covers : value chief.scale_factor deposits ≤ user.virtual_amount =
                        rw k.scale (h.covers pid c.sender) in
                      let (virtual, covered) =
                        settle_user-virtual chief pool user left.0 g (length deposits)
                          chief.scale_factor left.1
                          (unfold value in omega (arith, gathered, covers)) settles in
                      let moves =
                        store-Moves pid c.sender 0 g.virtual_delta supply s chief pool left.0 left.1
                          kp (index-eq-ok chief.pool_info pid found)
                          (omega (arith, sub-eq-ok pool.virtual_total_supply g.virtual_delta subs))
                          (omega (arith, virtual)) (rw (← k.scale) covered) in
                      let same : store pid c.sender chief pool supply left.0 left.1 s ≡ s' = cc in
                      (g.virtual_delta, rw (← same) moves)))))))))

pub withdraw_from_deposit-Moves :
    (c : Context) (pid amount to i : ℕ) (s s' : Staking) (calls : List Interaction)
    → IsBacked s
    → withdraw_from_deposit c pid amount to i s ≡ ok (s', calls)
    → (lost : ℕ) × Moves pid c.sender 0 lost s s'
unfolding withdraw_from_deposit
withdraw_from_deposit-Moves c pid amount to i s s' calls h e =
    let deposits = s.deposit_info pid c.sender in
    >>=-elim (require (ltb i (length deposits)) _) _ e (λ u1 inside e0.
      >>=-elim (update_pool c pid s.chief) _ e0 (λ chief updates e1.
        >>=-elim (index chief.pool_info pid) _ e1 (λ pool found e2.
          >>=-elim (index deposits i) _ e2 (λ d there e3.
            >>=-elim (require (is_unlocked c pool d) _) _ e3 (λ u2 open_ e4.
              >>=-elim (mul_div amount d.multiplier chief.scale_factor) _ e4 (λ delta computes e5.
                >>=-elim (sub d.amount amount) _ e5 (λ rest leaves e6.
                  >>=-elim (mul_div delta pool.acc_tribe_per_share _) _ e6 (λ share shares e7.
                    >>=-elim (to_int256 share) _ e7 (λ debt casts e8.
                      >>=-elim (sub_int256 (s.user_info pid c.sender).reward_debt debt) _ e8
                        (λ reward_debt owes e9.
                          >>=-elim (sub (virtual_of s pid c.sender) delta) _ e9
                            (λ virtual takes e10.
                              >>=-elim (sub pool.virtual_total_supply delta) _ e10
                                (λ supply subs e11.
                                  >>=-elim (index chief.staked_token pid) _ e11 (λ token stakes e12.
                                    let kp = update_pool-KeepsPools c pid s.chief chief updates in
                                    let k = kp.kept in
                                    let (delta_is, scaled) =
                                      mul_div-eq-ok amount d.multiplier chief.scale_factor
                                        computes in
                                    let scale = chief.scale_factor in
                                    let user : UserInfo = record {
                                      reward_debt = reward_debt;
                                      virtual_amount = virtual;
                                    } in
                                    let written = write deposits i (record d { amount = rest }) in
                                    let covers : value scale deposits ≤ virtual_of s pid c.sender =
                                      rw k.scale (h.covers pid c.sender) in
                                    let split : rest * d.multiplier / scale + delta
                                        ≤ d.amount * d.multiplier / scale =
                                      rw (← sub-eq-ok d.amount amount leaves, delta_is)
                                        (parts_le amount rest d.multiplier scale scaled) in
                                    let virtual_is =
                                      sub-eq-ok (virtual_of s pid c.sender) delta takes in
                                    let covered : value scale written ≤ virtual = omega (
                                      arith,
                                      value-write scale deposits i d (record d { amount = rest })
                                          (index-eq-ok deposits i there),
                                      covers,
                                      split,
                                      virtual_is,
                                    ) in
                                    let moves =
                                      store-Moves pid c.sender 0 delta supply s chief pool user
                                        written kp (index-eq-ok chief.pool_info pid found)
                                        (omega
                                          (arith, sub-eq-ok pool.virtual_total_supply delta subs))
                                        (omega (arith, virtual_is)) (rw (← k.scale) covered) in
                                    let same : store pid c.sender chief pool supply user written s
                                        ≡ s' =
                                      cc in
                                    (delta, rw (← same) moves))))))))))))))

pub emergency_withdraw-Moves :
    (c : Context) (pid to : ℕ) (s s' : Staking) (calls : List Interaction)
    → IsBacked s
    → emergency_withdraw c pid to s ≡ ok (s', calls)
    → (lost : ℕ) × Moves pid c.sender 0 lost s s'
unfolding emergency_withdraw value
emergency_withdraw-Moves c pid to s s' calls h e =
    let deposits = s.deposit_info pid c.sender in
    >>=-elim (update_pool c pid s.chief) _ e (λ chief updates e1.
      >>=-elim (index chief.pool_info pid) _ e1 (λ pool found e2.
        >>=-elim (unlock_all c pool chief.scale_factor deposits 0 0) _ e2 (λ all sums e3.
          >>=-elim (sub pool.virtual_total_supply all.1) _ e3 (λ supply subs e4.
            >>=-elim (index chief.rewarder pid) _ e4 (λ rewarder rewards e5.
              >>=-elim (index chief.staked_token pid) _ e5 (λ token stakes e6.
                let kp = update_pool-KeepsPools c pid s.chief chief updates in
                let k = kp.kept in
                let covers : value chief.scale_factor deposits ≤ virtual_of s pid c.sender =
                  rw k.scale (h.covers pid c.sender) in
                let moves =
                  store-Moves pid c.sender 0 all.1 supply s chief pool no_user [] kp
                    (index-eq-ok chief.pool_info pid found)
                    (omega (arith, sub-eq-ok pool.virtual_total_supply all.1 subs))
                    (omega (
                      arith,
                      unlock_all-value c pool chief.scale_factor deposits 0 0 all.0 all.1 sums,
                      covers,
                    ))
                    (omega arith) in
                let same : store pid c.sender chief pool supply no_user [] s ≡ s' = cc in
                (all.1, rw (← same) moves)))))))
