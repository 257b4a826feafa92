-- ===== src/Contracts/TribalChief/Staking/Backing.antt =====
-- Deposits stay covered by what the pools count, whatever is called.
use fei_protocol_core.Prelude.{
  true, false, not, require, ℕ, zero, suc, ◌≤◌, ◌≡◌, refl, List, [], ◌∷◌, arith, ok, err, >>=-elim,
}
use fei_protocol_core.Contracts.Evm.{Call}
use fei_protocol_core.Contracts.CoreRef.{Context, only_guardian_or_governor}
use fei_protocol_core.Contracts.TribalChief.{initialize, perform}
use fei_protocol_core.Contracts.TribalChief.Staking.{
  Staking, Interaction, Outcome, new_staking, Action, stake, collect, withdraw_all, withdraw_one,
  emergency, administer, halt, resume, act, after, run,
}
use fei_protocol_core.Contracts.TribalChief.Staking.Supply.{
  total, value, supply_of, virtual_of, IsBacked, Moves-IsBacked,
}
use fei_protocol_core.Contracts.TribalChief.Staking.Pools.{perform-KeepsSupply}
use fei_protocol_core.Contracts.TribalChief.Staking.Moves.{
  deposit-Moves, harvest-Moves, withdraw_all_and_harvest-Moves, withdraw_from_deposit-Moves,
  emergency_withdraw-Moves,
}

pub act-IsBacked :
    (c : Context) (a : Action) (s s' : Staking) (calls : List Interaction)
    → IsBacked s
    → act c a s ≡ ok (s', calls)
    → IsBacked s'
unfolding act
act-IsBacked c (stake pid amount lock_length) s s' calls h e =
    let (gained, moves) = deposit-Moves c pid amount lock_length s s' calls h e in
    Moves-IsBacked pid c.sender gained 0 s s' moves h
act-IsBacked c (collect pid to) s s' calls h e =
    Moves-IsBacked pid c.sender 0 0 s s' (harvest-Moves c pid to s s' calls h e) h
act-IsBacked c (withdraw_all pid to) s s' calls h e =
    let (lost, moves) = withdraw_all_and_harvest-Moves c pid to s s' calls h e in
    Moves-IsBacked pid c.sender 0 lost s s' moves h
act-IsBacked c (withdraw_one pid amount to i) s s' calls h e =
    let (lost, moves) = withdraw_from_deposit-Moves c pid amount to i s s' calls h e in
    Moves-IsBacked pid c.sender 0 lost s s' moves h
act-IsBacked c (emergency pid to) s s' calls h e =
    let (lost, moves) = emergency_withdraw-Moves c pid to s s' calls h e in
    Moves-IsBacked pid c.sender 0 lost s s' moves h
act-IsBacked c (administer op) s s' calls h e =
    >>=-elim (perform c op s.chief) _ e (λ chief performs e1.
      let k = perform-KeepsSupply c op s.chief chief performs in
      let same : record s { chief = chief } ≡ s' = cc in
      rw (← same) (record {
        scaled = rw k.scale h.scaled;
        covers = λ pid who. rw k.scale (h.covers pid who);
        supplies = λ pid n. rw (k.supply pid) (h.supplies pid n);
      }))
act-IsBacked c halt s s' calls h e = >>=-elim (only_guardian_or_governor c) _ e (λ u allowed e1.
    >>=-elim (require (not s.paused) _) _ e1 (λ v run_ e2.
      let same : record s { paused = true } ≡ s' = cc in
      rw (← same) (record { scaled = h.scaled; covers = h.covers; supplies = h.supplies })))
act-IsBacked c resume s s' calls h e = >>=-elim (only_guardian_or_governor c) _ e (λ u allowed e1.
    >>=-elim (require s.paused _) _ e1 (λ v halted e2.
      let same : record s { paused = false } ≡ s' = cc in
      rw (← same) (record { scaled = h.scaled; covers = h.covers; supplies = h.supplies })))

pub after-IsBacked :
    (r : Call Outcome) (s : Staking)
    → ((s' : Staking) (calls : List Interaction) → r ≡ ok (s', calls) → IsBacked s')
    → IsBacked s
    → IsBacked (after r s)
after-IsBacked (ok (s', calls)) s keeps h = keeps s' calls refl
after-IsBacked (err e) s keeps h = h

run-keeps_IsBacked :
    (actions : List (Context × Action)) (s : Staking) → IsBacked s → IsBacked (run actions s)
unfolding run
run-keeps_IsBacked [] s h = h
run-keeps_IsBacked ((c, a) ∷ rest) s h =
    run-keeps_IsBacked rest (after (act c a s) s)
      (after-IsBacked (act c a s) s (λ s' calls. act-IsBacked c a s s' calls h) h)

total-zero : (n : ℕ) → total n (λ u. 0) ≡ 0
unfolding total
total-zero zero = refl
total-zero (suc n) = omega (arith, total-zero n)

pub new_staking-IsBacked : IsBacked new_staking
unfolding new_staking initialize value
new_staking-IsBacked = record {
  scaled = omega arith;
  covers = λ pid who. omega arith;
  supplies = λ pid n. omega (arith, total-zero n);
}

pub run-IsBacked : (actions : List (Context × Action)) → IsBacked (run actions new_staking)
run-IsBacked actions = run-keeps_IsBacked actions new_staking new_staking-IsBacked

-- After any calls on a new contract, by whatever callers and in whatever blocks, what a user's deposits
-- count for in a pool is at most the user's virtual amount there, and the virtual amounts of any
-- number of the users together at most the pool's virtual supply.
pub staked-le-supply :
    (actions : List (Context × Action)) (pid n : ℕ)
    → ((who : ℕ)
        → value
            (run actions new_staking).chief.scale_factor
            ((run actions new_staking).deposit_info pid who)
          ≤ virtual_of (run actions new_staking) pid who)
      × (total n (virtual_of (run actions new_staking) pid)
          ≤ supply_of (run actions new_staking).chief pid)
staked-le-supply actions pid n =
    let backed = run-IsBacked actions in (backed.covers pid, backed.supplies pid n)
