-- ===== src/Contracts/TribalChief/Staking/Balance.antt =====
-- The allocation points stay added up, whatever users and administrators call.
use fei_protocol_core.Prelude.{
  true, false, not, require, ◌≡◌, refl, List, [], ◌∷◌, ok, err, >>=-elim,
}
use fei_protocol_core.Contracts.Evm.{Call}
use fei_protocol_core.Contracts.CoreRef.{Context, only_guardian_or_governor}
use fei_protocol_core.Contracts.TribalChief.{initialize, perform}
use fei_protocol_core.Contracts.TribalChief.Allocation.{
  allocated, IsBalanced, KeepsPoints-IsBalanced, perform-IsBalanced,
}
use fei_protocol_core.Contracts.TribalChief.Staking.{
  Staking, Interaction, Outcome, new_staking, Action, stake, collect, withdraw_all, withdraw_one,
  emergency, administer, halt, resume, act, after, run,
}
use fei_protocol_core.Contracts.TribalChief.Staking.Supply.{IsBacked}
use fei_protocol_core.Contracts.TribalChief.Staking.Moves.{
  deposit-Moves, harvest-Moves, withdraw_all_and_harvest-Moves, withdraw_from_deposit-Moves,
  emergency_withdraw-Moves,
}
use fei_protocol_core.Contracts.TribalChief.Staking.Backing.{
  act-IsBacked, after-IsBacked, new_staking-IsBacked,
}

act-IsBalanced :
    (c : Context) (a : Action) (s s' : Staking) (calls : List Interaction)
    → IsBacked s
    → act c a s ≡ ok (s', calls)
    → IsBalanced s.chief
    → IsBalanced s'.chief
unfolding act
act-IsBalanced c (stake pid amount lock_length) s s' calls h e =
    KeepsPoints-IsBalanced (deposit-Moves c pid amount lock_length s s' calls h e).1.allotment
act-IsBalanced c (collect pid to) s s' calls h e =
    KeepsPoints-IsBalanced (harvest-Moves c pid to s s' calls h e).allotment
act-IsBalanced c (withdraw_all pid to) s s' calls h e =
    KeepsPoints-IsBalanced (withdraw_all_and_harvest-Moves c pid to s s' calls h e).1.allotment
act-IsBalanced c (withdraw_one pid amount to i) s s' calls h e =
    KeepsPoints-IsBalanced
      (withdraw_from_deposit-Moves c pid amount to i s s' calls h e).1.allotment
act-IsBalanced c (emergency pid to) s s' calls h e =
    KeepsPoints-IsBalanced (emergency_withdraw-Moves c pid to s s' calls h e).1.allotment
act-IsBalanced c (administer op) s s' calls h e =
    >>=-elim (perform c op s.chief) _ e (λ chief performs e1.
      let same : record s { chief = chief } ≡ s' = cc in
      rw (← same) (perform-IsBalanced c op s.chief chief performs))
act-IsBalanced c halt s s' calls h e = >>=-elim (only_guardian_or_governor c) _ e (λ u allowed e1.
    >>=-elim (require (not s.paused) _) _ e1
      (λ v running e2. let same : record s { paused = true } ≡ s' = cc in rw (← same) (λ b. b)))
act-IsBalanced c resume s s' calls h e = >>=-elim (only_guardian_or_governor c) _ e (λ u allowed e1.
    >>=-elim (require s.paused _) _ e1
      (λ v halted e2. let same : record s { paused = false } ≡ s' = cc in rw (← same) (λ b. b)))

after-IsBalanced :
    (r : Call Outcome) (s : Staking)
    → ((s' : Staking) (calls : List Interaction) → r ≡ ok (s', calls) → IsBalanced s'.chief)
    → IsBalanced s.chief
    → IsBalanced (after r s).chief
after-IsBalanced (ok (s', calls)) s keeps h = keeps s' calls refl
after-IsBalanced (err e) s keeps h = h

run-keeps_IsBalanced :
    (actions : List (Context × Action)) (s : Staking)
    → IsBacked s
    → IsBalanced s.chief
    → IsBalanced (run actions s).chief
unfolding run
run-keeps_IsBalanced [] s h b = b
run-keeps_IsBalanced ((c, a) ∷ rest) s h b =
    run-keeps_IsBalanced rest (after (act c a s) s)
      (after-IsBacked (act c a s) s (λ s' calls. act-IsBacked c a s s' calls h) h)
      (after-IsBalanced (act c a s) s (λ s' calls e. act-IsBalanced c a s s' calls h e b) b)

-- After any calls on a new contract, of users, administrators and guardians, by whatever callers and
-- in whatever blocks, the total of the allocation points is the sum of the pools' allocation points.
pub run-IsBalanced :
    (actions : List (Context × Action))
    → allocated (run actions new_staking).chief.pool_info
      ≡ (run actions new_staking).chief.total_alloc_point
unfolding allocated new_staking initialize
run-IsBalanced actions = run-keeps_IsBalanced actions new_staking new_staking-IsBacked refl
