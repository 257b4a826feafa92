-- ===== src/Tests/Contracts.antt =====
-- Runs of the contracts and of TIP-109.
use fei_protocol_core.Prelude.{
  ◌+◌, ◌-◌, ◌≤◌, ◌*◌, leb, if◌then◌else◌, ℕ, zero, suc, String, ◌≡◌, refl, ap, Option, true, false,
  List, [], ◌∷◌, some, none, arith, get_elem?, lookup, ok, map,
}
use fei_protocol_core.Contracts.CoreRef.{Context}
use fei_protocol_core.Contracts.TribalChief.{PoolInfo, Chief, update_pool, set}
use fei_protocol_core.Contracts.TribalChief.Allocation.{allocated}
use fei_protocol_core.Contracts.TribalChief.Updates.{IsBounded, IsUpdated, update_pool_ok}
use fei_protocol_core.Contracts.TribalChief.Sets.{IsReady, HasSet, set_ok}
use fei_protocol_core.Contracts.RateLimited.{Limiter, Action, deplete, replenish, acts}
use fei_protocol_core.Contracts.RateLimited.Spending.{replenished, acts_limited}
use fei_protocol_core.Contracts.TribeVotes.{Account, get_prior_votes, write_checkpoint}
use fei_protocol_core.Contracts.TribeVotes.Reference.{votes_at, IsOrdered}
use fei_protocol_core.Contracts.TribeVotes.Lookup.{get_prior_votes-eq-votes_at}
use fei_protocol_core.Contracts.TribeVotes.Write.{
  IsCurrentAt, HasWritten, write_checkpoint_ok, get_prior_votes-write_checkpoint,
}
use fei_protocol_core.Proposals.EndTribeIncentives.{effect, execute, validate, end_tribe_incentives}
use fei_protocol_core.Proposals.EndTribeIncentives.Outcome.{numerals, end_tribe_incentives_achieves}

abbrev context : Context
context = record {
  sender = 1;
  block_number = 10;
  block_timestamp = 100;
  is_governor = true;
  is_guardian = false;
  is_contract_admin = false;
}

abbrev pool : PoolInfo
pool = record {
  virtual_total_supply = 4;
  acc_tribe_per_share = 3;
  last_reward_block = 5;
  alloc_point = 2;
  unlocked = true;
}

abbrev replicate : {A : Type 0} → ℕ → A → List A
replicate zero x = []
replicate (suc n) x = x ∷ replicate n x

-- 18 pools with two allocation points each
abbrev chief : Chief
chief = record {
  pool_info = replicate 18 pool;
  staked_token = replicate 18 8;
  rewarder = replicate 18 9;
  reward_multipliers = λ pid lock_length. 10000;
  total_alloc_point = 36;
  tribe_per_block = 200000;
  acc_tribe_precision = 100;
  scale_factor = 10000;
}

get_elem?-replicate :
    {A : Type 0} (n i : ℕ) (x y : A) → get_elem? (replicate n x) i ≡ some y → y ≡ x
get_elem?-replicate zero i x y e = absurd (cc)
get_elem?-replicate (suc n) zero x y e = cc
get_elem?-replicate (suc n) (suc i) x y e = get_elem?-replicate n i x y e

pool-IsBounded : IsBounded context chief pool
pool-IsBounded = omega arith

chief-IsReady : IsReady context 18 chief
unfolding allocated
chief-IsReady = record {
  pools = refl;
  rewarders = refl;
  balanced = refl;
  scaled = omega arith;
  total_fits = omega arith;
  block_fits = omega arith;
  bounded = λ i p e. rw (get_elem?-replicate 18 i pool p e) pool-IsBounded;
}

update_pool_ok_example :
    (s' : Chief) × (update_pool context 4 chief ≡ ok s') × IsUpdated context 4 chief pool s'
update_pool_ok_example =
    update_pool_ok context 4 chief pool (omega arith) (omega arith) refl pool-IsBounded

set_ok_example :
    (s' : Chief) × (set context 4 7 6 true chief ≡ ok s') × HasSet context 18 4 7 6 true chief s'
set_ok_example =
    set_ok context 18 4 7 6 true chief refl chief-IsReady (omega arith) (omega arith) (omega arith)

abbrev or_zero : Option ℕ → ℕ
or_zero none = 0
or_zero (some n) = n

abbrev number : String → ℕ
number t = or_zero (lookup t numerals)

number-reads : (t : String) (n : ℕ) → lookup t numerals ≡ some n → number t ≡ n
number-reads t n e = ap or_zero e

end_tribe_incentives_achieves_example :
    (s' : Chief) × (execute context (map (effect number []) end_tribe_incentives.commands) chief
      ≡ ok s')
    × (validate s' ≡ true)
end_tribe_incentives_achieves_example =
    end_tribe_incentives_achieves number number-reads [] context chief refl chief-IsReady
      (omega arith) (omega arith)

-- A limiter that regains 2 in each second, with 50 of 80 left at the second 90.
abbrev limiter : Limiter
limiter = record {
  max_rate_limit_per_second = 5;
  rate_limit_per_second = 2;
  last_buffer_used_time = 90;
  buffer_cap = 80;
  do_partial_action = false;
  buffer_stored = 50;
}

abbrev calls : List (Context × Action)
calls =
    (context, deplete 60)
    ∷ (record context { block_timestamp = 105 }, deplete 100)
    ∷ (record context { block_timestamp = 110 }, replenish 4)
    ∷ (record context { block_timestamp = 120 }, deplete 30)
    ∷ []

acts_limited_example :
    (acts calls limiter).0 + (acts calls limiter).1.buffer_stored
    ≤ 50 + replenished calls + 5 * ((acts calls limiter).1.last_buffer_used_time - 90)
acts_limited_example = acts_limited calls limiter (omega arith)

-- Five checkpoints, at the blocks 0, 2, 4, 6 and 8.
abbrev account : Account
account = record {
  checkpoints = λ i. record { from_block = 2 * i; votes = 10 * i };
  num_checkpoints = 5;
}

account-IsOrdered : IsOrdered account.checkpoints 5
account-IsOrdered i j less inside = omega arith

account-IsCurrentAt : IsCurrentAt context account
account-IsCurrentAt = record { ordered = account-IsOrdered; not_after = λ i inside. omega arith }

get_prior_votes-eq-votes_at_example :
    get_prior_votes context 5 account ≡ ok (votes_at account.checkpoints 5 5)
get_prior_votes-eq-votes_at_example =
    get_prior_votes-eq-votes_at context 5 account account-IsOrdered (omega arith)

write_checkpoint_ok_example :
    (a' : Account) × (write_checkpoint context 99 account ≡ ok a')
    × HasWritten context 99 account a'
write_checkpoint_ok_example =
    write_checkpoint_ok context 99 account account-IsCurrentAt (omega arith) (omega arith)

get_prior_votes-write_checkpoint_example :
    (a' : Account) × (write_checkpoint context 99 account ≡ ok a')
    × (get_prior_votes (record context { block_number = 20 }) 7 a' ≡ (
        if leb 10 7
        then ok 99
        else get_prior_votes (record context { block_number = 20 }) 7 account))
get_prior_votes-write_checkpoint_example =
    get_prior_votes-write_checkpoint context (record context { block_number = 20 }) 99 7 account
      account-IsCurrentAt (omega arith) (omega arith) (omega arith)
