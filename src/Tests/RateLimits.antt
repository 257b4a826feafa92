-- ===== src/Tests/RateLimits.antt =====
-- Uses of a contract that limits the rates of several addresses.
use fei_protocol_core.Prelude.{
  ℕ, ◌+◌, ◌-◌, ◌*◌, ◌≤◌, ◌≡◌, refl, true, false, List, [], ◌∷◌, arith, ok,
}
use fei_protocol_core.Contracts.Evm.{add, sub, mul}
use fei_protocol_core.Contracts.RateLimited as Inherited
use fei_protocol_core.Contracts.RateLimited.Spending as Spending
use fei_protocol_core.Contracts.MultiRateLimited.{MultiLimiter, Caller, no_limit, construct_multi}
use fei_protocol_core.Contracts.MultiRateLimited.Calls.{Action, use_by, change_limit, acts}
use fei_protocol_core.Contracts.MultiRateLimited.Refinement.{
  seen_calls, acts-refine, multi_acts_limited,
}
use fei_protocol_core.Contracts.MultiRateLimited.Individual.{limit_in, used_by, is_kept}
use fei_protocol_core.Contracts.MultiRateLimited.Usage.{individual_use_limited}

abbrev governor_at : ℕ → Caller
governor_at time = record {
  context = record {
    sender = 1;
    block_number = 10;
    block_timestamp = time;
    is_governor = true;
    is_guardian = false;
    is_contract_admin = false;
  };
  can_add_minter = false;
}

-- A buffer of 1000 that grows by 10 a second, and an address with a buffer of 100 that grows by 2.
abbrev limits : MultiLimiter
limits = record {
  limiter = record {
    max_rate_limit_per_second = 10;
    rate_limit_per_second = 10;
    last_buffer_used_time = 50;
    buffer_cap = 1000;
    do_partial_action = false;
    buffer_stored = 1000;
  };
  rate_limit_per_address = λ a. record {
    last_buffer_used_time = 50;
    buffer_cap = 100;
    buffer_stored = 100;
    rate_limit_per_second = 2;
  };
  individual_max_rate_limit_per_second = 5;
  individual_max_buffer_cap = 200;
}

-- The address uses 90, is refused 50, has its limit changed, and uses 60.
abbrev calls : List (Caller × Action)
calls =
    (governor_at 60, use_by 3 90)
    ∷ (governor_at 65, use_by 3 50)
    ∷ (governor_at 70, change_limit 3 8 150)
    ∷ (governor_at 80, use_by 3 60)
    ∷ []

used_in_calls : (acts calls limits).0 ≡ 150
unfolding acts add sub mul
used_in_calls = refl

acts-refine_example :
    ((acts calls limits).0 ≡ (Inherited.acts (seen_calls calls limits) limits.limiter).0)
    × ((acts calls limits).1.limiter ≡ (Inherited.acts (seen_calls calls limits) limits.limiter).1)
acts-refine_example = acts-refine calls limits refl

multi_acts_limited_example :
    (acts calls limits).0 + (acts calls limits).1.limiter.buffer_stored
    ≤ limits.limiter.buffer_stored
      + Spending.replenished (seen_calls calls limits)
      + limits.limiter.max_rate_limit_per_second
        * ((acts calls limits).1.limiter.last_buffer_used_time
            - limits.limiter.last_buffer_used_time)
multi_acts_limited_example = multi_acts_limited calls limits refl (omega arith)

individual_use_limited_example :
    used_by 3 calls limits + (limit_in 3 (acts calls limits).1).buffer_stored
    ≤ (limit_in 3 limits).buffer_stored
      + limits.limiter.max_rate_limit_per_second
        * ((limit_in 3 (acts calls limits).1).last_buffer_used_time
            - (limit_in 3 limits).last_buffer_used_time)
unfolding is_kept
individual_use_limited_example =
    individual_use_limited 3 calls limits (record { added = omega arith; below = omega arith }) refl

constructed :
    (construct_multi (governor_at 60).context 10 5 4 200 1000)
    ≡ ok (record {
      limiter = record {
        max_rate_limit_per_second = 10;
        rate_limit_per_second = 5;
        last_buffer_used_time = 60;
        buffer_cap = 1000;
        do_partial_action = false;
        buffer_stored = 1000;
      };
      rate_limit_per_address = λ a. no_limit;
      individual_max_rate_limit_per_second = 4;
      individual_max_buffer_cap = 200;
    })
unfolding construct_multi add sub mul
constructed = refl
