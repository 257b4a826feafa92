-- ===== src/Proposals/EndTribeIncentives/Outcome.antt =====
-- What TIP-109 leaves of the TribalChief's allocation.
use fei_protocol_core.Prelude.{
  ap, ℕ, String, ◌+◌, ◌<◌, ◌≡◌, refl, true, false, ◌||◌, some, List, [], ◌∷◌, ◌++◌, map, arith,
  lookup, Dict, ok,
}
use fei_protocol_core.Types.{NamedAddresses}
use fei_protocol_core.Contracts.Evm.{uint256_mod}
use fei_protocol_core.Contracts.CoreRef.{Context}
use fei_protocol_core.Contracts.TribalChief.{Chief, set_pool, block_reward, perform}
use fei_protocol_core.Contracts.TribalChief.Sets.{IsReady, set_ok, alloc_of-HasSet}
use fei_protocol_core.Proposals.EndTribeIncentives.{
  Effect, on_other_contract, calls, effect, execute, validate, end_tribe_incentives,
  grant_admin_commands, pool_commands, reward_commands, role_commands, new_tribe_block_reward,
}
use fei_protocol_core.Proposals.EndTribeIncentives.Clearing.{
  IsCleared, zeros, clear_all, finish, validate-of-cleared,
}

-- The texts of numbers in the proposal's arguments.
abbrev pub numerals : Dict ℕ
numerals =
    ("0", 0)
    ∷ ("1", 1)
    ∷ ("2", 2)
    ∷ ("3", 3)
    ∷ ("4", 4)
    ∷ ("5", 5)
    ∷ ("6", 6)
    ∷ ("7", 7)
    ∷ ("8", 8)
    ∷ ("9", 9)
    ∷ ("10", 10)
    ∷ ("11", 11)
    ∷ ("12", 12)
    ∷ ("13", 13)
    ∷ ("14", 14)
    ∷ ("15", 15)
    ∷ ("16", 16)
    ∷ ("17", 17)
    ∷ ("100000", 100000)
    ∷ []

abbrev pub ReadsNumerals : (String → ℕ) → Type 0
ReadsNumerals number = (t : String) (n : ℕ) → lookup t numerals ≡ some n → number t ≡ n

abbrev no_address : String
no_address = "0x0000000000000000000000000000000000000000"

module _ (number : String → ℕ) (reads : ReadsNumerals number) (addresses : NamedAddresses) where
  abbrev others : List Effect
  others =
      on_other_contract ∷ on_other_contract ∷ on_other_contract ∷ on_other_contract
      ∷ on_other_contract ∷ on_other_contract ∷ on_other_contract ∷ on_other_contract
      ∷ on_other_contract ∷ on_other_contract ∷ on_other_contract ∷ on_other_contract
      ∷ on_other_contract ∷ on_other_contract ∷ on_other_contract ∷ []

  effects_are :
      map (effect number addresses) end_tribe_incentives.commands
      ≡ on_other_contract
        ∷ calls (set_pool 0 1 (number no_address) false)
        ∷ (zeros (number no_address) 1 17 ++ calls (block_reward 100000) ∷ others)
  unfolding effect lookup end_tribe_incentives grant_admin_commands pool_commands reward_commands
      role_commands
  effects_are =
      rw
        (
          reads "0" 0 refl,
          reads "1" 1 refl,
          reads "2" 2 refl,
          reads "3" 3 refl,
          reads "4" 4 refl,
          reads "5" 5 refl,
          reads "6" 6 refl,
          reads "7" 7 refl,
          reads "8" 8 refl,
          reads "9" 9 refl,
          reads "10" 10 refl,
          reads "11" 11 refl,
          reads "12" 12 refl,
          reads "13" 13 refl,
          reads "14" 14 refl,
          reads "15" 15 refl,
          reads "16" 16 refl,
          reads "17" 17 refl,
          reads "100000" 100000 refl,
        )
        refl

  execute-others : (c : Context) (s : Chief) → execute c others s ≡ ok s
  unfolding execute
  execute-others c s = refl

  -- Where the texts of numbers are read as those numbers, and the caller is a governor or the
  -- contract's admin: on a contract with 18 pools that can be administered, whose total of points is
  -- below 2^256 - 1 and which pays more than 100000 for each block, every command of TIP-109 for the
  -- TribalChief succeeds, and the proposal's validation of the TribalChief then holds.
  pub end_tribe_incentives_achieves :
      (c : Context) (s : Chief)
      → c.is_governor || c.is_contract_admin ≡ true
      → IsReady c 18 s
      → s.total_alloc_point + 1 < uint256_mod
      → new_tribe_block_reward < s.tribe_per_block
      → (s' : Chief) × (execute c (map (effect number addresses) end_tribe_incentives.commands) s
          ≡ ok s')
        × (validate s' ≡ true)
  unfolding execute perform
  end_tribe_incentives_achieves c s allowed ready room lower =
      let rewarder = number no_address in
      let (s1, first, done) =
        set_ok c 18 0 1 rewarder false s allowed ready (omega arith) (omega arith) (omega arith) in
      let start : IsCleared c 1 s.tribe_per_block s1 = record {
        ready = done.ready;
        kept = alloc_of-HasSet c 18 0 1 rewarder false s s1 ready.pools (omega arith) done;
        cleared = λ i positive before. absurd (omega arith);
        rate_is = ap (λ x. x.tribe_per_block) done.rest;
      } in
      let (s2, zeroed, cleared) =
        clear_all c 1 s.tribe_per_block rewarder 17 (calls (block_reward 100000) ∷ others) s1
          allowed (omega arith) refl start in
      (
        record s2 { tribe_per_block = new_tribe_block_reward },
        rw
            (
              effects_are,
              first,
              zeroed,
              finish c s.tribe_per_block new_tribe_block_reward s2 allowed lower cleared,
            )
            refl,
        validate-of-cleared c s.tribe_per_block s2 cleared,
      )
