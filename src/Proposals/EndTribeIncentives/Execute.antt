-- ===== src/Proposals/EndTribeIncentives/Execute.antt =====
-- The proposal's effect on contracts/staking/TribalChief.sol, and the part of `validate` in
-- proposals/dao/old/end_tribe_incentives.ts that reads that contract. The commands for other
-- contracts call no function that writes the TribalChief's storage.
use fei_protocol_core.Prelude.{
  ℕ, String, Bool, true, false, ◌&&◌, Option, none, some, List, [], ◌∷◌, ◌==◌, if◌then◌else◌,
  get_elem?, length, text_eq, ok, err, ◌>>=◌,
}
use fei_protocol_core.Types.{
  NamedAddresses, Arg, text, flag, Arguments, template, direct, TemplatedProposalCommand,
}
use fei_protocol_core.Contracts.Evm.{Call, panic}
use fei_protocol_core.Contracts.CoreRef.{Context}
use fei_protocol_core.Contracts.TribalChief.{
  Chief, PoolInfo, Operation, set_pool, block_reward, perform,
}

abbrev pub new_tribe_block_reward : ℕ
new_tribe_block_reward = 100000

abbrev pub new_total_alloc_points : ℕ
new_total_alloc_points = 1

-- What a command asks of the TribalChief.
pub data Effect : Type 0 where
  on_other_contract : Effect
  calls : Operation → Effect
  not_a_function : Effect

module _ (number : String → ℕ) (addresses : NamedAddresses) where
  abbrev args_of : Arguments → List Arg
  args_of (template f) = f addresses
  args_of (direct args) = args

  abbrev set_of : List Arg → Effect
  set_of (text pid ∷ text points ∷ text rewarder ∷ flag overwrite ∷ []) =
      calls (set_pool (number pid) (number points) (number rewarder) overwrite)
  set_of _ = not_a_function

  abbrev block_reward_of : List Arg → Effect
  block_reward_of (text amount ∷ []) = calls (block_reward (number amount))
  block_reward_of _ = not_a_function

  unfoldable pub effect : TemplatedProposalCommand → Effect
  effect c =
      if text_eq c.target "tribalChief"
      then (if text_eq c.method "set(uint256,uint120,address,bool)"
          then set_of (args_of c.arguments)
          else if text_eq c.method "updateBlockReward(uint256)"
          then block_reward_of (args_of c.arguments)
          else not_a_function)
      else on_other_contract

-- The effects in turn: the first call that reverts ends the execution.
unfoldable pub execute : Context → List Effect → Chief → Call Chief
unfolding perform
execute c [] s = ok s
execute c (on_other_contract ∷ effects) s = execute c effects s
execute c (not_a_function ∷ effects) s = err panic
execute c (calls op ∷ effects) s = do next ← perform c op s; execute c effects next

abbrev pub pool_ids : List ℕ
pool_ids = 0 ∷ 1 ∷ 2 ∷ 3 ∷ 4 ∷ 5 ∷ 6 ∷ 7 ∷ 8 ∷ 9 ∷ 10 ∷ 11 ∷ 12 ∷ 13 ∷ 14 ∷ 15 ∷ 16 ∷ 17 ∷ []

abbrev alloc_point_is : Option PoolInfo → ℕ → Bool
alloc_point_is none points = false
alloc_point_is (some p) points = p.alloc_point == points

-- the loop over the pools' ids
unfoldable pub validate_pools : List ℕ → Chief → Bool
validate_pools [] s = true
validate_pools (pid ∷ pids) s =
    alloc_point_is (get_elem? s.pool_info pid) (if pid == 0 then new_total_alloc_points else 0)
    && validate_pools pids s

abbrev pub validate_total : Chief → Bool
validate_total s = s.total_alloc_point == new_total_alloc_points

unfoldable pub validate : Chief → Bool
unfolding validate_pools
validate s =
    s.tribe_per_block == new_tribe_block_reward
    && length s.pool_info == length pool_ids
    && validate_pools pool_ids s
    && validate_total s
