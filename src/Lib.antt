-- ===== src/Lib.antt =====
-- A model of parts of the Fei protocol's repository: the tables of its configuration, the scripts that
-- build and simulate governance proposals, the TribalChief, the rate limits, the TRIBE token's votes,
-- the token timelocks, one proposal run on the TribalChief from end to end, and the coordinator of the
-- end-to-end tests.
--
-- Prelude: Boolean tests on numbers, lists measured by native numbers, results of fallible code, and
--   dictionaries as association lists.
-- Types: types/types.ts, field by field. An address is the number that its hexadecimal text denotes.
-- Config: the tables under protocol-configuration/ (MainnetAddresses in the order of its source, in
--   parts named for their first entry), and in Load the two functions of
--   test/integration/setup/loadContracts.ts, getAllContracts and getAllContractAddresses.
-- Scripts: scripts/utils/. Libraries is a record of what the scripts call and the repository does not
--   hold: ethers.js, the contracts' ABIs and the proposals plugin of Hardhat; AreConsistent names
--   the documented behaviour that the theorems rely on. ConstructProposal is
--   constructProposal.ts, ProposalCalldata is constructProposalCalldata.ts, SimulateTimelock is
--   simulateTimelockProposal.ts, and FuseBadDebt is getFuseBadDebt.ts. In SimulateTimelock a script is
--   a function of the network's state that keeps what was done when an error is thrown.
-- Contracts: Evm has Solidity's checked arithmetic: an operation that leaves the range of its type
--   reverts. CoreRef has the access modifiers of contracts/refs/CoreRef.sol; what the Core contract
--   answers for the caller is part of the call's context. TribalChief is
--   contracts/staking/TribalChief.sol: the functions on pools, rates and multipliers, from the storage
--   to the new storage or a revert. In its child Staking are deposit, harvest, withdrawAllAndHarvest,
--   withdrawFromDeposit and emergencyWithdraw: they also return the calls of the rewarder and of the
--   tokens, in their order; Pending has the view pendingRewards. No call comes back into the contract
--   (nonReentrant), and one that reverts reverts the whole. Actions has sequences of all these
--   calls, of users and of administrators. RateLimited is contracts/utils/RateLimited.sol, and
--   MultiRateLimited, which holds a RateLimited, is contracts/utils/MultiRateLimited.sol.
--   TribeVotes has one account's checkpoints in contracts/tribe/Tribe.sol: how they are written, and
--   the binary search for the votes at an earlier block. TokenTimelock is
--   contracts/timelocks/LinearTokenTimelock.sol with contracts/timelocks/TokenTimelock.sol and
--   contracts/utils/Timed.sol, their constructors left out: Release has the releases, Control the
--   clawback, the change of the beneficiary and sequences of calls; the token's transfer is a
--   parameter, and what it does to the timelock's balance is a hypothesis.
-- Proposals: EndTribeIncentives has the commands of proposals/description/old/end_tribe_incentives.ts
--   as data, executes those for the TribalChief on its model, and has the part of validate in
--   proposals/dao/old/end_tribe_incentives.ts that reads that contract. Tip112, Tip115 and Tip117 have
--   the commands of proposals/description/tip_112.ts, tip_115.ts and tip_117.ts as data; Tip117/Roles
--   executes those of TIP-117 that revoke roles, on the roles of an AccessControl of OpenZeppelin's
--   as it is documented, where a role stands for the hash of its name.
-- EndToEnd: test/integration/setup/index.ts, with scripts/utils/sudo.ts and
--   scripts/utils/simulateDEBUGProposal.ts. Fork has the network as a record that the coordinator takes
--   as a parameter, Coordinator the class, whose fields are a record. The modules of the proposals are
--   a parameter; Guards puts a check in front of their functions. A thrown error ends the run and
--   leaves what was done.
-- Tests: runs at concrete inputs, with concrete libraries and a concrete network.
--
-- The parts meet as in the repository: the scripts read the dictionaries that Config.Load makes of the
-- tables; the coordinator loads them, and simulates a proposal by the scripts; both scripts on
-- proposals read the same description; a description's commands become calls of the TribalChief.
--
-- Bounds: the loops are recursion on lists, but for the binary search, which runs on fuel: it is given
-- the number of checkpoints, and each round makes the range shorter. Numbers are natural numbers; the
-- checks that Solidity makes at 2^256, 2^128 and 2^32 are written out. The widths of a call's
-- arguments, such as uint120, are the callers' part.
--
-- Not modelled: the TribalChief's other views and governorWithdrawTribe, the balances of tokens, delegation
-- in Tribe, events, console output, the other contracts, the other proposals, the scripts
-- that deploy or only call Hardhat, and mocks and tests. The classes of constructProposal.ts that wrap
-- the plugin's simulation only call the plugin.
pub mod Config
pub mod Contracts
pub mod EndToEnd
pub mod Prelude
pub mod Proposals
pub mod Scripts
pub mod Tests
pub mod Types
