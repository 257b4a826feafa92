-- ===== src/Scripts.antt =====
-- scripts/utils/: from a proposal's description to the calldata that is submitted, and its simulation
-- on a fork.
pub mod Libraries
pub mod ConstructProposal
pub mod ProposalCalldata
pub mod SimulateTimelock
pub mod FuseBadDebt
