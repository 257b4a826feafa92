-- ===== src/Contracts.antt =====
-- contracts/: Solidity contracts of the protocol.
pub mod Evm
pub mod CoreRef
pub mod TribalChief
pub mod RateLimited
pub mod TribeVotes
pub mod TokenTimelock
pub mod MultiRateLimited
