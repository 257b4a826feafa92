-- ===== src/Contracts/TribalChief.antt =====
-- contracts/staking/TribalChief.sol: the staking contract that divides TRIBE among its pools.
mod Storage
mod Admin
pub mod Allocation
pub mod Updates
pub mod Sets
pub mod Totals
pub use Storage.*
unfoldable pub use Admin.*
pub mod Staking
