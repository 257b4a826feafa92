-- ===== src/Config.antt =====
-- The tables under protocol-configuration/.
mod Entry
pub mod MainnetAddresses
pub mod Permissions
pub mod TribalChiefPools
pub mod CollateralizationOracle
pub mod SafeAddresses
pub mod OptimisticGovernance
pub mod Load
pub mod Loading
pub mod Integrity
