-- ===== src/Tests.antt =====
-- Runs of the modelled code on concrete inputs.
pub mod Libraries
pub mod Scripts
pub mod Config
pub mod Contracts
pub mod Timelocks
pub mod Staking
pub mod EndToEnd
pub mod RateLimits
pub mod Proposals
