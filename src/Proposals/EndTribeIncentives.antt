-- ===== src/Proposals/EndTribeIncentives.antt =====
-- TIP-109: proposals/description/old/end_tribe_incentives.ts and what it does to the TribalChief.
mod Description
mod Execute
mod Clearing
pub mod Outcome
unfoldable pub use Description.*
unfoldable pub use Execute.*
