-- ===== src/Proposals.antt =====
-- The proposals under proposals/.
pub mod EndTribeIncentives
pub mod Commands
pub mod Tip112
pub mod Tip115
pub mod Tip117
