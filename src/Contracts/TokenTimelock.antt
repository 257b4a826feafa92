-- ===== src/Contracts/TokenTimelock.antt =====
-- contracts/utils/Timed.sol, contracts/timelocks/TokenTimelock.sol and
-- contracts/timelocks/LinearTokenTimelock.sol: tokens that are released to a beneficiary over a period.
-- The token's `transfer` is a parameter, from the receiver, this contract's balance and an amount to the
-- balance that is left.
mod Release
mod Control
unfoldable pub use Release.*
unfoldable pub use Control.*
pub mod Schedule
pub mod Max
pub mod Clawback
pub mod Handover
