-- ===== src/Contracts/TribalChief/Staking.antt =====
-- contracts/staking/TribalChief.sol: what users do.
mod Ledger
mod Deposits
mod Withdrawals
mod Actions
unfoldable pub use Ledger.*
unfoldable pub use Deposits.*
unfoldable pub use Withdrawals.*
unfoldable pub use Actions.*
pub mod Supply
pub mod Moves
pub mod Loops
pub mod Stores
pub mod Pools
pub mod Backing
pub mod Balance
pub mod Emergency
pub mod Pending
