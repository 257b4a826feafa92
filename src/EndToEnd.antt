-- ===== src/EndToEnd.antt =====
-- test/integration/setup/index.ts: the coordinator of the end-to-end tests, which loads the protocol from
-- mainnet and applies the proposals to it, one after the other.
mod Fork
mod Coordinator
unfoldable pub use Fork.*
unfoldable pub use Coordinator.*
pub mod Lookups
pub mod Guards
pub mod Addresses
pub mod Roles
