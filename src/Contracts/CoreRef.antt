-- ===== src/Contracts/CoreRef.antt =====
-- contracts/refs/CoreRef.sol: the access modifiers. What the Core contract and the block answer in one
-- call is a record.
use fei_protocol_core.Prelude.{ℕ, Bool, ◌||◌, require}
use fei_protocol_core.Contracts.Evm.{Call, reason}

pub record Context : Type 0 where
  pub sender : ℕ
  pub block_number : ℕ
  pub block_timestamp : ℕ
  -- `_core.isGovernor(msg.sender)`, `_core.isGuardian(msg.sender)` and `isContractAdmin(msg.sender)`
  pub is_governor : Bool
  pub is_guardian : Bool
  pub is_contract_admin : Bool

abbrev pub only_governor : Context → Call (Unit {0})
only_governor c = require c.is_governor (reason "CoreRef: Caller is not a governor")

abbrev pub only_governor_or_admin : Context → Call (Unit {0})
only_governor_or_admin c =
    require (c.is_governor || c.is_contract_admin)
      (reason "CoreRef: Caller is not a governor or contract admin")

abbrev pub only_guardian_or_governor : Context → Call (Unit {0})
only_guardian_or_governor c =
    require (c.is_governor || c.is_guardian)
      (reason "CoreRef: Caller is not a guardian or governor")
