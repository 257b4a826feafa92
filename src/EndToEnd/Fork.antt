-- ===== src/EndToEnd/Fork.antt =====
-- What the coordinator calls: the forked network, the modules of the proposals, and
-- scripts/utils/sudo.ts and scripts/utils/simulateDEBUGProposal.ts.
use fei_protocol_core.Prelude.{
  ℕ, String, Option, none, some, List, [], ◌∷◌, lookup, Result, ok, err,
}
use fei_protocol_core.Types.{
  NamedAddresses, NamedContracts, TemplatedProposalCommand, Arguments, template, direct, Arg, text,
  address,
}
use fei_protocol_core.Scripts.Libraries.{Hex, Error, type_error, AlphaProposal, Libraries}
use fei_protocol_core.Scripts.SimulateTimelock.{Network}
use fei_protocol_core.Scripts.SimulateTimelock.Monad.{
  Action, lift, modify, try, or_throw, ◌>>=◌, ◌>>◌,
}

-- The receiver of a transaction: an address, or a text in its place.
pub data Receiver : Type 0 where
  at : ℕ → Receiver
  unresolved : String → Receiver

-- The forked network as the coordinator sees it: `resetFork` of Hardhat's helpers, the signers, the
-- `address` of an ethers.js contract, transactions, `state` of FeiDAO, and the plugin's simulation.
pub record Chain (L : Libraries) : Type 1 where
  pub network : Network L.Contract
  pub reset_fork : network.State → network.State
  pub first_account : ℕ
  pub address_of : L.Contract → ℕ
  pub transact : L.Contract → ℕ → String → List Arg → network.State → Result Error network.State
  pub send_transaction : ℕ → Hex → Receiver → String → network.State → Result Error network.State
  pub proposal_state : L.Contract → String → network.State → Result Error ℕ
  pub simulate : AlphaProposal → network.State → Result Error network.State

-- The functions that a proposal's module exports.
pub record Upgrade (C S : Type 0) : Type 0 where
  pub deploy : ℕ → NamedAddresses → Action S (NamedContracts C)
  pub setup : NamedAddresses → NamedContracts C → NamedContracts C → Action S (Unit {0})
  pub teardown : NamedAddresses → NamedContracts C → NamedContracts C → Action S (Unit {0})
  pub validate : Option (NamedAddresses → NamedContracts C → NamedContracts C → Action S (Unit {0}))

-- A call of what stands as a command's arguments: a list cannot be called.
abbrev pub call_arguments : NamedAddresses → Arguments → Result Error (List Arg)
call_arguments addresses (template f) = ok (f addresses)
call_arguments addresses (direct args) = err type_error

-- `contractAddresses[cmd.target] || cmd.target`
abbrev pub receiver : String → Option ℕ → Receiver
receiver target none = unresolved target
receiver target (some a) = at a

module _ (L : Libraries) (H : Chain L) where
  -- `sudo`
  unfoldable pub sudo : NamedContracts L.Contract → Action H.network.State (Unit {0})
  unfolding lookup
  sudo contracts = do
    timelock ← or_throw (lookup "feiDAOTimelock" contracts) type_error
    modify (H.network.force_eth (H.address_of timelock))
    core ← or_throw (lookup "core" contracts) type_error
    let account = address H.first_account ∷ []
    try (H.transact core (H.address_of timelock) "grantGovernor" account)
    try (H.transact core H.first_account "grantPCVController" account)
    try (H.transact core H.first_account "grantMinter" account)
    try (H.transact core H.first_account "grantBurner" account)
    fei ← or_throw (lookup "fei" contracts) type_error
    try (
        H.transact fei H.first_account "mint"
          (address H.first_account ∷ text "10000000000000000000000000" ∷ []))

  -- one round of the loop of `simulateDEBUGProposal`
  unfoldable pub debug_command :
      ℕ
      → NamedAddresses
      → NamedContracts L.Contract
      → TemplatedProposalCommand
      → Action H.network.State (Unit {0})
  unfolding lookup
  debug_command signer addresses contracts c = do
    args ← lift (call_arguments addresses c.arguments)
    contract ← or_throw (lookup c.target contracts) type_error
    calldata ← lift (L.encode_function_data contract c.method args)
    try (
        H.send_transaction signer calldata (receiver c.target (lookup c.target addresses)) c.values)

  -- `simulateDEBUGProposal`, without its log
  unfoldable pub simulate_debug_proposal :
      ℕ
      → NamedAddresses
      → NamedContracts L.Contract
      → List TemplatedProposalCommand
      → Action H.network.State (Unit {0})
  unfolding debug_command
  simulate_debug_proposal signer addresses contracts [] s = (ok tt, s)
  simulate_debug_proposal signer addresses contracts (c ∷ commands) s =
      (debug_command signer addresses contracts c
          >> simulate_debug_proposal signer addresses contracts commands)
        s
