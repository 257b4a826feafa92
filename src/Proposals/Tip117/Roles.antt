-- ===== src/Proposals/Tip117/Roles.antt =====
-- What TIP-117 does to the roles of the Core contract, which is an AccessControl of OpenZeppelin's. A
-- role stands for the hash of its name.
use text.Mathlib.TextEquality.{eq_iff}
use fei_protocol_core.Prelude.{
  ℕ, String, ◌≡◌, ◌≢◌, refl, ◌∙◌, ap, Bool, true, false, not, ◌&&◌, Option, none, some, List, [],
  ◌∷◌, arith, lookup, contains, text_eq, ◌==◌, if◌then◌else◌, Bool-cases, inl, inr,
}
use fei_protocol_core.Types.{
  NamedAddresses, Arg, id_of, address, undefined, named, TemplatedProposalCommand, Arguments,
  template, direct,
}
use fei_protocol_core.Config.MainnetAddresses.{mainnet_contracts_config}
use fei_protocol_core.Config.Permissions.{permissions}
use fei_protocol_core.Config.Load.{get_all_contract_addresses}
use fei_protocol_core.Config.Integrity.{mainnet_addresses_injective}
use fei_protocol_core.Proposals.Tip117.{tip_117}

-- Who has a role: `hasRole`, by the role's name and the address.
abbrev pub Roles : Type 0
Roles = String → ℕ → Bool

-- `revokeRole`, as it is documented
unfoldable pub revoke : String → Arg → Roles → Roles
revoke role (address a) roles r b = if text_eq role r && a == b then false else roles r b
revoke role _ roles r b = roles r b

-- a call of the Core contract with these arguments
unfoldable pub revoke_with : List Arg → Roles → Roles
unfolding revoke
revoke_with (id_of role ∷ holder ∷ []) roles = revoke role holder roles
revoke_with _ roles = roles

abbrev arguments_at : NamedAddresses → Arguments → List Arg
arguments_at addresses (template f) = f addresses
arguments_at addresses (direct args) = args

-- The commands of a proposal, as far as they revoke roles.
unfoldable pub revoke_all : NamedAddresses → List TemplatedProposalCommand → Roles → Roles
unfolding revoke_with
revoke_all addresses [] roles = roles
revoke_all addresses (c ∷ commands) roles = revoke_all addresses commands (
    if text_eq c.target "core" && text_eq c.method "revokeRole(bytes32,address)"
    then revoke_with (arguments_at addresses c.arguments) roles
    else roles)

-- the roles and the names of their holders
revoke_names : NamedAddresses → List (String × String) → Roles → Roles
revoke_names addresses [] roles = roles
revoke_names addresses ((role, name) ∷ pairs) roles =
    revoke_names addresses pairs (revoke role (named addresses name) roles)

abbrev revoked : List (String × String)
revoked =
    ("MINTER_ROLE", "collateralizationOracleKeeper")
    ∷ ("MINTER_ROLE", "dpiUniswapPCVDeposit")
    ∷ ("MINTER_ROLE", "uniswapPCVDeposit")
    ∷ ("MINTER_ROLE", "balancerDepositFeiWeth")
    ∷ ("MINTER_ROLE", "optimisticMinter")
    ∷ ("PCV_CONTROLLER_ROLE", "raiPCVDripController")
    ∷ ("PCV_CONTROLLER_ROLE", "lusdPCVDripController")
    ∷ ("PCV_CONTROLLER_ROLE", "aaveEthPCVDripController")
    ∷ ("ORACLE_ADMIN_ROLE", "collateralizationOracleGuardian")
    ∷ ("ORACLE_ADMIN_ROLE", "optimisticTimelock")
    ∷ ("SWAP_ADMIN_ROLE", "optimisticTimelock")
    ∷ ("FUSE_ADMIN", "optimisticTimelock")
    ∷ ("PCV_GUARDIAN_ADMIN_ROLE", "optimisticTimelock")
    ∷ ("METAGOVERNANCE_GAUGE_ADMIN", "optimisticTimelock")
    ∷ ("PCV_MINOR_PARAM_ROLE", "optimisticTimelock")
    ∷ ("TOKEMAK_DEPOSIT_ADMIN_ROLE", "optimisticTimelock")
    ∷ ("METAGOVERNANCE_VOTE_ADMIN", "opsOptimisticTimelock")
    ∷ ("METAGOVERNANCE_TOKEN_STAKING", "opsOptimisticTimelock")
    ∷ ("ORACLE_ADMIN_ROLE", "opsOptimisticTimelock")
    ∷ []

tip_117-revokes :
    (addresses : NamedAddresses) (roles : Roles)
    → revoke_all addresses tip_117.commands roles ≡ revoke_names addresses revoked roles
unfolding revoke_all tip_117 revoke_names
tip_117-revokes addresses roles = refl

-- None of the pairs stands in the table of permissions.
unlisted : List (String × String) → Bool
unlisted [] = true
unlisted ((role, name) ∷ pairs) =
    elim (lookup role permissions) [ none ↦ true | some holders ↦ not (contains name holders) ]
    && unlisted pairs

revoked-unlisted : unlisted revoked ≡ true
unfolding unlisted lookup contains permissions
revoked-unlisted = refl

revoke-other :
    (addresses : NamedAddresses) (role name r : String) (a : ℕ) (roles : Roles)
    → (role ≡ r → lookup name addresses ≢ some a)
    → revoke role (named addresses name) roles r a ≡ roles r a
unfolding revoke named
revoke-other addresses role name r a roles h = at (lookup name addresses) refl
  where
    at :
        (found : Option ℕ)
        → lookup name addresses ≡ found
        → revoke role (elim found [ none ↦ undefined | some b ↦ address b ]) roles r a ≡ roles r a
    at none e = refl
    at (some b) e = elim (Bool-cases (text_eq role r && b == a)) [
      | inl both ↦
          let same_role : role ≡ r = (eq_iff role r).0 (ground arith) in
          let same : b ≡ a = ground arith in absurd (h same_role (e ∙ ap some same))
      | inr other ↦ rw other refl
    ]

revoke_names-other :
    (addresses : NamedAddresses) (pairs : List (String × String)) (r : String) (a : ℕ)
    (roles : Roles) {holders : List String} (holder : String)
    → lookup r permissions ≡ some holders
    → contains holder holders ≡ true
    → unlisted pairs ≡ true
    → ((name : String) → lookup name addresses ≡ some a → name ≡ holder)
    → revoke_names addresses pairs roles r a ≡ roles r a
unfolding revoke_names unlisted
revoke_names-other addresses [] r a roles holder listed there h one = refl
revoke_names-other addresses ((role, name) ∷ pairs) r a roles {holders} holder listed there h one =
    let kept =
      revoke_names-other addresses pairs r a (revoke role (named addresses name) roles) holder
        listed there (ground arith) one in
    kept
    ∙ revoke-other addresses role name r a roles (λ same found.
      let is : name ≡ holder = one name found in
      let table : lookup role permissions ≡ some holders =
        ap (λ x. lookup x permissions) same ∙ listed in
      let inside : contains name holders ≡ true = ap (λ x. contains x holders) is ∙ there in
      ground arith)

-- With the addresses of the table of mainnet addresses: the revocations of TIP-117 take no role from an
-- address that the table of permissions lists under it, whoever has which role before.
pub tip_117-keeps_permissions :
    (role holder : String) {holders : List String} {a : ℕ} (roles : Roles)
    → lookup role permissions ≡ some holders
    → contains holder holders ≡ true
    → lookup holder (get_all_contract_addresses mainnet_contracts_config) ≡ some a
    → revoke_all (get_all_contract_addresses mainnet_contracts_config) tip_117.commands roles role a
      ≡ roles role a
tip_117-keeps_permissions role holder {holders} {a} roles listed there found =
    let addresses = get_all_contract_addresses mainnet_contracts_config in
    ap (λ x. x role a) (tip_117-revokes addresses roles)
    ∙ revoke_names-other addresses revoked role a roles holder listed there revoked-unlisted
        (λ name e. mainnet_addresses_injective name holder e found)
