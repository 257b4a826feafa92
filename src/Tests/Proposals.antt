-- ===== src/Tests/Proposals.antt =====
-- TIP-117 where everybody has every role.
use fei_protocol_core.Prelude.{ℕ, ◌≡◌, ◌∙◌, refl, some, true, false, [], ◌∷◌, lookup, contains}
use fei_protocol_core.Config.MainnetAddresses.{mainnet_contracts_config}
use fei_protocol_core.Config.Permissions.{permissions}
use fei_protocol_core.Config.Load.{get_all_contract_addresses}
use fei_protocol_core.Config.Loading.{lookup-get_all_contract_addresses}
use fei_protocol_core.Config.Integrity.{mainnet-distinct}
use fei_protocol_core.Proposals.Tip117.{tip_117}
use fei_protocol_core.Proposals.Tip117.Roles.{Roles, revoke_all, tip_117-keeps_permissions}

abbrev all_roles : Roles
all_roles role a = true

abbrev nope_dao : ℕ
nope_dao = 0x6C7aF43Ce97686e0C8AcbBc03b2E4f313c0394C7

nope_dao-loaded :
    lookup "nopeDAO" (get_all_contract_addresses mainnet_contracts_config) ≡ some nope_dao
unfolding lookup mainnet_contracts_config
nope_dao-loaded =
    lookup-get_all_contract_addresses "nopeDAO" mainnet_contracts_config mainnet-distinct ∙ refl

tip_117-keeps_permissions_example :
    revoke_all
      (get_all_contract_addresses mainnet_contracts_config)
      tip_117.commands
      all_roles
      "POD_VETO_ADMIN"
      nope_dao
    ≡ true
unfolding lookup contains permissions
tip_117-keeps_permissions_example =
    tip_117-keeps_permissions "POD_VETO_ADMIN" "nopeDAO" {holders = "nopeDAO" ∷ []} {a = nope_dao}
      all_roles refl refl nope_dao-loaded

-- With other addresses, the first command takes the role MINTER_ROLE from its holder.
revokes :
    revoke_all
      (("collateralizationOracleKeeper", 5) ∷ [])
      tip_117.commands
      all_roles
      "MINTER_ROLE"
      5
    ≡ false
unfolding revoke_all tip_117 lookup
revokes = refl
