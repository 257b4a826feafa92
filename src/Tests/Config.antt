-- ===== src/Tests/Config.antt =====
-- Runs on the tables of the configuration.
use fei_protocol_core.Prelude.{
  String, ◌≡◌, refl, true, some, none, [], ◌∷◌, lookup, insert, insert_all, distinct, contains,
  keys, if◌then◌else◌,
}
use fei_protocol_core.Types.{MainnetContractsConfig, core}
use fei_protocol_core.Config.MainnetAddresses.{mainnet_contracts_config}
use fei_protocol_core.Config.Load.{get_all_contract_addresses, get_all_contracts, has_artifact}
use fei_protocol_core.Config.Loading.{bind_opt, lookup-get_all_contracts}
use fei_protocol_core.Config.Integrity.{mainnet_addresses_injective}

abbrev config : MainnetContractsConfig
config =
    ("core", record { artifact_name = "Core"; address = 100; category = core })
    ∷ ("multisig", record { artifact_name = "unknown"; address = 104; category = core })
    ∷ []

config-distinct : distinct (keys config) ≡ true
unfolding distinct contains
config-distinct = refl

lookup-get_all_contracts_example :
    lookup "multisig" (get_all_contracts (λ artifact a. a) config)
    ≡ bind_opt (lookup "multisig" config) (λ c. if has_artifact c then some c.address else none)
lookup-get_all_contracts_example =
    lookup-get_all_contracts (λ artifact a. a) "multisig" config config-distinct

core_address :
    lookup "core" (get_all_contract_addresses mainnet_contracts_config)
    ≡ some 0x8d5ed43dca8c2f7dfb20cf7b53cc7e593635d7b9
unfolding get_all_contract_addresses lookup insert_all insert mainnet_contracts_config
core_address = refl

mainnet_addresses_injective_example : ◌≡◌ {A = String} "core" "core"
mainnet_addresses_injective_example =
    mainnet_addresses_injective "core" "core" core_address core_address
