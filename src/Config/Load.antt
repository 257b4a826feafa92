-- ===== src/Config/Load.antt =====
-- test/integration/setup/loadContracts.ts: the scripts' dictionaries of contracts and addresses, made
-- from the table of mainnet addresses.
use fei_protocol_core.Prelude.{
  ℕ, String, Bool, not, [], ◌∷◌, map, insert_all, text_eq, if◌then◌else◌,
}
use fei_protocol_core.Types.{ContractConfig, MainnetContractsConfig, NamedContracts, NamedAddresses}

unfoldable pub get_all_contract_addresses : MainnetContractsConfig → NamedAddresses
unfolding insert_all
get_all_contract_addresses addresses = insert_all (λ c. c.address) addresses []

-- `entry[1].artifactName != 'unknown'`
abbrev pub has_artifact : ContractConfig → Bool
has_artifact c = not (text_eq c.artifact_name "unknown")

unfoldable pub known_entries : MainnetContractsConfig → MainnetContractsConfig
known_entries [] = []
known_entries (e ∷ rest) = if has_artifact e.1 then e ∷ known_entries rest else known_entries rest

-- `get_contract_at` is the function of ethers.js; its promise is taken as fulfilled. The list of pairs
-- is made an object by `Object.fromEntries`.
unfoldable pub get_all_contracts :
    {C : Type 0} → (String → ℕ → C) → MainnetContractsConfig → NamedContracts C
unfolding known_entries insert_all
get_all_contracts get_contract_at addresses =
    insert_all (λ c. c)
      (map (λ e. (e.0, get_contract_at e.1.artifact_name e.1.address)) (known_entries addresses)) []
