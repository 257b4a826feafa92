-- ===== src/Config/Entry.antt =====
-- One line of the table in protocol-configuration/mainnetAddresses.ts.
use fei_protocol_core.Prelude.{ℕ, String}
use fei_protocol_core.Types.{ContractConfig, AddressCategory}

abbrev pub entry : String → String → ℕ → AddressCategory → String × ContractConfig
entry name artifact address category =
    (name, record { artifact_name = artifact; address = address; category = category })
