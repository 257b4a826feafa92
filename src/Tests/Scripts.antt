-- ===== src/Tests/Scripts.antt =====
-- Runs of the scripts.
use fei_protocol_core.Prelude.{
  ℕ, ◌^◌, ◌≢◌, String, ◌≡◌, refl, true, List, [], ◌∷◌, ◌++◌, some, inr, map, ◌==◌, if◌then◌else◌,
  lookup, ok, err, distinct, contains, keys, Dict, ◌/◌, insert_all, insert,
}
use fei_protocol_core.Types.{
  text, named, template, TemplatedProposalCommand, TemplatedProposalDescription,
  MainnetContractsConfig, core,
}
use fei_protocol_core.Config.Load.{get_all_contracts, known_entries}
use fei_protocol_core.Scripts.Libraries.{Hex, codes, take, drop, AlphaProposal, unknown_contract}
use fei_protocol_core.Scripts.ConstructProposal.{construct_proposal, add_command, add_commands}
use fei_protocol_core.Scripts.ProposalCalldata.{combined_calldatas, get_pod_calldata, PodConfig}
use fei_protocol_core.Scripts.ProposalCalldata.Payloads.{combined_calldatas_parts}
use fei_protocol_core.Scripts.SimulateTimelock.{
  Batch, encode_command, encode_commands, simulate_pod_proposal,
}
use fei_protocol_core.Scripts.SimulateTimelock.Agreement.{
  calldata_of, get_pod_calldata_of_simulated,
}
use fei_protocol_core.Scripts.SimulateTimelock.Runs.{simulate_unknown_artifact}
use fei_protocol_core.Scripts.FuseBadDebt.{
  Market, AddressTable, name_at, underlyings, ctokens, no_debt, get_fuse_bad_debt,
}
use fei_protocol_core.Scripts.FuseBadDebt.Totals.{
  AllKnown, IsKnown, total, decimals, get_fuse_bad_debt_totals,
}
use fei_protocol_core.Tests.Libraries.{libraries, are_consistent, network, identifier-long}

abbrev contracts : Dict ℕ
contracts = ("core", 100) ∷ ("tribe", 101) ∷ []

abbrev approve : TemplatedProposalCommand
approve = record {
  target = "tribe";
  values = "1";
  method = "approve(address,uint256)";
  arguments = template (λ addresses. named addresses "core" ∷ text "5" ∷ []);
  description = "Approve the core";
}

abbrev allocate : TemplatedProposalCommand
allocate = record {
  target = "core";
  values = "0";
  method = "allocateTribe(address,uint256)";
  arguments = template (λ addresses. named addresses "tribe" ∷ text "7" ∷ []);
  description = "Allocate TRIBE";
}

abbrev info : TemplatedProposalDescription
info = record { title = "TIP"; commands = approve ∷ allocate ∷ []; description = "Two actions" }

abbrev proposal : AlphaProposal
proposal = record {
  targets = 101 ∷ 100 ∷ [];
  values = 1 ∷ 0 ∷ [];
  signatures = "approve(address,uint256)" ∷ "allocateTribe(address,uint256)" ∷ [];
  calldatas = (codes "0x" ++ 100 ∷ codes "5") ∷ (codes "0x" ++ 101 ∷ codes "7") ∷ [];
  description = "TIP\nTwo actions";
}

constructed : construct_proposal libraries contracts contracts info ≡ ok proposal
unfolding construct_proposal add_commands add_command lookup named
constructed = refl

get_pod_calldata_of_simulated_example :
    (b : Batch) × (encode_commands libraries contracts contracts info.commands ≡ ok b)
    × (get_pod_calldata libraries proposal info (record { id = 25; timelock_address = some 102 })
        ≡ ok (
            calldata_of libraries are_consistent contracts contracts
              (λ name c e. e)
              network
              103
              info
              25
              102
              b))
get_pod_calldata_of_simulated_example =
    get_pod_calldata_of_simulated libraries are_consistent contracts contracts (λ name c e. e)
      network 103 (λ b predecessor salt. refl) info proposal 25 102 constructed

combined_calldatas_parts_example :
    (payloads : List Hex) × (combined_calldatas libraries proposal.targets proposal.signatures
        proposal.calldatas
      ≡ ok payloads)
    × (map (take 10) payloads ≡ map (λ s. take 10 (libraries.id s)) proposal.signatures)
    × (map (λ p. codes "0x" ++ drop 10 p) payloads ≡ proposal.calldatas)
combined_calldatas_parts_example =
    combined_calldatas_parts libraries proposal.targets proposal.signatures proposal.calldatas
      identifier-long (refl, (refl, tt)) refl refl

abbrev config : MainnetContractsConfig
config =
    ("core", record { artifact_name = "Core"; address = 100; category = core })
    ∷ ("tribe", record { artifact_name = "Tribe"; address = 101; category = core })
    ∷ ("multisig", record { artifact_name = "unknown"; address = 104; category = core })
    ∷ []

abbrev claim : TemplatedProposalCommand
claim = record {
  target = "multisig";
  values = "0";
  method = "claim()";
  arguments = template (λ addresses. []);
  description = "Claim";
}

abbrev info_unknown : TemplatedProposalDescription
info_unknown = record {
  title = "TIP";
  commands = approve ∷ claim ∷ allocate ∷ [];
  description = "Three actions";
}

abbrev pod : PodConfig
pod = record { id = 25; timelock_address = some 102 }

config-distinct : distinct (keys config) ≡ true
unfolding distinct contains
config-distinct = refl

approve_encoded :
    (b : Batch) × (encode_commands libraries
        (get_all_contracts (λ artifact a. a) config)
        contracts
        (approve ∷ [])
      ≡ ok b)
unfolding encode_commands encode_command get_all_contracts known_entries lookup insert_all insert
    named
approve_encoded = (_, refl)

multisig_entry :
    lookup "multisig" config
    ≡ some (record { artifact_name = "unknown"; address = 104; category = core })
unfolding lookup
multisig_entry = refl

simulate_unknown_artifact_example :
    simulate_pod_proposal libraries network
      (get_all_contracts (λ artifact a. a) config)
      contracts
      (some 103)
      105
      info_unknown
      pod
      []
    ≡ (err (unknown_contract "multisig"), 105 ∷ [])
simulate_unknown_artifact_example =
    simulate_unknown_artifact libraries network (λ artifact a. a) config contracts config-distinct
      103 105 info_unknown pod (approve ∷ []) claim (allocate ∷ []) approve_encoded.0
      (record { artifact_name = "unknown"; address = 104; category = core }) [] refl
      approve_encoded.1 multisig_entry refl

-- 3 FEI and a wei are owed to one market, and nothing to the others.
abbrev markets : ℕ → Market
markets ctoken = record {
  underlying = 0x956f47f50a910163d8bf957cf5846d573e7f87ca;
  debt_amount =
      if ctoken == 0xd8553552f8868c1ef160eedf031cf0bcf9686945 then 3000000000000000001 else 0;
}

AllKnown-of_all :
    (markets : ℕ → Market) (table : AddressTable)
    → ((ctoken : ℕ) → IsKnown (markets ctoken))
    → AllKnown markets table
AllKnown-of_all markets [] h = tt
AllKnown-of_all markets ((ctoken, label) ∷ table) h = (h ctoken, AllKnown-of_all markets table h)

fei-known : name_at 0x956f47f50a910163d8bf957cf5846d573e7f87ca underlyings ≡ some "FEI"
unfolding name_at underlyings
fei-known = refl

get_fuse_bad_debt_totals_example :
    (d : Dict ℕ) × (get_fuse_bad_debt markets ≡ ok d)
    × ((name : String)
        → lookup name no_debt ≡ some 0
        → name ≢ "WETH"
        → name ≢ "wstETH"
        → lookup name d ≡ some (total markets ctokens name / 10 ^ decimals name))
    × (lookup "WETH" d ≡ some (total markets ctokens "WETH"))
    × (lookup "wstETH" d ≡ some (total markets ctokens "wstETH"))
get_fuse_bad_debt_totals_example =
    get_fuse_bad_debt_totals markets
      (AllKnown-of_all markets ctokens (λ ctoken. inr ("FEI", fei-known)))
