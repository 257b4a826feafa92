-- ===== src/Types.antt =====
-- types/types.ts: the proposal descriptions, the configuration of proposals and contracts, and the
-- dictionaries of contracts and addresses. An address is the number that its hexadecimal text
-- denotes. The interfaces `MainnetContracts` and `MainnetContractAddresses`, which only list names
-- of contracts for the type checker, are the dictionaries `NamedContracts` and `NamedAddresses`.
use fei_protocol_core.Prelude.{ℕ, String, Bool, Option, List, [], map, Dict, lookup, insert_all}

pub data ProposalCategory : Type 0 where
  dao debug tc debug_tc none : ProposalCategory

pub data AddressCategory : Type 0 where
  core governance utility security peg pcv pcv_v1 collateralization oracle : AddressCategory
  rewards fei_rari turbo external deprecated fuse volt tbd : AddressCategory

pub record ContractConfig : Type 0 where
  pub artifact_name : String
  pub address : ℕ
  pub category : AddressCategory

abbrev pub MainnetContractsConfig : Type 0
MainnetContractsConfig = Dict ContractConfig

abbrev pub NamedAddresses : Type 0
NamedAddresses = Dict ℕ

-- The contract objects are ethers.js values: their type `C` is a parameter.
abbrev pub NamedContracts : Type 0 → Type 0
NamedContracts C = Dict C

-- `namedContractsToNamedAddresses`: the loop over `Object.keys`; `address` is the property of an
-- ethers.js contract.
unfoldable pub named_contracts_to_named_addresses :
    {C : Type 0} → (C → ℕ) → NamedContracts C → NamedAddresses
unfolding insert_all
named_contracts_to_named_addresses address contracts = insert_all address contracts []

-- A value of the `any[]` that a command passes to its method.
pub data Arg : Type 0 where
  text : String → Arg
  flag : Bool → Arg
  address : ℕ → Arg
  number : ℕ → Arg
  -- `ethers.utils.id(text)`
  id_of : String → Arg
  -- a list of addresses, each of which may be `undefined`
  address_list : List (Option ℕ) → Arg
  undefined : Arg

-- A templated command's `arguments` are declared as a function of the addresses; code that reads
-- them tests for a list written in its place.
pub data Arguments : Type 0 where
  template : (NamedAddresses → List Arg) → Arguments
  direct : List Arg → Arguments

pub record TemplatedProposalCommand : Type 0 where
  pub target : String
  pub values : String
  pub method : String
  pub arguments : Arguments
  pub description : String

pub record TemplatedProposalDescription : Type 0 where
  pub title : String
  pub commands : List TemplatedProposalCommand
  pub description : String

pub record TemplatedProposalConfig : Type 0 where
  pub deploy : Bool
  pub category : ProposalCategory
  pub total_value : ℕ
  pub proposal : Option TemplatedProposalDescription
  pub affected_contract_signoff : List String
  pub deprecated_contract_signoff : List String
  pub proposal_id : String

abbrev pub TemplatedProposalsConfigMap : Type 0
TemplatedProposalsConfigMap = Dict TemplatedProposalConfig

pub record TribalChiefPoolConfig : Type 0 where
  pub alloc_point : ℕ
  pub unlocked : Bool

abbrev pub TribalChiefConfig : Type 0
TribalChiefConfig = Dict TribalChiefPoolConfig

-- `addresses.name` in a command's arguments
unfoldable pub named : NamedAddresses → String → Arg
unfolding lookup
named addresses name = elim (lookup name addresses) [
  | Option.none ↦ undefined
  | Option.some a ↦ address a
]

-- `[addresses.name, ...]`
unfoldable pub named_list : NamedAddresses → List String → Arg
unfolding lookup
named_list addresses names = address_list (map (λ name. lookup name addresses) names)
