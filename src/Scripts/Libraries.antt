-- ===== src/Scripts/Libraries.antt =====
-- What scripts/utils/ calls and the repository does not hold: ethers.js, the contracts' ABIs, and the
-- proposals plugin of Hardhat. They are a record that the scripts' models take as a parameter.
use Prim.Native.Char.{code}
use fei_protocol_core.Prelude.{
  ℕ, zero, suc, String, ◌≡◌, Option, none, some, List, [], ◌∷◌, ◌++◌, Result, ok, err,
}
use fei_protocol_core.Types.{Arg}

-- A text that the code cuts and joins, such as '0x…', as the codes of its characters.
abbrev pub Hex : Type 0
Hex = List ℕ

abbrev pub codes : String → Hex
codes String.[] = []
codes (String.◌∷◌ c s) = code c ∷ codes s

-- `s.slice(0, n)` and `s.slice(n)`
abbrev pub take : ℕ → Hex → Hex
take zero s = []
take (suc n) [] = []
take (suc n) (c ∷ s) = c ∷ take n s

abbrev pub drop : ℕ → Hex → Hex
drop zero s = s
drop (suc n) [] = []
drop (suc n) (c ∷ s) = drop n s

pub data Error : Type 0 where
  no_arguments_function unknown_contract unknown_address : String → Error
  type_error : Error
  library : String → Error

-- The plugin's `AlphaProposal`: four lists with one place for each action.
pub record AlphaProposal : Type 0 where
  pub targets : List ℕ
  pub values : List ℕ
  pub signatures : List String
  pub calldatas : List Hex
  pub description : String

pub record Libraries : Type 1 where
  -- an ethers.js contract object, and its `interface.encodeFunctionData`
  pub Contract : Type 0
  pub encode_function_data : Contract → String → List Arg → Result Error Hex
  -- `utils.id`, `utils.keccak256`, and `defaultAbiCoder.encode` at the types of an operation
  pub id : String → Hex
  pub keccak256 : Hex → Hex
  pub encode_operation : List ℕ → List ℕ → List Hex → Hex → Hex → Hex
  -- `encodeFunctionData` of the interfaces of FeiDAO, TimelockController, the metadata registry and
  -- the pod executor
  pub encode_propose : List ℕ → List ℕ → List Hex → String → Hex
  pub encode_schedule_batch : List ℕ → List ℕ → List Hex → Hex → Hex → ℕ → Hex
  pub encode_execute_batch : List ℕ → List ℕ → List Hex → Hex → Hex → Hex
  pub encode_register_proposal : ℕ → Hex → String → Hex
  pub encode_pod_execute_batch : ℕ → List ℕ → List ℕ → List Hex → Hex → Hex → Hex
  -- the plugin's builder, with the greatest number of actions first
  pub add_contract_action :
      ℕ → Option Contract → String → List Arg → String → AlphaProposal → Result Error AlphaProposal
  pub set_description : String → AlphaProposal → AlphaProposal

-- What the scripts rely on: the plugin's documented effect of adding a contract's action, and the
-- selector that ethers.js puts before the encoded arguments.
pub record AreConsistent (L : Libraries) : Type 0 where
  -- the address of a contract, the canonical signature of its method, its encoded arguments, and the
  -- number that a value's text denotes
  pub address : L.Contract → ℕ
  pub signature : L.Contract → String → String
  pub encode_args : L.Contract → String → List Arg → Hex
  pub number : String → ℕ
  pub adds_action :
      (most : ℕ) (c : L.Contract) (method : String) (args : List Arg) (value : String)
      (p q : AlphaProposal)
      → L.add_contract_action most (some c) method args value p ≡ ok q
      → q ≡ record {
        targets = p.targets ++ address c ∷ [];
        values = p.values ++ number value ∷ [];
        signatures = p.signatures ++ signature c method ∷ [];
        calldatas = p.calldatas ++ (codes "0x" ++ encode_args c method args) ∷ [];
        description = p.description;
      }
  pub needs_contract :
      (most : ℕ) (method : String) (args : List Arg) (value : String) (p : AlphaProposal)
      → L.add_contract_action most none method args value p ≡ err type_error
  pub encodes :
      (most : ℕ) (c : L.Contract) (method : String) (args : List Arg) (value : String)
      (p q : AlphaProposal)
      → L.add_contract_action most (some c) method args value p ≡ ok q
      → L.encode_function_data c method args
        ≡ ok (take 10 (L.id (signature c method)) ++ encode_args c method args)
  pub describes :
      (d : String) (p : AlphaProposal) → L.set_description d p ≡ record p { description = d }
