-- ===== src/Tests/Libraries.antt =====
-- Concrete libraries and a concrete network for the tests of the scripts: a contract is its address,
-- and what is encoded stays readable.
use fei_protocol_core.Prelude.{
  ℕ, ◌≤◌, String, ◌≡◌, refl, true, false, List, [], ◌∷◌, ◌++◌, Option, none, some, map, arith,
  length, ltb, text_eq, if◌then◌else◌, Result, ok, err,
}
use fei_protocol_core.Types.{Arg, text, flag, address, number, id_of, address_list, undefined}
use fei_protocol_core.Scripts.Libraries.{
  Hex, codes, take, Error, type_error, library, AlphaProposal, Libraries, AreConsistent,
}
use fei_protocol_core.Scripts.SimulateTimelock.{Network}

abbrev pub identifier : String → Hex
identifier s = codes "0x12345678" ++ codes s

abbrev encode_addresses : List (Option ℕ) → Hex
encode_addresses [] = []
encode_addresses (none ∷ l) = 0 ∷ encode_addresses l
encode_addresses (some a ∷ l) = a ∷ encode_addresses l

abbrev encode_arg : Arg → Hex
encode_arg (text t) = codes t
encode_arg (flag true) = 1 ∷ []
encode_arg (flag false) = 0 ∷ []
encode_arg (address a) = a ∷ []
encode_arg (number n) = n ∷ []
encode_arg (id_of t) = identifier t
encode_arg (address_list l) = encode_addresses l
encode_arg undefined = []

abbrev encode_args : List Arg → Hex
encode_args [] = []
encode_args (a ∷ args) = encode_arg a ++ encode_args args

abbrev join : List Hex → Hex
join [] = []
join (h ∷ hs) = h ++ join hs

abbrev number_of : String → ℕ
number_of v = if text_eq v "1" then 1 else 0

abbrev operation : List ℕ → List ℕ → List Hex → Hex → Hex → Hex
operation targets values datas predecessor salt =
    targets ++ (values ++ (join datas ++ (predecessor ++ salt)))

abbrev add_action :
    ℕ → Option ℕ → String → List Arg → String → AlphaProposal → Result Error AlphaProposal
add_action most none method args value p = err type_error
add_action most (some c) method args value p =
    if ltb (length p.targets) most
    then ok (record {
      targets = p.targets ++ c ∷ [];
      values = p.values ++ number_of value ∷ [];
      signatures = p.signatures ++ method ∷ [];
      calldatas = p.calldatas ++ (codes "0x" ++ encode_args args) ∷ [];
      description = p.description;
    })
    else err (library "too many actions")

abbrev pub libraries : Libraries
libraries = record {
  Contract = ℕ;
  encode_function_data = λ c method args. ok (take 10 (identifier method) ++ encode_args args);
  id = identifier;
  keccak256 = λ h. h;
  encode_operation = operation;
  encode_propose = λ targets values datas d. targets ++ (values ++ (join datas ++ codes d));
  encode_schedule_batch = λ targets values datas predecessor salt delay.
      operation targets values datas predecessor salt;
  encode_execute_batch = operation;
  encode_register_proposal = λ pod id d. pod ∷ (id ++ codes d);
  encode_pod_execute_batch = λ timelock targets values datas predecessor salt.
      timelock ∷ operation targets values datas predecessor salt;
  add_contract_action = add_action;
  set_description = λ d p. record p { description = d };
}

pub adds_of_add_action :
    (most : ℕ) (c : ℕ) (method : String) (args : List Arg) (value : String) (p q : AlphaProposal)
    → add_action most (some c) method args value p ≡ ok q
    → q ≡ record {
      targets = p.targets ++ c ∷ [];
      values = p.values ++ number_of value ∷ [];
      signatures = p.signatures ++ method ∷ [];
      calldatas = p.calldatas ++ (codes "0x" ++ encode_args args) ∷ [];
      description = p.description;
    }
adds_of_add_action most c method args value p q e = ground arith

abbrev pub are_consistent : AreConsistent libraries
are_consistent = record {
  address = λ c. c;
  signature = λ c method. method;
  encode_args = λ c method args. encode_args args;
  number = number_of;
  adds_action = adds_of_add_action;
  needs_contract = λ most method args value p. refl;
  encodes = λ most c method args value p q e. refl;
  describes = λ d p. refl;
}

-- A network whose state lists the transactions.
abbrev pub network : Network ℕ
network = record {
  State = List ℕ;
  force_eth = λ who s. who ∷ s;
  increase = λ seconds s. s;
  get_min_delay = λ timelock s. 345600;
  hash_operation_batch = λ timelock b predecessor salt.
      operation b.targets (map number_of b.values) b.datas predecessor salt;
  is_operation = λ timelock id s. false;
  is_operation_ready = λ timelock id s. true;
  is_operation_done = λ timelock id s. false;
  schedule_batch = λ timelock signer b predecessor salt delay s. ok (1 ∷ s);
  execute_batch = λ timelock signer b predecessor salt s. ok (2 ∷ s);
  register_proposal = λ registry signer pod id d s. ok (3 ∷ s);
}

pub identifier-long : (s : String) → 10 ≤ length (identifier s)
identifier-long s = omega arith
