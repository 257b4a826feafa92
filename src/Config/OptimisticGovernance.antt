-- ===== src/Config/OptimisticGovernance.antt =====
-- protocol-configuration/optimisticGovernance.ts: the pod of the tribal council.
use fei_protocol_core.Prelude.{ℕ, String, List, [], ◌∷◌, ◌*◌, length}

pub record PodConfig : Type 0 where
  pub members : List ℕ
  pub threshold : ℕ
  pub label : ℕ
  pub ens_string : String
  pub image_url : String
  pub min_delay : ℕ
  pub num_members : ℕ
  pub place_holder_members : List ℕ

abbrev pub tribal_council_members : List ℕ
tribal_council_members =
    0xc8eefb8b3d50ca87da7f99a661720148acf97efa ∷ 0x72b7448f470d07222dbf038407cd69cc380683f3
    ∷ 0xa6d08774604d6da7c96684ca6c4f61f89c4e5b96 ∷ 0xe0ac4559739bd36f0913fb0a3f5bfc19bcbacd52
    ∷ 0xc2138f77e97a9ac0a4bc26f42d80d29d1a091866 ∷ 0x9f5e6f58cc8823d3c022aebe3942eef689e9acd9
    ∷ 0xab339ae6eab3c3cf4f5885e56f7b49391a01dda6 ∷ 0xd90e9181b20d8d1b5034d9f5737804da182039f6
    ∷ 0x7671f0615b1764fb4bf4b8df06b7338843f99678 ∷ []

abbrev pub place_holder_council_members : List ℕ
place_holder_council_members =
    0x0000000000000000000000000000000000000004 ∷ 0x0000000000000000000000000000000000000005
    ∷ 0x0000000000000000000000000000000000000006 ∷ 0x0000000000000000000000000000000000000007
    ∷ 0x0000000000000000000000000000000000000008 ∷ 0x0000000000000000000000000000000000000009
    ∷ 0x000000000000000000000000000000000000000a ∷ 0x000000000000000000000000000000000000000b
    ∷ 0x000000000000000000000000000000000000000c ∷ []

abbrev pub min_timelock_delay : ℕ
min_timelock_delay = 86400

abbrev pub tribe_council_pod_config : PodConfig
tribe_council_pod_config = record {
  members = tribal_council_members;
  threshold = 5;
  label = 0xbbbb0f283d36ab6734712e97b09b54eecf6cdb83ad20efc8b1718c7fe38cb0b8;
  ens_string = "tribecouncil.pod.xyz";
  image_url = "";
  min_delay = 86400 * 4;
  num_members = length tribal_council_members;
  place_holder_members = place_holder_council_members;
}

abbrev pub tribal_council_pod_id : ℕ
tribal_council_pod_id = 25
