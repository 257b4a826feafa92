-- ===== src/Proposals/EndTribeIncentives/Description.antt =====
-- proposals/description/old/end_tribe_incentives.ts: TIP-109, which ends the TRIBE incentives.
use fei_protocol_core.Prelude.{String, false, List, [], ◌∷◌, ◌++◌}
use fei_protocol_core.Types.{
  NamedAddresses, Arg, text, flag, named, template, TemplatedProposalCommand,
  TemplatedProposalDescription,
}

-- A command, whose `values` are '0' throughout this proposal.
abbrev command : String → String → (NamedAddresses → List Arg) → String → TemplatedProposalCommand
command target method arguments description = record {
  target = target;
  values = "0";
  method = method;
  arguments = template arguments;
  description = description;
}

unfoldable pub grant_admin_commands : List TemplatedProposalCommand
unfolding named
grant_admin_commands =
    command "core" "grantRole(bytes32,address)"
      (λ addresses.
        text "0x23970cab3799b6876df4319661e6c03cc45bd59628799d92e988dd8cbdc90e31"
        ∷ named addresses "tribalCouncilTimelock"
        ∷ [])
      "Grant TRIBAL_CHIEF_ADMIN_ROLE to Tribal Council timelock"
    ∷ []

unfoldable pub pool_commands : List TemplatedProposalCommand
pool_commands =
    command "tribalChief" "set(uint256,uint120,address,bool)"
      (λ addresses.
        text "0" ∷ text "1" ∷ text "0x0000000000000000000000000000000000000000" ∷ flag false ∷ [])
      "Set Pool 0 rewards to 1 and do not overwrite or change the rewarder"
    ∷ command "tribalChief" "set(uint256,uint120,address,bool)"
        (λ addresses.
          text "1" ∷ text "0" ∷ text "0x0000000000000000000000000000000000000000" ∷ flag false ∷ [])
        "Set Pool 1 rewards to 0 and do not overwrite or change the rewarder"
    ∷ command "tribalChief" "set(uint256,uint120,address,bool)"
        (λ addresses.
          text "2" ∷ text "0" ∷ text "0x0000000000000000000000000000000000000000" ∷ flag false ∷ [])
        "Set Pool 2 rewards to 0 and do not overwrite or change the rewarder"
    ∷ command "tribalChief" "set(uint256,uint120,address,bool)"
        (λ addresses.
          text "3" ∷ text "0" ∷ text "0x0000000000000000000000000000000000000000" ∷ flag false ∷ [])
        "Set Pool 3 rewards to 0 and do not overwrite or change the rewarder"
    ∷ command "tribalChief" "set(uint256,uint120,address,bool)"
        (λ addresses.
          text "4" ∷ text "0" ∷ text "0x0000000000000000000000000000000000000000" ∷ flag false ∷ [])
        "Set Pool 4 rewards to 0 and do not overwrite or change the rewarder"
    ∷ command "tribalChief" "set(uint256,uint120,address,bool)"
        (λ addresses.
          text "5" ∷ text "0" ∷ text "0x0000000000000000000000000000000000000000" ∷ flag false ∷ [])
        "Set Pool 5 rewards to 0 and do not overwrite or change the rewarder"
    ∷ command "tribalChief" "set(uint256,uint120,address,bool)"
        (λ addresses.
          text "6" ∷ text "0" ∷ text "0x0000000000000000000000000000000000000000" ∷ flag false ∷ [])
        "Set Pool 6 rewards to 0 and do not overwrite or change the rewarder"
    ∷ command "tribalChief" "set(uint256,uint120,address,bool)"
        (λ addresses.
          text "7" ∷ text "0" ∷ text "0x0000000000000000000000000000000000000000" ∷ flag false ∷ [])
        "Set Pool 7 rewards to 0 and do not overwrite or change the rewarder"
    ∷ command "tribalChief" "set(uint256,uint120,address,bool)"
        (λ addresses.
          text "8" ∷ text "0" ∷ text "0x0000000000000000000000000000000000000000" ∷ flag false ∷ [])
        "Set Pool 8 rewards to 0 and do not overwrite or change the rewarder"
    ∷ command "tribalChief" "set(uint256,uint120,address,bool)"
        (λ addresses.
          text "9" ∷ text "0" ∷ text "0x0000000000000000000000000000000000000000" ∷ flag false ∷ [])
        "Set Pool 9 rewards to 0 and do not overwrite or change the rewarder"
    ∷ command "tribalChief" "set(uint256,uint120,address,bool)"
        (λ addresses.
          text "10"
          ∷ text "0"
          ∷ text "0x0000000000000000000000000000000000000000"
          ∷ flag false
          ∷ [])
        "Set Pool 10 rewards to 0 and do not overwrite or change the rewarder"
    ∷ command "tribalChief" "set(uint256,uint120,address,bool)"
        (λ addresses.
          text "11"
          ∷ text "0"
          ∷ text "0x0000000000000000000000000000000000000000"
          ∷ flag false
          ∷ [])
        "Set Pool 11 rewards to 0 and do not overwrite or change the rewarder"
    ∷ command "tribalChief" "set(uint256,uint120,address,bool)"
        (λ addresses.
          text "12"
          ∷ text "0"
          ∷ text "0x0000000000000000000000000000000000000000"
          ∷ flag false
          ∷ [])
        "Set Pool 12 rewards to 0 and do not overwrite or change the rewarder"
    ∷ command "tribalChief" "set(uint256,uint120,address,bool)"
        (λ addresses.
          text "13"
          ∷ text "0"
          ∷ text "0x0000000000000000000000000000000000000000"
          ∷ flag false
          ∷ [])
        "Set Pool 13 rewards to 0 and do not overwrite or change the rewarder"
    ∷ command "tribalChief" "set(uint256,uint120,address,bool)"
        (λ addresses.
          text "14"
          ∷ text "0"
          ∷ text "0x0000000000000000000000000000000000000000"
          ∷ flag false
          ∷ [])
        "Set Pool 14 rewards to 0 and do not overwrite or change the rewarder"
    ∷ command "tribalChief" "set(uint256,uint120,address,bool)"
        (λ addresses.
          text "15"
          ∷ text "0"
          ∷ text "0x0000000000000000000000000000000000000000"
          ∷ flag false
          ∷ [])
        "Set Pool 15 rewards to 0 and do not overwrite or change the rewarder"
    ∷ command "tribalChief" "set(uint256,uint120,address,bool)"
        (λ addresses.
          text "16"
          ∷ text "0"
          ∷ text "0x0000000000000000000000000000000000000000"
          ∷ flag false
          ∷ [])
        "Set Pool 16 rewards to 0 and do not overwrite or change the rewarder"
    ∷ command "tribalChief" "set(uint256,uint120,address,bool)"
        (λ addresses.
          text "17"
          ∷ text "0"
          ∷ text "0x0000000000000000000000000000000000000000"
          ∷ flag false
          ∷ [])
        "Set Pool 17 rewards to 0 and do not overwrite or change the rewarder"
    ∷ []

unfoldable pub reward_commands : List TemplatedProposalCommand
reward_commands =
    command "tribalChief" "updateBlockReward(uint256)" (λ addresses. text "100000" ∷ [])
      "Set Tribal Chief block reward effectively to zero. Setting to 100000"
    ∷ command "autoRewardsDistributor" "setAutoRewardsDistribution()" (λ addresses. [])
        "Sync the reward speed of the AutoRewardsDistributor"
    ∷ command "d3AutoRewardsDistributor" "setAutoRewardsDistribution()" (λ addresses. [])
        "Sync the reward speed of the d3AutoRewardsDistributor"
    ∷ command "fei3CrvAutoRewardsDistributor" "setAutoRewardsDistribution()" (λ addresses. [])
        "Sync the reward speed of the fei3CrvAutoRewardsDistributor"
    ∷ command "feiDaiAutoRewardsDistributor" "setAutoRewardsDistribution()" (λ addresses. [])
        "Sync the reward speed of the feiDaiAutoRewardsDistributor"
    ∷ command "feiUsdcAutoRewardsDistributor" "setAutoRewardsDistribution()" (λ addresses. [])
        "Sync the reward speed of the feiUsdcAutoRewardsDistributor"
    ∷ []

unfoldable pub role_commands : List TemplatedProposalCommand
unfolding named
role_commands =
    command "core" "revokeRole(bytes32,address)"
      (λ addresses.
        text "0x7f85477db6c0857f19179a2b3846a7ddbc64caeeb3a02ef34771b82f5ab926e4"
        ∷ named addresses "tribalChiefSyncV2"
        ∷ [])
      "Revoke FUSE_ADMIN from tribalChiefSyncV2"
    ∷ command "core" "revokeRole(bytes32,address)"
        (λ addresses.
          text "0x23970cab3799b6876df4319661e6c03cc45bd59628799d92e988dd8cbdc90e31"
          ∷ named addresses "tribalChiefSyncV2"
          ∷ [])
        "Revoke TRIBAL_CHIEF_ADMIN_ROLE from tribalChiefSyncV2"
    ∷ command "rewardsDistributorAdmin" "becomeAdmin()" (λ addresses. [])
        "Grant the TC timelock the DEFAULT_ADMIN_ROLE, to it can dismantle the RewardDistributorAdmin permissions"
    ∷ command "rewardsDistributorAdmin" "revokeRole(bytes32,address)"
        (λ addresses.
          text "0x19cca239eaee0f28c6ba4c8c860332b8a23b35008b89b0507b96138ca5691cbb"
          ∷ named addresses "feiDaiAutoRewardsDistributor"
          ∷ [])
        "Revoke AUTO_REWARDS_DISTRIBUTOR_ROLE from feiDaiAutoRewardsDistributor"
    ∷ command "rewardsDistributorAdmin" "revokeRole(bytes32,address)"
        (λ addresses.
          text "0x19cca239eaee0f28c6ba4c8c860332b8a23b35008b89b0507b96138ca5691cbb"
          ∷ named addresses "feiUsdcAutoRewardsDistributor"
          ∷ [])
        "Revoke AUTO_REWARDS_DISTRIBUTOR_ROLE from feiUsdcAutoRewardsDistributor"
    ∷ command "rewardsDistributorAdmin" "revokeRole(bytes32,address)"
        (λ addresses.
          text "0x19cca239eaee0f28c6ba4c8c860332b8a23b35008b89b0507b96138ca5691cbb"
          ∷ named addresses "autoRewardsDistributor"
          ∷ [])
        "Revoke AUTO_REWARDS_DISTRIBUTOR_ROLE from autoRewardsDistributor"
    ∷ command "rewardsDistributorAdmin" "revokeRole(bytes32,address)"
        (λ addresses.
          text "0x19cca239eaee0f28c6ba4c8c860332b8a23b35008b89b0507b96138ca5691cbb"
          ∷ named addresses "d3AutoRewardsDistributor"
          ∷ [])
        "Revoke AUTO_REWARDS_DISTRIBUTOR_ROLE from d3AutoRewardsDistributor"
    ∷ command "rewardsDistributorAdmin" "revokeRole(bytes32,address)"
        (λ addresses.
          text "0x19cca239eaee0f28c6ba4c8c860332b8a23b35008b89b0507b96138ca5691cbb"
          ∷ named addresses "fei3CrvAutoRewardsDistributor"
          ∷ [])
        "Revoke AUTO_REWARDS_DISTRIBUTOR_ROLE from fei3CrvAutoRewardsDistributor"
    ∷ command "core" "revokeRole(bytes32,address)"
        (λ addresses.
          text "0x2d46c62aa6fbc9b550f22e00476aebb90f4ea69cd492a68db4d444217763330d"
          ∷ named addresses "opsOptimisticTimelock"
          ∷ [])
        "Revoke VOTIUM_ROLE from opsOptimisticTimelock as no longer required"
    ∷ command "collateralizationOracle" "removeDeposit(address)"
        (λ addresses. named addresses "creamDepositWrapper" ∷ [])
        "Remove empty CREAM deposit from the CR oracle"
    ∷ []

unfoldable pub end_tribe_incentives : TemplatedProposalDescription
unfolding grant_admin_commands pool_commands reward_commands role_commands
end_tribe_incentives = record {
  title = "TIP-109: Discontinue Tribe Incentives";
  commands = grant_admin_commands ++ pool_commands ++ reward_commands ++ role_commands;
  description =
      "\n  TIP-109: Discontinue Tribe Incentives\n\n  This proposal will disable all Tribe incentives. Specifically it:\n  - Sets the allocation points of all pools effectively to 0\n  - Updates the reward variables of incentivised pools\n  - Sets the amount of Tribe issued per block by the Tribal Chief to effectively zero\n  - Dismantle internal ACL/permission mapping of the rewardsDistributorAdmin\n  - Sync all AutoRewardDistributors\n  - Revoke TribeRoles from incentives system\n\n  It also removes CREAM from the Collaterisation Oracle\n  ";
}
