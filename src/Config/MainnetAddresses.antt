-- ===== src/Config/MainnetAddresses.antt =====
-- protocol-configuration/mainnetAddresses.ts: the contracts of the protocol by name. Its children hold
-- the entries in the order of the file, in lists of up to 28.
mod FromCore
mod FromEthToDaiLensDai
mod FromChainlinkEurUsdOracleWrapper
mod FromFuseGuardian
mod FromChainlinkTribeEthOracle
mod FromSaddleD4Pool
mod FromRariPool7FeiPcvDepositWrapper
mod FromFeiOtcEscrow
use fei_protocol_core.Prelude.{◌++◌, List}
use fei_protocol_core.Types.{MainnetContractsConfig}
use FromCore.{from_core, from_tribe_rari_dao}
use FromEthToDaiLensDai.{from_eth_to_dai_lens_dai, from_ag_eur_deposit_wrapper}
use FromChainlinkEurUsdOracleWrapper.{from_chainlink_eur_usd_oracle_wrapper, from_tribal_chief}
use FromFuseGuardian.{from_fuse_guardian, from_angle_ag_eur_fei_pool}
use FromChainlinkTribeEthOracle.{from_chainlink_tribe_eth_oracle, from_idle_tranches}
use FromSaddleD4Pool.{from_saddle_d4_pool, from_rari_pool25_fei_pcvdeposit}
use FromRariPool7FeiPcvDepositWrapper.{
  from_rari_pool7_fei_pcvdeposit_wrapper, from_fei_dai_auto_rewards_distributor,
}
use FromFeiOtcEscrow.{from_fei_otcescrow, from_idle_tranches_redeemer}

unfoldable pub mainnet_contracts_config : MainnetContractsConfig
unfolding from_core from_tribe_rari_dao from_eth_to_dai_lens_dai from_ag_eur_deposit_wrapper
    from_chainlink_eur_usd_oracle_wrapper from_tribal_chief from_fuse_guardian
    from_angle_ag_eur_fei_pool from_chainlink_tribe_eth_oracle from_idle_tranches
    from_saddle_d4_pool from_rari_pool25_fei_pcvdeposit from_rari_pool7_fei_pcvdeposit_wrapper
    from_fei_dai_auto_rewards_distributor from_fei_otcescrow from_idle_tranches_redeemer
mainnet_contracts_config =
    from_core
    ++ (from_tribe_rari_dao
        ++ (from_eth_to_dai_lens_dai
            ++ (from_ag_eur_deposit_wrapper
                ++ (from_chainlink_eur_usd_oracle_wrapper
                    ++ (from_tribal_chief
                        ++ (from_fuse_guardian
                            ++ (from_angle_ag_eur_fei_pool
                                ++ (from_chainlink_tribe_eth_oracle
                                    ++ (from_idle_tranches
                                        ++ (from_saddle_d4_pool
                                            ++ (from_rari_pool25_fei_pcvdeposit
                                                ++ (from_rari_pool7_fei_pcvdeposit_wrapper
                                                    ++ (from_fei_dai_auto_rewards_distributor
                                                        ++ (from_fei_otcescrow
                                                            ++ (from_idle_tranches_redeemer)))))))))))))))
