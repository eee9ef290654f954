-- ===== src/Entries/StakeReward.antt =====
-- entries/stake_reward.go: rows of the table of `PGStakeReward`.
use postgres_data_handler.Base.{ℕ, String}
use postgres_data_handler.Core.Staking.{LibStakeRewardStateChangeMetadata}
use postgres_data_handler.Schema.Staking.{StakeReward}
use postgres_data_handler.Env.{Codec, if_set}

module _ (C : Codec) where
  unfoldable pub stake_reward_encoder_to_pg_struct :
      LibStakeRewardStateChangeMetadata → C.Params → String → ℕ → StakeReward
  stake_reward_encoder_to_pg_struct e params block_hash utxo_op_index = record {
    staker_pkid = if_set e.staker_pkid (λ k. C.public_key_to_base58 k params) "";
    validator_pkid = if_set e.validator_pkid (λ k. C.public_key_to_base58 k params) "";
    reward_method = e.staking_reward_method;
    reward_nanos = e.reward_nanos;
    is_validator_commission = e.is_validator_commission;
    block_hash = block_hash;
    utxo_op_index = utxo_op_index;
  }
