-- ===== src/Schema/Staking.antt =====
-- The columns of the tables of entries/*.go: stakes, lockups, epochs, global parameters, validators. Relation fields, which no code sets, are
-- left out.
use postgres_data_handler.Base.{ℕ, ℤ, Bool, String, List, Bytes}

pub record StakeEntry : Type 0 where
  pub staker_pkid : String
  pub validator_pkid : String
  pub reward_method : String
  pub stake_amount_nanos : ℕ
  pub extra_data : List (String × String)
  pub badger_key : Bytes

pub record LockedStakeEntry : Type 0 where
  pub staker_pkid : String
  pub validator_pkid : String
  pub locked_amount_nanos : ℕ
  pub locked_at_epoch_number : ℕ
  pub extra_data : List (String × String)
  pub badger_key : Bytes

pub record LockedBalanceEntry : Type 0 where
  pub hodler_pkid : String
  pub profile_pkid : String
  pub unlock_timestamp_nano_secs : ℤ
  pub vesting_end_timestamp_nano_secs : ℤ
  pub balance_base_units : ℕ
  pub badger_key : Bytes

pub record LockupYieldCurvePoint : Type 0 where
  pub profile_pkid : String
  pub lockup_duration_nano_secs : ℤ
  pub lockup_yield_apy_basis_points : ℕ
  pub badger_key : Bytes

pub record EpochEntry : Type 0 where
  pub epoch_number : ℕ
  pub initial_block_height : ℕ
  pub initial_view : ℕ
  pub final_block_height : ℕ
  pub initial_leader_index_offset : ℕ
  pub created_at_block_timestamp_nano_secs : ℤ
  pub snapshot_at_epoch_number : ℕ

pub record GlobalParamsEntry : Type 0 where
  pub usd_cents_per_bitcoin : ℕ
  pub create_profile_fee_nanos : ℕ
  pub create_nft_fee_nanos : ℕ
  pub max_copies_per_nft : ℕ
  pub minimum_network_fee_nanos_per_kb : ℕ
  pub max_nonce_expiration_block_height_offset : ℕ
  pub stake_lockup_epoch_duration : ℕ
  pub validator_jail_epoch_duration : ℕ
  pub leader_schedule_max_num_validators : ℕ
  pub validator_set_max_num_validators : ℕ
  pub staking_rewards_max_num_stakes : ℕ
  pub staking_rewards_apy_basis_points : ℕ
  pub epoch_duration_num_blocks : ℕ
  pub jail_inactive_validator_grace_period_epochs : ℕ
  pub maximum_vested_intersections_per_lockup_transaction : ℤ
  pub fee_bucket_growth_rate_basis_points : ℕ
  pub block_timestamp_drift_nano_secs : ℤ
  pub mempool_max_size_bytes : ℕ
  pub mempool_fee_estimator_num_mempool_blocks : ℕ
  pub mempool_fee_estimator_num_past_blocks : ℕ
  pub max_block_size_bytes_pos : ℕ
  pub soft_max_block_size_bytes_pos : ℕ
  pub max_txn_size_bytes_pos : ℕ
  pub block_production_interval_milliseconds_pos : ℕ
  pub timeout_interval_milliseconds_pos : ℕ
  pub badger_key : Bytes

pub record ValidatorEntry : Type 0 where
  pub validator_pkid : String
  pub domains : List String
  pub disable_delegated_stake : Bool
  pub delegated_stake_commission_basis_points : ℕ
  pub voting_public_key : String
  pub voting_authorization : String
  pub total_stake_amount_nanos : ℕ
  pub last_active_at_epoch_number : ℕ
  pub jailed_at_epoch_number : ℕ
  pub extra_data : List (String × String)
  pub badger_key : Bytes

pub record SnapshotValidatorEntry : Type 0 where
  pub validator_pkid : String
  pub domains : List String
  pub disable_delegated_stake : Bool
  pub delegated_stake_commission_basis_points : ℕ
  pub voting_public_key : String
  pub voting_authorization : String
  pub total_stake_amount_nanos : ℕ
  pub last_active_at_epoch_number : ℕ
  pub jailed_at_epoch_number : ℕ
  pub snapshot_at_epoch_number : ℕ
  pub extra_data : List (String × String)
  pub badger_key : Bytes

pub record BlsPublicKeyPkidPairEntry : Type 0 where
  pub pkid : String
  pub bls_public_key : String
  pub badger_key : Bytes

pub record BlsPublicKeyPkidPairSnapshotEntry : Type 0 where
  pub pkid : String
  pub bls_public_key : String
  pub snapshot_at_epoch_number : ℕ
  pub badger_key : Bytes

pub record LeaderScheduleEntry : Type 0 where
  pub snapshot_at_epoch_number : ℕ
  pub leader_index : ℕ
  pub validator_pkid : String
  pub badger_key : Bytes

pub record StakeReward : Type 0 where
  pub staker_pkid : String
  pub validator_pkid : String
  pub reward_method : ℕ
  pub reward_nanos : ℕ
  pub is_validator_commission : Bool
  pub block_hash : String
  pub utxo_op_index : ℕ

pub record JailedHistoryEntry : Type 0 where
  pub validator_pkid : String
  pub jailed_at_epoch_number : ℕ
  pub unjailed_at_epoch_number : ℕ
