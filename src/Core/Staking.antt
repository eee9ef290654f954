-- ===== src/Core/Staking.antt =====
-- What entries/*.go reads of the core library's types: stakes, lockups, epochs, global parameters, validators.
use postgres_data_handler.Base.{ℕ, ℤ, Bool, String, Option, List, Bytes}

pub record LibStakeEntry : Type 0 where
  pub staker_pkid : Option Bytes
  pub validator_pkid : Option Bytes
  pub stake_amount_nanos : ℕ
  pub extra_data : List (String × Bytes)
  pub reward_method : ℕ

pub record LibLockedStakeEntry : Type 0 where
  pub staker_pkid : Option Bytes
  pub validator_pkid : Option Bytes
  pub locked_amount_nanos : ℕ
  pub locked_at_epoch_number : ℕ
  pub extra_data : List (String × Bytes)

pub record LibLockedBalanceEntry : Type 0 where
  pub hodler_pkid : Option Bytes
  pub profile_pkid : Option Bytes
  pub unlock_timestamp_nano_secs : ℤ
  pub vesting_end_timestamp_nano_secs : ℤ
  pub balance_base_units : ℕ

pub record LibLockupYieldCurvePoint : Type 0 where
  pub profile_pkid : Option Bytes
  pub lockup_duration_nano_secs : ℤ
  pub lockup_yield_apy_basis_points : ℕ

pub record LibEpochEntry : Type 0 where
  pub epoch_number : ℕ
  pub initial_block_height : ℕ
  pub initial_view : ℕ
  pub final_block_height : ℕ
  pub initial_leader_index_offset : ℕ
  pub created_at_block_timestamp_nano_secs : ℤ

pub record LibGlobalParamsEntry : Type 0 where
  pub usd_cents_per_bitcoin : ℕ
  pub create_profile_fee_nanos : ℕ
  pub create_nft_fee_nanos : ℕ
  pub max_copies_per_nft : ℕ
  pub minimum_network_fee_nanos_per_kb : ℕ
  pub max_nonce_expiration_block_height_offset : ℕ
  pub stake_lockup_epoch_duration : ℕ
  pub validator_jail_epoch_duration : ℕ
  pub leader_schedule_max_num_validators : ℕ
  pub validator_set_max_num_validators : ℕ
  pub staking_rewards_max_num_stakes : ℕ
  pub staking_rewards_apy_basis_points : ℕ
  pub epoch_duration_num_blocks : ℕ
  pub jail_inactive_validator_grace_period_epochs : ℕ
  pub maximum_vested_intersections_per_lockup_transaction : ℤ
  pub fee_bucket_growth_rate_basis_points : ℕ
  pub block_timestamp_drift_nano_secs : ℤ
  pub mempool_max_size_bytes : ℕ
  pub mempool_fee_estimator_num_mempool_blocks : ℕ
  pub mempool_fee_estimator_num_past_blocks : ℕ
  pub max_block_size_bytes_pos : ℕ
  pub soft_max_block_size_bytes_pos : ℕ
  pub max_txn_size_bytes_pos : ℕ
  pub block_production_interval_milliseconds_pos : ℕ
  pub timeout_interval_milliseconds_pos : ℕ

pub record LibValidatorEntry : Type 0 where
  pub validator_pkid : Option Bytes
  pub domains : Option (List Bytes)
  pub disable_delegated_stake : Bool
  pub delegated_stake_commission_basis_points : ℕ
  pub voting_public_key : Option Bytes
  pub voting_authorization : Option Bytes
  pub total_stake_amount_nanos : ℕ
  pub last_active_at_epoch_number : ℕ
  pub jailed_at_epoch_number : ℕ
  pub extra_data : List (String × Bytes)

pub record LibBlsPublicKeyPkidPairEntry : Type 0 where
  pub pkid : Option Bytes
  pub bls_public_key : Option Bytes

pub record LibStakeRewardStateChangeMetadata : Type 0 where
  pub staker_pkid : Option Bytes
  pub validator_pkid : Option Bytes
  pub staking_reward_method : ℕ
  pub reward_nanos : ℕ
  pub is_validator_commission : Bool

pub record LibUnjailValidatorStateChangeMetadata : Type 0 where
  pub validator_pkid : Option Bytes
  pub jailed_at_epoch_number : ℕ
  pub unjailed_at_epoch_number : ℕ
