-- ===== src/Entries/GlobalParamsEntry.antt =====
-- entries/global_params.go: rows of the table of `PGGlobalParamsEntry`.
use postgres_data_handler.Base.{some, List, [], ◌∷◌, map, Bytes, if◌then◌else◌, ◌≡◌, refl, sym, ap}
use postgres_data_handler.Go.{
  Exec, Result, ok, panic, type_assertion, lift, bind, wrap, map_result, first, ◌>>=◌,
}
use postgres_data_handler.Go.Laws.{bind-eq-ok, ok-injective}
use postgres_data_handler.Entries.Batch.{Spec, batch}
use postgres_data_handler.Core.Staking.{LibGlobalParamsEntry}
use postgres_data_handler.Core.{Encoder, OperationType, is_delete, StateChangeEntry}
use postgres_data_handler.Schema.Staking.{GlobalParamsEntry}
use postgres_data_handler.Schema.{Table, Row, Value, badger_key, badger_key_of}
use postgres_data_handler.Env.{Codec, Env, World, insert, delete, on_upsert, exec}

module _ (C : Codec) where
  unfoldable pub global_params_encoder_to_pg_struct :
      LibGlobalParamsEntry → Bytes → C.Params → GlobalParamsEntry
  global_params_encoder_to_pg_struct e key_bytes params =
      let merged = C.merge_global_param_entry_defaults e params in
      record {
        usd_cents_per_bitcoin = merged.usd_cents_per_bitcoin;
        create_profile_fee_nanos = merged.create_profile_fee_nanos;
        create_nft_fee_nanos = merged.create_nft_fee_nanos;
        max_copies_per_nft = merged.max_copies_per_nft;
        minimum_network_fee_nanos_per_kb = merged.minimum_network_fee_nanos_per_kb;
        max_nonce_expiration_block_height_offset = merged.max_nonce_expiration_block_height_offset;
        stake_lockup_epoch_duration = merged.stake_lockup_epoch_duration;
        validator_jail_epoch_duration = merged.validator_jail_epoch_duration;
        leader_schedule_max_num_validators = merged.leader_schedule_max_num_validators;
        validator_set_max_num_validators = merged.validator_set_max_num_validators;
        staking_rewards_max_num_stakes = merged.staking_rewards_max_num_stakes;
        staking_rewards_apy_basis_points = merged.staking_rewards_apy_basis_points;
        epoch_duration_num_blocks = merged.epoch_duration_num_blocks;
        jail_inactive_validator_grace_period_epochs =
            merged.jail_inactive_validator_grace_period_epochs;
        maximum_vested_intersections_per_lockup_transaction =
            merged.maximum_vested_intersections_per_lockup_transaction;
        fee_bucket_growth_rate_basis_points = merged.fee_bucket_growth_rate_basis_points;
        block_timestamp_drift_nano_secs = merged.block_timestamp_drift_nano_secs;
        mempool_max_size_bytes = merged.mempool_max_size_bytes;
        mempool_fee_estimator_num_mempool_blocks = merged.mempool_fee_estimator_num_mempool_blocks;
        mempool_fee_estimator_num_past_blocks = merged.mempool_fee_estimator_num_past_blocks;
        max_block_size_bytes_pos = merged.max_block_size_bytes_pos;
        soft_max_block_size_bytes_pos = merged.soft_max_block_size_bytes_pos;
        max_txn_size_bytes_pos = merged.max_txn_size_bytes_pos;
        block_production_interval_milliseconds_pos =
            merged.block_production_interval_milliseconds_pos;
        timeout_interval_milliseconds_pos = merged.timeout_interval_milliseconds_pos;
        badger_key = key_bytes;
      }

as_global_params_entry : Encoder → Result LibGlobalParamsEntry
as_global_params_entry (Encoder.global_params_entry e) = ok e
as_global_params_entry _ = panic type_assertion

module _ (X : Env) where
  -- `&PGGlobalParamsEntry{…}` for one entry.
  unfoldable pub to_row : X.Params → StateChangeEntry → Result Row
  unfolding as_global_params_entry
  to_row params entry = bind (as_global_params_entry entry.encoder) λ e. ok (
      Row.global_params_entry (global_params_encoder_to_pg_struct X.codec e entry.key_bytes params))

  unfoldable pub bulk_insert_global_params_entry :
      List StateChangeEntry → OperationType → X.Params → Exec (World X) Unit
  bulk_insert_global_params_entry entries operation_type params = do
    let unique_entries = X.unique_entries entries
    pg_entry_slice ← lift (map_result (to_row params) unique_entries)
    wrap "entries.bulkInsertGlobalParamsEntry: Error inserting entries" (
        exec X (
          insert Table.global_params_entry pg_entry_slice
            (on_upsert operation_type (badger_key ∷ []))))

  unfoldable pub bulk_delete_global_params_entry :
      List StateChangeEntry → OperationType → Exec (World X) Unit
  bulk_delete_global_params_entry entries operation_type = do
    let unique_entries = X.unique_entries entries
    let keys_to_delete = X.keys_to_delete unique_entries
    wrap "entries.bulkDeleteGlobalParamsEntry: Error deleting entries"
        (exec X (delete Table.global_params_entry badger_key (map Value.bytes keys_to_delete)))

  unfoldable pub global_params_batch_operation :
      List StateChangeEntry → X.Params → Exec (World X) Unit
  unfolding bulk_insert_global_params_entry bulk_delete_global_params_entry
  global_params_batch_operation entries params = do
    entry ← lift (first entries)
    let operation_type = entry.operation_type
    wrap "entries.PostBatchOperation: Problem with operation type %v" (
        if is_delete operation_type
        then bulk_delete_global_params_entry entries operation_type
        else bulk_insert_global_params_entry entries operation_type params)

  abbrev pub spec : Spec X
  spec = record {
    table = Table.global_params_entry;
    target = badger_key ∷ [];
    to_row = to_row;
    insert_message = "entries.bulkInsertGlobalParamsEntry: Error inserting entries";
    delete_message = "entries.bulkDeleteGlobalParamsEntry: Error deleting entries";
    batch_message = "entries.PostBatchOperation: Problem with operation type %v";
  }

  pub batch_lem :
      (entries : List StateChangeEntry) (params : X.Params)
      → global_params_batch_operation entries params ≡ batch X spec entries params
  unfolding global_params_batch_operation batch
  batch_lem entries params = refl

  -- The row of an entry has the entry's key.
  pub badger_key-to_row :
      (params : X.Params) (entry : StateChangeEntry) (row : Row)
      → to_row params entry ≡ ok row
      → badger_key_of row ≡ some entry.key_bytes
  unfolding to_row global_params_encoder_to_pg_struct
  badger_key-to_row params entry row h =
      let (e, p, q) = bind-eq-ok (as_global_params_entry entry.encoder) _ h in
      sym (ap badger_key_of (ok-injective q))
