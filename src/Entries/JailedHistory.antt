-- ===== src/Entries/JailedHistory.antt =====
-- entries/jailed_history.go: rows of the table of `PGJailedHistoryEvent`. The batch operation calls
-- the bulk functions of the validators, and nothing calls the two of this file.
pub mod Laws
use postgres_data_handler.Base.{List, [], ◌∷◌, if◌then◌else◌}
use postgres_data_handler.Go.{
  Exec, Result, ok, panic, type_assertion, lift, bind, wrap, map_result, first, ◌>>=◌,
}
use postgres_data_handler.Core.Staking.{LibUnjailValidatorStateChangeMetadata}
use postgres_data_handler.Core.{Encoder, OperationType, is_delete, StateChangeEntry}
use postgres_data_handler.Schema.Staking.{JailedHistoryEntry}
use postgres_data_handler.Schema.{
  Table, Row, validator_pkid, jailed_at_epoch_number, unjailed_at_epoch_number,
}
use postgres_data_handler.Env.{Codec, Env, World, insert, on_upsert, exec, if_set}
use postgres_data_handler.Entries.Validator.{
  bulk_insert_validator_entry, bulk_delete_validator_entry,
}

module _ (C : Codec) where
  unfoldable pub unjail_validator_state_change_metadata_encoder_to_pg_struct :
      LibUnjailValidatorStateChangeMetadata → C.Params → JailedHistoryEntry
  unjail_validator_state_change_metadata_encoder_to_pg_struct e params = record {
    validator_pkid = if_set e.validator_pkid (λ k. C.public_key_to_base58 k params) "";
    jailed_at_epoch_number = e.jailed_at_epoch_number;
    unjailed_at_epoch_number = e.unjailed_at_epoch_number;
  }

unfoldable pub as_unjail_validator_state_change_metadata :
    Encoder → Result LibUnjailValidatorStateChangeMetadata
as_unjail_validator_state_change_metadata (Encoder.unjail_validator_state_change_metadata e) = ok e
as_unjail_validator_state_change_metadata _ = panic type_assertion

module _ (X : Env) where
  -- `&PGJailedHistoryEvent{…}` for one entry.
  unfoldable pub to_row : X.Params → StateChangeEntry → Result Row
  to_row params entry = bind (as_unjail_validator_state_change_metadata entry.encoder) λ e. ok (
      Row.jailed_history_event
        (unjail_validator_state_change_metadata_encoder_to_pg_struct X.codec e params))

  unfoldable pub jailed_history_event_batch_operation :
      List StateChangeEntry → X.Params → Exec (World X) Unit
  jailed_history_event_batch_operation entries params = do
    entry ← lift (first entries)
    let operation_type = entry.operation_type
    wrap "entries.ValidatorBatchOperation: Problem with operation type %v" (
        if is_delete operation_type
        then bulk_delete_validator_entry X entries operation_type
        else bulk_insert_validator_entry X entries operation_type params)

  unfoldable pub bulk_insert_jailed_history_event :
      List StateChangeEntry → OperationType → X.Params → Exec (World X) Unit
  bulk_insert_jailed_history_event entries operation_type params = do
    let unique_entries = X.unique_entries entries
    pg_entry_slice ← lift (map_result (to_row params) unique_entries)
    wrap "entries.bulkInsertJailedHistoryEvent: Error inserting entries" (
        exec X (
          insert Table.jailed_history_event pg_entry_slice (
            on_upsert operation_type
              (validator_pkid ∷ jailed_at_epoch_number ∷ unjailed_at_epoch_number ∷ []))))
