-- ===== src/Entries/UtxoOperation.antt =====
-- entries/utxo_operation.go: what the UTXO operations of blocks say of transactions. On the initial
-- sync the entries bring their blocks, and the transactions are inserted; after it, their metadata
-- are updated.
pub mod Affected
pub mod Bundle
pub mod Gather
pub mod Written
pub mod Sync
pub mod Orphan
pub mod Failure
use postgres_data_handler.Base.{
  ℕ, String, Option, none, some, List, [], ◌∷◌, map, Bytes, Bool, if◌then◌else◌,
}
use postgres_data_handler.Go.{
  Exec, Result, ok, err, panic, reword, lift, bind, wrap, first, unless_empty, ◌>>=◌, ◌>>◌,
}
use postgres_data_handler.Core.Chain.{UtxoOperation}
use postgres_data_handler.Core.{OperationType, is_delete, StateChangeEntry}
use postgres_data_handler.Schema.Chain.{TransactionEntry, UtxoOperationEntry}
use postgres_data_handler.Schema.{
  Table, Row, Value, Column, badger_key, block_hash, signer_index, public_key, transaction_hash,
  metadata, utxo_op_index, validator_pkid, jailed_at_epoch_number, unjailed_at_epoch_number,
}
use postgres_data_handler.Env.{
  Codec, Env, World, insert, delete, update_metadata, on_upsert, exec, OnConflict, do_update,
  do_nothing, Action,
}
use postgres_data_handler.Entries.Transaction.{bulk_insert_transaction_entry}
use postgres_data_handler.Entries.UtxoOperation.Bundle.{op_type}
use postgres_data_handler.Entries.UtxoOperation.Gather.{
  convert_utxo_operation_key_to_block_hash_hex, Collected, collect_each,
}

module _ (C : Codec) where
  unfoldable pub utxo_operation_encoder_to_pg_struct :
      UtxoOperation → Bytes → ℕ → ℕ → ℕ → Result UtxoOperationEntry
  utxo_operation_encoder_to_pg_struct e key_bytes transaction_index op_index block_height =
      bind (convert_utxo_operation_key_to_block_hash_hex C key_bytes) λ hash. ok (record {
        operation_type = op_type e;
        transaction_index = transaction_index;
        utxo_op_index = op_index;
        block_hash = hash;
        utxo_op_bytes = C.encode_utxo_operation block_height e;
      })

abbrev pub on_conflict : Action → List Column → Option OnConflict
on_conflict action target = some (record { target = target; action = action })

module _ (X : Env) where
  -- The transactions, blocks and signers of an initial sync.
  unfoldable pub insert_blocks : Collected → OperationType → Exec (World X) Unit
  insert_blocks c operation_type = do
    reword "entries.bulkInsertUtxoOperationsEntry: Problem inserting transaction entries: %v"
        (bulk_insert_transaction_entry X c.parsed.transaction_updates operation_type)
    wrap "entries.bulkInsertBlock: Error inserting entries" (
        exec X (
          insert Table.block (map Row.block c.blocks) (on_upsert operation_type (block_hash ∷ []))))
    unless_empty c.signers (
        wrap "entries.bulkInsertBlockSigners: Error inserting block signer entries" (
          exec X (
            insert Table.block_signer (map Row.block_signer c.signers)
              (on_upsert operation_type (block_hash ∷ signer_index ∷ [])))))

  unfoldable pub write_transactions : Collected → OperationType → Exec (World X) Unit
  write_transactions c operation_type =
      if c.insert_transactions
      then insert_blocks c operation_type
      else wrap "InsertTransactionEntryUtxoOps: Problem updating transactionEntryUtxoOps"
          (exec X (update_metadata c.parsed.transaction_updates))

  -- The queries after the loop.
  unfoldable pub write_collected : Collected → OperationType → Exec (World X) Unit
  write_collected c operation_type = do
    unless_empty c.parsed.transaction_updates (write_transactions c operation_type)
    unless_empty c.parsed.affected_public_keys (
        wrap "InsertAffectedPublicKeys: Problem inserting affectedPublicKeys" (
          exec X (
            insert Table.affected_public_key
              (map Row.affected_public_key c.parsed.affected_public_keys)
              (on_conflict do_update (public_key ∷ transaction_hash ∷ metadata ∷ [])))))
    unless_empty c.parsed.stake_rewards (
        wrap "InsertStakeRewards: Problem inserting stake rewards" (
          exec X (
            insert Table.stake_reward (map Row.stake_reward c.parsed.stake_rewards)
              (on_conflict do_update (block_hash ∷ utxo_op_index ∷ [])))))
    unless_empty c.parsed.jailed_history (
        wrap "InsertJailedHistory: Problem inserting jailed history" (
          exec X (
            insert Table.jailed_history_event (map Row.jailed_history_event c.parsed.jailed_history)
              (on_conflict do_nothing
                (validator_pkid ∷ jailed_at_epoch_number ∷ unjailed_at_epoch_number ∷ [])))))

  unfoldable pub bulk_insert_utxo_operations_entry :
      List StateChangeEntry → OperationType → X.Params → Exec (World X) Unit
  bulk_insert_utxo_operations_entry entries operation_type params = do
    c ← collect_each X params (X.unique_entries entries)
    write_collected c operation_type

  unfoldable pub bulk_delete_utxo_operation_entry :
      List StateChangeEntry → OperationType → Exec (World X) Unit
  bulk_delete_utxo_operation_entry entries operation_type = do
    let unique_entries = X.unique_entries entries
    let keys_to_delete = X.keys_to_delete unique_entries
    wrap "entries.bulkDeleteUtxoOperationEntry: Error deleting entries"
        (exec X (delete Table.utxo_operation badger_key (map Value.bytes keys_to_delete)))

  unfoldable pub utxo_operation_batch_operation :
      List StateChangeEntry → X.Params → Exec (World X) Unit
  utxo_operation_batch_operation entries params = do
    entry ← lift (first entries)
    let operation_type = entry.operation_type
    wrap "entries.PostBatchOperation: Problem with operation type %v" (
        if is_delete operation_type
        then bulk_delete_utxo_operation_entry entries operation_type
        else bulk_insert_utxo_operations_entry entries operation_type params)
