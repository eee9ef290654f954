-- ===== src/Entries/Transaction.antt =====
-- entries/transaction.go: transactions, and the inner transactions of an atomic wrapper.
use postgres_data_handler.Base.{
  ℕ, suc, ◌%◌, ◌^◌, ◌==◌, String, Option, none, some, List, [], ◌∷◌, ◌++◌, map, Time, if◌then◌else◌,
}
use postgres_data_handler.Go.{
  Exec, Result, ok, err, panic, errorf, type_assertion, lift, bind, wrap, rewrap, pure, first,
  ◌>>=◌,
}
use postgres_data_handler.Core.Chain.{
  LibTxn, LibTxnMeta, atomic_txns_wrapper, other_meta, txns_list, txn_body, txn_meta, get_txn_type,
}
use postgres_data_handler.Core.{Encoder, OperationType, is_delete, StateChangeEntry}
use postgres_data_handler.Schema.Chain.{TransactionEntry}
use postgres_data_handler.Schema.{Table, Row, Value, badger_key, transaction_hash, txn_type}
use postgres_data_handler.Env.{Codec, Env, World, insert, delete, on_upsert, exec, if_set}

module _ (C : Codec) where
  unfoldable pub transaction_encoder_to_pg_struct :
      LibTxn
      → Option ℕ
      → String
      → ℕ
      → Time
      → Option String
      → Option ℕ
      → C.Params
      → Result TransactionEntry
  transaction_encoder_to_pg_struct transaction block_index block_hash block_height timestamp
        wrapper_transaction_hash index_in_wrapper_transaction params =
      let body = txn_body transaction in
      let meta = txn_meta transaction in
      bind
        (rewrap "TransactionEncoderToPGStruct: Problem converting txn meta to bytes"
          (C.txn_meta_to_bytes meta))
        λ txn_meta_bytes.
          bind
            (rewrap "TransactionEncoderToPGStruct: Problem converting txn to bytes"
              (C.txn_to_bytes transaction))
            λ txn_bytes. ok (record {
              transaction_hash = C.hex (C.txn_hash transaction);
              transaction_id = C.public_key_to_base58 (C.txn_hash transaction) params;
              block_hash = block_hash;
              version = body.txn_version % 2 ^ 16;
              inputs =
                  map (λ (txid, index). ("txid", C.hex txid) ∷ ("index", C.decimal index) ∷ [])
                    body.tx_inputs;
              outputs =
                  map
                    (λ (public_key, amount).
                      ("public_key", C.public_key_to_base58 public_key params)
                      ∷ ("amount_nanos", C.decimal amount)
                      ∷ [])
                    body.tx_outputs;
              fee_nanos = body.txn_fee_nanos;
              nonce_expiration_block_height =
                  if_set body.txn_nonce (λ n. n.expiration_block_height) 0;
              nonce_partial_id = if_set body.txn_nonce (λ n. n.partial_id) 0;
              txn_meta = meta;
              tx_index_metadata = record { deso_encoder = none; transaction_extra_metadata = none };
              tx_index_basic_transfer_metadata = none;
              txn_meta_bytes = txn_meta_bytes;
              txn_bytes = txn_bytes;
              txn_type = get_txn_type meta % 2 ^ 16;
              public_key = C.public_key_to_base58 body.public_key params;
              extra_data = C.extra_data_to_strings body.extra_data params;
              signature = if_set body.signature (λ s. s) [];
              index_in_block = block_index;
              block_height = block_height;
              timestamp = timestamp;
              wrapper_transaction_hash = wrapper_transaction_hash;
              index_in_wrapper_transaction = index_in_wrapper_transaction;
              badger_key = C.txn_hash transaction;
            })

  -- The loop over the wrapper's transactions, from the index that it has reached.
  unfoldable pub inner_txns_from :
      ℕ → List LibTxn → TransactionEntry → C.Params → Result (List TransactionEntry)
  inner_txns_from ii [] pg_atomic_txn params = ok []
  inner_txns_from ii (inner_txn ∷ txns) pg_atomic_txn params =
      let rest = inner_txns_from (suc ii) txns pg_atomic_txn params in
      bind
        (rewrap "getInnerTxnsFromAtomicTxn: Problem converting inner txn to PG struct" (
          transaction_encoder_to_pg_struct inner_txn none pg_atomic_txn.block_hash
            pg_atomic_txn.block_height pg_atomic_txn.timestamp (some pg_atomic_txn.transaction_hash)
            (some ii) params))
        λ pg_inner_txn. bind rest λ inner_txns. ok (pg_inner_txn ∷ inner_txns)

  abbrev pub inner_of_meta :
      LibTxnMeta → TransactionEntry → C.Params → Result (List TransactionEntry)
  inner_of_meta (atomic_txns_wrapper t txns) pg_atomic_txn params =
      inner_txns_from 0 (txns_list txns) pg_atomic_txn params
  inner_of_meta (other_meta t j) pg_atomic_txn params =
      err (errorf "parseInnerTxnsFromAtomicTxn: txn meta is not an atomic txn wrapper")

  unfoldable pub parse_inner_txns_from_atomic_txn :
      Option TransactionEntry → C.Params → Result (List TransactionEntry)
  parse_inner_txns_from_atomic_txn none params =
      err (errorf "parseInnerTxnsFromAtomicTxn: atomicTxn is nil")
  parse_inner_txns_from_atomic_txn (some pg_atomic_txn) params =
      if get_txn_type pg_atomic_txn.txn_meta == C.txn_type_atomic_txns_wrapper
      then inner_of_meta pg_atomic_txn.txn_meta pg_atomic_txn params
      else err (errorf "parseInnerTxnsFromAtomicTxn: txn is not an atomic txn")

unfoldable pub as_txn : Encoder → Result LibTxn
as_txn (Encoder.txn t) = ok t
as_txn _ = panic type_assertion

module _ (X : Env) where
  -- `time.Now()`
  unfoldable pub now : Exec (World X) Time
  now w = let (t, s) = X.time_now w.database in (ok t, record w { database = s })

  -- The loop's body for one transaction, and the loop.
  unfoldable pub transform_one : LibTxn → Time → X.Params → Result (List TransactionEntry)
  transform_one transaction timestamp params =
      bind
        (rewrap
          "entries.transformAndBulkInsertTransactionEntry: Problem converting transaction to PG struct"
          (transaction_encoder_to_pg_struct X.codec transaction (some 0) "" 0 timestamp none none
            params))
        λ transaction_entry.
          if get_txn_type transaction_entry.txn_meta == X.txn_type_atomic_txns_wrapper
          then (bind
              (rewrap
                "entries.transformAndBulkInsertTransactionEntry: Problem parsing inner txns from atomic txn"
                (parse_inner_txns_from_atomic_txn X.codec (some transaction_entry) params))
              λ inner_txns. ok (transaction_entry ∷ inner_txns))
          else ok (transaction_entry ∷ [])

  unfoldable pub transform_each :
      List StateChangeEntry → X.Params → Exec (World X) (List TransactionEntry)
  transform_each [] params = pure []
  transform_each (entry ∷ entries) params = do
    transaction ← lift (as_txn entry.encoder)
    timestamp ← now
    rows ← lift (transform_one transaction timestamp params)
    more ← transform_each entries params
    pure (rows ++ more)

  unfoldable pub transform_transaction_entry :
      List StateChangeEntry → X.Params → Exec (World X) (List TransactionEntry)
  transform_transaction_entry entries params = transform_each (X.unique_entries entries) params

  unfoldable pub bulk_insert_transaction_entry :
      List TransactionEntry → OperationType → Exec (World X) Unit
  bulk_insert_transaction_entry entries operation_type =
      wrap "entries.bulkInsertTransaction: Error inserting entries" (
        exec X (
          insert Table.transaction (map Row.transaction entries)
            (on_upsert operation_type (transaction_hash ∷ txn_type ∷ []))))

  unfoldable pub transform_and_bulk_insert_transaction_entry :
      List StateChangeEntry → OperationType → X.Params → Exec (World X) Unit
  transform_and_bulk_insert_transaction_entry entries operation_type params = do
    pg_transaction_entry_slice ←
        wrap
          "entries.transformAndBulkInsertTransactionEntry: Problem transforming transaction entries"
          (transform_transaction_entry entries params)
    wrap "entries.transformAndBulkInsertTransactionEntry: Problem inserting transaction entries"
        (bulk_insert_transaction_entry pg_transaction_entry_slice operation_type)

  unfoldable pub bulk_delete_transaction_entry :
      List StateChangeEntry → OperationType → Exec (World X) Unit
  bulk_delete_transaction_entry entries operation_type = do
    let unique_entries = X.unique_entries entries
    let keys_to_delete = X.keys_to_delete unique_entries
    wrap "entries.bulkDeleteBlockEntry: Error deleting entries"
        (exec X (delete Table.transaction badger_key (map Value.bytes keys_to_delete)))

  unfoldable pub transaction_batch_operation :
      List StateChangeEntry → X.Params → Exec (World X) Unit
  transaction_batch_operation entries params = do
    entry ← lift (first entries)
    let operation_type = entry.operation_type
    wrap "entries.PostBatchOperation: Problem with operation type %v" (
        if is_delete operation_type
        then bulk_delete_transaction_entry entries operation_type
        else transform_and_bulk_insert_transaction_entry entries operation_type params)
