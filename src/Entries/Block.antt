-- ===== src/Entries/Block.antt =====
-- entries/block.go: blocks with their transactions and signers, and the blocks that are orphaned.
pub mod Signers
pub mod Purge
pub mod Placement
use postgres_data_handler.Base.{
  ℕ, zero, suc, ◌+◌, ◌%◌, ◌^◌, ◌==◌, Bool, true, false, not, String, Option, none, some, List, [],
  ◌∷◌, ◌++◌, map, keep, Bytes, if◌then◌else◌,
}
use postgres_data_handler.Go.{
  Exec, Result, ok, err, panic, errorf, type_assertion, lift, fail, pure, bind, wrap, rewrap,
  map_result, first, unless_empty, ◌>>=◌, ◌>>◌,
}
use postgres_data_handler.Core.Chain.{
  LibTxn, LibBlock, LibBlockNode, Interface, nil_interface, nil_pointer, value,
  LibQuorumCertificate, LibAggregatedSignature, txn_meta, get_txn_type,
}
use postgres_data_handler.Core.{Encoder, OperationType, is_delete, is_insert, StateChangeEntry}
use postgres_data_handler.Schema.Chain.{BlockEntry, BlockSigner, TransactionEntry}
use postgres_data_handler.Schema.{Table, Row, Value, badger_key, block_hash, signer_index}
use postgres_data_handler.Env.{Codec, Env, World, insert, delete, on_upsert, exec}
use postgres_data_handler.Entries.Transaction.{
  transaction_encoder_to_pg_struct, parse_inner_txns_from_atomic_txn, bulk_insert_transaction_entry,
}

-- `isInterfaceNil(i)`
unfoldable pub is_interface_nil : {A : Type 0} → Interface A → Bool
is_interface_nil nil_interface = true
is_interface_nil nil_pointer = true
is_interface_nil (value a) = false

-- The loop over the signers' list, from the index that it has reached.
unfoldable pub signers_from : String → ℕ → List Bool → List BlockSigner
signers_from block_hash_hex ii [] = []
signers_from block_hash_hex ii (bit ∷ bits) =
    let rest = signers_from block_hash_hex (suc ii) bits in
    if not bit then rest else record { block_hash = block_hash_hex; signer_index = ii } ∷ rest

unfoldable pub aggregated_signers : String → Interface LibAggregatedSignature → List BlockSigner
aggregated_signers block_hash_hex (value agg_sig) =
    signers_from block_hash_hex 0 agg_sig.signers_list
aggregated_signers block_hash_hex _ = []

unfoldable pub qc_signers : String → Interface LibQuorumCertificate → List BlockSigner
qc_signers block_hash_hex (value qc) = aggregated_signers block_hash_hex qc.aggregated_signature
qc_signers block_hash_hex _ = []

module _ (C : Codec) where
  unfoldable pub block_encoder_to_pg_struct :
      LibBlock → Bytes → C.Params → BlockEntry × List BlockSigner
  block_encoder_to_pg_struct block key_bytes params =
      let block_hash_hex = C.hex (C.block_hash block) in
      let header = block.header in
      (
        record {
          block_hash = block_hash_hex;
          prev_block_hash = C.hex header.prev_block_hash;
          txn_merkle_root = C.hex header.transaction_merkle_root;
          timestamp = C.unix_nano_to_time (header.tstamp_nano_secs % 2 ^ 64);
          height = header.height;
          nonce = header.nonce;
          extra_nonce = header.extra_nonce;
          block_version = header.version;
          proposer_voting_public_key = C.bls_to_string header.proposer_voting_public_key;
          proposer_random_seed_signature = C.bls_to_string header.proposer_random_seed_signature;
          proposed_in_view = header.proposed_in_view;
          proposer_vote_partial_signature = C.bls_to_string header.proposer_vote_partial_signature;
          badger_key = key_bytes;
        },
        qc_signers block_hash_hex header.qc,
      )

  -- The loop over the transactions of a block, from the index that it has reached.
  unfoldable pub block_txns_from :
      ℕ → List LibTxn → BlockEntry → C.Params → Result (List TransactionEntry)
  block_txns_from jj [] block_entry params = ok []
  block_txns_from jj (transaction ∷ txns) block_entry params =
      let rest = block_txns_from (suc jj) txns block_entry params in
      bind
        (rewrap "entries.bulkInsertBlockEntry: Problem converting transaction to PG struct" (
          transaction_encoder_to_pg_struct C transaction (some jj) block_entry.block_hash
            block_entry.height block_entry.timestamp none none params))
        λ pg_transaction_entry.
          if get_txn_type (txn_meta transaction) == C.txn_type_atomic_txns_wrapper
          then (bind
              (rewrap "entries.bulkInsertBlockEntry: Problem parsing inner txns from atomic txn"
                (parse_inner_txns_from_atomic_txn C (some pg_transaction_entry) params))
              λ inner_txns. bind rest λ more. ok (pg_transaction_entry ∷ inner_txns ++ more))
          else (bind rest λ more. ok (pg_transaction_entry ∷ more))

unfoldable pub as_block : Encoder → Result LibBlock
as_block (Encoder.block b) = ok b
as_block _ = panic type_assertion

unfoldable pub as_block_node : Encoder → Result LibBlockNode
as_block_node (Encoder.block_node n) = ok n
as_block_node _ = panic type_assertion

-- The three slices of `bulkInsertBlockEntry`.
pub record BlockRows : Type 0 where
  pub blocks : List BlockEntry
  pub transactions : List TransactionEntry
  pub signers : List BlockSigner

module _ (X : Env) where
  -- What the loop over the blocks appends to the slices.
  unfoldable pub block_rows : X.Params → List StateChangeEntry → Result BlockRows
  block_rows params [] = ok (record { blocks = []; transactions = []; signers = [] })
  block_rows params (entry ∷ entries) =
      let rest = block_rows params entries in
      bind (as_block entry.encoder) λ block.
        let (block_entry, block_signers) =
          block_encoder_to_pg_struct X.codec block entry.key_bytes params in
        bind (block_txns_from X.codec 0 block.txns block_entry params) λ transactions.
          bind rest λ more. ok (record {
            blocks = block_entry ∷ more.blocks;
            transactions = transactions ++ more.transactions;
            signers = block_signers ++ more.signers;
          })

  unfoldable pub insert_block_rows : BlockRows → OperationType → Exec (World X) Unit
  insert_block_rows rows operation_type = do
    wrap "entries.bulkInsertBlock: Error inserting entries" (
        exec X (
          insert Table.block (map Row.block rows.blocks)
            (on_upsert operation_type (block_hash ∷ []))))
    wrap "entries.bulkInsertBlock: Error inserting transaction entries"
        (bulk_insert_transaction_entry X rows.transactions operation_type)
    unless_empty rows.signers (
        wrap "entries.bulkInsertBlockEntry: Error inserting block signers" (
          exec X (
            insert Table.block_signer (map Row.block_signer rows.signers)
              (on_upsert operation_type (block_hash ∷ signer_index ∷ [])))))

  unfoldable pub bulk_insert_block_entry :
      List StateChangeEntry → OperationType → X.Params → Exec (World X) Unit
  bulk_insert_block_entry entries operation_type params =
      if is_insert operation_type then pure tt else do
        rows ← lift (block_rows params (X.unique_entries entries))
        insert_block_rows rows operation_type

  unfoldable pub delete_by_block_hash : Table → List Bytes → String → Exec (World X) Unit
  delete_by_block_hash table keys_to_delete message = wrap message (
      exec X (
        delete table block_hash
          (map (λ k. Value.text (X.hex (X.get_block_hash_bytes_from_key k))) keys_to_delete)))

  unfoldable pub bulk_delete_block_entries_from_keys_to_delete : List Bytes → Exec (World X) Unit
  bulk_delete_block_entries_from_keys_to_delete keys_to_delete = do
    wrap "entries.bulkDeleteBlockEntry: Error deleting entries"
        (exec X (delete Table.block badger_key (map Value.bytes keys_to_delete)))
    delete_by_block_hash Table.transaction keys_to_delete
        "entries.bulkDeleteBlockEntry: Error deleting transaction entries"
    delete_by_block_hash Table.utxo_operation keys_to_delete
        "entries.bulkDeleteBlockEntry: Error deleting utxo operation entries"
    delete_by_block_hash Table.block_signer keys_to_delete
        "entries.bulkDeleteBlockEntry: Error deleting block signers"
    delete_by_block_hash Table.stake_reward keys_to_delete
        "entries.bulkDeleteBlockEntry: Error deleting stake rewards"

  unfoldable pub bulk_delete_block_entry :
      List StateChangeEntry → OperationType → Exec (World X) Unit
  bulk_delete_block_entry entries operation_type = do
    let unique_entries = X.unique_entries entries
    let keys_to_delete = X.keys_to_delete unique_entries
    bulk_delete_block_entries_from_keys_to_delete keys_to_delete

  unfoldable pub block_batch_operation : List StateChangeEntry → X.Params → Exec (World X) Unit
  block_batch_operation entries params = do
    entry ← lift (first entries)
    let operation_type = entry.operation_type
    wrap "entries.PostBatchOperation: Problem with operation type %v" (
        if is_delete operation_type
        then bulk_delete_block_entry entries operation_type
        else bulk_insert_block_entry entries operation_type params)

  -- The keys of the blocks that are not committed.
  unfoldable pub orphaned_keys : List LibBlockNode → List Bytes
  orphaned_keys block_nodes =
      map (λ n. X.block_hash_to_block_key n.hash) (keep (λ n. not n.is_committed) block_nodes)

  unfoldable pub delete_orphans : List StateChangeEntry → Exec (World X) Unit
  delete_orphans entries = do
    block_nodes ← lift (map_result (λ e. as_block_node e.encoder) (X.unique_entries entries))
    unless_empty (orphaned_keys block_nodes)
        (bulk_delete_block_entries_from_keys_to_delete (orphaned_keys block_nodes))

  unfoldable pub block_node_operation : List StateChangeEntry → X.Params → Exec (World X) Unit
  block_node_operation entries params = do
    entry ← lift (first entries)
    let operation_type = entry.operation_type
    (if is_delete operation_type
        then fail (errorf "BlockNodeOperation: Delete operation not supported")
        else delete_orphans entries)
