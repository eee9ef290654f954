-- ===== src/Entries/UtxoOperation/Gather.antt =====
-- The loop over the entries of bulkInsertUtxoOperationsEntry of entries/utxo_operation.go: the
-- transactions of each bundle, from the block that an entry brings or from the database, and what
-- the bundle says of them.
pub mod Laws
pub mod Agreement
pub mod Attached
use postgres_data_handler.Base.{
  ℕ, zero, suc, ◌==◌, ◌^◌, ◌%◌, Bool, true, false, ◌||◌, not, ltb, String, Option, none, some, List,
  [], ◌∷◌, ◌++◌, length, get_elem?, Bytes, bytes_eq, if◌then◌else◌,
}
use postgres_data_handler.Go.{
  Exec, Result, ok, err, panic, errorf, pure, lift, bind, rewrap, restate, slice_from, slice_to,
  ◌>>=◌, ◌>>◌,
}
use postgres_data_handler.Core.Chain.{
  LibTxn, LibBlock, txn_meta, get_txn_type, UtxoOperation, utxo_operation, InnerUtxoOps, nil_inner,
  inner, utxo_op_lists,
}
use postgres_data_handler.Core.{Encoder, StateChangeEntry}
use postgres_data_handler.Schema.Staking.{StakeReward, JailedHistoryEntry}
use postgres_data_handler.Schema.Chain.{
  BlockEntry, BlockSigner, TransactionEntry, AffectedPublicKeyEntry,
}
use postgres_data_handler.Schema.{Column, transaction_hash, block_hash}
use postgres_data_handler.Env.{Codec, Env, World}
use postgres_data_handler.Entries.Transaction.{
  transaction_encoder_to_pg_struct, parse_inner_txns_from_atomic_txn,
}
use postgres_data_handler.Entries.Block.{block_encoder_to_pg_struct}
use postgres_data_handler.Entries.UtxoOperation.Bundle.{
  Parsed, append_parsed, nothing_parsed, parse_utxo_operation_bundle,
}

-- `ConvertUtxoOperationKeyToBlockHashHex`
unfoldable pub convert_utxo_operation_key_to_block_hash_hex : (C : Codec) → Bytes → Result String
convert_utxo_operation_key_to_block_hash_hex C key_bytes =
    bind (slice_from 1 key_bytes) λ hash. ok (C.hex hash)

unfoldable pub as_bundle : Encoder → Result (List (List UtxoOperation))
as_bundle (Encoder.utxo_operation_bundle b) = ok b
as_bundle _ = err (errorf "entries.bulkInsertUtxoOperationsEntry: Problem with entry %v")

-- The transactions of one bundle, and the inner ones with their operations.
pub record Gathered : Type 0 where
  pub transactions : List TransactionEntry
  pub inner_transactions : List TransactionEntry
  pub inner_utxo_operations : List (List UtxoOperation)

abbrev pub nothing_gathered : Gathered
nothing_gathered = record { transactions = []; inner_transactions = []; inner_utxo_operations = [] }

-- `AtomicTxnsInnerUtxoOps` of the wrapper's operation, checked against the number of inner
-- transactions.
unfoldable pub inner_ops : Option UtxoOperation → ℕ → Result (List (List UtxoOperation))
inner_ops none n = err (errorf "getInnerTxnsFromAtomicTxn: atomic txn has no utxo operation")
inner_ops (some (utxo_operation t m nil_inner)) n =
    err (errorf "getInnerTxnsFromAtomicTxn: atomic txn has no inner utxo operations")
inner_ops (some (utxo_operation t m (inner lists))) n =
    if length (utxo_op_lists lists) == n
    then ok (utxo_op_lists lists)
    else err (errorf "getInnerTxnsFromAtomicTxn: atomic txn has no inner utxo operations")

module _ (C : Codec) (params : C.Params) where
  unfoldable pub get_inner_txns_from_atomic_txn :
      Option TransactionEntry
      → List UtxoOperation
      → Result (List TransactionEntry × List (List UtxoOperation))
  get_inner_txns_from_atomic_txn pg_atomic_txn utxo_operations =
      bind
        (rewrap "getInnerTxnsFromAtomicTxn: Problem parsing inner txns"
          (parse_inner_txns_from_atomic_txn C pg_atomic_txn params))
        λ inner_txns.
          bind
            (inner_ops
              (C.get_utxo_op_by_operation_type utxo_operations C.operation_type_atomic_txns_wrapper)
              (length inner_txns))
            λ ops. ok (inner_txns, ops)

  -- The inner transactions of a wrapper, from its entry of the bundle.
  abbrev pub inner_at :
      Option (List UtxoOperation)
      → Option TransactionEntry
      → Result (List TransactionEntry × List (List UtxoOperation))
  inner_at none pg_atomic_txn =
      err (errorf "entries.bulkInsertUtxoOperationsEntry: not enough utxo operations")
  inner_at (some utxo_ops) pg_atomic_txn =
      rewrap "entries.bulkInsertUtxoOperationsEntry: Problem getting inner transactions"
        (get_inner_txns_from_atomic_txn pg_atomic_txn utxo_ops)

  abbrev pub add_txn :
      TransactionEntry → List TransactionEntry × List (List UtxoOperation) → Gathered → Gathered
  add_txn t (inner_txns, ops) g = record {
    transactions = t ∷ g.transactions;
    inner_transactions = inner_txns ++ g.inner_transactions;
    inner_utxo_operations = ops ++ g.inner_utxo_operations;
  }

  -- The loop over the transactions of an attached block.
  unfoldable pub gather_block_from :
      ℕ → List LibTxn → List (List UtxoOperation) → BlockEntry → Result Gathered
  gather_block_from ii [] bundle block_entry = ok nothing_gathered
  gather_block_from ii (transaction ∷ txns) bundle block_entry =
      let rest = gather_block_from (suc ii) txns bundle block_entry in
      bind
        (rewrap "entries.bulkInsertUtxoOperationsEntry: Problem converting transaction to PG struct"
          (transaction_encoder_to_pg_struct C transaction (some ii) block_entry.block_hash
            block_entry.height block_entry.timestamp none none params))
        λ pg_txn.
          bind
            (if get_txn_type (txn_meta transaction) == C.txn_type_atomic_txns_wrapper
              then inner_at (get_elem? bundle ii) (some pg_txn)
              else ok ([], []))
            λ inner_part. bind rest λ more. ok (add_txn pg_txn inner_part more)

  -- `pgAtomicTxn, err := TransactionEncoderToPGStruct(…)`, whose error is not looked at.
  abbrev pub or_nil : Result TransactionEntry → Result (Option TransactionEntry)
  or_nil (ok t) = ok (some t)
  or_nil (err e) = ok none
  or_nil (panic p) = panic p

  -- The inner transactions of a wrapper that the database gave, encoded again from its bytes.
  unfoldable pub inner_of_stored :
      ℕ
      → List (List UtxoOperation)
      → TransactionEntry
      → Result (List TransactionEntry × List (List UtxoOperation))
  inner_of_stored ii bundle pg_txn =
      bind
        (rewrap "entries.bulkInsertUtxoOperationsEntry: Problem decoding atomic txn"
          (C.txn_from_bytes pg_txn.txn_bytes))
        λ atomic_txn.
          bind
            (or_nil (
              transaction_encoder_to_pg_struct C atomic_txn pg_txn.index_in_block pg_txn.block_hash
                pg_txn.block_height pg_txn.timestamp none none params))
            λ pg_atomic_txn. inner_at (get_elem? bundle ii) pg_atomic_txn

  -- The loop over the transactions that the database gave.
  unfoldable pub gather_stored_from :
      ℕ → List TransactionEntry → List (List UtxoOperation) → Result Gathered
  gather_stored_from ii [] bundle = ok nothing_gathered
  gather_stored_from ii (pg_txn ∷ txns) bundle =
      let rest = gather_stored_from (suc ii) txns bundle in
      bind
        (if pg_txn.txn_type == C.txn_type_atomic_txns_wrapper % 2 ^ 16
          then inner_of_stored ii bundle pg_txn
          else ok ([], []))
        λ inner_part. bind rest λ more. ok (add_txn pg_txn inner_part more)

-- The slices that the loop over the entries fills, and its flag.
pub record Collected : Type 0 where
  pub parsed : Parsed
  pub blocks : List BlockEntry
  pub signers : List BlockSigner
  pub insert_transactions : Bool

abbrev pub nothing_collected : Collected
nothing_collected = record {
  parsed = nothing_parsed;
  blocks = [];
  signers = [];
  insert_transactions = false;
}

abbrev pub append_collected : Collected → Collected → Collected
append_collected c d = record {
  parsed = append_parsed c.parsed d.parsed;
  blocks = c.blocks ++ d.blocks;
  signers = c.signers ++ d.signers;
  insert_transactions = c.insert_transactions || d.insert_transactions;
}

module _ (X : Env) (params : X.Params) where
  -- `filterField`
  unfoldable pub filter_field : Bytes → Result Column
  filter_field key_bytes = bind (slice_to 1 key_bytes) λ prefix.
      if bytes_eq prefix X.prefix_txn_hash_to_utxo_ops
      then ok transaction_hash
      else if bytes_eq prefix X.prefix_block_hash_to_utxo_operations
      then ok block_hash
      else err (errorf "entries.bulkInsertUtxoOperationsEntry: Unrecognized prefix %v")

  unfoldable pub select : Column → String → Exec (World X) (List TransactionEntry)
  select field hash w =
      let (r, s) = X.select_transactions field hash w.database in
      (
        restate
            "entries.bulkInsertUtxoOperationsEntry: Problem getting transactions at block height %v: %v"
            r,
        record w { database = s },
      )

  -- The bundle's transactions and the inner ones, both parsed.
  unfoldable pub parse_gathered : List (List UtxoOperation) → String → Gathered → Result Parsed
  parse_gathered bundle block_hash_hex g =
      bind
        (rewrap "entries.bulkInsertUtxoOperationsEntry: Problem parsing utxo operation bundle"
          (parse_utxo_operation_bundle X.codec params bundle g.transactions block_hash_hex))
        λ outer.
          bind
            (rewrap
              "entries.bulkInsertUtxoOperationsEntry: Problem parsing inner utxo operation bundle"
              (parse_utxo_operation_bundle X.codec params g.inner_utxo_operations
                g.inner_transactions block_hash_hex))
            λ inner_part. ok (append_parsed outer inner_part)

  -- An entry with a block.
  unfoldable pub collect_block :
      StateChangeEntry → LibBlock → List (List UtxoOperation) → String → Result Collected
  collect_block entry block bundle block_hash_hex =
      let (block_entry, block_signers) =
        block_encoder_to_pg_struct X.codec block entry.key_bytes params in
      bind (gather_block_from X.codec params 0 block.txns bundle block_entry) λ g.
        bind (parse_gathered bundle block_hash_hex g) λ p. ok (record {
          parsed = p;
          blocks = block_entry ∷ [];
          signers = block_signers;
          insert_transactions = true;
        })

  -- An entry without one.
  unfoldable pub collect_stored :
      StateChangeEntry → List (List UtxoOperation) → String → Exec (World X) Collected
  collect_stored entry bundle block_hash_hex = do
    field ← lift (filter_field entry.key_bytes)
    transactions ← select field block_hash_hex
    g ← lift (gather_stored_from X.codec params 0 transactions bundle)
    p ← lift (parse_gathered bundle block_hash_hex g)
    pure (record nothing_collected { parsed = p })

  abbrev pub collect_bundle :
      StateChangeEntry
      → List (List UtxoOperation)
      → String
      → Option LibBlock
      → Exec (World X) Collected
  collect_bundle entry bundle block_hash_hex (some block) =
      lift (collect_block entry block bundle block_hash_hex)
  collect_bundle entry bundle block_hash_hex none = collect_stored entry bundle block_hash_hex

  unfoldable pub collect_one : StateChangeEntry → Exec (World X) Collected
  collect_one entry = do
    block_hash_hex ← lift (convert_utxo_operation_key_to_block_hash_hex X.codec entry.key_bytes)
    bundle ← lift (as_bundle entry.encoder)
    collect_bundle entry bundle block_hash_hex entry.block

  unfoldable pub collect_each : List StateChangeEntry → Exec (World X) Collected
  collect_each [] = pure nothing_collected
  collect_each (entry ∷ entries) = do
    c ← collect_one entry
    more ← collect_each entries
    pure (append_collected c more)
