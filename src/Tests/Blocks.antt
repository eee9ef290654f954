-- ===== src/Tests/Blocks.antt =====
-- The theorems on blocks, at a block of a plain transaction and an atomic wrapper.
use postgres_data_handler.Base.{
  ℕ, ◌≡◌, ◌↔◌, ◌⊎◌, inl, refl, Bool, true, false, String, Option, none, some, List, [], ◌∷◌, In,
  get_elem?,
}
use postgres_data_handler.Go.{ok, err, panic, first, map_result}
use postgres_data_handler.Core.Chain.{
  LibTxn, LibTxnMeta, atomic_txns_wrapper, other_meta, LibTxns, no_txns, cons_txn, LibBlock, value,
  LibQuorumCertificate, LibAggregatedSignature,
}
use postgres_data_handler.Core.{
  StateChangeEntry, delete_operation, upsert_operation, Encoder, keys_of,
}
use postgres_data_handler.Schema.{Table, Row, block_hash_of, badger_key_of}
use postgres_data_handler.Schema.Chain.{BlockEntry, TransactionEntry}
use postgres_data_handler.Env.{World, exec}
use postgres_data_handler.Entries.Transaction.{
  transaction_encoder_to_pg_struct, inner_txns_from, parse_inner_txns_from_atomic_txn,
}
use postgres_data_handler.Entries.Block.{
  block_encoder_to_pg_struct, block_txns_from, block_batch_operation, bulk_delete_block_entry,
  block_node_operation, bulk_delete_block_entries_from_keys_to_delete, delete_by_block_hash,
  delete_orphans, orphaned_keys, as_block_node,
}
use postgres_data_handler.Entries.Block.Signers.{block_signers_exact}
use postgres_data_handler.Entries.Block.Purge.{
  Purged, Other, child_tables, block_delete_purges, block_nodes_kept, orphans_purged,
}
use postgres_data_handler.Entries.Block.Placement.{
  At, IsOuter, IsInner, block_rows_placed, block_rows_outer, block_rows_inner,
}
use postgres_data_handler.Tests.Encodings.{encodings, digits}
use postgres_data_handler.Tests.Memory.{memory, exec_statement, unique_entries, has_key}
use postgres_data_handler.Tests.Memory.Laws.{database, consumer}

abbrev txn_of : ℕ → LibTxnMeta → LibTxn
txn_of n m =
    LibTxn.txn
      (record {
        tx_inputs = [];
        tx_outputs = (n ∷ [], 5) ∷ [];
        txn_fee_nanos = 2;
        txn_version = 1;
        public_key = n ∷ [];
        extra_data = [];
        txn_nonce = none;
        signature = none;
      })
      m

abbrev plain : ℕ → LibTxn
plain n = txn_of n (other_meta 2 "{}")

abbrev wrapped : LibTxns
wrapped = cons_txn (plain 3) no_txns

abbrev wrapper : LibTxn
wrapper = txn_of 2 (atomic_txns_wrapper 44 wrapped)

abbrev txns : List LibTxn
txns = plain 1 ∷ wrapper ∷ []

abbrev aggregate : LibAggregatedSignature
aggregate = record { signers_list = true ∷ false ∷ true ∷ [] }

abbrev certificate : LibQuorumCertificate
certificate = record { aggregated_signature = value aggregate }

abbrev block : LibBlock
block = record {
  header = record {
    qc = value certificate;
    prev_block_hash = 6 ∷ [];
    transaction_merkle_root = 8 ∷ [];
    tstamp_nano_secs = 5000;
    height = 7;
    nonce = 0;
    extra_nonce = 0;
    version = 2;
    proposer_voting_public_key = none;
    proposer_random_seed_signature = none;
    proposed_in_view = 9;
    proposer_vote_partial_signature = none;
  };
  txns = txns;
}

abbrev block_row : BlockEntry
block_row = (block_encoder_to_pg_struct encodings block (0 ∷ 7 ∷ []) tt).0

block_signers_exact_example :
    In
      (record { block_hash = digits (7 ∷ []); signer_index = 2 })
      (block_encoder_to_pg_struct encodings block (0 ∷ 7 ∷ []) tt).1
    ↔ ((digits (7 ∷ []) ≡ digits (7 ∷ [])) × (get_elem? (true ∷ false ∷ true ∷ []) 2 ≡ some true))
block_signers_exact_example =
    block_signers_exact encodings block (0 ∷ 7 ∷ []) tt certificate aggregate refl refl
      (record { block_hash = digits (7 ∷ []); signer_index = 2 })

abbrev node : Bool → StateChangeEntry
node committed = record {
  operation_type = upsert_operation;
  key_bytes = 1 ∷ [];
  encoder = Encoder.block_node (record { hash = 7 ∷ []; is_committed = committed });
  encoder_bytes = [];
  block = none;
  block_height = 7;
}

abbrev delete_block : StateChangeEntry
delete_block = record {
  operation_type = delete_operation;
  key_bytes = 0 ∷ 7 ∷ [];
  encoder = Encoder.block block;
  encoder_bytes = [];
  block = none;
  block_height = 7;
}

abbrev stored_signer : ℕ → Row
stored_signer n = Row.block_signer (record { block_hash = digits (n ∷ []); signer_index = 0 })

abbrev two_signers : World memory
two_signers = record {
  database = (Table.block_signer, stored_signer 7) ∷ (Table.block_signer, stored_signer 8) ∷ [];
  cache = λ k. none;
}

delete-Ok : (block_batch_operation memory (delete_block ∷ []) tt two_signers).0 ≡ ok tt
unfolding block_batch_operation first bulk_delete_block_entry
    bulk_delete_block_entries_from_keys_to_delete delete_by_block_hash exec exec_statement
delete-Ok = refl

orphan-Ok : (block_node_operation memory (node false ∷ []) tt two_signers).0 ≡ ok tt
unfolding block_node_operation delete_orphans orphaned_keys as_block_node map_result unique_entries
    has_key first bulk_delete_block_entries_from_keys_to_delete delete_by_block_hash exec
    exec_statement
orphan-Ok = refl

block_delete_purges_example :
    Purged memory database
      (keys_of (delete_block ∷ []))
      (block_batch_operation memory (delete_block ∷ []) tt two_signers).1
    × ((t : Table) (r : Row)
        → database.Stored
            (block_batch_operation memory (delete_block ∷ []) tt two_signers).1.database
            t
            r
        → database.Stored two_signers.database t r)
    × ((t : Table) (r : Row)
        → database.Stored two_signers.database t r
        → Other memory database (keys_of (delete_block ∷ [])) r
        → database.Stored
            (block_batch_operation memory (delete_block ∷ []) tt two_signers).1.database
            t
            r)
block_delete_purges_example =
    block_delete_purges memory database consumer tt delete_block [] two_signers refl delete-Ok

block_nodes_kept_example :
    block_node_operation memory (node true ∷ []) tt two_signers ≡ (ok tt, two_signers)
unfolding orphaned_keys as_block_node map_result unique_entries has_key
block_nodes_kept_example =
    block_nodes_kept memory database consumer tt (node true) [] two_signers
      (record { hash = 7 ∷ []; is_committed = true } ∷ []) refl refl (refl, tt)

orphans_purged_example :
    ((r : Row)
      → ¬ (
          database.Stored
            (block_node_operation memory (node false ∷ []) tt two_signers).1.database
            Table.block
            r
          × (badger_key_of r ≡ some (memory.block_hash_to_block_key (7 ∷ [])))))
    × ((t : Table)
        → In t child_tables
        → (r : Row)
        → ¬ (
            database.Stored
              (block_node_operation memory (node false ∷ []) tt two_signers).1.database
              t
              r
            × (block_hash_of r ≡ some (digits (7 ∷ [])))))
unfolding as_block_node map_result unique_entries has_key
orphans_purged_example =
    orphans_purged memory database consumer tt (node false) [] two_signers
      (record { hash = 7 ∷ []; is_committed = false } ∷ []) (λ h. refl) refl orphan-Ok
      (record { hash = 7 ∷ []; is_committed = false }) (inl refl) refl

abbrev rows : List TransactionEntry
rows = elim (block_txns_from encodings 0 txns block_row tt) [
  | ok rs ↦ rs
  | err e ↦ []
  | panic p ↦ []
]

rows-ok : block_txns_from encodings 0 txns block_row tt ≡ ok rows
unfolding block_txns_from transaction_encoder_to_pg_struct parse_inner_txns_from_atomic_txn
    inner_txns_from
rows-ok = refl

abbrev Place : Option ℕ → Option String → Option ℕ → LibTxn → TransactionEntry → Type 0
Place i w j t r =
    At encodings tt block_row.block_hash block_row.height block_row.timestamp i w j t r

block_rows_outer_example : (r : TransactionEntry) × In r rows × Place (some 1) none none wrapper r
block_rows_outer_example = block_rows_outer encodings tt txns block_row rows rows-ok 1 wrapper refl

block_rows_inner_example :
    (r : TransactionEntry) × In r rows × Place none (some (digits (2 ∷ []))) (some 0) (plain 3) r
block_rows_inner_example =
    block_rows_inner encodings tt txns block_row rows rows-ok 1 wrapper 44 wrapped refl refl refl 0
      (plain 3) refl

abbrev inner_row : TransactionEntry
inner_row =
    (block_rows_inner encodings tt txns block_row rows rows-ok 1 wrapper 44 wrapped refl refl refl 0
      (plain 3) refl).0

inner_row-In : In inner_row rows
inner_row-In =
    (block_rows_inner encodings tt txns block_row rows rows-ok 1 wrapper 44 wrapped refl refl refl 0
      (plain 3) refl).1

block_rows_placed_example :
    IsOuter encodings tt block_row txns inner_row ⊎ IsInner encodings tt block_row txns inner_row
block_rows_placed_example =
    block_rows_placed encodings tt txns block_row rows rows-ok inner_row inner_row-In
