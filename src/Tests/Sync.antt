-- ===== src/Tests/Sync.antt =====
-- The theorems on UTXO operations, at an entry that brings a block of one transaction.
use mathlib.Core.List.{Perm}
use postgres_data_handler.Base.{
  bytes_eq, ◌≡◌, ◌↔◌, inl, inr, refl, true, false, String, none, some, List, [], ◌∷◌, map, keep, In,
  Distinct, length, get_elem?,
}
use postgres_data_handler.Go.{Error, Result, ok, err, panic, errorf, slice_from, first}
use postgres_data_handler.Core.Staking.{LibStakeRewardStateChangeMetadata}
use postgres_data_handler.Core.Chain.{
  LibTxn, other_meta, LibBlock, nil_interface, UtxoOperation, utxo_operation, stake_reward,
  other_state_change, nil_inner,
}
use postgres_data_handler.Core.{StateChangeEntry, Encoder, insert_operation, delete_operation}
use postgres_data_handler.Env.{World, exec}
use postgres_data_handler.Schema.Chain.{BlockEntry, TransactionEntry}
use postgres_data_handler.Schema.Staking.{StakeReward}
use postgres_data_handler.Schema.{Table, Row}
use postgres_data_handler.Entries.Transaction.{
  transaction_encoder_to_pg_struct, bulk_insert_transaction_entry,
}
use postgres_data_handler.Entries.Block.{block_encoder_to_pg_struct, block_txns_from, qc_signers}
use postgres_data_handler.Entries.Block.Placement.{At}
use postgres_data_handler.Entries.StakeReward.{stake_reward_encoder_to_pg_struct}
use postgres_data_handler.Entries.UtxoOperation.{
  insert_blocks, write_transactions, write_collected, bulk_insert_utxo_operations_entry,
}
use postgres_data_handler.Entries.UtxoOperation.Affected.{
  in_set, affected_rows, affected_rows_from, duplicate_key,
}
use postgres_data_handler.Entries.UtxoOperation.Affected.Laws.{row_key, affected_rows_cover}
use postgres_data_handler.Entries.UtxoOperation.Affected.First.{
  key_of_row, is_first, affected_rows_first,
}
use postgres_data_handler.Entries.UtxoOperation.Bundle.{
  Parsed, nothing_parsed, find_op, with_metadata, parse_metadata, parse_transaction,
  block_rewards_from, parse_from, parse_utxo_operation_bundle,
}
use postgres_data_handler.Entries.UtxoOperation.Bundle.Updates.{
  IsUpdate, Kept, bundle_updates, bundle_keeps,
}
use postgres_data_handler.Entries.UtxoOperation.Bundle.Rewards.{IsReward}
use postgres_data_handler.Entries.UtxoOperation.Gather.{
  convert_utxo_operation_key_to_block_hash_hex, as_bundle, Gathered, nothing_gathered,
  gather_block_from, Collected, nothing_collected, parse_gathered, collect_block, collect_one,
  collect_each,
}
use postgres_data_handler.Entries.UtxoOperation.Gather.Laws.{Balanced, gather_block-Balanced}
use postgres_data_handler.Entries.UtxoOperation.Gather.Agreement.{all_rows, gathered_rows_agree}
use postgres_data_handler.Entries.UtxoOperation.Gather.Attached.{
  block_row, attached_rewards, attached_transactions,
}
use postgres_data_handler.Entries.UtxoOperation.Written.{AllWritten, collected_written}
use postgres_data_handler.Entries.UtxoOperation.Sync.{IsSynced, initial_sync_stores}
use postgres_data_handler.Entries.Block.{
  bulk_delete_block_entry, bulk_delete_block_entries_from_keys_to_delete, delete_by_block_hash,
  block_batch_operation,
}
use postgres_data_handler.Entries.UtxoOperation.Failure.{unparsed_batch_writes_nothing}
use postgres_data_handler.Entries.UtxoOperation.Orphan.{synced_block_stays}
use postgres_data_handler.Tests.Memory.{memory, exec_statement, any_nil, unique_entries, has_key}
use postgres_data_handler.Tests.Memory.Laws.{database, consumer}
use postgres_data_handler.Tests.Syncing.{simple, codec, syncing, stored, basic, round_trip}

abbrev transfer : LibTxn
transfer = simple 2 5 1 (1 ∷ [])

abbrev reward : LibStakeRewardStateChangeMetadata
reward = record {
  staker_pkid = some (4 ∷ []);
  validator_pkid = some (5 ∷ []);
  staking_reward_method = 1;
  reward_nanos = 700;
  is_validator_commission = false;
}

abbrev transfer_ops : List UtxoOperation
transfer_ops = utxo_operation 3 (other_state_change "{}") nil_inner ∷ []

abbrev block_ops : List UtxoOperation
block_ops = utxo_operation 50 (stake_reward reward) nil_inner ∷ []

abbrev bundle : List (List UtxoOperation)
bundle = transfer_ops ∷ block_ops ∷ []

abbrev block : LibBlock
block = record {
  header = record {
    qc = nil_interface;
    prev_block_hash = 6 ∷ [];
    transaction_merkle_root = 8 ∷ [];
    tstamp_nano_secs = 5000;
    height = 7;
    nonce = 0;
    extra_nonce = 0;
    version = 2;
    proposer_voting_public_key = none;
    proposer_random_seed_signature = none;
    proposed_in_view = 9;
    proposer_vote_partial_signature = none;
  };
  txns = transfer ∷ [];
}

abbrev entry : StateChangeEntry
entry = record {
  operation_type = insert_operation;
  key_bytes = 63 ∷ 7 ∷ [];
  encoder = Encoder.utxo_operation_bundle bundle;
  encoder_bytes = [];
  block = some block;
  block_height = 7;
}

abbrev nothing : World syncing
nothing = record { database = []; cache = λ k. none }

abbrev gathered_or : Result Gathered → Gathered
gathered_or (ok g) = g
gathered_or (err e) = nothing_gathered
gathered_or (panic p) = nothing_gathered

abbrev parsed_or : Result Parsed → Parsed
parsed_or (ok p) = p
parsed_or (err e) = nothing_parsed
parsed_or (panic p) = nothing_parsed

abbrev collected_or : Result Collected → Collected
collected_or (ok c) = c
collected_or (err e) = nothing_collected
collected_or (panic p) = nothing_collected

abbrev row : BlockEntry
row = (block_encoder_to_pg_struct codec block entry.key_bytes tt).0

abbrev gathered : Gathered
gathered = gathered_or (gather_block_from codec tt 0 block.txns bundle row)

gathered-Ok : gather_block_from codec tt 0 block.txns bundle row ≡ ok gathered
unfolding gather_block_from transaction_encoder_to_pg_struct block_encoder_to_pg_struct
gathered-Ok = refl

abbrev parsed : Parsed
parsed = parsed_or (parse_utxo_operation_bundle codec tt bundle gathered.transactions "h")

parsed-Ok : parse_utxo_operation_bundle codec tt bundle gathered.transactions "h" ≡ ok parsed
unfolding parse_utxo_operation_bundle parse_from parse_transaction parse_metadata with_metadata
    block_rewards_from gather_block_from transaction_encoder_to_pg_struct block_encoder_to_pg_struct
    find_op
parsed-Ok = refl

abbrev collected : Collected
collected = collected_or (collect_block syncing tt entry block bundle "h")

collected-Ok : collect_block syncing tt entry block bundle "h" ≡ ok collected
unfolding collect_block parse_gathered parse_utxo_operation_bundle parse_from parse_transaction
    parse_metadata with_metadata block_rewards_from gather_block_from
    transaction_encoder_to_pg_struct block_encoder_to_pg_struct find_op
collected-Ok = refl

written-Ok : (write_collected syncing collected insert_operation nothing).0 ≡ ok tt
unfolding write_collected write_transactions insert_blocks bulk_insert_transaction_entry exec
    exec_statement any_nil collect_block parse_gathered parse_utxo_operation_bundle parse_from
    parse_transaction parse_metadata with_metadata block_rewards_from gather_block_from
    transaction_encoder_to_pg_struct block_encoder_to_pg_struct find_op affected_rows
    affected_rows_from in_set stake_reward_encoder_to_pg_struct qc_signers
written-Ok = refl

inserts : collected.insert_transactions ≡ true
unfolding collect_block parse_gathered parse_utxo_operation_bundle parse_from parse_transaction
    parse_metadata with_metadata block_rewards_from gather_block_from
    transaction_encoder_to_pg_struct block_encoder_to_pg_struct find_op
inserts = refl

synced-Ok :
    (bulk_insert_utxo_operations_entry syncing (entry ∷ []) insert_operation tt nothing).0 ≡ ok tt
unfolding bulk_insert_utxo_operations_entry collect_each collect_one unique_entries has_key
    convert_utxo_operation_key_to_block_hash_hex slice_from as_bundle write_collected
    write_transactions insert_blocks bulk_insert_transaction_entry exec exec_statement any_nil
    collect_block parse_gathered parse_utxo_operation_bundle parse_from parse_transaction
    parse_metadata with_metadata block_rewards_from gather_block_from
    transaction_encoder_to_pg_struct block_encoder_to_pg_struct find_op affected_rows
    affected_rows_from in_set stake_reward_encoder_to_pg_struct qc_signers
synced-Ok = refl

abbrev first_row : TransactionEntry → List TransactionEntry → TransactionEntry
first_row default [] = default
first_row default (t ∷ ts) = t

-- The row of the block's transaction, before the bundle is looked at.
abbrev transfer_row : TransactionEntry
transfer_row = record {
  transaction_hash = codec.hex (1 ∷ []);
  transaction_id = codec.public_key_to_base58 (1 ∷ []) tt;
  block_hash = row.block_hash;
  version = 1;
  inputs = [];
  outputs = [];
  fee_nanos = 5;
  nonce_expiration_block_height = 0;
  nonce_partial_id = 0;
  txn_meta = other_meta 2 "";
  tx_index_metadata = record { deso_encoder = none; transaction_extra_metadata = none };
  tx_index_basic_transfer_metadata = none;
  txn_meta_bytes = 2 ∷ [];
  txn_bytes = 2 ∷ 5 ∷ 1 ∷ 1 ∷ [];
  txn_type = 2;
  public_key = codec.public_key_to_base58 (1 ∷ []) tt;
  extra_data = [];
  signature = [];
  index_in_block = some 0;
  block_height = 7;
  timestamp = 5;
  wrapper_transaction_hash = none;
  index_in_wrapper_transaction = none;
  badger_key = 1 ∷ [];
}

abbrev affected : List (String × String)
affected = ("a", "Sender") ∷ ("a", "Output") ∷ ("a", "Sender") ∷ []

affected_rows_cover_example :
    Distinct (map row_key (affected_rows transfer_row affected))
    × (In "a:Output" (map row_key (affected_rows transfer_row affected))
        ↔ In "a:Output" (map duplicate_key affected))
affected_rows_cover_example = affected_rows_cover transfer_row affected "a:Output"

affected_rows_first_example :
    Distinct (map key_of_row (keep is_first (affected_rows transfer_row affected)))
    × (In "a" (map key_of_row (keep is_first (affected_rows transfer_row affected)))
        ↔ In "a" (map key_of_row (affected_rows transfer_row affected)))
affected_rows_first_example = affected_rows_first transfer_row affected "a"

abbrev updated_row : TransactionEntry
updated_row = first_row transfer_row parsed.transaction_updates

updated-In : In updated_row parsed.transaction_updates
unfolding parse_utxo_operation_bundle parse_from parse_transaction parse_metadata with_metadata
    block_rewards_from gather_block_from transaction_encoder_to_pg_struct block_encoder_to_pg_struct
    find_op
updated-In = inl refl

bundle_updates_example :
    (t : TransactionEntry) × In t gathered.transactions × IsUpdate t updated_row
bundle_updates_example =
    bundle_updates codec tt basic "h" gathered.transactions bundle parsed updated_row parsed-Ok
      updated-In

gathered-at : get_elem? gathered.transactions 0 ≡ some transfer_row
unfolding gather_block_from transaction_encoder_to_pg_struct block_encoder_to_pg_struct
gathered-at = refl

bundle_keeps_example :
    Kept codec tt basic "h" gathered.transactions transfer_ops parsed transfer_row
bundle_keeps_example =
    bundle_keeps codec tt basic "h" gathered.transactions bundle parsed 0 transfer_ops transfer_row
      parsed-Ok refl gathered-at

abbrev reward_row : StakeReward
reward_row = stake_reward_encoder_to_pg_struct codec reward tt "h" 0

attached_rewards_example : In reward_row collected.parsed.stake_rewards ↔ (
    (ops : List UtxoOperation) × (get_elem? bundle 1 ≡ some ops)
    × IsReward codec tt "h" 0 ops reward_row)
attached_rewards_example =
    attached_rewards syncing tt entry block bundle "h" collected reward_row collected-Ok

gather_block-Balanced_example :
    Balanced gathered × (length gathered.transactions ≡ length block.txns)
gather_block-Balanced_example =
    gather_block-Balanced codec tt 0 block.txns bundle row gathered gathered-Ok

gathered_rows_agree_example :
    (rows : List TransactionEntry) × (block_txns_from codec 0 block.txns row tt ≡ ok rows)
    × Perm rows (all_rows gathered)
gathered_rows_agree_example =
    gathered_rows_agree codec tt 0 block.txns bundle row gathered gathered-Ok

attached_transactions_example :
    (r : TransactionEntry) × In r collected.parsed.transaction_updates
    × At codec tt row.block_hash row.height row.timestamp (some 0) none none transfer r
attached_transactions_example =
    attached_transactions syncing tt round_trip basic entry block bundle "h" collected 0 transfer
      transfer_ops collected-Ok refl refl (inl refl)

collected_written_example :
    AllWritten syncing stored collected insert_operation tt
      (write_collected syncing collected insert_operation nothing).1
collected_written_example =
    collected_written syncing stored collected insert_operation nothing inserts written-Ok

entry-In : In entry (unique_entries (entry ∷ []))
unfolding unique_entries has_key
entry-In = inl refl

initial_sync_stores_example :
    IsSynced syncing stored tt entry block 0 transfer tt
      (bulk_insert_utxo_operations_entry syncing (entry ∷ []) insert_operation tt nothing).1
initial_sync_stores_example =
    initial_sync_stores syncing stored tt round_trip basic (entry ∷ []) insert_operation nothing
      entry block bundle 0 transfer transfer_ops entry-In refl refl refl refl (inl refl) synced-Ok

-- The block leaves by its own key, with the hash of the first.
abbrev orphan : StateChangeEntry
orphan = record {
  operation_type = delete_operation;
  key_bytes = 0 ∷ 7 ∷ [];
  encoder = Encoder.block block;
  encoder_bytes = [];
  block = none;
  block_height = 7;
}

abbrev with_block : World memory
with_block = record {
  database = (Table.block, Row.block (block_row memory tt block entry)) ∷ [];
  cache = λ k. none;
}

orphan-Ok : (block_batch_operation memory (orphan ∷ []) tt with_block).0 ≡ ok tt
unfolding block_batch_operation first bulk_delete_block_entry
    bulk_delete_block_entries_from_keys_to_delete delete_by_block_hash exec exec_statement
    unique_entries has_key
orphan-Ok = refl

with_block-Stored :
    database.Stored with_block.database Table.block (Row.block (block_row memory tt block entry))
unfolding database
with_block-Stored = inl refl

synced_block_stays_example :
    database.Stored
      (block_batch_operation memory (orphan ∷ []) tt with_block).1.database
      Table.block
      (Row.block (block_row memory tt block entry))
synced_block_stays_example =
    synced_block_stays memory database consumer tt entry block orphan [] with_block
      with_block-Stored (λ i. elim i [ inl e ↦ cc | inr n ↦ absurd n ]) refl orphan-Ok

-- An entry that brings no operations, after one that does.
abbrev no_bundle : StateChangeEntry
no_bundle = record entry { key_bytes = 63 ∷ 8 ∷ []; encoder = Encoder.block block }

abbrev problem : Error
problem = errorf "entries.bulkInsertUtxoOperationsEntry: Problem with entry %v"

no_bundle-Err :
    (collect_each syncing tt (unique_entries (entry ∷ no_bundle ∷ [])) nothing).0 ≡ err problem
unfolding collect_each collect_one unique_entries has_key
    convert_utxo_operation_key_to_block_hash_hex slice_from as_bundle collect_block parse_gathered
    parse_utxo_operation_bundle parse_from parse_transaction parse_metadata with_metadata
    block_rewards_from gather_block_from transaction_encoder_to_pg_struct block_encoder_to_pg_struct
    find_op affected_rows affected_rows_from in_set stake_reward_encoder_to_pg_struct qc_signers
    bytes_eq
no_bundle-Err = refl

unparsed_batch_writes_nothing_example :
    bulk_insert_utxo_operations_entry syncing (entry ∷ no_bundle ∷ []) insert_operation tt nothing
    ≡ (err problem, nothing)
unparsed_batch_writes_nothing_example =
    unparsed_batch_writes_nothing syncing tt (λ c s d. refl) (entry ∷ no_bundle ∷ [])
      insert_operation nothing problem no_bundle-Err
