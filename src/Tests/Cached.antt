-- ===== src/Tests/Cached.antt =====
-- The theorems on the cached tables, at a snapshot of a validator and at a BLS key.
use postgres_data_handler.Base.{
  ◌≡◌, ◌≢◌, ◌⊎◌, inl, inr, refl, sym, subst, true, false, none, some, [], ◌∷◌, In, Bytes, bytes_eq,
  has_prefix, ◌==◌, if◌then◌else◌,
}
use postgres_data_handler.Core.{
  StateChangeEntry, OperationType, delete_operation, upsert_operation, Encoder, is_delete,
}
use postgres_data_handler.Core.Staking.{LibValidatorEntry}
use postgres_data_handler.Go.{ok, first, map_result, slice_from, slice_to}
use postgres_data_handler.Schema.{Table, Row, badger_key_of}
use postgres_data_handler.Env.{World, exec}
use postgres_data_handler.Entries.Cached.{filter_cached, add_entries, remove_keys}
use postgres_data_handler.Entries.Cached.Coherent.{Coherent, IsDecoded}
use postgres_data_handler.Entries.Validator.{
  as_validator_entry, snapshot_epoch_number, snapshot_validator_encoder_to_pg_struct,
  to_snapshot_row, bulk_insert_validator_entry, bulk_delete_validator_entry,
  validator_batch_operation,
}
use postgres_data_handler.Entries.Validator.Laws.{
  validators, snapshots, validators_keep-Coherent, snapshot_delete_stale,
}
use postgres_data_handler.Entries.BlsPkidPair as BlsPkidPair
use postgres_data_handler.Entries.BlsPkidPair.{
  bulk_insert_bls_pkid_pair_entry, as_bls_public_key_pkid_pair_entry,
  bls_public_key_pkid_pair_encoder_to_pg_struct, bls_public_key_pkid_pair_batch_operation,
}
use postgres_data_handler.Entries.BlsPkidPair.Laws.{pairs, snapshot_pairs, bls_keys_keep-Coherent}
use postgres_data_handler.Entries.JailedHistory.{jailed_history_event_batch_operation}
use postgres_data_handler.Entries.JailedHistory.Laws.{jailed_history_not_added}
use postgres_data_handler.Entries.LeaderSchedule.{
  leader_schedule_encoder_to_pg_struct, as_pkid, to_row, bulk_insert_pkid, bulk_delete_pkid,
  pkid_batch_operation,
}
use postgres_data_handler.Entries.LeaderSchedule.Laws.{scheduled, schedule_stored, schedule_deleted}
use postgres_data_handler.Tests.Memory.{
  memory, Cache, exec_statement, unique_entries, has_key, any_nil,
}
use postgres_data_handler.Tests.Memory.Laws.{database, consumer, cache}

abbrev snapshot_key : Bytes
snapshot_key = 84 ∷ 0 ∷ 0 ∷ 0 ∷ 0 ∷ 0 ∷ 0 ∷ 0 ∷ 9 ∷ 1 ∷ []

abbrev validator : LibValidatorEntry
validator = record {
  validator_pkid = some (1 ∷ []);
  domains = none;
  disable_delegated_stake = false;
  delegated_stake_commission_basis_points = 100;
  voting_public_key = none;
  voting_authorization = none;
  total_stake_amount_nanos = 1000;
  last_active_at_epoch_number = 8;
  jailed_at_epoch_number = 0;
  extra_data = [];
}

-- The bytes of an encoder: the validator, the key pair of a validator's identifier, or another one.
abbrev decode : Bytes → Encoder
decode [] = Encoder.other_encoder 0
decode (t ∷ rest) =
    if t == 7
    then Encoder.validator_entry validator
    else if t == 8
    then Encoder.bls_public_key_pkid_pair_entry (record { pkid = some rest; bls_public_key = none })
    else Encoder.other_encoder t

abbrev snapshot : OperationType → StateChangeEntry
snapshot o = record {
  operation_type = o;
  key_bytes = snapshot_key;
  encoder = Encoder.validator_entry validator;
  encoder_bytes = 7 ∷ [];
  block = none;
  block_height = 1;
}

abbrev nothing : World memory
nothing = record { database = []; cache = λ k. none }

abbrev only_snapshot : Cache
only_snapshot k = elim (bytes_eq k snapshot_key) [ true ↦ some (7 ∷ []) | false ↦ none ]

abbrev snapshot_cached : World memory
snapshot_cached = record { database = []; cache = only_snapshot }

upsert-Ok : (validator_batch_operation memory (snapshot upsert_operation ∷ []) tt nothing).0 ≡ ok tt
unfolding validator_batch_operation first bulk_insert_validator_entry filter_cached add_entries
    to_snapshot_row as_validator_entry snapshot_validator_encoder_to_pg_struct snapshot_epoch_number
    slice_from slice_to map_result exec exec_statement unique_entries has_key bytes_eq any_nil
    has_prefix
upsert-Ok = refl

delete-Ok :
    (validator_batch_operation memory (snapshot delete_operation ∷ []) tt snapshot_cached).0 ≡ ok tt
unfolding validator_batch_operation first bulk_delete_validator_entry remove_keys exec
    exec_statement unique_entries has_key bytes_eq has_prefix
delete-Ok = refl

-- The BLS key pair of a validator.
abbrev key_pair : StateChangeEntry
key_pair = record {
  operation_type = upsert_operation;
  key_bytes = 98 ∷ 1 ∷ 2 ∷ [];
  encoder =
      Encoder.bls_public_key_pkid_pair_entry
        (record { pkid = some (5 ∷ []); bls_public_key = none });
  encoder_bytes = 8 ∷ 5 ∷ [];
  block = none;
  block_height = 1;
}

bls_upsert-Ok :
    (bls_public_key_pkid_pair_batch_operation memory (key_pair ∷ []) tt nothing).0 ≡ ok tt
unfolding bls_public_key_pkid_pair_batch_operation first bulk_insert_bls_pkid_pair_entry
    filter_cached add_entries BlsPkidPair.to_row as_bls_public_key_pkid_pair_entry
    bls_public_key_pkid_pair_encoder_to_pg_struct map_result exec exec_statement unique_entries
    has_key bytes_eq any_nil has_prefix
bls_upsert-Ok = refl

one-IsDecoded :
    (e : StateChangeEntry)
    → IsDecoded decode e
    → (x : StateChangeEntry) → In x (e ∷ [])
    → IsDecoded decode x
one-IsDecoded e d x (inl same) = subst (IsDecoded decode) (sym same) d
one-IsDecoded e d x (inr n) = absurd n

validators_keep-Coherent_example :
    Coherent memory database
      (validators memory)
      tt
      (IsDecoded decode)
      (validator_batch_operation memory (snapshot upsert_operation ∷ []) tt nothing).1
    × ((is_delete upsert_operation ≡ true)
        ⊎ Coherent memory database
            (snapshots memory)
            tt
            (IsDecoded decode)
            (validator_batch_operation memory (snapshot upsert_operation ∷ []) tt nothing).1)
validators_keep-Coherent_example =
    validators_keep-Coherent memory database consumer cache tt decode (snapshot upsert_operation) []
      nothing (one-IsDecoded (snapshot upsert_operation) refl) (λ k b h. cc) (λ k b h. cc) upsert-Ok

snapshot_delete_stale_example :
    ((validator_batch_operation memory (snapshot delete_operation ∷ []) tt snapshot_cached).1.cache
        snapshot_key
      ≡ some (7 ∷ []))
    × ((r : Row)
        → ¬ (
            database.Stored
              (validator_batch_operation memory
                (snapshot delete_operation ∷ [])
                tt
                snapshot_cached).1.database
              Table.snapshot_validator_entry
              r
            × (badger_key_of r ≡ some snapshot_key)))
    × ¬ Coherent memory database
        (snapshots memory)
        tt
        (IsDecoded decode)
        (validator_batch_operation memory (snapshot delete_operation ∷ []) tt snapshot_cached).1
unfolding unique_entries has_key has_prefix bytes_eq
snapshot_delete_stale_example =
    snapshot_delete_stale memory database consumer cache tt (IsDecoded decode)
      (snapshot delete_operation) [] snapshot_cached snapshot_key (7 ∷ []) refl (inl refl) refl refl
      refl delete-Ok

bls_keys_keep-Coherent_example :
    Coherent memory database
      (pairs memory)
      tt
      (IsDecoded decode)
      (bls_public_key_pkid_pair_batch_operation memory (key_pair ∷ []) tt nothing).1
    × Coherent memory database
        (snapshot_pairs memory)
        tt
        (IsDecoded decode)
        (bls_public_key_pkid_pair_batch_operation memory (key_pair ∷ []) tt nothing).1
bls_keys_keep-Coherent_example =
    bls_keys_keep-Coherent memory database consumer cache tt decode key_pair [] nothing
      (one-IsDecoded key_pair refl) (λ k b h. cc) (λ k b h. cc) bls_upsert-Ok

abbrev schedule_key : Bytes
schedule_key = 87 ∷ 0 ∷ 0 ∷ 0 ∷ 0 ∷ 0 ∷ 0 ∷ 0 ∷ 9 ∷ 0 ∷ 3 ∷ []

abbrev schedule : OperationType → StateChangeEntry
schedule o = record {
  operation_type = o;
  key_bytes = schedule_key;
  encoder = Encoder.pkid (4 ∷ []);
  encoder_bytes = 4 ∷ [];
  block = none;
  block_height = 1;
}

schedule_upsert-Ok :
    (pkid_batch_operation memory (schedule upsert_operation ∷ []) tt nothing).0 ≡ ok tt
unfolding pkid_batch_operation first bulk_insert_pkid filter_cached add_entries to_row as_pkid
    leader_schedule_encoder_to_pg_struct slice_from map_result exec exec_statement unique_entries
    has_key bytes_eq any_nil has_prefix
schedule_upsert-Ok = refl

schedule_delete-Ok :
    (pkid_batch_operation memory (schedule delete_operation ∷ []) tt nothing).0 ≡ ok tt
unfolding pkid_batch_operation first bulk_delete_pkid remove_keys exec exec_statement unique_entries
    has_key bytes_eq has_prefix
schedule_delete-Ok = refl

schedule_stored_example :
    database.Stored
      (pkid_batch_operation memory (schedule upsert_operation ∷ []) tt nothing).1.database
      Table.leader_schedule_entry
      (scheduled memory tt (4 ∷ []) schedule_key)
unfolding unique_entries has_key has_prefix bytes_eq
schedule_stored_example =
    schedule_stored memory database consumer cache tt (schedule upsert_operation) [] nothing
      (schedule upsert_operation) (4 ∷ []) refl (inl refl) refl (λ e. cc) refl refl
      schedule_upsert-Ok

schedule_deleted_example :
    ((r : Row)
      → ¬ (
          database.Stored
            (pkid_batch_operation memory (schedule delete_operation ∷ []) tt nothing).1.database
            Table.leader_schedule_entry
            r
          × (badger_key_of r ≡ some schedule_key)))
    × ((b : Bytes)
        → (pkid_batch_operation memory (schedule delete_operation ∷ []) tt nothing).1.cache
            schedule_key
          ≢ some b)
unfolding unique_entries has_key has_prefix bytes_eq
schedule_deleted_example =
    schedule_deleted memory database consumer cache tt (schedule delete_operation) [] nothing
      schedule_key refl (inl refl) refl schedule_delete-Ok

abbrev jailed_row : Row
jailed_row =
    Row.jailed_history_event
      (record { validator_pkid = "v"; jailed_at_epoch_number = 3; unjailed_at_epoch_number = 4 })

abbrev unjail : StateChangeEntry
unjail = record {
  operation_type = upsert_operation;
  key_bytes = 1 ∷ [];
  encoder = Encoder.unjail_validator_state_change_metadata (record {
    validator_pkid = some (5 ∷ []);
    jailed_at_epoch_number = 5;
    unjailed_at_epoch_number = 6;
  });
  encoder_bytes = [];
  block = none;
  block_height = 1;
}

abbrev with_history : World memory
with_history = record {
  database = (Table.jailed_history_event, jailed_row) ∷ [];
  cache = λ k. none;
}

unjail-Ok : (jailed_history_event_batch_operation memory (unjail ∷ []) tt with_history).0 ≡ ok tt
unfolding jailed_history_event_batch_operation first bulk_insert_validator_entry filter_cached
    add_entries map_result exec exec_statement unique_entries has_key bytes_eq any_nil has_prefix
unjail-Ok = refl

history-Stored :
    database.Stored
      (jailed_history_event_batch_operation memory (unjail ∷ []) tt with_history).1.database
      Table.jailed_history_event
      jailed_row
unfolding database jailed_history_event_batch_operation first bulk_insert_validator_entry
    filter_cached add_entries map_result exec exec_statement unique_entries has_key bytes_eq any_nil
    has_prefix
history-Stored = inl refl

jailed_history_not_added_example :
    database.Stored with_history.database Table.jailed_history_event jailed_row
jailed_history_not_added_example =
    jailed_history_not_added memory database tt unjail [] with_history jailed_row unjail-Ok
      history-Stored
