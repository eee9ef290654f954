-- ===== src/Entries/Cached.antt =====
-- What validator.go, bls_pkid_pair.go and pkid.go share: the loops that keep the LRU cache, and
-- inserts that are left out where there is nothing to insert.
pub mod Laws
pub mod Coherent
pub mod Refinement
use postgres_data_handler.Base.{String, List, [], ◌∷◌, map, Bytes}
use postgres_data_handler.Go.{Exec, Result, ok, lift, wrap, map_result, unless_empty, ◌>>=◌, ◌>>◌}
use postgres_data_handler.Core.{OperationType, StateChangeEntry}
use postgres_data_handler.Schema.{Table, Row, Value, badger_key}
use postgres_data_handler.Env.{Env, World, insert, delete, on_upsert, exec}

module _ (X : Env) where
  -- `consumer.FilterCachedEntries(entries, cachedEntries)`
  unfoldable pub filter_cached : List StateChangeEntry → Exec (World X) (List StateChangeEntry)
  filter_cached entries w =
      let (kept, c) = X.filter_cached_entries entries w.cache in (ok kept, record w { cache = c })

  unfoldable pub add_all : List StateChangeEntry → X.Cache → X.Cache
  add_all [] c = c
  add_all (e ∷ es) c = add_all es (X.cache_add e.key_bytes e.encoder_bytes c)

  -- `for _, entry := range entries { cachedEntries.Add(string(entry.KeyBytes), entry.EncoderBytes) }`
  unfoldable pub add_entries : List StateChangeEntry → Exec (World X) Unit
  add_entries es w = (ok tt, record w { cache = add_all es w.cache })

  unfoldable pub remove_all : List Bytes → X.Cache → X.Cache
  remove_all [] c = c
  remove_all (k ∷ ks) c = remove_all ks (X.cache_remove k c)

  -- `for _, key := range keys { cachedEntries.Remove(string(key)) }`
  unfoldable pub remove_keys : List Bytes → Exec (World X) Unit
  remove_keys ks w = (ok tt, record w { cache = remove_all ks w.cache })

  abbrev pub insert_rows : Table → OperationType → String → List Row → Exec (World X) Unit
  insert_rows table operation_type message rows =
      unless_empty rows
        (wrap message (exec X (insert table rows (on_upsert operation_type (badger_key ∷ [])))))

  abbrev pub delete_keys : Table → String → List Bytes → Exec (World X) Unit
  delete_keys table message keys =
      unless_empty keys (wrap message (exec X (delete table badger_key (map Value.bytes keys))))

-- The rows of one table that a cached component keeps: those of the keys with a prefix.
pub record Part (X : Env) : Type 0 where
  pub table : Table
  pub key_prefix : Bytes
  pub to_row : X.Params → StateChangeEntry → Result Row
  pub insert_message : String
  pub delete_message : String

module _ (X : Env) (P Q : Part X) where
  -- The shape of `bulkInsertValidatorEntry` and `bulkInsertBLSPkidPairEntry`.
  unfoldable pub cached_insert :
      List StateChangeEntry → OperationType → X.Params → Exec (World X) Unit
  cached_insert entries operation_type params = do
    unique ← filter_cached X (X.unique_entries entries)
    rows ← lift (map_result (P.to_row params) (X.filter_entries_by_prefix unique P.key_prefix))
    more ← lift (map_result (Q.to_row params) (X.filter_entries_by_prefix unique Q.key_prefix))
    insert_rows X P.table operation_type P.insert_message rows
    insert_rows X Q.table operation_type Q.insert_message more
    add_entries X unique

  -- The shape of the deletes, up to the keys that leave the cache.
  unfoldable pub cached_delete : List Bytes → List Bytes → Exec (World X) Unit
  cached_delete keys uncached = do
    delete_keys X P.table P.delete_message (X.filter_keys_by_prefix keys P.key_prefix)
    delete_keys X Q.table Q.delete_message (X.filter_keys_by_prefix keys Q.key_prefix)
    remove_keys X uncached
