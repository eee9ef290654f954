-- ===== src/Entries/LeaderSchedule/Laws.antt =====
-- What batches of leader schedule entries leave in their table and in the cache.
use postgres_data_handler.Base.{
  ◌≡◌, ◌≢◌, refl, sym, ◌∙◌, ap, subst, true, false, some, Option, List, [], ◌∷◌, In, Bytes,
  has_prefix, length, take, drop, arith, ◌==◌, ℕ, suc, leb, String, Bool, none, if◌then◌else◌,
}
use postgres_data_handler.Go.{
  Result, ok, panic, index_out_of_range, bind, lift, map_result, first, slice_from, ◌>>=◌,
}
use postgres_data_handler.Go.Laws.{ok-injective, map_result_of}
use postgres_data_handler.Go.Ensures.{Ensures-bind, Ensures-wrap_if}
use postgres_data_handler.Core.{Encoder, StateChangeEntry, is_delete, keys_of}
use postgres_data_handler.Schema.{Table, Row, badger_key_of}
use postgres_data_handler.Schema.Staking.{LeaderScheduleEntry}
use postgres_data_handler.Env.{Env, World}
use postgres_data_handler.Env.Lawful.{IsDatabase, IsConsumer, IsCache}
use postgres_data_handler.Entries.Cached.{
  filter_cached, add_entries, remove_keys, insert_rows, delete_keys,
}
use postgres_data_handler.Entries.Cached.Laws.{get-remove_all}
use postgres_data_handler.Entries.Cached.Coherent.{insert_rows-Covers}
use postgres_data_handler.Entries.Cached.Refinement.{delete_keys-gone}
use postgres_data_handler.Entries.LeaderSchedule.{
  leader_schedule_encoder_to_pg_struct, as_pkid, schedule_row, to_row, bulk_insert_pkid,
  bulk_delete_pkid, pkid_batch_operation,
}

one_le : (n : ℕ) → leb 1 (suc n) ≡ true
one_le n = ground arith

slice_one : (b : ℕ) (rest : Bytes) → slice_from 1 (b ∷ rest) ≡ ok rest
unfolding slice_from
slice_one b rest =
    subst (λ (z : Bool). (if z then ok rest else panic index_out_of_range) ≡ ok rest)
      (sym (one_le (length rest))) refl

is_ten : (n : ℕ) → n ≡ 10 → n == 10 ≡ true
is_ten n h = ground arith

module _ (X : Env) (params : X.Params) where
  -- The row of a key with its prefix byte, the eight bytes of an epoch and the two of an index.
  abbrev pub scheduled : Bytes → Bytes → Row
  scheduled validator key = Row.leader_schedule_entry (record {
    validator_pkid = X.public_key_to_base58 validator params;
    snapshot_at_epoch_number = X.decode_uint64 (take 8 (drop 1 key));
    leader_index = X.decode_uint16 (take 2 (drop 9 key));
    badger_key = key;
  })

  row_of_key :
      (e : StateChangeEntry) (p : Bytes)
      → e.encoder ≡ Encoder.pkid p
      → length e.key_bytes ≡ 11
      → to_row X params e ≡ ok (scheduled p e.key_bytes)
  unfolding to_row as_pkid leader_schedule_encoder_to_pg_struct
  row_of_key e p h n = by_key e.key_bytes n
    where
      by_key :
          (key : Bytes)
          → length key ≡ 11
          → to_row X params (record e { key_bytes = key }) ≡ ok (scheduled p key)
      by_key [] m = cc
      by_key (b ∷ rest) m =
          let converted : Bytes → Bool → Result (Option LeaderScheduleEntry) = λ r z.
            if z
            then ok (
                some (record {
                  validator_pkid = X.public_key_to_base58 p params;
                  snapshot_at_epoch_number = X.decode_uint64 (take 8 r);
                  leader_index = X.decode_uint16 (take 2 (drop 8 r));
                  badger_key = b ∷ rest;
                }))
            else ok none in
          rw h (
            ap
              (λ (s : Result Bytes).
                bind (bind s λ r. converted r (length r == 10)) λ o. ok (schedule_row o))
              (slice_one b rest)
            ∙ ap (λ (z : Bool). bind (converted rest z) λ o. ok (schedule_row o))
                (is_ten (length rest) (omega (arith, m))))

module _ (X : Env) (D : IsDatabase X) (K : IsConsumer X) (L : IsCache X) (params : X.Params) where
  abbrev Holds : StateChangeEntry → Bytes → Unit {0} → World X → Type 0
  Holds u p _ v = D.Stored v.database Table.leader_schedule_entry (scheduled X params p u.key_bytes)

  -- After a batch of leader schedule entries that is no delete and returns nil, each unique entry
  -- whose key has the prefix of the schedule, and eleven bytes, and which was not cached with its bytes, is
  -- stored with the epoch and the index of its key and the validator of its encoder.
  pub schedule_stored :
      (e : StateChangeEntry) (es : List StateChangeEntry) (w : World X) (u : StateChangeEntry)
      (p : Bytes)
      → is_delete e.operation_type ≡ false
      → In u (X.unique_entries (e ∷ es))
      → has_prefix u.key_bytes X.prefix_snapshot_leader_schedule ≡ true
      → X.cache_get w.cache u.key_bytes ≢ some u.encoder_bytes
      → u.encoder ≡ Encoder.pkid p
      → length u.key_bytes ≡ 11
      → (pkid_batch_operation X (e ∷ es) params w).0 ≡ ok tt
      → D.Stored
          (pkid_batch_operation X (e ∷ es) params w).1.database
          Table.leader_schedule_entry
          (scheduled X params p u.key_bytes)
  unfolding pkid_batch_operation bulk_insert_pkid first filter_cached add_entries
  schedule_stored e es w u p d i f c q n h =
      Ensures-wrap_if (is_delete e.operation_type) _ (bulk_delete_pkid X (e ∷ es) e.operation_type)
        (bulk_insert_pkid X (e ∷ es) e.operation_type params) w (Holds u p) (λ t. cc)
        (λ _.
          let us =
            X.filter_entries_by_prefix (X.unique_entries (e ∷ es))
              X.prefix_snapshot_leader_schedule in
          let v : World X = (filter_cached X us w).1 in
          let message : String = "entries.bulkInsertPkid: Error inserting entries" in
          let o = e.operation_type in
          Ensures-bind (filter_cached X us)
            (λ kept. lift (map_result (to_row X params) kept) >>= λ rows.
              insert_rows X Table.leader_schedule_entry o message rows >>= λ _. add_entries X kept)
            w (Holds u p)
            λ kept k.
              let same : (X.filter_cached_entries us w.cache).0 ≡ kept = ok-injective k in
              Ensures-bind (lift (map_result (to_row X params) kept))
                (λ rows. insert_rows X Table.leader_schedule_entry o message rows >>= λ _.
                  add_entries X kept)
                v (Holds u p)
                λ rows r.
                  Ensures-bind (insert_rows X Table.leader_schedule_entry o message rows)
                    (λ _. add_entries X kept) v (Holds u p)
                    λ a g b z.
                      let m : In u kept = subst (In u) same (
                        (K.not_cached us w.cache u).1 (
                          (K.by_prefix (X.unique_entries (e ∷ es)) X.prefix_snapshot_leader_schedule
                                u).1
                              (i, f),
                          c,
                        )) in
                      let (row, s, j) = map_result_of (to_row X params) kept r u m in
                      let (_, covers, _) =
                        insert_rows-Covers X D Table.leader_schedule_entry o message rows v a g in
                      covers.added (scheduled X params p u.key_bytes) (
                        subst (λ y. In y rows) (ok-injective (sym s ∙ row_of_key X params u p q n))
                          j))
        tt h

  abbrev Lost : Bytes → Unit {0} → World X → Type 0
  Lost k _ v =
      ((r : Row)
        → ¬ (D.Stored v.database Table.leader_schedule_entry r × (badger_key_of r ≡ some k)))
      × ((b : Bytes) → X.cache_get v.cache k ≢ some b)

  -- After a delete batch of leader schedule entries that returns nil, a key of a unique entry that
  -- has the prefix of the schedule is in no row of the table and not in the cache.
  pub schedule_deleted :
      (e : StateChangeEntry) (es : List StateChangeEntry) (w : World X) (k : Bytes)
      → is_delete e.operation_type ≡ true
      → In k (keys_of (X.unique_entries (e ∷ es)))
      → has_prefix k X.prefix_snapshot_leader_schedule ≡ true
      → (pkid_batch_operation X (e ∷ es) params w).0 ≡ ok tt
      → ((r : Row)
          → ¬ (
              D.Stored
                (pkid_batch_operation X (e ∷ es) params w).1.database
                Table.leader_schedule_entry
                r
              × (badger_key_of r ≡ some k)))
        × ((b : Bytes) → X.cache_get (pkid_batch_operation X (e ∷ es) params w).1.cache k ≢ some b)
  unfolding pkid_batch_operation bulk_delete_pkid first remove_keys
  schedule_deleted e es w k t i p h =
      let us = X.unique_entries (e ∷ es) in
      let keys = X.filter_keys_by_prefix (X.keys_to_delete us) X.prefix_snapshot_leader_schedule in
      let message : String = "entries.bulkDeletePkid: Error deleting entries" in
      Ensures-wrap_if (is_delete e.operation_type) _ (bulk_delete_pkid X (e ∷ es) e.operation_type)
        (bulk_insert_pkid X (e ∷ es) e.operation_type params) w (Lost k)
        (λ _.
          Ensures-bind (delete_keys X Table.leader_schedule_entry message keys)
            (λ _. remove_keys X (keys_of us)) w (Lost k)
            λ a g b z.
              let v : World X = (delete_keys X Table.leader_schedule_entry message keys w).1 in
              (
                λ r (s, q).
                    delete_keys-gone X D Table.leader_schedule_entry message keys w a g r k s q (
                      (K.keys_by_prefix (X.keys_to_delete us) X.prefix_snapshot_leader_schedule k).1
                        (subst (In k) (sym (K.keys us)) i, p)),
                λ c found. (get-remove_all X L (keys_of us) v.cache k c found).1 i,
              ))
        (λ f. cc) tt h
