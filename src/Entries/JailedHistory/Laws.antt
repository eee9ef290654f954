-- ===== src/Entries/JailedHistory/Laws.antt =====
-- What the batch operation of entries/jailed_history.go leaves in the table of the jailed history.
use postgres_data_handler.Base.{◌≡◌, ◌≢◌, String, List, [], ◌∷◌, Bytes}
use postgres_data_handler.Go.{Exec, ok, lift, first, map_result, ◌>>=◌}
use postgres_data_handler.Go.Ensures.{Ensures, Ensures-bind, Ensures-wrap_if}
use postgres_data_handler.Core.{StateChangeEntry, OperationType, is_delete}
use postgres_data_handler.Schema.{Table, Row}
use postgres_data_handler.Env.{Env, World, exec}
use postgres_data_handler.Env.Lawful.{IsDatabase}
use postgres_data_handler.Entries.Cached.{
  Part, filter_cached, add_entries, remove_keys, insert_rows, delete_keys, cached_insert,
  cached_delete,
}
use postgres_data_handler.Entries.Validator.{
  bulk_insert_validator_entry, bulk_delete_validator_entry,
}
use postgres_data_handler.Entries.Validator.Laws.{
  validators, snapshots, insert_shape, delete_shape, deleted, uncached,
}
use postgres_data_handler.Entries.JailedHistory.{jailed_history_event_batch_operation}

module _ (X : Env) (D : IsDatabase X) (u : Table) where
  -- The table gets no rows.
  abbrev AddsNone : World X → Unit {0} → World X → Type 0
  AddsNone w _ v = (r : Row) → D.Stored v.database u r → D.Stored w.database u r

  insert_rows-AddsNone :
      (t : Table) (o : OperationType) (m : String) (rows : List Row) (w : World X)
      → u ≢ t
      → Ensures (insert_rows X t o m rows) w (AddsNone w)
  unfolding exec
  insert_rows-AddsNone t o m [] w n a h r s = s
  insert_rows-AddsNone t o m (x ∷ rows) w n a h r s =
      (D.insert_frame t (x ∷ rows) _ w.database u n r).0 s

  delete_keys-AddsNone :
      (t : Table) (m : String) (keys : List Bytes) (w : World X)
      → Ensures (delete_keys X t m keys) w (AddsNone w)
  unfolding exec
  delete_keys-AddsNone t m [] w a h r s = s
  delete_keys-AddsNone t m (x ∷ keys) w a h r s = D.delete_only t _ _ w.database u r s

  module _ (P Q : Part X) where
    cached_delete-AddsNone :
        (keys gone : List Bytes) (w : World X)
        → Ensures (cached_delete X P Q keys gone) w (AddsNone w)
    unfolding cached_delete remove_keys
    cached_delete-AddsNone keys gone w =
        let ps = X.filter_keys_by_prefix keys P.key_prefix in
        let qs = X.filter_keys_by_prefix keys Q.key_prefix in
        let d = delete_keys X Q.table Q.delete_message qs in
        Ensures-bind (delete_keys X P.table P.delete_message ps)
          (λ _. d >>= λ _. remove_keys X gone) w (AddsNone w)
          λ _ e.
            let v = (delete_keys X P.table P.delete_message ps w).1 in
            Ensures-bind d (λ _. remove_keys X gone) v (AddsNone w)
              λ _ f _ _ r s.
                delete_keys-AddsNone P.table P.delete_message ps w tt e r
                  (delete_keys-AddsNone Q.table Q.delete_message qs v tt f r s)

    cached_insert-AddsNone :
        (entries : List StateChangeEntry) (o : OperationType) (params : X.Params) (w : World X)
        → u ≢ P.table
        → u ≢ Q.table
        → Ensures (cached_insert X P Q entries o params) w (AddsNone w)
    unfolding cached_insert filter_cached add_entries
    cached_insert-AddsNone entries o params w np nq =
        let es = X.unique_entries entries in
        let put_q : List StateChangeEntry → List Row → Exec (World X) Unit =
          λ us more. insert_rows X Q.table o Q.insert_message more >>= λ _. add_entries X us in
        let put_p : List StateChangeEntry → List Row → List Row → Exec (World X) Unit =
          λ us rows more. insert_rows X P.table o P.insert_message rows >>= λ _. put_q us more in
        let convert_q : List StateChangeEntry → List Row → Exec (World X) Unit = λ us rows.
          lift (map_result (Q.to_row params) (X.filter_entries_by_prefix us Q.key_prefix))
          >>= λ more. put_p us rows more in
        let convert : List StateChangeEntry → Exec (World X) Unit = λ us.
          lift (map_result (P.to_row params) (X.filter_entries_by_prefix us P.key_prefix))
          >>= λ rows. convert_q us rows in
        let v0 = (filter_cached X es w).1 in
        Ensures-bind (filter_cached X es) convert w (AddsNone w) λ us _.
          Ensures-bind
            (lift (map_result (P.to_row params) (X.filter_entries_by_prefix us P.key_prefix)))
            (convert_q us) v0 (AddsNone w)
            λ rows _.
              Ensures-bind
                (lift (map_result (Q.to_row params) (X.filter_entries_by_prefix us Q.key_prefix)))
                (put_p us rows) v0 (AddsNone w)
                λ more _.
                  Ensures-bind (insert_rows X P.table o P.insert_message rows) (λ _. put_q us more)
                    v0 (AddsNone w)
                    λ _ e.
                      let v1 = (insert_rows X P.table o P.insert_message rows v0).1 in
                      Ensures-bind (insert_rows X Q.table o Q.insert_message more)
                        (λ _. add_entries X us) v1 (AddsNone w)
                        λ _ f _ _ r s.
                          insert_rows-AddsNone P.table o P.insert_message rows v0 np tt e r
                            (insert_rows-AddsNone Q.table o Q.insert_message more v1 nq tt f r s)

module _ (X : Env) (D : IsDatabase X) (params : X.Params) where
  -- A row of the jailed history that is stored after a batch of jailed history events that returns nil
  -- was stored before it: no such batch adds an event to the table.
  pub jailed_history_not_added :
      (e : StateChangeEntry) (es : List StateChangeEntry) (w : World X) (r : Row)
      → (jailed_history_event_batch_operation X (e ∷ es) params w).0 ≡ ok tt
      → D.Stored
          (jailed_history_event_batch_operation X (e ∷ es) params w).1.database
          Table.jailed_history_event
          r
      → D.Stored w.database Table.jailed_history_event r
  unfolding jailed_history_event_batch_operation first
  jailed_history_not_added e es w r h s =
      Ensures-wrap_if (is_delete e.operation_type) _
        (bulk_delete_validator_entry X (e ∷ es) e.operation_type)
        (bulk_insert_validator_entry X (e ∷ es) e.operation_type params) w
        (AddsNone X D Table.jailed_history_event w)
        (λ _. rw (delete_shape X (e ∷ es) e.operation_type) (
          cached_delete-AddsNone X D Table.jailed_history_event (validators X) (snapshots X)
            (deleted X (e ∷ es)) (uncached X (e ∷ es)) w))
        (λ _. rw (insert_shape X (e ∷ es) e.operation_type params) (
          cached_insert-AddsNone X D Table.jailed_history_event (validators X) (snapshots X)
            (e ∷ es) e.operation_type params w (λ p. cc) (λ p. cc)))
        tt h r s
