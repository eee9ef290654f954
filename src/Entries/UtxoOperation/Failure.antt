-- ===== src/Entries/UtxoOperation/Failure.antt =====
-- A batch of UTXO operations that cannot be parsed.
use postgres_data_handler.Base.{
  ◌≡◌, refl, sym, ◌∙◌, ap, subst, String, Option, none, some, List, [], ◌∷◌,
}
use postgres_data_handler.Go.{Error, Result, ok, err, panic, Exec, lift, pure, continue, ◌>>=◌}
use postgres_data_handler.Core.{StateChangeEntry, OperationType}
use postgres_data_handler.Core.Chain.{LibBlock, UtxoOperation}
use postgres_data_handler.Schema.{Column}
use postgres_data_handler.Env.{Env, World}
use postgres_data_handler.Entries.UtxoOperation.{write_collected, bulk_insert_utxo_operations_entry}
use postgres_data_handler.Entries.UtxoOperation.Gather.{
  convert_utxo_operation_key_to_block_hash_hex, as_bundle, append_collected, filter_field, select,
  gather_stored_from, parse_gathered, collect_bundle, collect_stored, collect_one, collect_each,
}

-- Steps that change nothing, in a row.
same-bind :
    {W A B : Type 0} (m : Exec W A) (f : A → Exec W B) (w : W)
    → (m w).1 ≡ w
    → ((a : A) → (f a w).1 ≡ w)
    → ((m >>= f) w).1 ≡ w
same-bind {W} {A} m f w h k = go (m w).0 (m w).1 h
  where
    go : (r : Result A) (v : W) → v ≡ w → (continue r f v).1 ≡ w
    go (ok a) v e = ap (λ z. (f a z).1) e ∙ k a
    go (err x) v e = e
    go (panic p) v e = e

module _ (X : Env) (params : X.Params)
    (select_only : (c : Column) (s : String) (d : X.State)
      → (X.select_transactions c s d).1 ≡ d) where
  select_same : (c : Column) (hash : String) (w : World X) → (select X params c hash w).1 ≡ w
  unfolding select
  select_same c hash w = ap (λ z. record w { database = z }) (select_only c hash w.database)

  stored_same :
      (entry : StateChangeEntry) (bundle : List (List UtxoOperation)) (hash : String) (w : World X)
      → (collect_stored X params entry bundle hash w).1 ≡ w
  unfolding collect_stored
  stored_same entry bundle hash w =
      same-bind (lift (filter_field X params entry.key_bytes)) _ w refl λ field.
        same-bind (select X params field hash) _ w (select_same field hash w) λ txns.
          same-bind (lift (gather_stored_from X.codec params 0 txns bundle)) _ w refl
            λ g. same-bind (lift (parse_gathered X params bundle hash g)) _ w refl λ p. refl

  bundle_same :
      (entry : StateChangeEntry) (bundle : List (List UtxoOperation)) (hash : String)
      (block : Option LibBlock) (w : World X)
      → (collect_bundle X params entry bundle hash block w).1 ≡ w
  bundle_same entry bundle hash (some block) w = refl
  bundle_same entry bundle hash none w = stored_same entry bundle hash w

  one_same : (entry : StateChangeEntry) (w : World X) → (collect_one X params entry w).1 ≡ w
  unfolding collect_one
  one_same entry w =
      same-bind (lift (convert_utxo_operation_key_to_block_hash_hex X.codec entry.key_bytes))
        (λ hash.
          lift (as_bundle entry.encoder) >>= λ u. collect_bundle X params entry u hash entry.block)
        w refl
        λ hash.
          same-bind (lift (as_bundle entry.encoder))
            (λ u. collect_bundle X params entry u hash entry.block) w refl
            λ u. bundle_same entry u hash entry.block w

  each_same :
      (entries : List StateChangeEntry) (w : World X) → (collect_each X params entries w).1 ≡ w
  unfolding collect_each
  each_same [] w = refl
  each_same (entry ∷ entries) w =
      same-bind (collect_one X params entry)
        (λ c. collect_each X params entries >>= λ more. pure (append_collected c more)) w
        (one_same entry w)
        λ c.
          same-bind (collect_each X params entries) (λ more. pure (append_collected c more)) w
            (each_same entries w) λ more. refl

  -- Assume that a select changes nothing. If the loop over the unique entries of a batch of UTXO
  -- operations leaves with an error, at whatever entry, then the insert of the batch returns this
  -- error, and the tables and the cache are as they were.
  pub unparsed_batch_writes_nothing :
      (entries : List StateChangeEntry) (o : OperationType) (w : World X) (e : Error)
      → (collect_each X params (X.unique_entries entries) w).0 ≡ err e
      → bulk_insert_utxo_operations_entry X entries o params w ≡ (err e, w)
  unfolding bulk_insert_utxo_operations_entry
  unparsed_batch_writes_nothing entries o w e h =
      let m = collect_each X params (X.unique_entries entries) in
      subst (λ z. continue z (λ c. write_collected X c o) (m w).1 ≡ (err e, w)) (sym h)
        (ap (λ z. (err e, z)) (each_same (X.unique_entries entries) w))
