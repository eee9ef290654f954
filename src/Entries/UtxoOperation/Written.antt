-- ===== src/Entries/UtxoOperation/Written.antt =====
-- What the queries at the end of bulkInsertUtxoOperationsEntry leave in the tables.
use postgres_data_handler.Base.{
  ◌≡◌, ◌≢◌, ◌⊎◌, inl, inr, refl, sym, subst, true, String, Option, some, List, [], ◌∷◌, map, In,
  All,
}
use postgres_data_handler.Go.{Exec, ok, wrap, reword, unless_empty, ◌>>=◌}
use postgres_data_handler.Go.Laws.{rewrap-eq-ok}
use postgres_data_handler.Go.Ensures.{Ensures, Ensures-bind, Ensures-reword, Ensures-unless_empty}
use postgres_data_handler.Core.{OperationType}
use postgres_data_handler.Schema.{
  Table, Row, Column, block_hash, signer_index, public_key, transaction_hash, metadata,
  utxo_op_index, validator_pkid, jailed_at_epoch_number, unjailed_at_epoch_number,
}
use postgres_data_handler.Env.{
  Env, World, insert, on_upsert, exec, OnConflict, do_update, do_nothing,
}
use postgres_data_handler.Env.Lawful.{IsDatabase, Updates, columns}
use postgres_data_handler.Entries.Batch.Laws.{on_upsert-Updates}
use postgres_data_handler.Entries.Batch.Statements.{exec_ok}
use postgres_data_handler.Entries.Transaction.{bulk_insert_transaction_entry}
use postgres_data_handler.Entries.UtxoOperation.{
  on_conflict, insert_blocks, write_transactions, write_collected,
}
use postgres_data_handler.Entries.UtxoOperation.Gather.{Collected}

module _ (X : Env) (D : IsDatabase X) where
  -- The table has the rows.
  abbrev pub HasRows : World X → Table → List Row → Type 0
  HasRows v t rows = All (λ r. D.Stored v.database t r) rows

  -- The other tables keep their rows.
  abbrev Keeps : Table → World X → World X → Type 0
  Keeps t w v = (u : Table) → u ≢ t → (r : Row) → D.Stored w.database u r → D.Stored v.database u r

  All-of : (P : Row → Type 0) (rows : List Row) → ((r : Row) → In r rows → P r) → All P rows
  All-of P [] h = tt
  All-of P (r ∷ rows) h = (h r (inl refl), All-of P rows (λ x i. h x (inr i)))

  still :
      (t u : Table) (rows : List Row) (w v : World X)
      → Keeps t w v
      → u ≢ t
      → HasRows w u rows
      → HasRows v u rows
  still t u [] w v keeps n h = tt
  still t u (r ∷ rows) w v keeps n (s, h) = (keeps u n r s, still t u rows w v keeps n h)

  put :
      (m : String) (t : Table) (rows : List Row) (o : Option OnConflict) (w : World X)
      → Updates o
      → Ensures (wrap m (exec X (insert t rows o))) w λ _ v. HasRows v t rows × Keeps t w v
  unfolding exec
  put m t rows o w updates a h =
      let q = insert t rows o in
      let s = exec_ok X q w (rewrap-eq-ok m (exec X q w).0 h) in
      (
        All-of _ rows (λ r i. D.insert_adds t rows o w.database s updates r i),
        λ u n r. (D.insert_frame t rows o w.database u n r).1,
      )

  put_unless_empty :
      {A : Type 0} (m : String) (t : Table) (f : A → Row) (xs : List A) (o : Option OnConflict)
      (w : World X)
      → Updates o
      → Ensures
          (unless_empty xs (wrap m (exec X (insert t (map f xs) o))))
          w
          λ _ v. HasRows v t (map f xs) × Keeps t w v
  put_unless_empty m t f [] o w updates a h = (tt, λ u n r s. s)
  put_unless_empty m t f (x ∷ xs) o w updates a h = put m t (f x ∷ map f xs) o w updates a h

  -- For each of the rows, the table has one with the same values in the columns.
  abbrev pub HasLike : World X → Table → List Column → List Row → Type 0
  HasLike v t cs rows =
      (r : Row) → In r rows → (n : Row) × D.Stored v.database t n × (columns cs n ≡ columns cs r)

  cover_unless_empty :
      {A : Type 0} (m : String) (t : Table) (f : A → Row) (xs : List A) (o : OnConflict)
      (w : World X)
      → Ensures
          (unless_empty xs (wrap m (exec X (insert t (map f xs) (some o)))))
          w
          λ _ v. HasLike v t o.target (map f xs) × Keeps t w v
  unfolding exec
  cover_unless_empty m t f [] o w a h = (λ r i. absurd i, λ u n r s. s)
  cover_unless_empty m t f (x ∷ xs) o w a h =
      let q = insert t (f x ∷ map f xs) (some o) in
      (
        D.insert_covers t (f x ∷ map f xs) o w.database
            (exec_ok X q w (rewrap-eq-ok m (exec X q w).0 h)),
        λ u n r. (D.insert_frame t (f x ∷ map f xs) (some o) w.database u n r).1,
      )

  module _ (c : Collected) (o : OperationType) where
    abbrev transactions : List Row
    transactions = map Row.transaction c.parsed.transaction_updates

    abbrev blocks : List Row
    blocks = map Row.block c.blocks

    abbrev signers : List Row
    signers = map Row.block_signer c.signers

    abbrev InBlocks : Unit {0} → World X → Type 0
    InBlocks _ v =
        HasRows v Table.transaction transactions
        × HasRows v Table.block blocks
        × HasRows v Table.block_signer signers

    insert_blocks-InBlocks : (w : World X) → Ensures (insert_blocks X c o) w InBlocks
    unfolding insert_blocks bulk_insert_transaction_entry
    insert_blocks-InBlocks w =
        let first : Exec (World X) Unit =
          reword "entries.bulkInsertUtxoOperationsEntry: Problem inserting transaction entries: %v"
            (bulk_insert_transaction_entry X c.parsed.transaction_updates o) in
        let second : Exec (World X) Unit =
          wrap "entries.bulkInsertBlock: Error inserting entries"
            (exec X (insert Table.block blocks (on_upsert o (block_hash ∷ [])))) in
        let third : Exec (World X) Unit = unless_empty c.signers (
          wrap "entries.bulkInsertBlockSigners: Error inserting block signer entries" (
            exec X (
              insert Table.block_signer signers (on_upsert o (block_hash ∷ signer_index ∷ []))))) in
        Ensures-bind first (λ _. second >>= λ _. third) w InBlocks
          λ _ e1.
            let (t1, k1) =
              Ensures-reword _ (bulk_insert_transaction_entry X c.parsed.transaction_updates o) w
                (λ _ v. HasRows v Table.transaction transactions × Keeps Table.transaction w v)
                (put _ Table.transaction transactions _ w (on_upsert-Updates o _)) tt e1 in
            Ensures-bind second (λ _. third) (first w).1 InBlocks
              λ _ e2 _ e3.
                let v1 = (first w).1 in
                let v2 = (second v1).1 in
                let v3 = (third v2).1 in
                let (t2, k2) = put _ Table.block blocks _ v1 (on_upsert-Updates o _) tt e2 in
                let (t3, k3) =
                  put_unless_empty _ Table.block_signer Row.block_signer c.signers _ v2
                    (on_upsert-Updates o _) tt e3 in
                (
                  still Table.block_signer Table.transaction transactions v2 v3 k3 (λ p. cc)
                      (still Table.block Table.transaction transactions v1 v2 k2 (λ p. cc) t1),
                  still Table.block_signer Table.block blocks v2 v3 k3 (λ p. cc) t2,
                  t3,
                )

    abbrev affected : List Row
    affected = map Row.affected_public_key c.parsed.affected_public_keys

    abbrev rewards : List Row
    rewards = map Row.stake_reward c.parsed.stake_rewards

    abbrev First : Unit {0} → World X → Type 0
    First _ v =
        HasRows v Table.transaction transactions
        × ((c.parsed.transaction_updates ≡ [])
            ⊎ (HasRows v Table.block blocks × HasRows v Table.block_signer signers))

    -- What tells jailed events apart.
    abbrev pub event_columns : List Column
    event_columns = validator_pkid ∷ jailed_at_epoch_number ∷ unjailed_at_epoch_number ∷ []

    abbrev pub AllWritten : Unit {0} → World X → Type 0
    AllWritten u v =
        First u v
        × HasRows v Table.affected_public_key affected
        × HasRows v Table.stake_reward rewards
        × HasLike v Table.jailed_history_event event_columns
            (map Row.jailed_history_event c.parsed.jailed_history)

    transactions-First :
        (w : World X)
        → c.insert_transactions ≡ true
        → Ensures (unless_empty c.parsed.transaction_updates (write_transactions X c o)) w First
    unfolding write_transactions insert_blocks
    transactions-First w t =
        Ensures-unless_empty c.parsed.transaction_updates _ w First
          (λ e.
            (subst (λ z. HasRows w Table.transaction (map Row.transaction z)) (sym e) tt, inl e))
          (rw t λ a h. let (x, y, z) = insert_blocks-InBlocks w a h in (x, inr (y, z)))

    still-First :
        (t : Table) (w v : World X)
        → Keeps t w v
        → Table.transaction ≢ t
        → Table.block ≢ t
        → Table.block_signer ≢ t
        → First tt w
        → First tt v
    still-First t w v k n1 n2 n3 (x, inl e) =
        (still t Table.transaction transactions w v k n1 x, inl e)
    still-First t w v k n1 n2 n3 (x, inr (y, z)) = (
      still t Table.transaction transactions w v k n1 x,
      inr (still t Table.block blocks w v k n2 y, still t Table.block_signer signers w v k n3 z),
    )

    -- Where transactions are to be inserted and the queries at the end return nil, every collected row
    -- of a transaction, an affected public key or a stake reward is stored, and for each collected
    -- jailed event one with the same validator and epochs is. Every collected block and signer is
    -- stored too, unless no transaction was collected.
    pub collected_written :
        (w : World X)
        → c.insert_transactions ≡ true
        → (write_collected X c o w).0 ≡ ok tt
        → AllWritten tt (write_collected X c o w).1
    unfolding write_collected
    collected_written w t h =
        let q1 : Exec (World X) Unit =
          unless_empty c.parsed.transaction_updates (write_transactions X c o) in
        let q2 : Exec (World X) Unit = unless_empty c.parsed.affected_public_keys (
          wrap "InsertAffectedPublicKeys: Problem inserting affectedPublicKeys" (
            exec X (
              insert Table.affected_public_key affected
                (on_conflict do_update (public_key ∷ transaction_hash ∷ metadata ∷ []))))) in
        let q3 : Exec (World X) Unit = unless_empty c.parsed.stake_rewards (
          wrap "InsertStakeRewards: Problem inserting stake rewards" (
            exec X (
              insert Table.stake_reward rewards
                (on_conflict do_update (block_hash ∷ utxo_op_index ∷ []))))) in
        let q4 : Exec (World X) Unit = unless_empty c.parsed.jailed_history (
          wrap "InsertJailedHistory: Problem inserting jailed history" (
            exec X (
              insert Table.jailed_history_event
                (map Row.jailed_history_event c.parsed.jailed_history)
                (on_conflict do_nothing event_columns)))) in
        Ensures-bind q1 (λ _. q2 >>= λ _. q3 >>= λ _. q4) w AllWritten
          (λ _ e1.
            let v1 = (q1 w).1 in
            let s1 = transactions-First w t tt e1 in
            Ensures-bind q2 (λ _. q3 >>= λ _. q4) v1 AllWritten
              λ _ e2.
                let v2 = (q2 v1).1 in
                let (s2, k2) =
                  put_unless_empty _ Table.affected_public_key Row.affected_public_key
                    c.parsed.affected_public_keys _ v1 refl tt e2 in
                Ensures-bind q3 (λ _. q4) v2 AllWritten
                  λ _ e3 _ e4.
                    let v3 = (q3 v2).1 in
                    let (s3, k3) =
                      put_unless_empty _ Table.stake_reward Row.stake_reward c.parsed.stake_rewards
                        _ v2 refl tt e3 in
                    let v4 = (q4 v3).1 in
                    let (s4, k4) =
                      cover_unless_empty _ Table.jailed_history_event Row.jailed_history_event
                        c.parsed.jailed_history
                        (record { target = event_columns; action = do_nothing }) v3 tt e4 in
                    (
                      still-First Table.jailed_history_event v3 v4 k4 (λ p. cc) (λ p. cc) (λ p. cc)
                          (still-First Table.stake_reward v2 v3 k3 (λ p. cc) (λ p. cc) (λ p. cc)
                            (still-First Table.affected_public_key v1 v2 k2 (λ p. cc) (λ p. cc)
                              (λ p. cc) s1)),
                      still Table.jailed_history_event Table.affected_public_key affected v3 v4 k4
                          (λ p. cc)
                          (still Table.stake_reward Table.affected_public_key affected v2 v3 k3
                            (λ p. cc) s2),
                      still Table.jailed_history_event Table.stake_reward rewards v3 v4 k4 (λ p. cc)
                          s3,
                      s4,
                    ))
          tt h
