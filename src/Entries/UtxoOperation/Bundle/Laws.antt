-- ===== src/Entries/UtxoOperation/Bundle/Laws.antt =====
-- What the loop over a bundle of UTXO operations returns, for any relation `IsUpdate` between a
-- transaction and its row with metadata.
use postgres_data_handler.Base.{
  ℕ, suc, ◌==◌, Bool, true, false, ◌≡◌, refl, sym, ap, subst, ◌⊎◌, inl, inr, String, Option, none,
  some, List, [], ◌∷◌, length, get_elem?, if◌then◌else◌,
}
use postgres_data_handler.Go.{Result, ok, err, panic, rewrap}
use postgres_data_handler.Go.Laws.{ok-injective, rewrap-eq-ok, bind-eq-ok}
use postgres_data_handler.Core.Chain.{LibTxn, txn_meta, get_txn_type, UtxoOperation}
use postgres_data_handler.Core.Txindex.{BasicTransferTxindexMetadata, LibTransactionMetadata}
use postgres_data_handler.Schema.Staking.{JailedHistoryEntry}
use postgres_data_handler.Schema.Chain.{TransactionEntry}
use postgres_data_handler.Env.{Codec}
use postgres_data_handler.Entries.UtxoOperation.Bundle.{
  Parsed, append_parsed, nothing_parsed, with_metadata, updated, unjail_event, parse_unjail,
  clear_metadata, parse_metadata, with_computed, parse_transaction, find_op, block_rewards_from,
  parse_one, parse_from,
}

abbrev pub BasicIsCleared : Option BasicTransferTxindexMetadata → Type 0
BasicIsCleared none = Unit
BasicIsCleared (some b) = b.utxo_ops ≡ none

abbrev pub is_unjail : Codec → LibTxn → Bool
is_unjail C transaction = get_txn_type (txn_meta transaction) == C.txn_type_unjail_validator

-- The jailed event of a transaction that UTXO operations bring.
abbrev pub jailed_event : (C : Codec) → C.Params → List UtxoOperation → Option JailedHistoryEntry
jailed_event C params ops = unjail_event C params (find_op C.operation_type_unjail_validator ops)

module _ (C : Codec) (params : C.Params) (IsUpdate : TransactionEntry → TransactionEntry → Type 0)
    (same : (t : TransactionEntry) → IsUpdate t t)
    (changed : (t : TransactionEntry) (transaction : LibTxn) (m : LibTransactionMetadata)
        (extra : Option String)
      → BasicIsCleared m.basic_transfer
      → IsUpdate t (with_metadata C params t transaction m extra)) where
  -- The update of one transaction, which only an unjail transaction without its event is without.
  abbrev pub Outcome : Bool → Option JailedHistoryEntry → TransactionEntry → Parsed → Type 0
  Outcome unjail event t p =
      (p.stake_rewards ≡ [])
      × (((unjail ≡ true) × (event ≡ none) × (p.transaction_updates ≡ []))
          ⊎ ((r : TransactionEntry) × (p.transaction_updates ≡ r ∷ []) × IsUpdate t r))

  unjail-Outcome :
      (unjail : Bool) (t u : TransactionEntry) (m : LibTransactionMetadata)
      (event : Option JailedHistoryEntry)
      → IsUpdate t u
      → Outcome unjail event t
          (if unjail then parse_unjail C params u m event else updated C params u m [])
  unjail-Outcome false t u m event i = (refl, inr (u, refl, i))
  unjail-Outcome true t u m none i = (refl, inl (refl, refl, refl))
  unjail-Outcome true t u m (some j) i = (refl, inr (u, refl, i))

  clear_metadata-cleared :
      (m : LibTransactionMetadata) (b : Option BasicTransferTxindexMetadata)
      (cleared : LibTransactionMetadata)
      → clear_metadata C params m b ≡ ok cleared
      → BasicIsCleared cleared.basic_transfer
  clear_metadata-cleared m none cleared h = cc
  clear_metadata-cleared m (some b) cleared h =
      subst (λ z. BasicIsCleared z.basic_transfer) (ok-injective h) refl

  parse_metadata-Outcome :
      (t : TransactionEntry) (transaction : LibTxn) (ops : List UtxoOperation)
      (computed : LibTransactionMetadata × Option String) (p : Parsed)
      → parse_metadata C params t transaction ops computed ≡ ok p
      → Outcome (is_unjail C transaction) (jailed_event C params ops) t p
  unfolding parse_metadata
  parse_metadata-Outcome t transaction ops (m, extra) p h =
      let (cleared, c, k) = bind-eq-ok (clear_metadata C params m m.basic_transfer) _ h in
      subst (Outcome (is_unjail C transaction) (jailed_event C params ops) t) (ok-injective k) (
        unjail-Outcome (is_unjail C transaction) t
          (with_metadata C params t transaction cleared extra) cleared (jailed_event C params ops)
          (changed t transaction cleared extra
            (clear_metadata-cleared m m.basic_transfer cleared c)))

  computed-Outcome :
      (t : TransactionEntry) (transaction : LibTxn) (ops : List UtxoOperation)
      (r : Result (LibTransactionMetadata × Option String)) (p : Parsed)
      → with_computed C params t transaction ops r ≡ ok p
      → Outcome (is_unjail C transaction) (jailed_event C params ops) t p
  computed-Outcome t transaction ops (ok computed) p h =
      parse_metadata-Outcome t transaction ops computed p h
  computed-Outcome t transaction ops (err e) p h =
      subst (Outcome (is_unjail C transaction) (jailed_event C params ops) t) (ok-injective h)
        (refl, inr (t, refl, same t))
  computed-Outcome t transaction ops (panic e) p h = cc

  parse_transaction-Outcome :
      (hash : String) (jj : ℕ) (ops : List UtxoOperation) (t : TransactionEntry) (p : Parsed)
      → parse_transaction C params hash jj ops t ≡ ok p
      → (transaction : LibTxn) × (C.txn_from_bytes t.txn_bytes ≡ ok transaction)
        × Outcome (is_unjail C transaction) (jailed_event C params ops) t p
  unfolding parse_transaction
  parse_transaction-Outcome hash jj ops t p h =
      let (transaction, d, k) = bind-eq-ok (rewrap _ (C.txn_from_bytes t.txn_bytes)) _ h in
      (
        transaction,
        rewrap-eq-ok _ (C.txn_from_bytes t.txn_bytes) d,
        computed-Outcome t transaction ops _ p k,
      )

  module _ (hash : String) (txns : List TransactionEntry) where
    -- The result for one index of the bundle.
    abbrev pub Part : ℕ → List UtxoOperation → Option TransactionEntry → Parsed → Type 0
    Part jj ops (some t) a =
        (transaction : LibTxn) × (C.txn_from_bytes t.txn_bytes ≡ ok transaction)
        × Outcome (is_unjail C transaction) (jailed_event C params ops) t a
    Part jj ops none a =
        (a.transaction_updates ≡ [])
        × (a.stake_rewards
            ≡ (if jj == length txns then block_rewards_from C params hash 0 ops else []))

    parse_one-Part :
        (jj : ℕ) (ops : List UtxoOperation) (o : Option TransactionEntry) (a : Parsed)
        → parse_one C params hash (jj == length txns) jj ops o ≡ ok a
        → Part jj ops o a
    parse_one-Part jj ops (some t) a h = parse_transaction-Outcome hash jj ops t a h
    parse_one-Part jj ops none a h = by_index (jj == length txns) h
      where
        by_index :
            (b : Bool)
            → parse_one C params hash b jj ops none ≡ ok a
            → (a.transaction_updates ≡ [])
              × (a.stake_rewards ≡ (if b then block_rewards_from C params hash 0 ops else []))
        by_index true k = (
          ap (λ z. z.transaction_updates) (sym (ok-injective k)),
          ap (λ z. z.stake_rewards) (sym (ok-injective k)),
        )
        by_index false k = (
          ap (λ z. z.transaction_updates) (sym (ok-injective k)),
          ap (λ z. z.stake_rewards) (sym (ok-injective k)),
        )

    pub parse_from-cons :
        (jj : ℕ) (ops : List UtxoOperation) (bundle : List (List UtxoOperation)) (p : Parsed)
        → parse_from C params hash txns jj (ops ∷ bundle) ≡ ok p
        → (a : Parsed) × (q : Parsed) × Part jj ops (get_elem? txns jj) a
          × (parse_from C params hash txns (suc jj) bundle ≡ ok q)
          × (append_parsed a q ≡ p)
    unfolding parse_from
    parse_from-cons jj ops bundle p h =
        let (a, e, k) = bind-eq-ok (parse_one C params hash _ jj ops (get_elem? txns jj)) _ h in
        let (q, f, j) = bind-eq-ok (parse_from C params hash txns (suc jj) bundle) _ k in
        (a, q, parse_one-Part jj ops (get_elem? txns jj) a e, f, ok-injective j)

    pub parse_from-nil :
        (jj : ℕ) (p : Parsed) → parse_from C params hash txns jj [] ≡ ok p → p ≡ nothing_parsed
    unfolding parse_from
    parse_from-nil jj p h = sym (ok-injective h)
