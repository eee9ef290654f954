-- ===== src/Tests/Syncing.antt =====
-- A codec and an environment for the tests on UTXO operations: the bytes of simple transactions decode
-- to them, and every transaction has metadata.
use mathlib.Core.Option
use text.Mathlib.Text as Text
use text.Mathlib.TextEquality.{eq_iff}
use postgres_data_handler.Base.{
  ℕ, ◌≡◌, inl, inr, refl, sym, Bool-cases, String, Option, none, some, List, [], ◌∷◌, Bytes,
  if◌then◌else◌,
}
use postgres_data_handler.Go.{Result, ok, err, errorf}
use postgres_data_handler.Core.Chain.{
  LibTxn, LibTxnBody, LibTxnNonce, LibTxnMeta, atomic_txns_wrapper, other_meta, UtxoOperation,
}
use postgres_data_handler.Core.Txindex.{
  LibTransactionMetadata, BasicTransferTxindexMetadata, basic_transfer_txindex,
}
use postgres_data_handler.Env.{Codec, Env}
use postgres_data_handler.Env.Lawful.{IsDatabase}
use postgres_data_handler.Tests.Encodings.{encodings}
use postgres_data_handler.Tests.Memory.{memory}
use postgres_data_handler.Tests.Memory.Laws.{database}

-- Transactions without inputs, outputs and extra data are encoded, and no others.
abbrev pub encode :
    List (Bytes × ℕ)
    → List (Bytes × ℕ)
    → List (String × Bytes)
    → Option LibTxnNonce
    → Option Bytes
    → LibTxnMeta
    → LibTxnBody
    → Result Bytes
encode [] [] [] none none (other_meta ty j) b =
    if Text.◌==◌ j ""
    then ok (ty ∷ b.txn_fee_nanos ∷ b.txn_version ∷ b.public_key)
    else err (errorf "not encoded")
encode _ _ _ _ _ _ b = err (errorf "not encoded")

abbrev pub to_bytes : LibTxn → Result Bytes
to_bytes (LibTxn.txn b m) = encode b.tx_inputs b.tx_outputs b.extra_data b.txn_nonce b.signature m b

abbrev pub simple : ℕ → ℕ → ℕ → Bytes → LibTxn
simple ty fee version public_key =
    LibTxn.txn
      (record {
        tx_inputs = [];
        tx_outputs = [];
        txn_fee_nanos = fee;
        txn_version = version;
        public_key = public_key;
        extra_data = [];
        txn_nonce = none;
        signature = none;
      })
      (other_meta ty "")

abbrev pub from_bytes : Bytes → Result LibTxn
from_bytes (ty ∷ fee ∷ version ∷ public_key) = ok (simple ty fee version public_key)
from_bytes _ = err (errorf "not decoded")

-- The metadata of a transaction: its operations, and the sender's key twice.
abbrev pub metadata_of : List UtxoOperation → LibTransactionMetadata
metadata_of ops = record {
  basic_transfer = some (record { utxo_ops = some ops; others = "{}" });
  affected_public_keys = ("a", "Sender") ∷ ("a", "Output") ∷ ("a", "Sender") ∷ [];
  others = λ t. none;
}

abbrev pub codec : Codec
codec = record encodings {
  txn_to_bytes = to_bytes;
  txn_from_bytes = from_bytes;
  compute_transaction_metadata = λ t h p f i ops. ok (metadata_of ops, none);
  get_encoder_for_tx_type = λ m t. Option.map basic_transfer_txindex m.basic_transfer;
}

abbrev pub syncing : Env
syncing = record memory { codec = codec }

abbrev pub stored : IsDatabase syncing
stored = record {
  Stored = database.Stored;
  failed = database.failed;
  insert_adds = database.insert_adds;
  insert_covers = database.insert_covers;
  insert_keeps = database.insert_keeps;
  insert_only = database.insert_only;
  insert_frame = database.insert_frame;
  delete_removes = database.delete_removes;
  delete_keeps = database.delete_keeps;
  delete_only = database.delete_only;
  delete_frame = database.delete_frame;
}

pub basic :
    (m : LibTransactionMetadata) (n : ℕ) (b : BasicTransferTxindexMetadata)
    → codec.get_encoder_for_tx_type m n ≡ some (basic_transfer_txindex b)
    → m.basic_transfer ≡ some b
basic m n b h = go m.basic_transfer h
  where
    go :
        (o : Option BasicTransferTxindexMetadata)
        → Option.map basic_transfer_txindex o ≡ some (basic_transfer_txindex b)
        → o ≡ some b
    go none k = cc
    go (some x) k = cc

pub round_trip : (t : LibTxn) (bs : Bytes) → to_bytes t ≡ ok bs → from_bytes bs ≡ ok t
round_trip (LibTxn.txn b m) bs h =
    go b.tx_inputs b.tx_outputs b.extra_data b.txn_nonce b.signature m h
  where
    go :
        (i : List (Bytes × ℕ)) (o : List (Bytes × ℕ)) (x : List (String × Bytes))
        (n : Option LibTxnNonce) (s : Option Bytes) (m' : LibTxnMeta)
        → encode i o x n s m' b ≡ ok bs
        → from_bytes bs
          ≡ ok (
              LibTxn.txn
                (record b {
                  tx_inputs = i;
                  tx_outputs = o;
                  extra_data = x;
                  txn_nonce = n;
                  signature = s;
                })
                m')
    go [] [] [] none none (other_meta ty j) k = elim (Bool-cases (Text.◌==◌ j "")) [
      | inl y ↦
          let e : ty ∷ b.txn_fee_nanos ∷ b.txn_version ∷ b.public_key ≡ bs = cc (rw y at k) in
          let same : j ≡ "" = (eq_iff j "").0 y in rw (same, sym e) refl
      | inr f ↦ cc (rw f at k)
    ]
    go (i ∷ is) o x n s m' k = cc
    go [] (o ∷ os) x n s m' k = cc
    go [] [] (x ∷ xs) n s m' k = cc
    go [] [] [] (some n) s m' k = cc
    go [] [] [] none (some s) m' k = cc
    go [] [] [] none none (atomic_txns_wrapper ty ts) k = cc
