-- ===== src/Entries/UtxoOperation/Affected.antt =====
-- entries/utxo_operation.go: the public keys that a transaction affects, each pair of a key and a
-- metadata once, and a key that has come up before marked as a duplicate.
pub mod Laws
pub mod First
use postgres_data_handler.Base.{Bool, true, false, String, ◌<>◌, List, [], ◌∷◌, if◌then◌else◌}
use text.Mathlib.Text as Text
use postgres_data_handler.Schema.Chain.{TransactionEntry, AffectedPublicKeyEntry}

-- `_, ok := set[key]`, of a set as the list of its keys.
unfoldable pub in_set : String → List String → Bool
in_set s [] = false
in_set s (x ∷ xs) = if Text.◌==◌ s x then true else in_set s xs

-- `fmt.Sprintf("%v:%v", publicKey, metadata)`
abbrev pub duplicate_key : String × String → String
duplicate_key (public_key, metadata) = public_key <> ":" <> metadata

abbrev pub affected_row : TransactionEntry → Bool → String × String → AffectedPublicKeyEntry
affected_row t is_duplicate (public_key, metadata) = record {
  public_key = public_key;
  metadata = metadata;
  is_duplicate = is_duplicate;
  timestamp = t.timestamp;
  txn_type = t.txn_type;
  transaction_hash = t.transaction_hash;
}

-- The loop over the affected public keys, with the two sets.
unfoldable pub affected_rows_from :
    TransactionEntry
    → List String
    → List String
    → List (String × String)
    → List AffectedPublicKeyEntry
affected_rows_from t seen seen_keys [] = []
affected_rows_from t seen seen_keys (a ∷ affected) = elim (in_set (duplicate_key a) seen) [
  | true ↦ affected_rows_from t seen seen_keys affected
  | false ↦
      affected_row t (in_set a.0 seen_keys) a
      ∷ affected_rows_from t (duplicate_key a ∷ seen) (a.0 ∷ seen_keys) affected
]

unfoldable pub affected_rows :
    TransactionEntry → List (String × String) → List AffectedPublicKeyEntry
affected_rows t affected = affected_rows_from t [] [] affected
