-- ===== src/Entries/UtxoOperation/Bundle.antt =====
-- parseUtxoOperationBundle of entries/utxo_operation.go. Transactions and their metadata are
-- pointers there, written after they are read; here the row holds what they hold at the end.
pub mod Laws
pub mod Updates
pub mod Rewards
use mathlib.Core.Option
use postgres_data_handler.Base.{
  ℕ, zero, suc, ◌==◌, Bool, true, false, String, Option, none, some, List, [], ◌∷◌, ◌++◌, map,
  length, get_elem?, if◌then◌else◌, ◌||◌,
}
use postgres_data_handler.Go.{Result, ok, err, panic, nil_dereference, bind, rewrap}
use postgres_data_handler.Core.Chain.{
  LibTxn, txn_body, txn_meta, get_txn_type, StateChangeMetadata, stake_reward, unjail_validator,
  other_state_change, UtxoOperation, utxo_operation,
}
use postgres_data_handler.Core.Txindex.{
  BasicTransferTxindexMetadata, InnerTransactionMetadata, TxindexMetadata,
  atomic_txns_wrapper_txindex, LibTransactionMetadata,
}
use postgres_data_handler.Schema.Staking.{StakeReward, JailedHistoryEntry}
use postgres_data_handler.Schema.Chain.{TransactionEntry, AffectedPublicKeyEntry}
use postgres_data_handler.Env.{Codec}
use postgres_data_handler.Entries.StakeReward.{stake_reward_encoder_to_pg_struct}
use postgres_data_handler.Entries.JailedHistory.{
  unjail_validator_state_change_metadata_encoder_to_pg_struct,
}
use postgres_data_handler.Entries.UtxoOperation.Affected.{affected_rows}

abbrev pub op_type : UtxoOperation → ℕ
op_type (utxo_operation t m i) = t

abbrev pub state_change_metadata : UtxoOperation → StateChangeMetadata
state_change_metadata (utxo_operation t m i) = m

-- The four slices that the function returns.
pub record Parsed : Type 0 where
  pub transaction_updates : List TransactionEntry
  pub affected_public_keys : List AffectedPublicKeyEntry
  pub stake_rewards : List StakeReward
  pub jailed_history : List JailedHistoryEntry

abbrev pub nothing_parsed : Parsed
nothing_parsed = record {
  transaction_updates = [];
  affected_public_keys = [];
  stake_rewards = [];
  jailed_history = [];
}

abbrev pub append_parsed : Parsed → Parsed → Parsed
append_parsed p q = record {
  transaction_updates = p.transaction_updates ++ q.transaction_updates;
  affected_public_keys = p.affected_public_keys ++ q.affected_public_keys;
  stake_rewards = p.stake_rewards ++ q.stake_rewards;
  jailed_history = p.jailed_history ++ q.jailed_history;
}

-- `basicTransferMetadata.UtxoOps = nil`
abbrev pub without_utxo_ops : BasicTransferTxindexMetadata → BasicTransferTxindexMetadata
without_utxo_ops b = record b { utxo_ops = none }

abbrev pub clear_inner : InnerTransactionMetadata → InnerTransactionMetadata
clear_inner m = record m { basic_transfer = Option.map without_utxo_ops m.basic_transfer }

abbrev pub clear_atomic : TxindexMetadata → TxindexMetadata
clear_atomic (atomic_txns_wrapper_txindex inner others) =
    atomic_txns_wrapper_txindex (map clear_inner inner) others
clear_atomic m = m

-- The first operation of a type.
unfoldable pub find_op : ℕ → List UtxoOperation → Option UtxoOperation
find_op t [] = none
find_op t (op ∷ ops) = if op_type op == t then some op else find_op t ops

module _ (C : Codec) (params : C.Params) where
  -- The transaction with its two metadata columns.
  unfoldable pub with_metadata :
      TransactionEntry → LibTxn → LibTransactionMetadata → Option String → TransactionEntry
  with_metadata t transaction metadata extra = record t {
    tx_index_metadata = record {
      deso_encoder =
          Option.map clear_atomic
            (C.get_encoder_for_tx_type metadata (get_txn_type (txn_meta transaction)));
      transaction_extra_metadata = extra;
    };
    tx_index_basic_transfer_metadata = C.get_encoder_for_tx_type metadata C.txn_type_basic_transfer;
  }

  -- What the loop appends for a transaction whose metadata is there.
  abbrev pub updated : TransactionEntry → LibTransactionMetadata → List JailedHistoryEntry → Parsed
  updated t metadata jailed = record {
    transaction_updates = t ∷ [];
    affected_public_keys = affected_rows t metadata.affected_public_keys;
    stake_rewards = [];
    jailed_history = jailed;
  }

  -- The jailed history of an unjail operation.
  abbrev pub unjail_event : Option UtxoOperation → Option JailedHistoryEntry
  unjail_event none = none
  unjail_event (some (utxo_operation t (unjail_validator scm) i)) =
      some (unjail_validator_state_change_metadata_encoder_to_pg_struct C scm params)
  unjail_event (some (utxo_operation t (stake_reward m) i)) = none
  unjail_event (some (utxo_operation t (other_state_change m) i)) = none

  -- Without an unjail operation, or with other metadata, the loop goes on to the next transaction.
  abbrev pub parse_unjail :
      TransactionEntry → LibTransactionMetadata → Option JailedHistoryEntry → Parsed
  parse_unjail t metadata none = nothing_parsed
  parse_unjail t metadata (some event) = updated t metadata (event ∷ [])

  -- `BasicTransferTxindexMetadata.UtxoOps = nil`, through a pointer that may be nil.
  abbrev pub clear_metadata :
      LibTransactionMetadata → Option BasicTransferTxindexMetadata → Result LibTransactionMetadata
  clear_metadata metadata none = panic nil_dereference
  clear_metadata metadata (some b) =
      ok (record metadata { basic_transfer = some (without_utxo_ops b) })

  unfoldable pub parse_metadata :
      TransactionEntry
      → LibTxn
      → List UtxoOperation
      → LibTransactionMetadata × Option String
      → Result Parsed
  parse_metadata t transaction utxo_ops (metadata, extra) =
      bind (clear_metadata metadata metadata.basic_transfer) λ cleared.
        let u = with_metadata t transaction cleared extra in
        ok (
          if get_txn_type (txn_meta transaction) == C.txn_type_unjail_validator
          then parse_unjail u cleared
              (unjail_event (find_op C.operation_type_unjail_validator utxo_ops))
          else updated u cleared [])

  -- Where the metadata cannot be computed, the transaction is appended as it is.
  abbrev pub with_computed :
      TransactionEntry
      → LibTxn
      → List UtxoOperation
      → Result (LibTransactionMetadata × Option String)
      → Result Parsed
  with_computed t transaction utxo_ops (ok computed) =
      parse_metadata t transaction utxo_ops computed
  with_computed t transaction utxo_ops (err e) =
      ok (record nothing_parsed { transaction_updates = t ∷ [] })
  with_computed t transaction utxo_ops (panic p) = panic p

  -- The loop's body for an index below the number of transactions.
  unfoldable pub parse_transaction :
      String → ℕ → List UtxoOperation → TransactionEntry → Result Parsed
  parse_transaction block_hash_hex jj utxo_ops t =
      bind
        (rewrap
          "parseUtxoOperationBundle: Problem decoding transaction for entry %+v at block height %v"
          (C.txn_from_bytes t.txn_bytes))
        λ transaction. with_computed t transaction utxo_ops (
          C.compute_transaction_metadata transaction block_hash_hex params
            (txn_body transaction).txn_fee_nanos jj utxo_ops)

  abbrev pub is_stake_distribution : ℕ → Bool
  is_stake_distribution t =
      t == C.operation_type_stake_distribution_restake
      || t == C.operation_type_stake_distribution_pay_to_balance

  abbrev pub reward_of : String → ℕ → StateChangeMetadata → List StakeReward
  reward_of block_hash_hex ii (stake_reward m) =
      stake_reward_encoder_to_pg_struct C m params block_hash_hex ii ∷ []
  reward_of block_hash_hex ii (unjail_validator m) = []
  reward_of block_hash_hex ii (other_state_change m) = []

  -- The loop over the operations of the block itself.
  unfoldable pub block_rewards_from : String → ℕ → List UtxoOperation → List StakeReward
  block_rewards_from block_hash_hex ii [] = []
  block_rewards_from block_hash_hex ii (op ∷ utxo_ops) =
      let rest = block_rewards_from block_hash_hex (suc ii) utxo_ops in
      if is_stake_distribution (op_type op)
      then reward_of block_hash_hex ii (state_change_metadata op) ++ rest
      else rest

  -- The loop's body, of the transaction at its index if there is one.
  abbrev pub parse_one :
      String → Bool → ℕ → List UtxoOperation → Option TransactionEntry → Result Parsed
  parse_one block_hash_hex is_block jj utxo_ops (some t) =
      parse_transaction block_hash_hex jj utxo_ops t
  parse_one block_hash_hex true jj utxo_ops none =
      ok (record nothing_parsed { stake_rewards = block_rewards_from block_hash_hex 0 utxo_ops })
  parse_one block_hash_hex false jj utxo_ops none = ok nothing_parsed

  -- The loop over the bundle, from the index that it has reached.
  unfoldable pub parse_from :
      String → List TransactionEntry → ℕ → List (List UtxoOperation) → Result Parsed
  parse_from block_hash_hex transactions jj [] = ok nothing_parsed
  parse_from block_hash_hex transactions jj (utxo_ops ∷ bundle) =
      let rest = parse_from block_hash_hex transactions (suc jj) bundle in
      bind
        (parse_one block_hash_hex (jj == length transactions) jj utxo_ops
          (get_elem? transactions jj))
        λ p. bind rest λ q. ok (append_parsed p q)

  unfoldable pub parse_utxo_operation_bundle :
      List (List UtxoOperation) → List TransactionEntry → String → Result Parsed
  parse_utxo_operation_bundle utxo_op_bundle transactions block_hash_hex =
      parse_from block_hash_hex transactions 0 utxo_op_bundle
