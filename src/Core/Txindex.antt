-- ===== src/Core/Txindex.antt =====
-- What entries/utxo_operation.go reads and clears of the core library's transaction index metadata.
use postgres_data_handler.Base.{ℕ, String, Option, List, Json}
use postgres_data_handler.Core.Chain.{UtxoOperation}

-- `UtxoOps`, which may be nil, and the other fields.
pub record BasicTransferTxindexMetadata : Type 0 where
  pub utxo_ops : Option (List UtxoOperation)
  pub others : Json

-- The metadata of one inner transaction of an atomic wrapper.
pub record InnerTransactionMetadata : Type 0 where
  pub basic_transfer : Option BasicTransferTxindexMetadata
  pub others : Json

-- The dynamic type of what `GetEncoderForTxType` returns.
pub data TxindexMetadata : Type 0 where
  basic_transfer_txindex : BasicTransferTxindexMetadata → TxindexMetadata
  atomic_txns_wrapper_txindex : List InnerTransactionMetadata → Json → TxindexMetadata
  other_txindex : ℕ → Json → TxindexMetadata

-- A `TransactionMetadata`; `others` holds the metadata of the other transaction types.
pub record LibTransactionMetadata : Type 0 where
  pub basic_transfer : Option BasicTransferTxindexMetadata
  pub affected_public_keys : List (String × String)
  pub others : ℕ → Option TxindexMetadata

-- `consumer.ConsumerTxIndexMetadata`; both fields of its zero value are nil.
pub record ConsumerTxIndexMetadata : Type 0 where
  pub deso_encoder : Option TxindexMetadata
  pub transaction_extra_metadata : Option Json
