-- ===== src/Core.antt =====
-- The state changes that the consumer hands over, and the core library's types that they carry.
pub mod Social
pub mod Messages
pub mod Coins
pub mod Access
pub mod Staking
pub mod Chain
pub mod Txindex
use postgres_data_handler.Base.{ℕ, Bool, true, false, String, Option, List, map, Bytes}
use postgres_data_handler.Core.Social.{
  LibPostEntry, LibProfileEntry, LibLikeEntry, LibDiamondEntry, LibFollowEntry,
}
use postgres_data_handler.Core.Messages.{LibMessageEntry, LibNewMessageEntry}
use postgres_data_handler.Core.Coins.{
  LibBalanceEntry, LibNftEntry, LibNftBidEntry, LibDesoBalanceEntry, LibDaoCoinLimitOrderEntry,
}
use postgres_data_handler.Core.Access.{
  LibDerivedKeyEntry, LibAccessGroupEntry, LibAccessGroupMemberEntry, LibUserAssociationEntry,
  LibPostAssociationEntry, LibPkidEntry,
}
use postgres_data_handler.Core.Staking.{
  LibStakeEntry, LibLockedStakeEntry, LibLockedBalanceEntry, LibLockupYieldCurvePoint,
  LibEpochEntry, LibGlobalParamsEntry, LibValidatorEntry, LibBlsPublicKeyPkidPairEntry,
  LibUnjailValidatorStateChangeMetadata,
}
use postgres_data_handler.Core.Chain.{LibBlock, LibBlockNode, LibTxn, UtxoOperation}

-- `lib.StateSyncerOperationType`, with the values that the program names.
pub data OperationType : Type 0 where
  insert_operation delete_operation upsert_operation : OperationType
  other_operation : ℕ → OperationType

abbrev pub is_delete : OperationType → Bool
is_delete delete_operation = true
is_delete _ = false

abbrev pub is_upsert : OperationType → Bool
is_upsert upsert_operation = true
is_upsert _ = false

abbrev pub is_insert : OperationType → Bool
is_insert insert_operation = true
is_insert _ = false

-- The dynamic type and value of an `Encoder`.
pub data Encoder : Type 0 where
  post_entry : LibPostEntry → Encoder
  profile_entry : LibProfileEntry → Encoder
  like_entry : LibLikeEntry → Encoder
  diamond_entry : LibDiamondEntry → Encoder
  follow_entry : LibFollowEntry → Encoder
  message_entry : LibMessageEntry → Encoder
  new_message_entry : LibNewMessageEntry → Encoder
  balance_entry : LibBalanceEntry → Encoder
  nft_entry : LibNftEntry → Encoder
  nft_bid_entry : LibNftBidEntry → Encoder
  deso_balance_entry : LibDesoBalanceEntry → Encoder
  dao_coin_limit_order_entry : LibDaoCoinLimitOrderEntry → Encoder
  derived_key_entry : LibDerivedKeyEntry → Encoder
  access_group_entry : LibAccessGroupEntry → Encoder
  access_group_member_entry : LibAccessGroupMemberEntry → Encoder
  user_association_entry : LibUserAssociationEntry → Encoder
  post_association_entry : LibPostAssociationEntry → Encoder
  pkid_entry : LibPkidEntry → Encoder
  stake_entry : LibStakeEntry → Encoder
  locked_stake_entry : LibLockedStakeEntry → Encoder
  locked_balance_entry : LibLockedBalanceEntry → Encoder
  lockup_yield_curve_point : LibLockupYieldCurvePoint → Encoder
  epoch_entry : LibEpochEntry → Encoder
  global_params_entry : LibGlobalParamsEntry → Encoder
  validator_entry : LibValidatorEntry → Encoder
  bls_public_key_pkid_pair_entry : LibBlsPublicKeyPkidPairEntry → Encoder
  pkid : Bytes → Encoder
  unjail_validator_state_change_metadata : LibUnjailValidatorStateChangeMetadata → Encoder
  block : LibBlock → Encoder
  block_node : LibBlockNode → Encoder
  txn : LibTxn → Encoder
  utxo_operation_bundle : List (List UtxoOperation) → Encoder
  other_encoder : ℕ → Encoder

pub record StateChangeEntry : Type 0 where
  pub operation_type : OperationType
  pub key_bytes : Bytes
  pub encoder : Encoder
  pub encoder_bytes : Bytes
  pub block : Option LibBlock
  pub block_height : ℕ

abbrev pub keys_of : List StateChangeEntry → List Bytes
keys_of es = map (λ e. e.key_bytes) es

-- What `DecodeDesoBodySchema` returns.
pub record DesoBodySchema : Type 0 where
  pub body : String
  pub image_urls : List String
  pub video_urls : List String
