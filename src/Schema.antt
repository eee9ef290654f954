-- ===== src/Schema.antt =====
-- The tables of the database and their rows.
pub mod Social
pub mod Messages
pub mod Coins
pub mod Access
pub mod Staking
pub mod Chain
use mathlib.Core.Option
use postgres_data_handler.Base.{ℕ, String, Option, none, some, Bytes}
use postgres_data_handler.Schema.Social.{
  PostEntry, ProfileEntry, LikeEntry, DiamondEntry, FollowEntry,
}
use postgres_data_handler.Schema.Messages.{MessageEntry, NewMessageEntry}
use postgres_data_handler.Schema.Coins.{
  BalanceEntry, NftEntry, NftBidEntry, DesoBalanceEntry, DaoCoinLimitOrderEntry,
}
use postgres_data_handler.Schema.Access.{
  DerivedKeyEntry, AccessGroupEntry, AccessGroupMemberEntry, UserAssociationEntry,
  PostAssociationEntry, PkidEntry,
}
use postgres_data_handler.Schema.Staking.{
  StakeEntry, LockedStakeEntry, LockedBalanceEntry, LockupYieldCurvePoint, EpochEntry,
  GlobalParamsEntry, ValidatorEntry, SnapshotValidatorEntry, BlsPublicKeyPkidPairEntry,
  BlsPublicKeyPkidPairSnapshotEntry, LeaderScheduleEntry, StakeReward, JailedHistoryEntry,
}
use postgres_data_handler.Schema.Chain.{
  BlockEntry, BlockSigner, TransactionEntry, UtxoOperationEntry, AffectedPublicKeyEntry,
}

-- The tables, by the `bun:"table:…"` tags.
pub data Table : Type 0 where
  post_entry profile_entry like_entry diamond_entry follow_entry message_entry new_message_entry :
      Table
  balance_entry nft_entry nft_bid_entry deso_balance_entry dao_coin_limit_order_entry : Table
  derived_key_entry access_group_entry access_group_member_entry user_association_entry : Table
  post_association_entry pkid_entry stake_entry locked_stake_entry locked_balance_entry : Table
  lockup_yield_curve_point epoch_entry global_params_entry validator_entry : Table
  snapshot_validator_entry bls_public_key_pkid_pair_entry : Table
  bls_public_key_pkid_pair_snapshot_entry leader_schedule_entry stake_reward : Table
  jailed_history_event block block_signer transaction utxo_operation affected_public_key : Table

-- The columns that queries name.
pub data Column : Type 0 where
  badger_key post_hash public_key epoch_number block_hash signer_index : Column
  transaction_hash txn_type metadata utxo_op_index : Column
  validator_pkid jailed_at_epoch_number unjailed_at_epoch_number : Column

-- What a query compares a column with.
pub data Value : Type 0 where
  bytes : Bytes → Value
  text : String → Value
  number : ℕ → Value

-- One element of the slice that an insert is given: a struct of `PG…` with the columns of its
-- table, or a nil pointer.
pub data Row : Type 0 where
  post_entry : PostEntry → Row
  profile_entry : ProfileEntry → Row
  like_entry : LikeEntry → Row
  diamond_entry : DiamondEntry → Row
  follow_entry : FollowEntry → Row
  message_entry : MessageEntry → Row
  new_message_entry : NewMessageEntry → Row
  balance_entry : BalanceEntry → Row
  nft_entry : NftEntry → Row
  nft_bid_entry : NftBidEntry → Row
  deso_balance_entry : DesoBalanceEntry → Row
  dao_coin_limit_order_entry : DaoCoinLimitOrderEntry → Row
  derived_key_entry : DerivedKeyEntry → Row
  access_group_entry : AccessGroupEntry → Row
  access_group_member_entry : AccessGroupMemberEntry → Row
  user_association_entry : UserAssociationEntry → Row
  post_association_entry : PostAssociationEntry → Row
  pkid_entry : PkidEntry → Row
  stake_entry : StakeEntry → Row
  locked_stake_entry : LockedStakeEntry → Row
  locked_balance_entry : LockedBalanceEntry → Row
  lockup_yield_curve_point : LockupYieldCurvePoint → Row
  epoch_entry : EpochEntry → Row
  global_params_entry : GlobalParamsEntry → Row
  validator_entry : ValidatorEntry → Row
  snapshot_validator_entry : SnapshotValidatorEntry → Row
  bls_public_key_pkid_pair_entry : BlsPublicKeyPkidPairEntry → Row
  bls_public_key_pkid_pair_snapshot_entry : BlsPublicKeyPkidPairSnapshotEntry → Row
  leader_schedule_entry : LeaderScheduleEntry → Row
  stake_reward : StakeReward → Row
  jailed_history_event : JailedHistoryEntry → Row
  block : BlockEntry → Row
  block_signer : BlockSigner → Row
  transaction : TransactionEntry → Row
  utxo_operation : UtxoOperationEntry → Row
  affected_public_key : AffectedPublicKeyEntry → Row
  nil_pointer : Row

-- The `badger_key` column.
abbrev pub badger_key_of : Row → Option Bytes
badger_key_of (Row.post_entry r) = some r.badger_key
badger_key_of (Row.profile_entry r) = some r.badger_key
badger_key_of (Row.like_entry r) = some r.badger_key
badger_key_of (Row.diamond_entry r) = some r.badger_key
badger_key_of (Row.follow_entry r) = some r.badger_key
badger_key_of (Row.message_entry r) = some r.badger_key
badger_key_of (Row.new_message_entry r) = some r.badger_key
badger_key_of (Row.balance_entry r) = some r.badger_key
badger_key_of (Row.nft_entry r) = some r.badger_key
badger_key_of (Row.nft_bid_entry r) = some r.badger_key
badger_key_of (Row.deso_balance_entry r) = some r.badger_key
badger_key_of (Row.dao_coin_limit_order_entry r) = some r.badger_key
badger_key_of (Row.derived_key_entry r) = some r.badger_key
badger_key_of (Row.access_group_entry r) = some r.badger_key
badger_key_of (Row.access_group_member_entry r) = some r.badger_key
badger_key_of (Row.user_association_entry r) = some r.badger_key
badger_key_of (Row.post_association_entry r) = some r.badger_key
badger_key_of (Row.pkid_entry r) = some r.badger_key
badger_key_of (Row.stake_entry r) = some r.badger_key
badger_key_of (Row.locked_stake_entry r) = some r.badger_key
badger_key_of (Row.locked_balance_entry r) = some r.badger_key
badger_key_of (Row.lockup_yield_curve_point r) = some r.badger_key
badger_key_of (Row.global_params_entry r) = some r.badger_key
badger_key_of (Row.validator_entry r) = some r.badger_key
badger_key_of (Row.snapshot_validator_entry r) = some r.badger_key
badger_key_of (Row.bls_public_key_pkid_pair_entry r) = some r.badger_key
badger_key_of (Row.bls_public_key_pkid_pair_snapshot_entry r) = some r.badger_key
badger_key_of (Row.leader_schedule_entry r) = some r.badger_key
badger_key_of (Row.block r) = some r.badger_key
badger_key_of (Row.transaction r) = some r.badger_key
badger_key_of _ = none

-- The `block_hash` column.
abbrev pub block_hash_of : Row → Option String
block_hash_of (Row.stake_reward r) = some r.block_hash
block_hash_of (Row.block r) = some r.block_hash
block_hash_of (Row.block_signer r) = some r.block_hash
block_hash_of (Row.transaction r) = some r.block_hash
block_hash_of (Row.utxo_operation r) = some r.block_hash
block_hash_of _ = none

-- The value of a column that a query names, where the row has the column.
abbrev pub column : Column → Row → Option Value
column badger_key r = Option.map Value.bytes (badger_key_of r)
column block_hash r = Option.map Value.text (block_hash_of r)
column post_hash (Row.post_entry r) = some (Value.text r.post_hash)
column public_key (Row.profile_entry r) = some (Value.text r.public_key)
column public_key (Row.affected_public_key r) = some (Value.text r.public_key)
column epoch_number (Row.epoch_entry r) = some (Value.number r.epoch_number)
column signer_index (Row.block_signer r) = some (Value.number r.signer_index)
column transaction_hash (Row.transaction r) = some (Value.text r.transaction_hash)
column transaction_hash (Row.affected_public_key r) = some (Value.text r.transaction_hash)
column txn_type (Row.transaction r) = some (Value.number r.txn_type)
column metadata (Row.affected_public_key r) = some (Value.text r.metadata)
column utxo_op_index (Row.stake_reward r) = some (Value.number r.utxo_op_index)
column validator_pkid (Row.jailed_history_event r) = some (Value.text r.validator_pkid)
column jailed_at_epoch_number (Row.jailed_history_event r) =
    some (Value.number r.jailed_at_epoch_number)
column unjailed_at_epoch_number (Row.jailed_history_event r) =
    some (Value.number r.unjailed_at_epoch_number)
column _ _ = none
