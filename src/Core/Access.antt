-- ===== src/Core/Access.antt =====
-- What entries/*.go reads of the core library's types: derived keys, access groups, associations, PKIDs.
use postgres_data_handler.Base.{ℕ, Bool, String, Option, List, Bytes, Json}

-- What is read of `TransactionSpendingLimit`; `limits` stands for its other fields.
pub record LibTransactionSpendingLimit : Type 0 where
  pub global_deso_limit : ℕ
  pub is_unlimited : Bool
  pub limits : Json

pub record LibDerivedKeyEntry : Type 0 where
  pub owner_public_key : Bytes
  pub derived_public_key : Bytes
  pub expiration_block : ℕ
  pub extra_data : List (String × Bytes)
  pub operation_type : ℕ
  pub transaction_spending_limit_tracker : Option LibTransactionSpendingLimit

pub record LibAccessGroupEntry : Type 0 where
  pub access_group_owner_public_key : Option Bytes
  pub access_group_key_name : Option Bytes
  pub access_group_public_key : Option Bytes
  pub extra_data : List (String × Bytes)

pub record LibAccessGroupMemberEntry : Type 0 where
  pub access_group_member_public_key : Option Bytes
  pub access_group_member_key_name : Option Bytes
  pub encrypted_key : Bytes
  pub extra_data : List (String × Bytes)

pub record LibUserAssociationEntry : Type 0 where
  pub association_id : Option Bytes
  pub transactor_pkid : Option Bytes
  pub target_user_pkid : Option Bytes
  pub app_pkid : Option Bytes
  pub association_type : Bytes
  pub association_value : Bytes
  pub block_height : ℕ
  pub extra_data : List (String × Bytes)

pub record LibPostAssociationEntry : Type 0 where
  pub association_id : Option Bytes
  pub transactor_pkid : Option Bytes
  pub post_hash : Option Bytes
  pub app_pkid : Option Bytes
  pub association_type : Bytes
  pub association_value : Bytes
  pub block_height : ℕ
  pub extra_data : List (String × Bytes)

pub record LibPkidEntry : Type 0 where
  pub pkid : Bytes
  pub public_key : Bytes
