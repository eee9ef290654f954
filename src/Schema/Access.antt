-- ===== src/Schema/Access.antt =====
-- The columns of the tables of entries/*.go: derived keys, access groups, associations, PKIDs. Relation fields, which no code sets, are
-- left out.
use postgres_data_handler.Base.{ℕ, Bool, String, List, Bytes, Json}

pub record DerivedKeyEntry : Type 0 where
  pub owner_public_key : String
  pub derived_public_key : String
  pub expiration_block : ℕ
  pub operation_type : ℕ
  pub global_deso_limit : ℕ
  pub is_unlimited : Bool
  pub transaction_spending_limits : Json
  pub extra_data : List (String × String)
  pub badger_key : Bytes

pub record AccessGroupEntry : Type 0 where
  pub access_group_owner_public_key : String
  pub access_group_key_name : String
  pub access_group_public_key : String
  pub extra_data : List (String × String)
  pub badger_key : Bytes

pub record AccessGroupMemberEntry : Type 0 where
  pub access_group_member_public_key : String
  pub access_group_member_key_name : String
  pub access_group_key_name : String
  pub access_group_owner_public_key : String
  pub encrypted_key : Bytes
  pub extra_data : List (String × String)
  pub badger_key : Bytes

pub record UserAssociationEntry : Type 0 where
  pub association_id : String
  pub transactor_pkid : String
  pub target_user_pkid : String
  pub app_pkid : String
  pub association_type : String
  pub association_value : String
  pub block_height : ℕ
  pub extra_data : List (String × String)
  pub badger_key : Bytes

pub record PostAssociationEntry : Type 0 where
  pub association_id : String
  pub transactor_pkid : String
  pub post_hash : String
  pub app_pkid : String
  pub association_type : String
  pub association_value : String
  pub block_height : ℕ
  pub extra_data : List (String × String)
  pub badger_key : Bytes

pub record PkidEntry : Type 0 where
  pub pkid : String
  pub public_key : String
  pub badger_key : Bytes
