-- ===== src/Schema/Messages.antt =====
-- The columns of the tables of entries/*.go: messages. Relation fields, which no code sets, are
-- left out.
use postgres_data_handler.Base.{ℕ, Bool, String, List, Bytes, Time}

pub record MessageEntry : Type 0 where
  pub sender_public_key : String
  pub recipient_public_key : String
  pub encrypted_text : String
  pub timestamp : Time
  pub version : ℕ
  pub sender_messaging_public_key : String
  pub recipient_messaging_public_key : String
  pub sender_messaging_group_key_name : String
  pub recipient_messaging_group_key_name : String
  pub extra_data : List (String × String)
  pub badger_key : Bytes

pub record NewMessageEntry : Type 0 where
  pub sender_access_group_owner_public_key : String
  pub sender_access_group_key_name : String
  pub sender_access_group_public_key : String
  pub recipient_access_group_owner_public_key : String
  pub recipient_access_group_key_name : String
  pub recipient_access_group_public_key : String
  pub encrypted_text : String
  pub is_group_chat_message : Bool
  pub timestamp : Time
  pub extra_data : List (String × String)
  pub badger_key : Bytes
