-- ===== src/Core/Messages.antt =====
-- What entries/*.go reads of the core library's types: messages.
use postgres_data_handler.Base.{ℕ, String, Option, List, Bytes}

pub record LibMessageEntry : Type 0 where
  pub sender_public_key : Bytes
  pub recipient_public_key : Bytes
  pub encrypted_text : Bytes
  pub tstamp_nanos : ℕ
  pub version : ℕ
  pub sender_messaging_public_key : Bytes
  pub recipient_messaging_public_key : Bytes
  pub sender_messaging_group_key_name : Bytes
  pub recipient_messaging_group_key_name : Bytes
  pub extra_data : List (String × Bytes)

pub record LibNewMessageEntry : Type 0 where
  pub sender_access_group_owner_public_key : Option Bytes
  pub sender_access_group_key_name : Option Bytes
  pub sender_access_group_public_key : Option Bytes
  pub recipient_access_group_owner_public_key : Option Bytes
  pub recipient_access_group_key_name : Option Bytes
  pub recipient_access_group_public_key : Option Bytes
  pub encrypted_text : Bytes
  pub timestamp_nanos : ℕ
  pub extra_data : List (String × Bytes)
