-- ===== src/Env.antt =====
-- What the program calls and does not implement: the core library's encodings, the state
-- consumer's functions on batches, the database behind bun, and the LRU cache.
mod Encodings
pub mod Lawful
pub use Encodings.{Codec}
use postgres_data_handler.Base.{
  Bool, true, false, String, Option, none, some, List, [], ◌∷◌, Bytes, Time, if◌then◌else◌,
}
use postgres_data_handler.Go.{Error, Result, ok, panic, index_out_of_range, return_error, Exec}
use postgres_data_handler.Core.{OperationType, is_upsert, StateChangeEntry}
use postgres_data_handler.Schema.{Table, Column, Value, Row}
use postgres_data_handler.Schema.Chain.{TransactionEntry}

pub data Action : Type 0 where
  do_update do_nothing : Action

-- `On("CONFLICT (…) DO …")`
pub record OnConflict : Type 0 where
  pub target : List Column
  pub action : Action

-- The queries that the program builds: an insert of a slice, a delete of the rows whose column is
-- in a list, the update of the two metadata columns of transactions, and a raw statement.
pub data Statement : Type 0 where
  insert : Table → List Row → Option OnConflict → Statement
  delete : Table → Column → List Value → Statement
  update_metadata : List TransactionEntry → Statement
  raw : String → Statement

-- `if operationType == lib.DbOperationTypeUpsert { query = query.On("CONFLICT (…) DO UPDATE") }`
abbrev pub on_upsert : OperationType → List Column → Option OnConflict
on_upsert operation_type target =
    if is_upsert operation_type
    then some (record { target = target; action = Action.do_update })
    else none

pub record Env : Type 1 where
  pub codec : Codec
  pub open codec use *
  -- The database and the clock.
  pub State : Type 0
  pub exec_statement : Statement → State → Option Error × State
  -- The transactions of a block or with a hash, none of them inner, in the order of their index.
  pub select_transactions : Column → String → State → Result (List TransactionEntry) × State
  pub time_now : State → Time × State
  -- The LRU cache, from key bytes to encoder bytes.
  pub Cache : Type 0
  pub cache_get : Cache → Bytes → Option Bytes
  pub cache_add : Bytes → Bytes → Cache → Cache
  pub cache_remove : Bytes → Cache → Cache
  -- The state consumer.
  pub unique_entries : List StateChangeEntry → List StateChangeEntry
  pub keys_to_delete : List StateChangeEntry → List Bytes
  pub filter_entries_by_prefix : List StateChangeEntry → Bytes → List StateChangeEntry
  pub filter_keys_by_prefix : List Bytes → Bytes → List Bytes
  pub filter_cached_entries : List StateChangeEntry → Cache → List StateChangeEntry × Cache

pub record World (X : Env) : Type 0 where
  pub database : X.State
  pub cache : X.Cache

-- `query.Exec(context.Background())`
unfoldable pub exec : (X : Env) → Statement → Exec (World X) Unit
exec X statement w =
    let (e, s) = X.exec_statement statement w.database in
    (return_error e, record w { database = s })

-- A field that is set only where the source's pointer is not nil.
abbrev pub if_set {ℓ κ} : {A : Type ℓ} {B : Type κ} → Option A → (A → B) → B → B
if_set none f zero_value = zero_value
if_set (some v) f zero_value = f v

-- `keyBytes[:1]`
unfoldable pub first_byte : Bytes → Result Bytes
first_byte [] = panic index_out_of_range
first_byte (b ∷ _) = ok (b ∷ [])
