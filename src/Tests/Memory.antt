-- ===== src/Tests/Memory.antt =====
-- A database, a consumer and a cache in memory, for the tests: lists of rows under their tables. An
-- insert of a nil pointer fails, as bun's does; no column is unique.
pub mod Laws
use postgres_data_handler.Base.{
  ◌≡◌, Bool, true, false, if◌then◌else◌, ◌&&◌, not, Option, none, some, List, [], ◌∷◌, ◌++◌, map,
  keep, Bytes, bytes_eq, has_prefix,
}
use postgres_data_handler.Go.{Error, foreign, ok}
use postgres_data_handler.Tests.Encodings.{encodings}
use postgres_data_handler.Core.{StateChangeEntry, keys_of}
use postgres_data_handler.Schema.{Table, Column, Value, Row, column}
use postgres_data_handler.Env.{
  Env, Statement, insert, delete, update_metadata, raw, OnConflict, do_update, do_nothing,
}
use postgres_data_handler.Env.Lawful.{columns}
use postgres_data_handler.Tests.Equality.{Table-discrete, values-discrete, value-discrete}

abbrev pub Rows : Type 0
Rows = List (Table × Row)

abbrev decided : {A : Type 0} → Dec A → Bool
decided (yes a) = true
decided (no b) = false

unfoldable pub same_table : Table → Table → Bool
same_table t u = decided (Table-discrete t u)

-- One of the new rows agrees with the old one on the conflict target.
unfoldable pub conflicts : List Column → List Row → Row → Bool
conflicts target [] r = false
conflicts target (n ∷ rows) r =
    if decided (values-discrete (columns target n) (columns target r))
    then true
    else conflicts target rows r

unfoldable pub value_in : List Value → Option Value → Bool
value_in [] v = false
value_in (x ∷ values) v = if decided (value-discrete v (some x)) then true else value_in values v

abbrev pub as_rows : Table → List Row → Rows
as_rows t rows = map (λ r. (t, r)) rows

abbrev pub is_nil : Row → Bool
is_nil Row.nil_pointer = true
is_nil _ = false

unfoldable pub any_nil : List Row → Bool
any_nil [] = false
any_nil (r ∷ rows) = if is_nil r then true else any_nil rows

abbrev pub replaced : Option OnConflict → Table → List Row → Table × Row → Bool
replaced none t rows (u, r) = false
replaced (some o) t rows (u, r) = same_table u t && conflicts o.target rows r

unfoldable pub exec_statement : Statement → Rows → Option Error × Rows
exec_statement (insert t rows o) s =
    if any_nil rows
    then (some (foreign 0), s)
    else (none, as_rows t rows ++ keep (λ x. not (replaced o t rows x)) s)
exec_statement (delete t c values) s =
    (none, keep (λ x. not (same_table x.0 t && value_in values (column c x.1))) s)
exec_statement (update_metadata txns) s = (none, s)
exec_statement (raw q) s = (none, s)

-- The cache as a function.
abbrev pub Cache : Type 0
Cache = Bytes → Option Bytes

unfoldable pub add : Bytes → Bytes → Cache → Cache
add k b c j = if bytes_eq j k then some b else c j

unfoldable pub remove : Bytes → Cache → Cache
remove k c j = if bytes_eq j k then none else c j

unfoldable pub has_key : Bytes → List StateChangeEntry → Bool
has_key k [] = false
has_key k (x ∷ xs) = if bytes_eq x.key_bytes k then true else has_key k xs

-- Of the entries with one key the last is left.
unfoldable pub unique_entries : List StateChangeEntry → List StateChangeEntry
unique_entries [] = []
unique_entries (e ∷ es) =
    let rest = unique_entries es in if has_key e.key_bytes es then rest else e ∷ rest

abbrev pub holds : Option Bytes → Bytes → Bool
holds none v = false
holds (some b) v = bytes_eq b v

abbrev pub is_cached : Cache → StateChangeEntry → Bool
is_cached c e = holds (c e.key_bytes) e.encoder_bytes

abbrev pub filter_cached_entries : List StateChangeEntry → Cache → List StateChangeEntry × Cache
filter_cached_entries es c = (keep (λ e. not (is_cached c e)) es, c)

abbrev pub memory : Env
memory = record {
  codec = encodings;
  State = Rows;
  exec_statement = exec_statement;
  select_transactions = λ c v s. (ok [], s);
  time_now = λ s. (0, s);
  Cache = Cache;
  cache_get = λ c k. c k;
  cache_add = add;
  cache_remove = remove;
  unique_entries = unique_entries;
  keys_to_delete = keys_of;
  filter_entries_by_prefix = λ es p. keep (λ e. has_prefix e.key_bytes p) es;
  filter_keys_by_prefix = λ ks p. keep (λ k. has_prefix k p) ks;
  filter_cached_entries = filter_cached_entries;
}
