-- ===== src/Lib.antt =====
-- postgres-data-handler: the program that writes the state changes of a DeSo node to PostgreSQL.
--
-- The node's state consumer hands over batches of state change entries, all of one type and one
-- operation (insert, delete, upsert). A switch on the type (handler/postgres_data_handler.notgo,
-- HandleEntryBatch) leads to the batch operation of a file of entries/, which converts the entries
-- to rows and sends a query to the database. Some files keep an LRU cache of what they have stored,
-- to skip entries that have not changed.
--
-- The files:
-- - Base: names of the libraries passed on, tests on numbers, lists, byte slices, and lists that are
--   put together of pieces.
-- - Go: Go's control flow. A function returns, returns an error, or panics (Result), over a world
--   that it changes (Exec). What was changed before an error stays changed.
--   Go/Ensures has the rules for what holds when a function returns.
-- - Core: what the program reads of the core library's types, field by field, with the entries of a
--   batch (StateChangeEntry) and the dynamic type of their encoders (Encoder).
-- - Schema: the structs of entries/*.go that stand for the tables, with the columns that queries
--   name.
-- - Env: what the program calls: the encodings of the core library, the database behind bun, the
--   consumer's functions on batches, and the cache. Env/Lawful states what the proofs assume of the
--   database (IsDatabase), the consumer (IsConsumer) and the cache (IsCache).
-- - Entries: one module for each table of entries/*.go, with the function that converts an entry
--   (...EncoderToPGStruct), bulkInsert..., bulkDelete... and ...BatchOperation, under their names in
--   lower case with underscores. Entries/Kinds is the switch over 23 of them.
--   Entries/Batch is the shape that these files share, and Entries/Cached the one of
--   entries/validator.go and entries/bls_pkid_pair.go; each file's functions are proved equal to the
--   shared ones. Entries/Block and Entries/Transaction are entries/block.go and
--   entries/transaction.go.
--   Entries/UtxoOperation is entries/utxo_operation.go: its child Gather has the loop over the
--   entries and the transactions of each, from an attached block or the database; Bundle is
--   parseUtxoOperationBundle; Affected is the loop over the affected public keys in it. Pointers that
--   this code writes through after a read are values here, as the code leaves them.
--   Entries/LeaderSchedule is the second half of entries/pkid.go, Entries/StakeReward and
--   Entries/JailedHistory are the files of that name, and Entries/Savepoint is entries/helpers.go.
-- - Migrations: the retries of a migration and the refresh of the explorer statistics, of
--   migrations/post_sync_migrations/migration_helpers.go.
-- - Handler: handler/web_data_handler.go, which sends the batches over HTTP or a web socket in place
--   of the database (main.go starts this one). The record Network is what it calls.
-- - Main: the configuration of main.go, and its choice of the network's parameters.
-- - Tests: a database in memory that keeps the laws, and the theorems at concrete batches.
--
-- How the code is modelled. The state is the database and the cache. A query is a statement as data:
-- an insert of rows with its conflict clause, a delete of the rows whose column is in a list, the
-- update of the two metadata columns of transactions, or raw text. A row is a struct with the
-- columns of its table, or a nil pointer. A missing index, a failed type assertion and a nil
-- pointer panic. Error messages are the format strings, without
-- arguments. Integers that the program converts keep the wrap-around of the conversion. Loops are
-- structural recursion; a loop with an index carries it. The retries are counted down from
-- their limit, 10. There is no fuel.
--
-- What is assumed. Pointers that the source reads without a test are present. The capacity of a
-- slice is its length. Time and JSON values are opaque. The laws on PostgreSQL are that a failed
-- statement changes nothing, that an insert that succeeds adds its rows, or has for each row that it
-- skips one that agrees with it on the conflict target, and replaces at most those that agree, and
-- that a delete removes the rows that its condition names.
-- The core library decodes the bytes of a transaction to it, in the theorems that say so, and
-- gives for a basic transfer the metadata that it holds. The entries of a batch that goes through
-- the cache have the encoders that their bytes decode to, in the theorems on the cache that say so.
--
-- What is not modelled: relation fields of the structs, which no code sets; the deletes of the jailed
-- history, which nothing calls; the transactions and sync events of
-- handler/postgres_data_handler.notgo; the start of the program in main.go; the migrations' SQL.
pub mod Base
pub mod Go
pub mod Core
pub mod Schema
pub mod Env
pub mod Entries
pub mod Migrations
pub mod Handler
pub mod Main
pub mod Tests
