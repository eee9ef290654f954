-- ===== src/Tests.antt =====
-- tests
mod Equality
mod Memory
mod Encodings
mod Kinds
mod Cached
mod Blocks
mod Syncing
mod Sync
mod Migrations
mod Handlers
