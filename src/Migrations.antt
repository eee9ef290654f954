-- ===== src/Migrations.antt =====
-- migrations/post_sync_migrations/migration_helpers.go: retries of a migration, and the refresh of
-- the explorer statistics.
pub mod Retry
pub mod Refresh
