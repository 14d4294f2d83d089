-- ===== src/Store.antt =====
-- internal/store: the tables of the database and what the store's statements do to them.
pub mod Tables
pub mod Keyed
pub mod Rows
pub mod Users
pub mod Sessions
pub mod Runs
pub mod Decisions
pub mod Shares
pub mod Photos
pub mod Imports
pub mod Backup
