-- ===== src/Store.antt =====
-- src/store: the interface of a store, and the store that keeps a file for each segment.
pub mod Interface
pub mod Names
pub mod Disk
pub mod Log
pub mod Driver
pub mod Sql
pub mod Sqlite
pub mod Samples
