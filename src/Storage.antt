-- ===== src/Storage.antt =====
-- The stores of the client: client/src/storage, and the signal store in memory of client/src/crypto.
pub mod Memory
pub mod Records
pub mod Sqlite
pub mod History
pub mod Distinct
pub mod Newest
pub mod MemoryShows
pub mod Rows
pub mod Stored
pub mod SqliteShows
pub mod Database
pub mod Messages
pub mod Contacts
pub mod Keys
pub mod Reading
pub mod Pages
pub mod Migrations
pub mod Keyed
pub mod DatabaseKey
