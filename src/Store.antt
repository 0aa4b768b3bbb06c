-- ===== src/Store.antt =====
-- internal/store/store.go and internal/store/sqlite/store.go: sessions, snapshots, session clocks
-- and scheduled events. The tables are lists of rows; a statement does what its SQL says, with the
-- keys and the references of internal/store/sqlite/migrations.
pub mod Records
pub mod Tables
pub mod Sessions
pub mod Snapshots
pub mod Clocks
pub mod Events
pub mod Deletion
pub mod Marking
pub mod Scanning
