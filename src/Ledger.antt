-- ===== src/Ledger.antt =====
-- daemon/crates/accountability-proxy/src/ledger_client.rs: the client of the ledger, with its lease
-- and its local database.
pub mod Database
pub mod Client
pub mod Lease
pub mod Event
pub mod Receipt
pub mod Sync
