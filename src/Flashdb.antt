-- ===== src/Flashdb.antt =====
-- storage/flashdb: the in-memory store.
pub mod Value
pub mod Shard
pub mod Cell
pub mod Store
mod Tests
