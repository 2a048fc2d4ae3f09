-- ===== src/Caching.antt =====
-- caching: the cache providers. Only the in-process one has logic of its own.
pub mod Flash
mod Tests
