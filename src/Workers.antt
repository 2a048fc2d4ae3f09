-- ===== src/Workers.antt =====
-- workers: the restart policy of the worker overseer.
pub mod Restart
pub mod Config
pub mod Options
pub mod Registry
pub mod Monitor
mod Tests
