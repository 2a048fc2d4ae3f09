-- ===== src/Storage.antt =====
-- storage/: what the helpers of the SQL databases do before a statement reaches the driver.
pub mod Text
pub mod Sort
pub mod Result
pub mod Identifiers
pub mod InClause
pub mod Fields
pub mod Postgres
pub mod Mysql
pub mod HashKey
pub mod Elastic
pub mod Tests
