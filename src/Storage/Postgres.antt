-- ===== src/Storage/Postgres.antt =====
-- storage/postgres/pghelper.go: identifiers, the conversion of placeholders and the statements.
pub mod Ident
pub mod Where
pub mod Statements
pub mod Structs
pub mod Named
