-- ===== src/Crudl.antt =====
-- The crudl package: struct tags, SQL statements, the operations and their HTTP handlers.
pub mod Scan
pub mod Register
pub mod Query
pub mod Handler
pub mod Serve
