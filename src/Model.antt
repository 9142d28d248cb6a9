-- ===== src/Model.antt =====
-- The rows of the database (app/models) and the database itself.
pub mod Status
pub mod Payload
pub mod Rows
pub mod Db
pub mod Phone
