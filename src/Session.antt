-- ===== src/Session.antt =====
-- A service call in a database session: SQLAlchemy's unit of work, the exceptions of the services,
-- and what a request reads from outside (clock, secrets, settings).
mod Monad
mod Rows
mod Bind
pub use Monad.*
pub use Rows.*
pub use Bind.*
