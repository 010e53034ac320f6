-- ===== src/Error.antt =====
-- src/error.rs: the crate's error type, the results of its functions, and the conversions of the
-- bindings' statuses. Statuses of the C libraries are their raw codes.
mod Defs
pub mod Convert
pub mod Display
pub use Defs.*
