-- ===== src/World.antt =====
-- The store of a Manager and its services: service.go `Service`, manager.go `Manager`, errors.go.
-- The fields of all services stand in columns, one function of the reference for each group of
-- fields, so that an operation shows in its text which groups it leaves alone.
mod Defs
pub mod Steps
unfoldable pub use Defs.*
