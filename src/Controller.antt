-- ===== src/Controller.antt =====
-- internal/controller: the two reconcilers.
pub mod Env
pub mod Exec
pub mod Helpers
pub mod Predicate
pub mod Repository
pub mod Backups
