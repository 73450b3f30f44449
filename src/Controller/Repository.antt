-- ===== src/Controller/Repository.antt =====
-- internal/controller/repository_controller.go, in the order of its calls.
pub mod Base
pub mod Resolve
pub mod Conflict
pub mod Settings
pub mod Credentials
pub mod InitJob
pub mod Finalize
pub mod Reconcile
pub mod Footprint
