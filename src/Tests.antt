-- ===== src/Tests.antt =====
-- The theorems at concrete inputs.
pub mod Data
mod Borgbase
mod Repositories
mod Backups
mod Commands
mod Restores
mod Diagnoses
mod Prunes
mod Exports
