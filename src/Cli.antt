-- ===== src/Cli.antt =====
-- internal/cli: the command-line program corg.
pub mod Derive
pub mod Runner
pub mod Console
pub mod Resolve
pub mod Runs
pub mod Trigger
pub mod Suspend
pub mod Repair
pub mod Restore
pub mod Doctor
pub mod Maintenance
pub mod Environment
