-- ===== src/Controller/Backups.antt =====
-- internal/controller/scheduledbackup_controller.go and trigger.go
pub mod Base
pub mod Cache
pub mod Slug
pub mod Runs
pub mod Trigger
pub mod Reconcile
pub mod Watch
