-- ===== src/Backup.antt =====
-- internal/backup: the CronJobs and Jobs that run restic.
pub mod Tools
pub mod Schedule
pub mod Script
pub mod Workload
