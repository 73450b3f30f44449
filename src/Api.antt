-- ===== src/Api.antt =====
-- The custom resources (api/v1) and the parts of Kubernetes objects that the program uses.
pub mod Meta
pub mod Repository
pub mod ScheduledBackup
