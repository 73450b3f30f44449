-- ===== src/Controller/Backups/Reconcile/Gate.antt =====
-- scheduledbackup_controller.go: a backup whose repository is not initialized.
use borgbase_operator.Api.Repository.{Repository}
use borgbase_operator.Api.ScheduledBackup.{ScheduledBackup}
use borgbase_operator.Backup.Tools.{Tools}
use borgbase_operator.Controller.Env.{Env, Call, get_repository, patch_backup_status, event}
use borgbase_operator.Controller.Exec.{Exec}
use borgbase_operator.Controller.Exec.Only.{Only}

-- The requests of a pass that waits: it reads the Repository, and writes its own status and events.
abbrev pub Waiting : Call → Type 0
Waiting (get_repository _ _) = Unit
Waiting (patch_backup_status _) = Unit
Waiting (event _ _ _ _) = Unit
Waiting _ = ⊥
