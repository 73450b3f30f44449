-- ===== src/Cli/Maintenance/Pruning.antt =====
-- maintenance.go: what `prune` runs, and on which repositories.
use borgbase_operator.Base.{
  Text, codes, join, Bool, false, Option, some, ℤ, List, [], ◌∷◌, ◌++◌, ◌≡◌,
}
use borgbase_operator.Errors.{ok}
use borgbase_operator.Api.Repository.{Repository}
use borgbase_operator.Api.ScheduledBackup.{ScheduledBackup, Retention}
use borgbase_operator.Kube.Objects.{Job}
use borgbase_operator.Backup.Script.{keep_flag, render_forget}
use borgbase_operator.Controller.Env.{
  Call, Env, create_secret, update_secret, create_job, delete_job, create_cron_job, update_cron_job,
  create_claim, delete_claim, patch_secret, delete_secret, patch_backup, patch_repository,
  patch_repository_status, patch_backup_status, borg_add, borg_edit, borg_delete,
}
use borgbase_operator.Controller.Exec.{St}
use borgbase_operator.Controller.Exec.Only.{Only}
use borgbase_operator.Cli.Console.{Console}
use borgbase_operator.Cli.Resolve.{resolve_run_target}
use borgbase_operator.Cli.Restore.{flag_if}
use borgbase_operator.Cli.Runner.Commands.{Runs}

-- The flags of a table, each on its own.
abbrev kept_flags : List (Text × Option ℤ) → List Text
kept_flags [] = []
kept_flags ((name, v) ∷ []) = keep_flag name v
kept_flags ((name, v) ∷ (f ∷ fs)) = keep_flag name v ++ kept_flags (f ∷ fs)

-- The command applies the retention of the backup with the flags that the script of the backup
-- has, to a Repository that is not append-only.
pub record Prunes (dry_run : Bool) (sb : ScheduledBackup) (repo : Repository) (command : List Text)
    : Type 0 where
  pub writable : repo.spec.append_only ≡ false
  pub retention : Retention
  pub applied : sb.spec.retention ≡ some retention
  pub words : List Text
  pub made : command ≡ words ++ flag_if dry_run (codes "--dry-run")
  pub script : join words (codes " ") ≡ render_forget (some retention) []

words_of : List Text → List Text
words_of flags = codes "restic" ∷ (codes "forget" ∷ (codes "--prune" ∷ flags))

module _ (env : Env) (ns arg : Text) (dry_run : Bool) where
  -- The Job is one of a backup that the argument resolves to, and prunes its Repository as the backup
  -- says.
  abbrev pub PrunesTarget : Job → Type 0
  PrunesTarget job =
      (s : St Console) × ((sb : ScheduledBackup) × ((repo : Repository) × ((command : List Text)
            × (((resolve_run_target env ns arg s).0 ≡ ok (sb, repo))
                × (Prunes dry_run sb repo command × Runs env sb command job)))))

  -- A request that `prune` may make.
  abbrev pub PruneCall : Call → Type 0
  PruneCall (create_job job) = PrunesTarget job
  PruneCall (delete_job job) = PrunesTarget job
  PruneCall (create_secret _) = ⊥
  PruneCall (update_secret _) = ⊥
  PruneCall (patch_secret _) = ⊥
  PruneCall (delete_secret _) = ⊥
  PruneCall (create_cron_job _) = ⊥
  PruneCall (update_cron_job _) = ⊥
  PruneCall (create_claim _) = ⊥
  PruneCall (delete_claim _) = ⊥
  PruneCall (patch_backup _) = ⊥
  PruneCall (patch_backup_status _) = ⊥
  PruneCall (patch_repository _) = ⊥
  PruneCall (patch_repository_status _) = ⊥
  PruneCall (borg_add _ _) = ⊥
  PruneCall (borg_edit _ _ _) = ⊥
  PruneCall (borg_delete _ _) = ⊥
  PruneCall _ = Unit
