-- ===== src/Controller/Backups/Base.antt =====
-- Conditions and status patches of a ScheduledBackup.
use borgbase_operator.Base.{Text, codes}
use borgbase_operator.Api.Meta.{ConditionStatus}
use borgbase_operator.Api.ScheduledBackup.{ScheduledBackup}
use borgbase_operator.Controller.Env.{Env, patch_backup_status}
use borgbase_operator.Controller.Exec.{Exec, pure, call, get_obj, modify, ◌>>=◌, ◌>>◌}
use borgbase_operator.Base.{if◌then◌else◌}

module _ (env : Env) where
  -- `func (r *ScheduledBackupReconciler) setCondition`, of a Ready condition.
  unfoldable pub set_backup_ready : ConditionStatus → Text → Text → Exec ScheduledBackup (Unit {0})
  set_backup_ready status reason message = modify λ sb. record sb {
    status = record sb.status {
      conditions = env.set_status_condition sb.status.conditions (record {
        type = codes "Ready";
        status = status;
        reason = reason;
        message = message;
        observed_generation = sb.meta.generation;
      });
    };
  }

  -- `func (r *ScheduledBackupReconciler) patchStatus`
  unfoldable pub patch_backup : ScheduledBackup → Exec ScheduledBackup (Unit {0})
  patch_backup base = do
    modify
        λ sb. record sb { status = record sb.status { observed_generation = sb.meta.generation } }
    sb ← get_obj
    if env.same_backup_status sb base
        then pure tt
        else call (patch_backup_status sb) (λ h. env.patched_backup_status h sb)
