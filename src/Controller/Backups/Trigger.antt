-- ===== src/Controller/Backups/Trigger.antt =====
-- A backup that a user asks for: `reconcileTrigger`.
pub mod Blocking
use borgbase_operator.Base.{
  ℕ, ltb, Text, codes, is_empty, text_eq, get_text, Bool, true, false, not, ◌&&◌, Option, none,
  some, List, [], ◌++◌, if◌then◌else◌,
}
use borgbase_operator.Errors.{wrap, is_already_exists, Result, ok, err}
use borgbase_operator.Api.Repository.{Repository}
use borgbase_operator.Api.ScheduledBackup.{ScheduledBackup}
use borgbase_operator.Kube.Objects.{Job, ConcurrencyPolicy, policy_forbid}
use borgbase_operator.Backup.Tools.{Tools}
use borgbase_operator.Backup.Workload.{manual_job_name, build_manual_job}
use borgbase_operator.Backup.Workload.Pods.{Config}
use borgbase_operator.Controller.Env.{Env, create_job, event_normal, event_warning}
use borgbase_operator.Controller.Exec.{
  St, Exec, pure, raise, lift, ask, modify, emit, ◌>>=◌, ◌>>◌, on_result,
}
use borgbase_operator.Controller.Backups.Runs.{ObservedRun, active_run}

abbrev pub annotation_trigger_at : Text
annotation_trigger_at = codes "borgbase.clevyr.com/trigger-at"

abbrev is_forbid : ConcurrencyPolicy → Bool
is_forbid policy_forbid = true
is_forbid _ = false

-- `last != nil && !at.After(last)`
abbrev pub is_handled : Option ℕ → ℕ → Bool
is_handled none at = false
is_handled (some last) at = not (ltb last at)

-- Another Job runs, and the policy forbids a second one.
unfoldable pub is_blocked : ScheduledBackup → ℕ → List ObservedRun → Bool
is_blocked sb at runs =
    is_forbid sb.spec.concurrency_policy
    && (not (is_empty (active_run runs)) && not (text_eq (active_run runs) (manual_job_name sb at)))

abbrev record_trigger : ℕ → Text → Exec ScheduledBackup (Unit {0})
record_trigger at job = modify λ sb. record sb {
  status = record sb.status { last_trigger_time = some at; last_trigger_job = job };
}

module _ (env : Env) where
  skip_trigger : ℕ → List ObservedRun → Exec ScheduledBackup (Unit {0})
  skip_trigger at runs = do
    emit event_warning (codes "TriggerSkipped") (codes "Trigger") (
        codes "Not starting a backup: Job "
        ++ (active_run runs ++ codes " is still running and concurrencyPolicy is Forbid"))
    record_trigger at []

  -- The Job is created. One that exists already counts as this trigger's.
  start_job : Job → Exec ScheduledBackup (Unit {0})
  start_job job = do
    reply ← ask (create_job job) (λ h. env.created_job h job)
    on_result reply
        (λ _.
          emit event_normal (codes "BackupTriggered") (codes "Trigger")
            (codes "Started backup Job " ++ job.meta.name))
        λ e.
          if is_already_exists e then pure tt else raise (wrap (codes "creating backup job: ") e [])

  start_backup : Tools → Config → ScheduledBackup → Repository → ℕ → Exec ScheduledBackup (Unit {0})
  unfolding start_job
  start_backup tools cfg sb repo at = do
    job ← lift (build_manual_job tools cfg sb repo at)
    meta ← lift (env.set_controller_reference sb.meta job.meta)
    start_job (record job { meta = meta })
    record_trigger at meta.name

  unfoldable trigger_at :
      Tools
      → Config
      → ScheduledBackup
      → Repository
      → List ObservedRun
      → ℕ
      → Exec ScheduledBackup (Unit {0})
  unfolding skip_trigger start_backup start_job
  trigger_at tools cfg sb repo runs at =
      if is_handled sb.status.last_trigger_time at
      then pure tt
      else if is_blocked sb at runs
      then skip_trigger at runs
      else start_backup tools cfg sb repo at

  -- `func (r *ScheduledBackupReconciler) reconcileTrigger`
  unfoldable pub reconcile_trigger :
      Tools
      → Config
      → ScheduledBackup
      → Repository
      → List ObservedRun
      → Exec ScheduledBackup (Unit {0})
  unfolding trigger_at skip_trigger start_backup start_job
  reconcile_trigger tools cfg sb repo runs =
      let raw = get_text sb.meta.annotations annotation_trigger_at in
      if is_empty raw
      then pure tt
      else on_result (tools.parse_rfc3339 raw) (trigger_at tools cfg sb repo runs) λ _.
        emit event_warning (codes "TriggerInvalid") (codes "Trigger") (
          codes "Ignoring borgbase.clevyr.com/trigger-at=\""
          ++ (raw ++ codes "\": expected an RFC3339 timestamp"))
