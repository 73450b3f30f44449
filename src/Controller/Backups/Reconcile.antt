-- ===== src/Controller/Backups/Reconcile.antt =====
-- A pass over one ScheduledBackup: `Reconcile` and `reconcile`.
pub mod Gate
use borgbase_operator.Base.{
  ℕ, ◌*◌, Text, codes, is_empty, length, Bool, not, Option, none, some, List, [], ◌∷◌, ◌++◌,
  if◌then◌else◌,
}
use borgbase_operator.Errors.{
  Err, plain, wrap, error_text, is_not_found, is_already_exists, Result, ok, err,
}
use borgbase_operator.Api.Meta.{condition_true, condition_false}
use borgbase_operator.Api.Repository.{Repository}
use borgbase_operator.Api.ScheduledBackup.{ScheduledBackup}
use borgbase_operator.Kube.Objects.{CronJob}
use borgbase_operator.Backup.Tools.{Tools}
use borgbase_operator.Backup.Workload.{build_cron_job}
use borgbase_operator.Backup.Workload.Pods.{Config, reporter_of}
use borgbase_operator.Controller.Env.{
  Env, History, get_backup, get_repository, get_cron_job, create_cron_job, update_cron_job,
  event_normal, event_warning,
}
use borgbase_operator.Controller.Exec.{
  St, Exec, pure, raise, lift, ask, attempt, get_obj, modify, emit, ◌>>=◌, ◌>>◌, on_result,
}
use borgbase_operator.Controller.Helpers.{minute}
use borgbase_operator.Controller.Backups.Base.{set_backup_ready, patch_backup}
use borgbase_operator.Controller.Backups.Cache.{reconcile_cache}
use borgbase_operator.Controller.Backups.Slug.{slug_conflict}
use borgbase_operator.Controller.Backups.Runs.{observed_runs, merge_history}
use borgbase_operator.Controller.Backups.Trigger.{reconcile_trigger}

module _ (env : Env) (tools : Tools) (cfg : Config) where
  -- No CronJob is there: the UID of the one created.
  create_schedule : CronJob → Exec ScheduledBackup Text
  create_schedule desired = do
    reply ← ask (create_cron_job desired) (λ h. env.created_cron_job h desired)
    on_result reply
        (λ uid. do
          emit event_normal (codes "CronJobCreated") (codes "Create") (
              codes "Created CronJob "
              ++ (desired.meta.name ++ (codes " on schedule " ++ desired.spec.schedule)))
          pure uid)
        λ e. raise (
          if is_already_exists e
          then plain (
              codes "CronJob "
              ++ (desired.meta.name
                  ++ codes
                      " already exists but is not managed by this operator; remove it or rename the ScheduledBackup"))
          else wrap (codes "creating cronjob: ") e [])

  -- The status of the CronJob, as far as the backup's shows it.
  mirror_schedule : CronJob → Exec ScheduledBackup (Unit {0})
  mirror_schedule current = modify λ sb. record sb {
    status = record sb.status {
      last_schedule_time = current.status.last_schedule_time;
      last_successful_time = current.status.last_successful_time;
      active = length current.status.active;
    };
  }

  -- The CronJob is there: its UID.
  update_schedule : CronJob → CronJob → Exec ScheduledBackup Text
  unfolding mirror_schedule
  update_schedule desired current = do
    let updated : CronJob = record current {
      meta = record current.meta {
        labels = desired.meta.labels;
        owner_references = desired.meta.owner_references;
      };
      spec = desired.spec;
    }
    reply ← ask (update_cron_job updated) (λ h. env.updated_cron_job h updated)
    on_result reply (λ _. do mirror_schedule current; pure current.meta.uid)
        (λ e. raise (wrap (codes "updating cronjob: ") e []))

  -- The CronJob of the backup is written: its UID.
  unfoldable pub write_schedule : CronJob → Exec ScheduledBackup Text
  unfolding create_schedule update_schedule mirror_schedule
  write_schedule desired = do
    reply ←
        ask (get_cron_job desired.meta.namespace desired.meta.name)
          (λ h. env.got_cron_job h desired.meta.namespace desired.meta.name)
    on_result reply (update_schedule desired)
        λ e. if is_not_found e then create_schedule desired else raise e

  -- The status once the CronJob is written, and then the trigger.
  unfoldable pub record_runs :
      ScheduledBackup → Repository → CronJob → Text → Exec ScheduledBackup ℕ
  record_runs sb repo desired uid = do
    modify λ o. record o { status = record o.status { effective_schedule = desired.spec.schedule } }
    set_backup_ready env condition_true (codes "Ready")
        (codes "Backing up on schedule " ++ desired.spec.schedule)
    runs ← observed_runs env sb uid
    modify
        λ o. record o { status = record o.status { history = merge_history o.status.history runs } }
    reconcile_trigger env tools cfg sb repo runs
    pure (5 * minute)

  -- `reconcile` once the Repository is initialized and no other backup has the slug.
  unfoldable pub apply : ScheduledBackup → Repository → Exec ScheduledBackup ℕ
  apply sb repo = do
    reconcile_cache env tools cfg sb
    built ← lift (build_cron_job tools cfg sb repo)
    meta ← lift (env.set_controller_reference sb.meta built.meta)
    let desired : CronJob = record built { meta = meta }
    uid ← write_schedule desired
    record_runs sb repo desired uid

  not_ready : Text → Text → Exec ScheduledBackup ℕ
  not_ready reason message = do set_backup_ready env condition_false reason message; pure 0

  apply_unless_conflict : ScheduledBackup → Repository → Text → Exec ScheduledBackup ℕ
  unfolding not_ready
  apply_unless_conflict sb repo other =
      if not (is_empty other)
      then not_ready (codes "SlugConflict") (
          codes "healthchecks slug \""
          ++ ((reporter_of sb cfg).slug
              ++ (codes "\" is already reported by ScheduledBackup \""
                  ++ (other ++ codes "\"; set spec.healthchecks.slug to something unique"))))
      else apply sb repo

  unfoldable with_repository : ScheduledBackup → Repository → Exec ScheduledBackup ℕ
  unfolding not_ready apply_unless_conflict
  with_repository sb repo =
      if not repo.status.initialized
      then not_ready (codes "RepositoryNotReady")
          (codes "Repository \"" ++ (repo.meta.name ++ codes "\" is not initialized yet"))
      else do other ← slug_conflict env cfg sb; apply_unless_conflict sb repo other

  -- `func (r *ScheduledBackupReconciler) reconcile`
  unfoldable pub reconcile_backup : ScheduledBackup → Exec ScheduledBackup ℕ
  unfolding not_ready apply_unless_conflict with_repository
  reconcile_backup sb = do
    reply ←
        ask (get_repository sb.meta.namespace sb.spec.repository_ref)
          (λ h. env.got_repository h sb.meta.namespace sb.spec.repository_ref)
    on_result reply (with_repository sb) λ e.
        if is_not_found e
        then not_ready (codes "RepositoryNotFound")
            (codes "Repository \"" ++ (sb.spec.repository_ref ++ codes "\" does not exist"))
        else raise e

  fail_backup : ScheduledBackup → Err → Exec ScheduledBackup ℕ
  fail_backup base e = do
    set_backup_ready env condition_false (codes "ReconcileFailed") (error_text e)
    emit event_warning (codes "ReconcileFailed") (codes "Reconcile") (error_text e)
    attempt (patch_backup env base)
    raise e

  -- `Reconcile` of a backup that was read.
  unfoldable pub handle_backup : ScheduledBackup → Exec ScheduledBackup ℕ
  unfolding fail_backup
  handle_backup sb = do
    result ← attempt (reconcile_backup sb)
    on_result result (λ requeue. do patch_backup env sb; pure requeue) (fail_backup sb)

  -- `func (r *ScheduledBackupReconciler) Reconcile`: the delay before the next pass, 0 for none.
  unfoldable pub reconcile_backup_request : Text → Text → History → Result ℕ × History
  reconcile_backup_request namespace name h =
      let h' : History = get_backup namespace name ∷ h in
      elim (env.got_backup h namespace name) [
        | err e ↦ (if is_not_found e then ok 0 else err e, h')
        | ok sb ↦
            let (result, s) = handle_backup sb (record { obj = sb; calls = h' }) in
            (result, s.calls)
      ]
