-- ===== src/Cli/Trigger.antt =====
-- internal/cli/backup.go: the command `backup`, which asks the operator for a run by an annotation
-- and waits for it.
use borgbase_operator.Base.{
  ℕ, ◌*◌, ◌/◌, ltb, Text, codes, is_empty, text_eq, insert, any, Bool, true, false, not, Option,
  none, some, [], ◌++◌, if◌then◌else◌,
}
use borgbase_operator.Errors.{trigger_skipped, wrap, is_not_found}
use borgbase_operator.Api.Meta.{ConditionStatus, condition_true}
use borgbase_operator.Api.ScheduledBackup.{ScheduledBackup}
use borgbase_operator.Kube.Objects.{Job}
use borgbase_operator.Backup.Workload.{manual_job_name}
use borgbase_operator.Controller.Env.{Env, get_job, get_backup, patch_backup, read_clock}
use borgbase_operator.Controller.Exec.{
  Exec, pure, raise, ask, call, attempt, ◌>>=◌, ◌>>◌, on_result, on_option,
}
use borgbase_operator.Controller.Helpers.{second}
use borgbase_operator.Controller.Backups.Trigger.{annotation_trigger_at}
use borgbase_operator.Cli.Console.{
  Cmd, new_printer, printer_err, say, say_and_check, find_condition,
}
use borgbase_operator.Cli.Runner.{ended_at, poll_for}
use borgbase_operator.Cli.Runs.{pods_for_job, stream_job_logs, job_line, report_failure}

abbrev is_status_true : ConditionStatus → Bool
is_status_true condition_true = true
is_status_true _ = false

-- The operator has seen a trigger that is not older than `at`.
abbrev pub acknowledged : Option ℕ → ℕ → Bool
acknowledged none at = false
acknowledged (some acked) at = not (ltb acked at)

-- The functions of package time that the command calls: `Format` with time.RFC3339.
module _ (format_rfc3339 : ℕ → Text) where
  unfoldable pub triggered : ScheduledBackup → ℕ → ScheduledBackup
  triggered sb at = record sb {
    meta = record sb.meta {
      annotations = insert annotation_trigger_at (format_rfc3339 at) sb.meta.annotations;
    };
  }

  module _ {O : Type 0} (env : Env) where
    -- `func triggerBackup`
    unfoldable pub trigger_backup : ScheduledBackup → ℕ → Exec O (Unit {0})
    trigger_backup sb at =
        call (patch_backup (triggered sb at)) (λ h. env.patched_backup h (triggered sb at))

module _ {O : Type 0} (env : Env) where
  -- The condition of `awaitTrigger`: the name of the started Job.
  unfoldable pub trigger_seen : ScheduledBackup → ℕ → Exec O (Option Text)
  trigger_seen sb at = do
    latest ←
        call (get_backup sb.meta.namespace sb.meta.name)
          (λ h. env.got_backup h sb.meta.namespace sb.meta.name)
    pure (
        if acknowledged latest.status.last_trigger_time at
        then some latest.status.last_trigger_job
        else none)

  -- `func awaitTrigger`
  unfoldable pub await_trigger : ScheduledBackup → ℕ → ℕ → Exec O Text
  unfolding trigger_seen poll_for
  await_trigger sb at timeout = do
    reply ← attempt (poll_for env timeout (trigger_seen sb at))
    on_result reply
        (λ name.
          if is_empty name
          then raise (
              wrap [] trigger_skipped (
                codes
                  ": a backup is already running and concurrencyPolicy is Forbid; wait for it to finish, or use `corg status "
                ++ (sb.meta.name ++ codes "` to see it")))
          else pure name)
        λ e. raise (wrap (codes "waiting for the operator to start the backup: ") e [])

module _ (env : Env) where
  -- The condition of `followJobLogs`: the Job, once a pod of it has started.
  unfoldable pub pod_started : Text → Text → Cmd (Option Job)
  pod_started ns name = do
    reply ← ask (get_job ns name) (λ h. env.got_job h ns name)
    on_result reply
        (λ job. pods_for_job env job >>= λ pods.
          pure (
            if any (λ pod. not (text_eq pod.phase (codes "Pending"))) pods then some job else none))
        λ e. if is_not_found e then pure none else raise e

  -- `func followJobLogs`
  unfoldable pub follow_job_logs : Text → Text → ℕ → Cmd (Unit {0})
  unfolding pod_started
  follow_job_logs ns name timeout = do
    reply ← attempt (poll_for env timeout (pod_started ns name))
    on_result reply (stream_job_logs env)
        λ e. raise (wrap (codes "waiting for the backup pod: ") e [])

  -- `func awaitJob`
  unfoldable pub await_job : ScheduledBackup → Text → Bool → ℕ → Cmd (Unit {0})
  unfolding follow_job_logs
  await_job sb name follow timeout = do
    if follow then follow_job_logs sb.meta.namespace name timeout else pure tt
    reply ← attempt (poll_for env timeout (ended_at env sb.meta.namespace name))
    on_result reply
        (λ job.
          new_printer
          >> (if ltb 0 job.status.failed
              then report_failure env sb name
              else say_and_check env (job_line env name (codes "succeeded"))))
        λ e. raise (wrap (codes "waiting for job/" ++ (name ++ codes ": ")) e [])

  -- The first lines of `runBackupNow`.
  warn_not_ready : ScheduledBackup → Cmd (Unit {0})
  warn_not_ready sb =
      on_option (find_condition sb.status.conditions (codes "Ready"))
        (λ c.
          if is_status_true c.status
          then pure tt
          else say env (
              codes "! this backup is not ready ("
              ++ (c.reason ++ codes "); the run will start once it is\n")))
        (say env
          (codes "! this backup has not been reconciled yet; the run will start once it is\n"))

  -- `func runBackupNow`
  unfoldable pub run_backup_now : (ℕ → Text) → ScheduledBackup → Bool → Bool → ℕ → Cmd (Unit {0})
  unfolding warn_not_ready trigger_backup await_trigger await_job
  run_backup_now format_rfc3339 sb wait_for_it follow timeout = do
    new_printer
    warn_not_ready sb
    now ← ask read_clock env.now
    let at = (now / second) * second
    trigger_backup format_rfc3339 env sb at
    say env (codes "triggered backup of scheduledbackup/" ++ (sb.meta.name ++ codes "\n"))
    if not wait_for_it
        then say_and_check env
            (codes "  the operator will create job/" ++ (manual_job_name sb at ++ codes "\n"))
        else do
          printer_err
          name ← await_trigger env (triggered format_rfc3339 sb at) at timeout
          say_and_check env (codes "  started job/" ++ (name ++ codes "\n"))
          await_job sb name follow timeout
