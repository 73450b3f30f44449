-- ===== src/Cli/Runs.antt =====
-- internal/cli/logs.go and internal/cli/cancel.go: the Jobs of a backup, their logs, and the
-- commands `cancel` and `wait`.
pub mod Safety
use borgbase_operator.Base.{
  ℕ, zero, suc, ◌+◌, ◌==◌, ltb, Text, codes, text_eq, length, Bool, true, false, not, ◌&&◌, ◌||◌,
  Option, none, some, List, [], ◌∷◌, ◌++◌, keep, if◌then◌else◌,
}
use borgbase_operator.Errors.{Err, no_runs, backup_failed, wrap, is_not_found, Result, ok, err}
use borgbase_operator.Api.Meta.{OwnerReference}
use borgbase_operator.Api.ScheduledBackup.{ScheduledBackup}
use borgbase_operator.Kube.Objects.{Job}
use borgbase_operator.Kube.Running.{Pod}
use borgbase_operator.Backup.Workload.{cron_job_name}
use borgbase_operator.Controller.Env.{
  Env, get_cron_job, get_job, list_jobs, delete_job, list_pods, stream_logs,
}
use borgbase_operator.Controller.Exec.{
  Exec, pure, raise, ask, call, attempt, get_obj, modify, ◌>>=◌, ◌>>◌, on_result, on_option,
}
use borgbase_operator.Controller.Backups.Runs.{sort_runs}
use borgbase_operator.Cli.Console.{Console, Cmd, new_printer, printer_err, say, say_and_check}
use borgbase_operator.Cli.Runner.{poll_for}

-- `func jobStart`
unfoldable pub job_start : Job → ℕ
job_start job = elim job.status.start_time [ some t ↦ t | none ↦ job.meta.creation_timestamp ]

-- The Job's controller is the backup, or its CronJob.
unfoldable pub is_owned : Env → Text → Option Text → Job → Bool
is_owned env backup_uid cron_uid job = elim (env.get_controller_of job.meta) [
  | none ↦ false
  | some owner ↦
      text_eq owner.uid backup_uid
      || elim cron_uid [ none ↦ false | some uid ↦ text_eq owner.uid uid ]
]

-- `func selectJob`
unfoldable pub select_job : List Job → Bool → Result Job
select_job [] previous = err no_runs
select_job (job ∷ []) previous =
    if previous then err (wrap [] no_runs (codes ": only one run is still present")) else ok job
select_job (job ∷ (older ∷ _)) previous = if previous then ok older else ok job

-- `func jobIsRunning`
abbrev pub is_running : Job → Bool
is_running job = (job.status.succeeded == 0) && (job.status.failed == 0)

unfoldable pub first_running : List Job → Option Job
first_running [] = none
first_running (job ∷ jobs) =
    let later = first_running jobs in if is_running job then some job else later

abbrev pub job_name_labels : List Text
job_name_labels = codes "batch.kubernetes.io/job-name" ∷ (codes "job-name" ∷ [])

module _ (env : Env) where
  -- The UID of the backup's CronJob, if there is one.
  cron_job_uid : ScheduledBackup → Cmd (Option Text)
  cron_job_uid sb = do
    let name = cron_job_name sb
    reply ←
        ask (get_cron_job sb.meta.namespace name) (λ h. env.got_cron_job h sb.meta.namespace name)
    on_result reply (λ cron. pure (some cron.meta.uid))
        λ e. if is_not_found e then pure none else raise e

  -- `func BackupJobs`
  unfoldable pub backup_jobs : ScheduledBackup → Cmd (List Job)
  unfolding cron_job_uid
  backup_jobs sb = do
    cron_uid ← cron_job_uid sb
    jobs ← call (list_jobs sb.meta.namespace) (λ h. env.listed_jobs h sb.meta.namespace)
    pure (sort_runs (λ job. some (job_start job)) (keep (is_owned env sb.meta.uid cron_uid) jobs))

  -- `func podsForJob`, on the labels that are left.
  unfoldable pub pods_by_label : Text → Text → List Text → Cmd (List Pod)
  pods_by_label ns name [] = pure []
  pods_by_label ns name (label ∷ labels) =
      call (list_pods ns label name) (λ h. env.listed_pods h ns label name) >>= λ pods.
      if ltb 0 (length pods) then pure pods else pods_by_label ns name labels

  abbrev pub pods_for_job : Job → Cmd (List Pod)
  pods_for_job job = pods_by_label job.meta.namespace job.meta.name job_name_labels

  -- The loop of `streamJobLogs`; the header is printed if there are several pods.
  unfoldable pub stream_pods : Text → Bool → List Pod → Cmd (Unit {0})
  stream_pods ns several [] = pure tt
  stream_pods ns several (pod ∷ pods) =
      (if several
        then (new_printer >> say_and_check env (codes "# pod/" ++ (pod.meta.name ++ codes "\n")))
        else pure tt)
      >>= λ _.
          call (stream_logs ns pod.meta.name) (λ h. env.streamed_logs h ns pod.meta.name) >>= λ _.
          stream_pods ns several pods

  -- `func streamJobLogs`
  unfoldable pub stream_job_logs : Job → Cmd (Unit {0})
  unfolding stream_pods
  stream_job_logs job = do
    pods ← pods_for_job job
    if length pods == 0
        then raise (
            wrap [] no_runs (
              codes ": job/"
              ++ (job.meta.name
                  ++ codes " has no pods left; they may have been garbage collected")))
        else stream_pods job.meta.namespace (ltb 1 (length pods)) pods

  -- The loop of `runCancel`, on a Job that runs.
  unfoldable pub cancel_job : Job → Cmd (Unit {0})
  cancel_job job = do
    reply ← ask (delete_job job) (λ h. env.deleted_job h job)
    on_result reply (λ _. pure tt)
        (λ e.
          if is_not_found e
          then pure tt
          else raise (wrap (codes "deleting job/" ++ (job.meta.name ++ codes ": ")) e []))
    say env (codes "cancelled job/" ++ (job.meta.name ++ codes "\n"))

  -- The loop of `runCancel`: how many Jobs were deleted.
  unfoldable pub cancel_jobs : ℕ → List Job → Cmd ℕ
  unfolding cancel_job
  cancel_jobs cancelled [] = pure cancelled
  cancel_jobs cancelled (job ∷ jobs) = elim (is_running job) [
    | false ↦ cancel_jobs cancelled jobs
    | true ↦ cancel_job job >>= λ _. cancel_jobs (suc cancelled) jobs
  ]

  none_running : ScheduledBackup → Cmd (Unit {0})
  none_running sb =
      say_and_check env
        (codes "no backup is running for scheduledbackup/" ++ (sb.meta.name ++ codes "\n"))

  -- `func runCancel`
  unfoldable pub run_cancel : ScheduledBackup → Cmd (Unit {0})
  unfolding cancel_jobs none_running
  run_cancel sb = do
    jobs ← backup_jobs sb
    new_printer
    cancelled ← cancel_jobs 0 jobs
    if cancelled == 0
        then none_running sb
        else say_and_check env (
            codes
              "restic may have left a lock behind; if the next run reports one, use: corg unlock\n")

  -- The condition of `runWait`: the Job once it has ended, or nothing once it is gone.
  unfoldable pub ended_or_gone : Text → Text → Cmd (Option (Option Job))
  ended_or_gone ns name = do
    reply ← ask (get_job ns name) (λ h. env.got_job h ns name)
    on_result reply (λ seen. pure (if is_running seen then none else some (some seen)))
        λ e. if is_not_found e then pure (some none) else raise e

  abbrev failed_pods : Option Job → ℕ
  failed_pods none = 0
  failed_pods (some job) = job.status.failed

  -- `job/<name> <what>`
  abbrev pub job_line : Text → Text → Text
  job_line name what = codes "job/" ++ (name ++ (codes " " ++ (what ++ codes "\n")))

  unfoldable pub report_failure : ScheduledBackup → Text → Cmd (Unit {0})
  report_failure sb name = do
    say_and_check env (job_line name (codes "failed"))
    raise (wrap [] backup_failed (codes ": see `corg logs " ++ (sb.meta.name ++ codes "`")))

  wait_for_job : ScheduledBackup → ℕ → Job → Cmd (Unit {0})
  unfolding ended_or_gone report_failure
  wait_for_job sb timeout job = do
    let name = job.meta.name
    say_and_check env (codes "waiting for job/" ++ (name ++ codes "\n"))
    reply ← attempt (poll_for env timeout (ended_or_gone job.meta.namespace name))
    on_result reply
        (λ final.
          if ltb 0 (failed_pods final)
          then report_failure sb name
          else say_and_check env (job_line name (codes "finished")))
        λ e. raise (wrap (codes "waiting for job/" ++ (name ++ codes ": ")) e [])

  -- `func runWait`
  unfoldable pub run_wait : ScheduledBackup → ℕ → Cmd (Unit {0})
  unfolding wait_for_job none_running
  run_wait sb timeout = do
    jobs ← backup_jobs sb
    new_printer
    on_option (first_running jobs) (wait_for_job sb timeout) (none_running sb)
