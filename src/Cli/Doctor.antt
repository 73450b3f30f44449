-- ===== src/Cli/Doctor.antt =====
-- internal/cli/doctor.go and `Since` of output.go: the command `doctor`, which explains why a
-- backup does not run.
pub mod Checks
pub mod Cluster
pub mod Soundness
pub mod Backups
pub mod Verdict
use borgbase_operator.Base.{
  ℕ, ltb, ◌==◌, Text, codes, is_empty, text_eq, format_nat, join, get_text, Bool, true, false, not,
  ◌&&◌, ◌||◌, Option, none, some, List, [], ◌∷◌, ◌++◌, map, any, keep, if◌then◌else◌,
}
use borgbase_operator.Errors.{
  Err, target_not_found, unhealthy, wrap, is_not_found, error_text, Result, ok, err,
}
use borgbase_operator.Api.Meta.{OwnerReference, Condition, ConditionStatus, condition_true}
use borgbase_operator.Api.Repository.{Repository, secret_name_of, condition_ready}
use borgbase_operator.Api.ScheduledBackup.{
  ScheduledBackup, BackupRun, RunResult, run_running, run_succeeded, run_failed, RunTrigger,
  trigger_scheduled, trigger_manual,
}
use borgbase_operator.Kube.Objects.{Secret, Job, JobCondition, CronJob, VolumeClaim}
use borgbase_operator.Backup.Workload.{cron_job_name}
use borgbase_operator.Backup.Workload.Pods.{cache_name}
use borgbase_operator.Controller.Env.{
  Env, get_secret, get_cron_job, get_claim, list_jobs, list_backups, list_repositories_in,
  read_clock,
}
use borgbase_operator.Controller.Exec.{
  Exec, pure, raise, ask, call, attempt, ◌>>=◌, ◌>>◌, on_result, on_option,
}
use borgbase_operator.Controller.Repository.Base.{key_restic_repository, key_restic_password}
use borgbase_operator.Controller.Backups.Cache.{is_owner}
use borgbase_operator.Cli.Console.{Cmd, new_printer, printer_err, say, find_condition}
use borgbase_operator.Cli.Resolve.{
  Target, repository_target, backup_target, to_lower, resolve, repository_for,
}
use borgbase_operator.Cli.Doctor.Checks.{
  CheckLevel, level_ok, level_info, level_warn, level_fail, level_symbol, Check, Report, one_check,
  is_failure, report_failed, quoted, is_target_not_found, is_true, check_generation,
  check_condition, missing_keys, secret_check, suspend_check, controlled_by, failure_detail,
  init_job_check, trigger_text,
}
use borgbase_operator.Cli.Doctor.Cluster.{
  check_credentials, check_repository, check_referenced, check_reference, check_cron_job,
  check_cache,
}

module _ (env : Env) (human_duration : ℕ → ℕ → Text) where
  -- `func Since`, on the text for how long it is from one time to another
  unfoldable pub since : Option ℕ → Cmd Text
  since none = pure (codes "<none>")
  since (some t) = do now ← ask read_clock env.now; pure (human_duration t now ++ codes " ago")

  -- The switch of `checkRecordedRuns`.
  unfoldable pub recorded_check : RunResult → BackupRun → Text → Text → Cmd (List Check)
  unfolding since
  recorded_check run_succeeded last name when = pure (
      one_check level_ok
        (codes "last backup succeeded "
          ++ (when ++ (codes " (" ++ (to_lower (trigger_text last.trigger) ++ codes ")"))))
        [])
  recorded_check run_running last name when = do
    started ← since last.start_time
    pure (
        one_check level_info (codes "a backup started " ++ (started ++ codes " is still running"))
          [])
  recorded_check run_failed last name when = pure (
      one_check level_fail (codes "the most recent run (" ++ (when ++ codes ") failed"))
        ((codes "Run: corg logs " ++ name) ∷ []))

  -- `func checkRecordedRuns`, on the newest run
  unfoldable pub check_recorded : BackupRun → Text → Cmd (List Check)
  unfolding recorded_check
  check_recorded last name = do
    when ← on_option last.completion_time (λ t. since (some t)) (since last.start_time)
    recorded_check last.result last name when

  -- The last switch of `checkLastRun`, on the times of the last schedule and the last success.
  unfoldable pub check_times : Option ℕ → Option ℕ → Text → Cmd (List Check)
  unfolding since
  check_times none success name = pure (
      one_check level_warn (codes "no backup has run yet") (
        codes "The first run happens at the next scheduled slot."
        ∷ ((codes "To take one now: corg backup " ++ name) ∷ [])))
  check_times (some scheduled) none name = do
    started ← since (some scheduled)
    pure (
        one_check level_fail
          (codes "a backup started " ++ (started ++ codes " but none has ever succeeded"))
          ((codes "Run: corg logs " ++ name) ∷ []))
  check_times (some scheduled) (some success) name =
      if ltb success scheduled
      then (do
        started ← since (some scheduled)
        succeeded ← since (some success)
        pure (
            one_check level_fail
              (codes "the most recent run (" ++ (started ++ codes ") did not succeed"))
              ((codes "Last success was " ++ (succeeded ++ codes "."))
                ∷ ((codes "Run: corg logs " ++ name) ∷ []))))
      else do
        succeeded ← since (some success)
        pure (one_check level_ok (codes "last backup succeeded " ++ succeeded) [])

  -- The recorded runs, or the times where there are none.
  unfoldable pub check_history : List BackupRun → ScheduledBackup → Cmd (List Check)
  unfolding check_recorded check_times
  check_history (last ∷ _) sb = check_recorded last sb.meta.name
  check_history [] sb =
      check_times sb.status.last_schedule_time sb.status.last_successful_time sb.meta.name

  -- `func checkLastRun`
  unfoldable pub check_last_run : ScheduledBackup → Cmd (List Check)
  unfolding check_history
  check_last_run sb =
      if ltb 0 sb.status.active
      then pure
          (one_check level_info (format_nat sb.status.active ++ codes " backup(s) running now") [])
      else check_history sb.status.history sb

  -- `func checkScheduledBackup`
  unfoldable pub check_backup : ScheduledBackup → Cmd (List Check)
  unfolding check_reference check_cron_job check_cache check_last_run
  check_backup sb = do
    let suspended =
        if sb.spec.suspend
        then one_check level_warn (codes "backups are suspended")
            (codes "The CronJob is kept but will not fire. Clear spec.suspend to resume." ∷ [])
        else []
    let generation = check_generation sb.meta.generation sb.status.observed_generation
    let ready =
        check_condition (find_condition sb.status.conditions condition_ready) (codes "backup")
    repository ← check_reference env sb
    cron ← check_cron_job env sb
    cache ← check_cache env sb
    last ← check_last_run sb
    pure (suspended ++ (generation ++ (ready ++ (repository ++ (cron ++ (cache ++ last))))))

  unfoldable pub check_target : Target → Cmd Report
  check_target (repository_target repo) = check_repository env repo >>= λ checks.
      pure (record { subject = codes "repository/" ++ repo.meta.name; checks = checks })
  check_target (backup_target sb) = check_backup sb >>= λ checks.
      pure (record { subject = codes "scheduledbackup/" ++ sb.meta.name; checks = checks })

  unfoldable pub check_targets : List Target → Cmd (List Report)
  unfolding check_target
  check_targets [] = pure []
  check_targets (t ∷ ts) = do
    report ← check_target t
    reports ← check_targets ts
    pure (report ∷ reports)

  -- `func collectReports`
  unfoldable pub collect_reports : Text → Text → Cmd (List Report)
  unfolding check_targets
  collect_reports ns arg =
      if not (is_empty arg)
      then (do target ← resolve env ns arg; check_targets (target ∷ []))
      else do
        repos ← call (list_repositories_in ns) (λ h. env.listed_repositories_in h ns)
        backups ← call (list_backups ns) (λ h. env.listed_backups h ns)
        check_targets (map repository_target repos ++ map backup_target backups)

  unfoldable pub write_lines : List Text → Cmd (Unit {0})
  write_lines [] = pure tt
  write_lines (d ∷ ds) = say env (codes "      " ++ (d ++ codes "\n")) >>= λ _. write_lines ds

  unfoldable pub write_checks : List Check → Cmd (Unit {0})
  unfolding write_lines
  write_checks [] = pure tt
  write_checks (c ∷ cs) = do
    say env (codes "  " ++ (level_symbol c.level ++ (codes " " ++ (c.summary ++ codes "\n"))))
    write_lines c.detail
    write_checks cs

  -- `func (r *report) write`, of each report, with a blank line between two of them
  unfoldable pub write_reports : Bool → List Report → Cmd (Unit {0})
  unfolding write_checks
  write_reports first [] = pure tt
  write_reports first (r ∷ rs) = do
    if first then pure tt else say env (codes "\n")
    say env (r.subject ++ codes "\n")
    write_checks r.checks
    write_reports false rs

  -- The output of `runDoctor`, and its error.
  unfoldable pub print_reports : Text → List Report → Cmd (Unit {0})
  unfolding write_reports
  print_reports ns [] =
      say env (codes "No resources found in namespace " ++ (quoted ns ++ codes ".\n")) >>= λ _.
      printer_err
  print_reports ns (r ∷ rs) = do
    write_reports true (r ∷ rs)
    printer_err
    if any report_failed (r ∷ rs) then raise unhealthy else pure tt

  -- `func runDoctor`
  unfoldable pub run_doctor : Text → Text → Cmd (Unit {0})
  unfolding collect_reports print_reports
  run_doctor ns arg = do reports ← collect_reports ns arg; new_printer; print_reports ns reports
