-- ===== src/Cli/Doctor/Backups.antt =====
-- doctor.go: what holds of a backup with which `checkScheduledBackup` finds nothing wrong.
use mathlib.Core.Path.{subst}
use borgbase_operator.Base.{
  ℕ, ltb, Text, codes, true, false, not, Option, none, some, List, [], ◌∷◌, ◌≡◌, ◌≢◌, arith, ◌⊎◌,
  inl, inr,
}
use borgbase_operator.Errors.{ok}
use borgbase_operator.Api.Repository.{Repository, condition_ready}
use borgbase_operator.Api.ScheduledBackup.{
  ScheduledBackup, BackupRun, RunResult, run_running, run_succeeded, run_failed,
}
use borgbase_operator.Controller.Env.{History, Env}
use borgbase_operator.Controller.Exec.Returns.{
  Returns, Valued, Returns-pure, Returns-if, Returns-bind, Returns-bind-Returns, Returns-attempt,
  Returns-weaken, Returns-on_result_cases,
}
use borgbase_operator.Cli.Console.{find_condition}
use borgbase_operator.Cli.Doctor.Checks.{is_target_not_found, check_generation, check_condition}
use borgbase_operator.Cli.Doctor.Cluster.{check_referenced, check_reference}
use borgbase_operator.Cli.Resolve.Targets.{repository_for-Returns}
use borgbase_operator.Cli.Doctor.Soundness.{
  Clean, Clean-append, Clean-else, NotFalse, check_condition-Clean, SecretUsable,
  check_credentials-Sound, CronJobOwned, check_cron_job-Sound,
}
use borgbase_operator.Cli.Doctor.{
  recorded_check, check_recorded, check_times, check_history, check_last_run, check_backup,
}

-- What the times of the last schedule and the last success say.
abbrev pub TimesSound : Option ℕ → Option ℕ → Type 0
TimesSound none success = Unit
TimesSound (some scheduled) none = ⊥
TimesSound (some scheduled) (some success) = ltb success scheduled ≡ false

-- The newest run, or the times where none is recorded.
abbrev pub RecordSound : ScheduledBackup → List BackupRun → Type 0
RecordSound sb [] = TimesSound sb.status.last_schedule_time sb.status.last_successful_time
RecordSound sb (last ∷ _) = last.result ≢ run_failed

abbrev pub RunsSound : ScheduledBackup → Type 0
RunsSound sb = (ltb 0 sb.status.active ≡ true) ⊎ RecordSound sb sb.status.history

module _ (env : Env) where
  -- The cluster returned the Repository of the backup, which is initialized and has its Secret.
  abbrev pub RepositoryUsable : ScheduledBackup → Type 0
  RepositoryUsable sb =
      (h : History) × ((repo : Repository) × ((env.got_repository h sb.meta.namespace
              sb.spec.repository_ref
            ≡ ok repo)
          × ((repo.status.initialized ≡ true) × SecretUsable env repo)))

  -- What a backup with no failed check has.
  pub record BackupSound (sb : ScheduledBackup) : Type 0 where
    pub ready : NotFalse (find_condition sb.status.conditions condition_ready)
    pub repository : RepositoryUsable sb
    pub cron_job : CronJobOwned env sb
    pub runs : RunsSound sb

  module _ (human_duration : ℕ → ℕ → Text) where
    recorded_check-Sound :
        (result : RunResult) (last : BackupRun) (name when : Text)
        → Returns
            (λ cs. Clean cs → result ≢ run_failed)
            (recorded_check env human_duration result last name when)
    unfolding recorded_check
    recorded_check-Sound run_succeeded last name when = Returns-pure _ (λ _ e. cc)
    recorded_check-Sound run_running last name when =
        Returns-bind _ _ λ started. Returns-pure _ (λ _ e. cc)
    recorded_check-Sound run_failed last name when = Returns-pure _ (λ clean _. cc)

    check_times-Sound :
        (scheduled success : Option ℕ) (name : Text)
        → Returns
            (λ cs. Clean cs → TimesSound scheduled success)
            (check_times env human_duration scheduled success name)
    unfolding check_times
    check_times-Sound none success name = Returns-pure _ (λ _. tt)
    check_times-Sound (some scheduled) none name = Returns-bind _ _ λ _. Returns-pure _ λ clean. cc
    check_times-Sound (some scheduled) (some success) name =
        Returns-if (ltb success scheduled) _ _
          (λ _. Returns-bind _ _ λ _. Returns-bind _ _ λ _. Returns-pure _ λ clean. cc)
          λ e. Returns-bind _ _ λ _. Returns-pure _ (λ _. e)

    check_history-Sound :
        (runs : List BackupRun) (sb : ScheduledBackup)
        → Returns (λ cs. Clean cs → RecordSound sb runs) (check_history env human_duration runs sb)
    unfolding check_history check_recorded
    check_history-Sound [] sb = check_times-Sound _ _ _
    check_history-Sound (last ∷ _) sb =
        Returns-bind _ _ λ when. recorded_check-Sound last.result last sb.meta.name when

    check_last_run-Sound :
        (sb : ScheduledBackup)
        → Returns (λ cs. Clean cs → RunsSound sb) (check_last_run env human_duration sb)
    unfolding check_last_run
    check_last_run-Sound sb =
        Returns-if (ltb 0 sb.status.active) _ _ (λ e. Returns-pure _ (λ _. inl e))
          λ _.
            Returns-weaken (check_history-Sound sb.status.history sb)
              (λ cs sound clean. inr (sound clean))

    check_referenced-Sound :
        (repo : Repository)
        → Returns
            (λ cs. Clean cs → (repo.status.initialized ≡ true) × SecretUsable env repo)
            (check_referenced env repo)
    unfolding check_referenced
    check_referenced-Sound repo =
        Returns-bind-Returns _ _ _ (check_credentials-Sound env repo) λ secret if_usable.
          Returns-pure _ λ clean.
            let (state, rest) = Clean-append _ secret clean in
            let (up, _) = Clean-else (not repo.status.initialized) _ _ state (λ bad. cc) in
            (ground (arith, up), if_usable rest)

    check_reference-Sound :
        (sb : ScheduledBackup)
        → Returns (λ cs. Clean cs → RepositoryUsable sb) (check_reference env sb)
    unfolding check_reference
    check_reference-Sound sb =
        Returns-bind-Returns _ _ _ (Returns-attempt _ (repository_for-Returns env sb)) λ reply from.
          Returns-on_result_cases reply _ _
            (λ repo q. Returns-weaken (check_referenced-Sound repo) (λ cs sound clean.
              let (h, got) = subst (Valued _) q from in (h, (repo, (got, sound clean)))))
            λ e.
              Returns-if (is_target_not_found e) _ _ (λ _. Returns-pure _ λ clean. cc)
                (λ _. Returns-pure _ λ clean. cc)

    pub check_backup-Sound :
        (sb : ScheduledBackup)
        → Returns (λ cs. Clean cs → BackupSound sb) (check_backup env human_duration sb)
    unfolding check_backup
    check_backup-Sound sb =
        let ready = find_condition sb.status.conditions condition_ready in
        let generation = check_generation sb.meta.generation sb.status.observed_generation in
        let condition = check_condition ready (codes "backup") in
        Returns-bind-Returns _ _ _ (check_reference-Sound sb) λ repository if_repository.
          Returns-bind-Returns _ _ _ (check_cron_job-Sound env sb) λ cron if_cron.
            Returns-bind _ _ λ cache.
              Returns-bind-Returns _ _ _ (check_last_run-Sound sb) λ last if_runs.
                Returns-pure _ λ clean.
                  let (_, c1) = Clean-append _ _ clean in
                  let (_, c2) = Clean-append generation _ c1 in
                  let (c3, c4) = Clean-append condition _ c2 in
                  let (c5, c6) = Clean-append repository _ c4 in
                  let (c7, c8) = Clean-append cron _ c6 in
                  let (_, c9) = Clean-append cache last c8 in
                  record {
                    ready = check_condition-Clean ready (codes "backup") c3;
                    repository = if_repository c5;
                    cron_job = if_cron c7;
                    runs = if_runs c9;
                  }
