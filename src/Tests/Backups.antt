-- ===== src/Tests/Backups.antt =====
-- The theorems on backups, at a backup of a volume with a script of its own.
use borgbase_operator.Base.{
  ℕ, ◌≤◌, Text, codes, length, true, false, none, some, pos, List, [], ◌∷◌, ◌≡◌, ◌≢◌, inl, inr,
  refl, arith, is_empty, text_eq, text_lt, trim_space, has_prefix, format_base,
}
use borgbase_operator.Errors.{plain, Result, ok, err}
use borgbase_operator.Api.ScheduledBackup.{
  ScheduledBackup, BackupRun, run_running, trigger_scheduled,
}
use borgbase_operator.Kube.Pod.{EnvVar, secret_key_ref}
use borgbase_operator.Kube.Objects.{Job, CronJob, policy_forbid}
use borgbase_operator.Backup.Schedule.{every, resolve_schedule}
use borgbase_operator.Backup.Schedule.Steps.{IsEven, every-IsEven}
use borgbase_operator.Backup.Script.{render, shell_quote_if_needed}
use borgbase_operator.Backup.Script.Quoting.{read_one_word, read_word-shell_quote_if_needed}
use borgbase_operator.Backup.Workload.{manual_job_name, build_manual_job, build_cron_job}
use borgbase_operator.Backup.Workload.Pods.{Config, reporter_of, build_job_template, build_env}
use borgbase_operator.Healthchecks.{
  resolve, reporter_env, Reporter, env_api_url, env_slug, env_ping_key,
}
use borgbase_operator.Healthchecks.Variables.{Fits, reporter_env-Fits}
use borgbase_operator.Api.Meta.{SecretKeySelector}
use borgbase_operator.Backup.Workload.Agreement.{length-manual_job_name, build_manual_job-template}
use borgbase_operator.Controller.Env.{Env}
use borgbase_operator.Controller.Exec.Only.{Only}
use borgbase_operator.Controller.Repository.Conflict.Exclusion.{Has}
use borgbase_operator.Controller.Backups.Cache.{reconcile_cache}
use borgbase_operator.Controller.Backups.Cache.Ownership.{DeletesOwned, reconcile_cache-Only}
use borgbase_operator.Controller.Backups.Slug.{reports_slug, slug_conflict_in}
use borgbase_operator.Controller.Backups.Slug.Exclusion.{slug_conflict_in_exclusive}
use borgbase_operator.Controller.Backups.Runs.{ObservedRun, merge_history}
use borgbase_operator.Controller.Backups.Runs.Order.{IsLatestFirst, merge_history-IsLatestFirst}
use borgbase_operator.Controller.Backups.Trigger.{reconcile_trigger}
use borgbase_operator.Controller.Backups.Trigger.Blocking.{NoJob, reconcile_trigger-NoJob}
use borgbase_operator.Controller.Repository.InitJob.{build_init_job}
use borgbase_operator.Tests.Data.{
  sample_reconciler, sample_repository, sample_backup, later_backup, sample_tools, sample_config,
  sample_env,
}

read_word-shell_quote_if_needed_example :
    read_one_word (shell_quote_if_needed (codes "it's $HOME")) ≡ some (codes "it's $HOME")
read_word-shell_quote_if_needed_example = read_word-shell_quote_if_needed (codes "it's $HOME")

every-IsEven_example :
    (((t : Text) × (every (codes "15m") 7 3 (pos 900000000000) ≡ ok t)) → IsEven (pos 900000000000))
    × (IsEven (pos 900000000000) → (t : Text) × (every (codes "15m") 7 3 (pos 900000000000) ≡ ok t))
every-IsEven_example = every-IsEven (codes "15m") 7 3 (pos 900000000000)

abbrev pub plain_config : Config
plain_config = record sample_config {
  healthchecks = record sample_config.healthchecks { enabled = false };
}

abbrev no_job : Job
no_job = build_init_job sample_reconciler sample_repository (codes "init")

abbrev no_cron_job : CronJob
no_cron_job = record {
  meta = no_job.meta;
  spec = record {
    schedule = [];
    time_zone = none;
    concurrency_policy = policy_forbid;
    suspend = none;
    successful_jobs_history_limit = none;
    failed_jobs_history_limit = none;
    job_template = record { labels = []; spec = no_job.spec };
  };
  status = record { last_schedule_time = none; last_successful_time = none; active = [] };
}

abbrev job_of : Result Job → Job
job_of (ok job) = job
job_of (err _) = no_job

abbrev cron_job_of : Result CronJob → CronJob
cron_job_of (ok cron) = cron
cron_job_of (err _) = no_cron_job

abbrev pub built_job : Job
built_job =
    job_of (build_manual_job sample_tools plain_config sample_backup sample_repository 9000000000)

abbrev pub built_cron_job : CronJob
built_cron_job =
    cron_job_of (build_cron_job sample_tools plain_config sample_backup sample_repository)

build_manual_job-template_example : built_job.spec ≡ built_cron_job.spec.job_template.spec
unfolding build_manual_job build_cron_job build_job_template render build_env reporter_env
    reporter_of resolve resolve_schedule trim_space has_prefix text_eq
build_manual_job-template_example =
    build_manual_job-template sample_tools plain_config sample_backup sample_repository 9000000000
      built_job built_cron_job refl refl

length-manual_job_name_example : length (manual_job_name sample_backup 9000000000) ≤ 52
length-manual_job_name_example = length-manual_job_name sample_backup 9000000000 (omega arith)

abbrev run_at : Text → ℕ → BackupRun
run_at name start = record {
  job_name = name;
  trigger = trigger_scheduled;
  result = run_running;
  start_time = some start;
  completion_time = none;
}

abbrev running : ObservedRun
running = record { run = run_at (codes "job-2") 20; active = true }

merge_history-IsLatestFirst_example :
    (length (merge_history (run_at (codes "job-1") 10 ∷ []) (running ∷ [])) ≤ 10)
    × IsLatestFirst
        (λ (run : BackupRun). run.start_time)
        (merge_history (run_at (codes "job-1") 10 ∷ []) (running ∷ []))
merge_history-IsLatestFirst_example =
    merge_history-IsLatestFirst (run_at (codes "job-1") 10 ∷ []) (running ∷ [])

abbrev two_backups : List ScheduledBackup
two_backups = sample_backup ∷ (later_backup ∷ [])

two_backups_named : (o : ScheduledBackup) → Has o two_backups → is_empty o.meta.name ≡ false
two_backups_named o (inl p) = rw p refl
two_backups_named o (inr (inl p)) = rw p refl
two_backups_named o (inr (inr x)) = elim x [ ]

slug_conflict_in_exclusive_example : slug_conflict_in sample_config later_backup two_backups ≢ []
unfolding text_eq reports_slug reporter_of resolve slug_conflict_in text_lt
slug_conflict_in_exclusive_example =
    slug_conflict_in_exclusive sample_config sample_backup later_backup two_backups (inl refl)
      (inr (inl refl)) two_backups_named refl (refl, (refl, refl)) (refl, (refl, refl)) refl refl

abbrev waiting_env : Env
waiting_env = record sample_env { got_repository = λ _ _ _. err (plain (codes "timeout")) }

-- A trigger during a run of another Job, after one that has ended.
abbrev past_and_running : List ObservedRun
past_and_running = record running { active = false } ∷ (running ∷ [])

reconcile_trigger-NoJob_example : Only NoJob (
    reconcile_trigger sample_env sample_tools sample_config sample_backup sample_repository
      past_and_running)
unfolding text_eq manual_job_name format_base
reconcile_trigger-NoJob_example =
    reconcile_trigger-NoJob sample_env sample_tools sample_config sample_backup sample_repository
      past_and_running 9000000000
      (inr (
        record running { active = false } ∷ [],
        (running, ([], (refl, (refl, ((refl, tt), (refl, (refl, refl))))))),
      ))
      refl

reconcile_cache-Only_example :
    Only
      (DeletesOwned sample_env (codes "nightly"))
      (reconcile_cache sample_env sample_tools sample_config sample_backup)
reconcile_cache-Only_example =
    reconcile_cache-Only sample_env sample_backup sample_tools sample_config

abbrev ping_key : SecretKeySelector
ping_key = record { name = codes "hc"; key = codes "ping" }

abbrev slug_reporter : Reporter
slug_reporter = record {
  enabled = true;
  create = true;
  api_url = codes "https://hc.example";
  slug = codes "prod";
  ping_key_ref = some ping_key;
  uuid_ref = none;
}

abbrev slug_variables : List EnvVar
slug_variables =
    record { name = env_api_url; value = codes "https://hc.example"; value_from = none }
    ∷ (record { name = env_slug; value = codes "prod"; value_from = none }
        ∷ (record { name = env_ping_key; value = []; value_from = some (secret_key_ref ping_key) }
            ∷ []))

reporter_env-Fits_example : Fits slug_reporter (codes "sh" ∷ []) slug_variables
unfolding reporter_env
reporter_env-Fits_example = reporter_env-Fits slug_reporter (codes "sh" ∷ []) slug_variables refl
