-- ===== src/Tests/Diagnoses.antt =====
-- The theorem on the command `doctor`.
use borgbase_operator.Base.{
  codes, text_eq, lookup, cut, get_text, trim_space, has_prefix, ◌∷◌, refl,
}
use borgbase_operator.Errors.{ok}
use borgbase_operator.Kube.Objects.{Secret}
use borgbase_operator.Controller.Env.{Env}
use borgbase_operator.Controller.Exec.{◌>>=◌}
use borgbase_operator.Cli.Resolve.{resolve, repository_for}
use borgbase_operator.Cli.Doctor.{check_backup, run_doctor}
use borgbase_operator.Cli.Doctor.Checks.{check_generation, check_condition}
use borgbase_operator.Cli.Console.{say, printer_err, find_condition}
use borgbase_operator.Backup.Workload.{build_cron_job}
use borgbase_operator.Backup.Schedule.{resolve_schedule}
use borgbase_operator.Backup.Workload.Pods.{build_job_template, build_env, reporter_of}
use borgbase_operator.Backup.Script.{render}
use borgbase_operator.Healthchecks
use borgbase_operator.Healthchecks.{reporter_env}
use borgbase_operator.Cli.Doctor.Verdict.{Diagnosed, run_doctor-Diagnosed}
use borgbase_operator.Tests.Data.{sample_secret}
use borgbase_operator.Tests.Commands.{start, cluster}

abbrev complete_secret : Secret
complete_secret = record sample_secret {
  entries = (codes "RESTIC_REPOSITORY", codes "rest:") ∷ sample_secret.entries;
}

-- A cluster with nothing for `doctor` to complain of.
abbrev healthy : Env
healthy = record cluster { got_secret = λ _ _ _. ok complete_secret }

run_doctor-Diagnosed_example :
    Diagnosed healthy (λ _ _. codes "1h") (codes "prod") (codes "sb/nightly")
unfolding run_doctor ◌>>=◌ lookup cut text_eq resolve check_backup repository_for say
    check_generation check_condition find_condition get_text build_cron_job resolve_schedule
    trim_space has_prefix build_job_template render build_env reporter_env reporter_of
    Healthchecks.resolve printer_err
run_doctor-Diagnosed_example =
    run_doctor-Diagnosed healthy (λ _ _. codes "1h") (codes "prod") (codes "sb/nightly") start refl
