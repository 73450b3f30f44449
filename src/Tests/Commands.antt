-- ===== src/Tests/Commands.antt =====
-- The theorems on the password generator and on the command line.
use borgbase_operator.Base.{
  ℕ, zero, suc, ◌<◌, leb, ltb, Text, codes, text_eq, length, take, true, false, none, some, [], ◌∷◌,
  ◌++◌, ◌≡◌, ◌⊎◌, refl, arith, All, if◌then◌else◌,
}
use borgbase_operator.Errors.{Result, ok, err, wrap, command_failed, api_error, not_found}
use borgbase_operator.Kube.Objects.{Job, JobStatus}
use borgbase_operator.Kube.Pod.{PodSpec, runtime_default}
use borgbase_operator.Controller.Env.{Env, History}
use borgbase_operator.Controller.Exec.{St, ◌>>=◌}
use borgbase_operator.Controller.Exec.Settled.{Settled}
use borgbase_operator.Secrets.{generate_password}
use borgbase_operator.Secrets.Password.{all_letters, read_all, generate_password-letters}
use borgbase_operator.Cli.Console.{Console}
use borgbase_operator.Cli.Derive.{Options}
use borgbase_operator.Cli.Runner.{run, wait_for_end}
use borgbase_operator.Cli.Runner.Cleanup.{job_role, run-Settled}
use borgbase_operator.Cli.Runner.Waits.{
  asked, answer, Unfinished, wait_for_end-succeeded, wait_for_end-ends,
}
use borgbase_operator.Cli.Runs.{run_cancel}
use borgbase_operator.Cli.Runs.Safety.{Cancels, run_cancel-Cancels}
use borgbase_operator.Cli.Repair.{run_rotate_password}
use borgbase_operator.Cli.Repair.Rotation.{secret_role, run_rotate_password-Settled}
use borgbase_operator.Cli.Suspend.{suspend_target}
use borgbase_operator.Cli.Resolve.{repository_target}
use borgbase_operator.Cli.Suspend.Patches.{FlagIs, Flips, Patches, suspend_target-Only}
use borgbase_operator.Tests.Data.{sample_repository, sample_backup, sample_env, meta_named}
use borgbase_operator.Tests.Backups.{built_cron_job}

-- Bytes of the random source, every other one rejected.
abbrev some_bytes : ℕ → Text
some_bytes zero = []
some_bytes (suc n) = 250 ∷ (n ∷ some_bytes n)

generate_password-letters_example :
    generate_password (read_all (some_bytes 64 ∷ (some_bytes 64 ∷ []))) ≡ (
      if leb 128 (length (all_letters (some_bytes 64 ∷ (some_bytes 64 ∷ []))))
      then some (ok (take 128 (all_letters (some_bytes 64 ∷ (some_bytes 64 ∷ [])))))
      else none)
generate_password-letters_example = generate_password-letters (some_bytes 64) (some_bytes 64 ∷ [])

-- Nothing was asked yet.
abbrev pub start : St Console
start = record { obj = record { to_error = false; failure = none }; calls = [] }

abbrev job_status : ℕ → JobStatus
job_status succeeded = record {
  start_time = none;
  completion_time = none;
  succeeded = succeeded;
  active = 0;
  failed = 0;
  conditions = [];
}

abbrev empty_pod : PodSpec
empty_pod = record {
  restart_policy = [];
  containers = [];
  volumes = [];
  affinity = none;
  automount_token = none;
  security = runtime_default;
}

abbrev running_job : Job
running_job = record {
  meta = meta_named (codes "job") 3;
  spec = record {
    ttl_seconds = none;
    backoff_limit = none;
    template = record { labels = []; pod = empty_pod };
  };
  status = job_status 0;
}

abbrev succeeded_job : Job
succeeded_job = record running_job { status = job_status 1 }

-- A Job runs at first, and has succeeded when it is asked about again.
abbrev job_answers : History → Result Job
job_answers [] = ok running_job
job_answers (_ ∷ _) = ok succeeded_job

abbrev absent : {A : Type 0} → Result A
absent = err (api_error not_found (codes "not found"))

-- A cluster with the Repository `db`, and with the CronJob and a Job of the backup.
abbrev pub cluster : Env
cluster = record sample_env {
  got_repository = λ _ _ name. if text_eq name (codes "db") then ok sample_repository else absent;
  got_cron_job = λ _ _ _. ok built_cron_job;
  got_job = λ h _ _. job_answers h;
  listed_jobs = λ _ _. ok (running_job ∷ (succeeded_job ∷ []));
  get_controller_of = λ _. some (record {
    kind = codes "ScheduledBackup";
    uid = codes "nightly";
    name = codes "nightly";
    controller = some true;
  });
}

abbrev plain_options : Options
plain_options = record {
  command = codes "restic" ∷ (codes "snapshots" ∷ []);
  purpose = [];
  mount_data = false;
  mount_cache = true;
  mount_database = false;
  image = [];
  tty = false;
  keep_job = false;
  extra_volumes = [];
  extra_mounts = [];
}

run-Settled_example :
    Settled (job_role cluster) [] (run cluster sample_backup plain_options 100 start).1.calls
run-Settled_example = run-Settled cluster sample_backup plain_options 100 start refl tt

wait_for_end-succeeded_example :
    (k : ℕ) × ((k < 3)
      × ((seen : Job) × ((answer cluster succeeded_job (asked succeeded_job k []) ≡ ok seen)
            × ((0 < seen.status.succeeded) × (seen.status.failed ≡ 0)))))
unfolding wait_for_end ◌>>=◌
wait_for_end-succeeded_example = wait_for_end-succeeded cluster succeeded_job 100 start refl

runs_at_first :
    (i : ℕ) → i < 1 → Unfinished (answer cluster succeeded_job (asked succeeded_job i []))
runs_at_first zero h = refl
runs_at_first (suc i) h = absurd (omega arith)

wait_for_end-ends_example : wait_for_end cluster succeeded_job 100 start ≡ (
  if ltb 0 succeeded_job.status.failed
      then err (wrap [] command_failed (codes ": job/" ++ succeeded_job.meta.name))
      else ok tt,
  record start { calls = asked succeeded_job 2 [] },
)
wait_for_end-ends_example =
    wait_for_end-ends cluster succeeded_job 100 1 start succeeded_job (omega arith) runs_at_first
      refl refl

run_cancel-Cancels_example :
    All (Cancels cluster sample_backup) (run_cancel cluster sample_backup start).1.calls
run_cancel-Cancels_example = run_cancel-Cancels cluster sample_backup start tt

run_rotate_password-Settled_example :
    Settled
      (secret_role cluster)
      []
      (run_rotate_password cluster sample_backup sample_repository start).1.calls
run_rotate_password-Settled_example =
    run_rotate_password-Settled cluster sample_backup sample_repository start tt

suspend_target-Only_example :
    All
      (Flips true (repository_target sample_repository))
      (suspend_target cluster true
        (codes "suspended")
        (repository_target sample_repository)
        start).1.calls
    × (FlagIs (repository_target sample_repository) true
        ⊎ Patches
            (suspend_target cluster true
              (codes "suspended")
              (repository_target sample_repository)
              start).1.calls)
suspend_target-Only_example =
    suspend_target-Only cluster true (codes "suspended") (repository_target sample_repository) start
      tt
