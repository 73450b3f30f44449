-- ===== src/Cli/Runner/Commands.antt =====
-- runner.go: which command the Jobs run that `Run` creates.
use mathlib.Core.Path.{subst}
use borgbase_operator.Base.{
  ℕ, Text, false, Option, none, some, List, ◌≡◌, refl, ap, ◌∷◌, ◌++◌, All, if◌then◌else◌,
}
use borgbase_operator.Errors.{Err, is_not_found, Result, ok, err, ok-inj}
use borgbase_operator.Api.ScheduledBackup.{ScheduledBackup}
use borgbase_operator.Kube.Pod.{Container}
use borgbase_operator.Kube.Objects.{Job, CronJob}
use borgbase_operator.Backup.Workload.{cron_job_name}
use borgbase_operator.Controller.Env.{Call, History, Env, create_job, delete_job}
use borgbase_operator.Controller.Exec.{Exec}
use borgbase_operator.Controller.Exec.Keeps.{Keeps, Keeps-bind, Keeps-call}
use borgbase_operator.Controller.Exec.Only.{
  Only, Only-raise, Only-ask, Only-bind, Only-bind-Returns, Only-on_result,
}
use borgbase_operator.Controller.Exec.Returns.{
  Returns, Returns-pure, Returns-raise, Returns-lift, Returns-if, Returns-bind, Returns-bind-ask,
  Returns-bind-Returns, Returns-on_result_cases,
}
use borgbase_operator.Cli.Derive.{
  Options, Place, adjust, parts_of, idle_command, find_container, derived_container, placed_job,
  job_name, derive_job,
}
use borgbase_operator.Cli.Runner.{build_job, started_job, run}
use borgbase_operator.Cli.Runner.Reads.{
  IsRead, build_job-Keeps, preflight-Keeps, with_cleanup-Keeps, wait_for_pod-Keeps,
  wait_for_end-Keeps,
}

-- The Job is in the namespace of the backup, and its containers are those of the CronJob that the
-- cluster answers for the backup, but that the "restic" one, or the only one, has the command; its
-- variables are what they are.
pub record Runs (env : Env) (sb : ScheduledBackup) (command : List Text) (job : Job) : Type 0 where
  pub namespace : job.meta.namespace ≡ sb.meta.namespace
  pub history : History
  pub cron : CronJob
  pub answer : env.got_cron_job history sb.meta.namespace (cron_job_name sb) ≡ ok cron
  pub origin : Place
  pub found : find_container cron.spec.job_template.spec.template.pod.containers ≡ some origin
  pub here : Container
  pub containers : job.spec.template.pod.containers ≡ origin.before ++ (here ∷ origin.after)
  pub env_from : here.env_from ≡ origin.here.env_from
  pub variables : here.env ≡ origin.here.env
  pub runs : here.command ≡ command

Only-Keeps : {O A : Type 0} {P : Call → Type 0} (m : Exec O A) → Keeps (All P) m → Only P m
Only-Keeps m k = record { at = k.at }

module _ (env : Env) (sb : ScheduledBackup) (opts : Options) (no_tty : opts.tty ≡ false)
    (h : History) (cron : CronJob)
    (answer : env.got_cron_job h sb.meta.namespace (cron_job_name sb) ≡ ok cron) where
  placed_job-Runs :
      (name : Text) (p : Place)
      → find_container cron.spec.job_template.spec.template.pod.containers ≡ some p
      → Runs env sb opts.command (placed_job sb opts name cron p)
  unfolding derived_container
  placed_job-Runs name p found =
      let mounts =
        (adjust opts (parts_of cron.spec.job_template.spec.template.pod p.here)).mounts in
      record {
        namespace = refl;
        history = h;
        cron = cron;
        answer = answer;
        origin = p;
        found = found;
        here = derived_container opts p.here mounts;
        containers = refl;
        env_from = refl;
        variables = refl;
        runs = ap (λ tty. if tty then idle_command else opts.command) no_tty;
      }

  derive_job-Runs :
      (make : Text → Job)
      → derive_job sb opts cron ≡ ok make
      → (random : Text) → Runs env sb opts.command (make random)
  unfolding derive_job
  derive_job-Runs make derived random =
      placed _ (find_container cron.spec.job_template.spec.template.pod.containers) refl derived
    where
      placed :
          (e : Err) (o : Option Place)
          → find_container cron.spec.job_template.spec.template.pod.containers ≡ o
          → (elim o as (λ _. Result (Text → Job)) [
            | none ↦ err e
            | some p ↦ ok (λ r. placed_job sb opts (job_name sb opts.purpose r) cron p)
          ])
            ≡ ok make
          → Runs env sb opts.command (make random)
      placed e none found q = cc
      placed e (some p) found q =
          subst (λ (m : Text → Job). Runs env sb opts.command (m random))
            (ok-inj (λ r. placed_job sb opts (job_name sb opts.purpose r) cron p) make q)
            (placed_job-Runs (job_name sb opts.purpose random) p found)

module _ (sb : ScheduledBackup) (opts : Options) (no_tty : opts.tty ≡ false) where
  module _ {O : Type 0} (env : Env) where
    build_job-Returns : Returns {O = O} (Runs env sb opts.command) (build_job env sb opts)
    unfolding build_job
    build_job-Returns = Returns-bind-ask _ _ _ λ h.
        Returns-on_result_cases (env.got_cron_job h sb.meta.namespace (cron_job_name sb)) _ _
          (λ cron answer.
            Returns-bind-Returns
              (λ (make : Text → Job). (random : Text) → Runs env sb opts.command (make random)) _ _
              (Returns-lift _ (derive_job-Runs env sb opts no_tty h cron answer))
              λ make runs. Returns-bind _ _ λ random. Returns-pure _ (runs random))
          λ e. Returns-if (is_not_found e) _ _ (λ _. Returns-raise _) (λ _. Returns-raise _)

    -- `Run` makes certain requests only, if its reads are such, and the creations and the deletions
    -- of Jobs of the backup with the command.
    pub run-Only :
        (P : Call → Type 0) (timeout : ℕ)
        → ((c : Call) → IsRead c → P c)
        → ((job : Job) → Runs env sb opts.command job → P (delete_job job))
        → ((job : Job) → Runs env sb opts.command job → P (create_job job))
        → Only P (run {O = O} env sb opts timeout)
    unfolding run started_job
    run-Only P timeout reads deletes creates =
        let kept : (c : Call) → IsRead c → (h : History) → All P h → All P (c ∷ h) =
          λ c r h p. (reads c r, p) in
        Only-bind-Returns (Runs env sb opts.command) _ _
          (Only-Keeps _ (build_job-Keeps env (All P) kept sb opts)) build_job-Returns
          λ job runs. Only-bind _ _ (Only-Keeps _ (preflight-Keeps env (All P) kept job)) λ _.
            Only-bind _ _ (Only-ask _ _ (creates job runs)) λ reply.
              Only-on_result reply _ _
                (λ _. Only-Keeps _ (
                  with_cleanup-Keeps env (All P) kept opts.keep_job job _
                    (λ h p. (deletes job runs, p))
                    (Keeps-bind _ _ (wait_for_pod-Keeps env (All P) kept job timeout) λ pod.
                      Keeps-bind _ _ (Keeps-call _ _ (kept _ tt))
                        λ _. wait_for_end-Keeps env (All P) kept job timeout)))
                (λ e. Only-raise _)
