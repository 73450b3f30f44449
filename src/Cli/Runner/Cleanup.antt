-- ===== src/Cli/Runner/Cleanup.antt =====
-- runner.go: the Jobs that are created and deleted.
use mathlib.Core.Path.{subst}
use borgbase_operator.Base.{sym, ℕ, Bool, true, false, List, [], ◌∷◌, ◌≡◌, inl, refl, arith}
use borgbase_operator.Errors.{Err, Result, ok, err}
use borgbase_operator.Api.ScheduledBackup.{ScheduledBackup}
use borgbase_operator.Kube.Objects.{Job}
use borgbase_operator.Kube.Running.{Pod}
use borgbase_operator.Controller.Env.{Call, History, Env, create_job, delete_job}
use borgbase_operator.Controller.Exec.{St, Exec, ◌>>=◌, raise, on_result}
use borgbase_operator.Controller.Exec.Keeps.{Keeps, Keeps-call, Keeps-bind}
use borgbase_operator.Controller.Exec.Settled.{
  closes, neither, created_role, all_of, Roles, Settled, Settled-mono,
}
use borgbase_operator.Cli.Derive.{Options}
use borgbase_operator.Cli.Runner.Reads.{
  IsRead, build_job-Keeps, preflight-Keeps, wait_for_pod-Keeps, wait_for_end-Keeps,
}
use borgbase_operator.Cli.Runner.{cleanup, started_job, with_cleanup, run, attach}

-- A Job is opened by a creation that succeeds, and closed by the request to delete it.
abbrev pub job_role : Env → Roles Job
job_role env h (create_job job) = created_role job (env.created_job h job)
job_role env h (delete_job job) = closes job
job_role env h _ = neither

reads-job_role :
    (env : Env) (seen : List Job) (c : Call)
    → IsRead c
    → (h : History) → Settled (job_role env) seen h
    → Settled (job_role env) seen (c ∷ h)
reads-job_role env seen (create_job _) p h i = absurd p
reads-job_role env seen (delete_job _) p h i = absurd p
reads-job_role env seen _ p h i = i

module _ {O : Type 0} (env : Env) where
  cleanup-calls : (job : Job) (s : St O) → (cleanup env job s).1.calls ≡ delete_job job ∷ s.calls
  unfolding cleanup ◌>>=◌
  cleanup-calls job s = ground arith

  -- The body starts with its Job created, and the Job is deleted at the end.
  with_cleanup-Settled :
      {A : Type 0} (kept : Bool) (job : Job) (body : Exec O A)
      → kept ≡ false
      → Keeps (Settled (job_role env) (job ∷ [])) body
      → (s : St O) → Settled (job_role env) (job ∷ []) s.calls
      → Settled (job_role env) [] (with_cleanup env kept job body s).1.calls
  unfolding with_cleanup ◌>>=◌
  with_cleanup-Settled true job body e k s i = cc
  with_cleanup-Settled false job body e k s i =
      subst (Settled (job_role env) []) (sym (cleanup-calls job (body s).1)) (k.at s i)

  after_create :
      {A : Type 0} (kept : Bool) (job : Job) (body : Exec O A) (fail : Err → Err)
      → kept ≡ false
      → Keeps (Settled (job_role env) (job ∷ [])) body
      → (s : St O) → Settled (job_role env) [] s.calls
      → (r : Result (Unit {0})) → env.created_job s.calls job ≡ r
      → Settled
          (job_role env)
          []
          (on_result r
            (λ _. with_cleanup env kept job body)
            (λ e. raise (fail e))
            (record s { calls = create_job job ∷ s.calls })).1.calls
  unfolding raise
  after_create kept job body fail e k s i (ok _) q =
      with_cleanup-Settled kept job body e k _
        (rw (q, Settled) (inl refl, Settled-mono (job_role env) s.calls (all_of (job ∷ [])) i))
  after_create kept job body fail e k s i (err _) q = rw (q, Settled) i

  started_job-Settled :
      {A : Type 0} (sb : ScheduledBackup) (opts : Options) (next : Job → Exec O A)
      → opts.keep_job ≡ false
      → ((job : Job) → Keeps (Settled (job_role env) (job ∷ [])) (next job))
      → Keeps (Settled (job_role env) []) (started_job env sb opts next)
  unfolding started_job ◌>>=◌
  started_job-Settled sb opts next kept k =
      Keeps-bind _ _ (build_job-Keeps env _ (reads-job_role env []) sb opts) λ job.
        Keeps-bind _ _ (preflight-Keeps env _ (reads-job_role env []) job) λ _. record {
          at = λ s i. after_create opts.keep_job job (next job) _ kept (k job) s i _ refl;
        }

-- However `Run` ends, by success or by an error at any point, every Job whose creation succeeded has
-- been asked to be deleted after it, unless `--keep` is given: the requests before `Run` left no Job
-- behind, and so do those after it.
pub run-Settled :
    {O : Type 0} (env : Env) (sb : ScheduledBackup) (opts : Options) (timeout : ℕ) (s : St O)
    → opts.keep_job ≡ false
    → Settled (job_role env) [] s.calls
    → Settled (job_role env) [] (run env sb opts timeout s).1.calls
unfolding run
run-Settled env sb opts timeout s kept i =
    (started_job-Settled env sb opts _ kept λ job.
        Keeps-bind _ _ (wait_for_pod-Keeps env _ (reads-job_role env (job ∷ [])) job timeout) λ pod.
          Keeps-bind _ _ (Keeps-call _ _ (λ h k. k))
            λ _. wait_for_end-Keeps env _ (reads-job_role env (job ∷ [])) job timeout).at
      s i

-- The same of `Attach`, for every use of the pod that makes no Job and deletes none.
pub attach-Settled :
    {O : Type 0} (env : Env) (sb : ScheduledBackup) (opts : Options) (timeout : ℕ)
    (use_pod : Pod → Exec O (Unit {0})) (s : St O)
    → opts.keep_job ≡ false
    → ((pod : Pod) (seen : List Job) → Keeps (Settled (job_role env) seen) (use_pod pod))
    → Settled (job_role env) [] s.calls
    → Settled (job_role env) [] (attach env sb opts timeout use_pod s).1.calls
unfolding attach
attach-Settled env sb opts timeout use_pod s kept uses i =
    (started_job-Settled env sb (record opts { tty = true }) _ kept
        λ job.
          Keeps-bind _ _ (wait_for_pod-Keeps env _ (reads-job_role env (job ∷ [])) job timeout)
            λ pod. uses pod (job ∷ [])).at
      s i
