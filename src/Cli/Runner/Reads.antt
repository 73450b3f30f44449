-- ===== src/Cli/Runner/Reads.antt =====
-- runner.go: what its parts keep true of the requests made so far.
use borgbase_operator.Base.{ℕ, zero, suc, Text, Bool, Option, List, [], ◌∷◌}
use borgbase_operator.Api.ScheduledBackup.{ScheduledBackup}
use borgbase_operator.Kube.Objects.{Job}
use borgbase_operator.Controller.Env.{
  Call, History, Env, create_job, delete_job, get_repository, get_backup, get_cron_job, get_job,
  get_secret, get_claim, list_jobs, list_backups, list_pods, stream_logs, random_string,
}
use borgbase_operator.Controller.Exec.{Exec, raise}
use borgbase_operator.Controller.Exec.Keeps.{
  Keeps, Keeps-attempt, Keeps-if, Keeps-pure, Keeps-raise, Keeps-lift, Keeps-ask, Keeps-call,
  Keeps-bind, Keeps-on_result, Keeps-on_option, keeps_rules,
}
use borgbase_operator.Cli.Derive.{Options}
use borgbase_operator.Cli.Runner.{
  Dependency, needs_secret, needs_claim, poll, poll_for, build_job, cleanup, must_exist, each,
  volume_needs, source_needs, started_job, preflight, wait_for_pod, wait_for_end, with_cleanup, run,
}

pub Keeps-each :
    {O A : Type 0} {I : History → Type 0} (f : A → Exec O (Unit {0})) (xs : List A)
    → ((x : A) → Keeps I (f x))
    → Keeps I (each f xs)
unfolding each
Keeps-each f [] k = Keeps-pure tt
Keeps-each f (x ∷ xs) k = Keeps-bind (f x) _ (k x) (λ _. Keeps-each f xs k)

-- A request that reads the cluster.
abbrev pub IsRead : Call → Type 0
IsRead (get_repository _ _) = Unit
IsRead (get_backup _ _) = Unit
IsRead (get_cron_job _ _) = Unit
IsRead (get_job _ _) = Unit
IsRead (get_secret _ _) = Unit
IsRead (get_claim _ _) = Unit
IsRead (list_jobs _) = Unit
IsRead (list_backups _) = Unit
IsRead (list_pods _ _ _) = Unit
IsRead (stream_logs _ _) = Unit
IsRead random_string = Unit
IsRead _ = ⊥

-- Any property that reading keeps.
module _ {O : Type 0} (env : Env) (I : History → Type 0)
    (reads : (c : Call) → IsRead c → (h : History) → I h → I (c ∷ h)) where
  pub poll-Keeps :
      {A : Type 0} (n : ℕ) (condition : Exec O (Option A))
      → Keeps I condition
      → Keeps I (poll env n condition)
  unfolding poll raise
  poll-Keeps zero condition k = record { at = λ s i. i }
  poll-Keeps (suc n) condition k =
      Keeps-bind condition _ k
        (λ done. Keeps-on_option done _ _ Keeps-pure (poll-Keeps n condition k))

  pub build_job-Keeps :
      (sb : ScheduledBackup) (opts : Options) → Keeps I (build_job {O = O} env sb opts)
  unfolding build_job
  build_job-Keeps sb opts = search (keeps_rules, reads, tt) depth 12

  pub poll_for-Keeps :
      {A : Type 0} (timeout : ℕ) (condition : Exec O (Option A))
      → Keeps I condition
      → Keeps I (poll_for env timeout condition)
  unfolding poll_for
  poll_for-Keeps timeout condition k = record {
    at = λ s i. (poll-Keeps (env.attempts s.calls timeout) condition k).at s i;
  }

  must_exist-Keeps : (ns : Text) (d : Dependency) → Keeps I (must_exist {O = O} env ns d)
  unfolding must_exist
  must_exist-Keeps ns (needs_secret name) = search (keeps_rules, reads, tt)
  must_exist-Keeps ns (needs_claim name) = search (keeps_rules, reads, tt)

  pub wait_for_end-Keeps :
      (job : Job) (timeout : ℕ) → Keeps I (wait_for_end {O = O} env job timeout)
  unfolding wait_for_end
  wait_for_end-Keeps job timeout = search (keeps_rules, poll_for-Keeps, reads, tt) depth 16

  pub wait_for_pod-Keeps :
      (job : Job) (timeout : ℕ) → Keeps I (wait_for_pod {O = O} env job timeout)
  unfolding wait_for_pod
  wait_for_pod-Keeps job timeout = search (keeps_rules, poll_for-Keeps, reads, tt) depth 16

  pub preflight-Keeps : (job : Job) → Keeps I (preflight {O = O} env job)
  unfolding preflight
  preflight-Keeps job =
      let check = λ (ds : List Dependency).
        Keeps-each (must_exist env job.meta.namespace) ds (must_exist-Keeps job.meta.namespace) in
      Keeps-bind _ _ (Keeps-each _ job.spec.template.pod.volumes (λ v. check (volume_needs v)))
        (λ _.
          Keeps-each _ job.spec.template.pod.containers
            (λ c. Keeps-each _ c.env_from (λ from. check (source_needs from))))

  cleanup-Keeps :
      (job : Job)
      → ((h : History) → I h → I (delete_job job ∷ h))
      → Keeps I (cleanup {O = O} env job)
  unfolding cleanup
  cleanup-Keeps job deletes = search (keeps_rules, deletes)

  pub with_cleanup-Keeps :
      {A : Type 0} (kept : Bool) (job : Job) (body : Exec O A)
      → ((h : History) → I h → I (delete_job job ∷ h))
      → Keeps I body
      → Keeps I (with_cleanup env kept job body)
  unfolding with_cleanup
  with_cleanup-Keeps kept job body deletes k = Keeps-bind _ _ (Keeps-attempt body k) λ reply.
      Keeps-bind _ _
        (Keeps-if kept _ _ (Keeps-pure tt)
          (Keeps-bind _ _ (Keeps-attempt _ (cleanup-Keeps job deletes)) (λ _. Keeps-pure tt)))
        λ _. Keeps-lift reply

  -- A property that creating and deleting Jobs keeps too.
  pub started_job-Keeps :
      {A : Type 0} (sb : ScheduledBackup) (opts : Options) (next : Job → Exec O A)
      → ((job : Job) (h : History) → I h → I (create_job job ∷ h))
      → ((job : Job) (h : History) → I h → I (delete_job job ∷ h))
      → ((job : Job) → Keeps I (next job))
      → Keeps I (started_job env sb opts next)
  unfolding started_job
  started_job-Keeps sb opts next creates deletes k = Keeps-bind _ _ (build_job-Keeps sb opts) λ job.
      Keeps-bind _ _ (preflight-Keeps job) λ _.
        Keeps-bind _ _ (Keeps-ask _ _ (creates job)) λ reply.
          Keeps-on_result reply _ _
            (λ _. with_cleanup-Keeps opts.keep_job job (next job) (deletes job) (k job))
            (λ e. Keeps-raise _)

  pub run-Keeps :
      (sb : ScheduledBackup) (opts : Options) (timeout : ℕ)
      → ((job : Job) (h : History) → I h → I (create_job job ∷ h))
      → ((job : Job) (h : History) → I h → I (delete_job job ∷ h))
      → Keeps I (run {O = O} env sb opts timeout)
  unfolding run
  run-Keeps sb opts timeout creates deletes = started_job-Keeps sb opts _ creates deletes λ job.
      Keeps-bind _ _ (wait_for_pod-Keeps job timeout)
        λ pod. Keeps-bind _ _ (Keeps-call _ _ (reads _ tt)) λ _. wait_for_end-Keeps job timeout
