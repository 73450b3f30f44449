-- ===== src/Cli/Runs/Safety.antt =====
-- logs.go and cancel.go: which Jobs a command deletes.
use borgbase_operator.Base.{
  ℕ, suc, Text, Bool, true, false, Option, none, some, List, [], ◌∷◌, ◌≡◌, refl, All, keep,
  if◌then◌else◌,
}
use borgbase_operator.Errors.{Result, ok, err, is_not_found}
use borgbase_operator.Api.ScheduledBackup.{ScheduledBackup}
use borgbase_operator.Kube.Objects.{Job, CronJob}
use borgbase_operator.Backup.Workload.{cron_job_name}
use borgbase_operator.Controller.Env.{
  Call, History, Env, create_secret, update_secret, create_job, delete_job, create_cron_job,
  update_cron_job, create_claim, delete_claim, patch_secret, delete_secret, patch_backup,
  patch_repository, patch_repository_status, patch_backup_status, borg_add, borg_edit, borg_delete,
}
use borgbase_operator.Controller.Exec.{St, pure, raise, ◌>>=◌, on_result}
use borgbase_operator.Controller.Exec.Only.{
  Only, Only-pure, Only-bind, Only-bind-Returns, Only-modify, only_rules,
}
use borgbase_operator.Controller.Exec.Returns.{
  Returns, Returns-pure, Returns-bind, Returns-bind-ask, Returns-bind-Returns, returns_rules,
}
use borgbase_operator.Controller.Backups.Runs.{insert_run, sort_runs, before_time}
use borgbase_operator.Cli.Console.{Console, Cmd, say, say_and_check}
use borgbase_operator.Cli.Runs.{
  is_owned, is_running, cron_job_uid, backup_jobs, cancel_job, cancel_jobs, run_cancel,
}

module _ {A : Type 0} (P : A → Type 0) where
  All-keep : (p : A → Bool) (xs : List A) → ((x : A) → p x ≡ true → P x) → All P (keep p xs)
  All-keep p [] k = tt
  All-keep p (x ∷ xs) k = kept (p x) (k x) (All-keep p xs k)
    where
      kept :
          (b : Bool)
          → (b ≡ true → P x)
          → All P (keep p xs)
          → All P (if b then x ∷ keep p xs else keep p xs)
      kept true px rest = (px refl, rest)
      kept false px rest = rest

  All-insert_run :
      (time : A → Option ℕ) (x : A) (xs : List A) → P x → All P xs → All P (insert_run time x xs)
  unfolding insert_run
  All-insert_run time x [] px pxs = (px, tt)
  All-insert_run time x (y ∷ ys) px pxs =
      placed (before_time (time x) (time y)) (All-insert_run time x ys px pxs.1)
    where
      placed :
          (b : Bool)
          → All P (insert_run time x ys)
          → All P (if b then y ∷ insert_run time x ys else x ∷ (y ∷ ys))
      placed true rest = (pxs.0, rest)
      placed false rest = (px, pxs)

  All-sort_runs : (time : A → Option ℕ) (xs : List A) → All P xs → All P (sort_runs time xs)
  unfolding sort_runs
  All-sort_runs time [] pxs = tt
  All-sort_runs time (x ∷ xs) pxs =
      All-insert_run time x (sort_runs time xs) pxs.0 (All-sort_runs time xs pxs.1)

module _ (env : Env) (sb : ScheduledBackup) where
  -- The UID of the CronJob of the backup, as the cluster answered.
  abbrev pub FromCluster : Option Text → Type 0
  FromCluster none = Unit
  FromCluster (some uid) =
      (h : History) × ((cron : CronJob) × ((env.got_cron_job h sb.meta.namespace (cron_job_name sb)
            ≡ ok cron)
          × (cron.meta.uid ≡ uid)))

  -- The Job is controlled by the backup or by its CronJob.
  abbrev pub Owned : Job → Type 0
  Owned job = (uid : Option Text) × (FromCluster uid × (is_owned env sb.meta.uid uid job ≡ true))

  -- A request that `cancel` may make: it changes nothing but that it deletes running Jobs of the
  -- backup.
  abbrev pub Cancels : Call → Type 0
  Cancels (delete_job job) = (is_running job ≡ true) × Owned job
  Cancels (create_job _) = ⊥
  Cancels (create_secret _) = ⊥
  Cancels (update_secret _) = ⊥
  Cancels (patch_secret _) = ⊥
  Cancels (delete_secret _) = ⊥
  Cancels (create_cron_job _) = ⊥
  Cancels (update_cron_job _) = ⊥
  Cancels (create_claim _) = ⊥
  Cancels (delete_claim _) = ⊥
  Cancels (patch_backup _) = ⊥
  Cancels (patch_backup_status _) = ⊥
  Cancels (patch_repository _) = ⊥
  Cancels (patch_repository_status _) = ⊥
  Cancels (borg_add _ _) = ⊥
  Cancels (borg_edit _ _ _) = ⊥
  Cancels (borg_delete _ _) = ⊥
  Cancels _ = Unit

  cron_answer :
      (h : History) (r : Result CronJob)
      → env.got_cron_job h sb.meta.namespace (cron_job_name sb) ≡ r
      → Returns {O = Console} FromCluster (
          on_result r
            (λ cron. pure (some cron.meta.uid))
            λ e. if is_not_found e then pure none else raise e)
  cron_answer h (ok cron) q = Returns-pure _ (h, (cron, (q, refl)))
  cron_answer h (err e) q = search (returns_rules, tt)

  cron_job_uid-Returns : Returns FromCluster (cron_job_uid env sb)
  unfolding cron_job_uid
  cron_job_uid-Returns = Returns-bind-ask _ _ _ (λ h. cron_answer h _ refl)

  cron_job_uid-Only : Only Cancels (cron_job_uid env sb)
  unfolding cron_job_uid
  cron_job_uid-Only = search only_rules

  backup_jobs-Only : Only Cancels (backup_jobs env sb)
  unfolding backup_jobs
  backup_jobs-Only = search (only_rules, cron_job_uid-Only)

  backup_jobs-Returns : Returns (All Owned) (backup_jobs env sb)
  unfolding backup_jobs
  backup_jobs-Returns =
      Returns-bind-Returns FromCluster (cron_job_uid env sb) _ cron_job_uid-Returns λ uid from.
        Returns-bind _ _ λ jobs.
          Returns-pure _
            (All-sort_runs Owned _ _ (All-keep Owned _ jobs (λ job owned. (uid, (from, owned)))))

  say-Only : (text : Text) → Only Cancels (say env text)
  unfolding say
  say-Only text = search only_rules depth 10

  say_and_check-Only : (text : Text) → Only Cancels (say_and_check env text)
  unfolding say_and_check
  say_and_check-Only text = search (only_rules, say-Only) depth 10

  cancel_job-Only :
      (job : Job) → is_running job ≡ true → Owned job → Only Cancels (cancel_job env job)
  unfolding cancel_job
  cancel_job-Only job running owned =
      let may : Cancels (delete_job job) = (running, owned) in
      search (only_rules, say-Only, may) depth 10

  cancel_jobs-Only :
      (jobs : List Job) (n : ℕ) → All Owned jobs → Only Cancels (cancel_jobs env n jobs)
  unfolding cancel_jobs
  cancel_jobs-Only [] n owned = Only-pure n
  cancel_jobs-Only (job ∷ jobs) n owned =
      each_job (is_running job) refl (cancel_jobs-Only jobs n owned.1)
        (cancel_jobs-Only jobs (suc n) owned.1)
    where
      each_job :
          (b : Bool)
          → is_running job ≡ b
          → Only Cancels (cancel_jobs env n jobs)
          → Only Cancels (cancel_jobs env (suc n) jobs)
          → Only Cancels (elim b as (λ _. Cmd ℕ) [
            | false ↦ cancel_jobs env n jobs
            | true ↦ cancel_job env job >>= λ _. cancel_jobs env (suc n) jobs
          ])
      each_job false q skip more = skip
      each_job true q skip more = Only-bind _ _ (cancel_job-Only job q owned.0) (λ _. more)

  run_cancel-Only : Only Cancels (run_cancel env sb)
  unfolding run_cancel
  run_cancel-Only =
      Only-bind-Returns (All Owned) (backup_jobs env sb) _ backup_jobs-Only backup_jobs-Returns
        λ jobs owned. Only-bind _ _ (Only-modify _) λ _.
          Only-bind _ _ (cancel_jobs-Only jobs 0 owned) λ n. search (only_rules, say_and_check-Only)

-- `cancel` deletes no Job but those that are running and that the backup or its CronJob controls,
-- and it changes nothing else: where the requests before it were such, so are those after it.
pub run_cancel-Cancels :
    (env : Env) (sb : ScheduledBackup) (s : St Console)
    → All (Cancels env sb) s.calls
    → All (Cancels env sb) (run_cancel env sb s).1.calls
run_cancel-Cancels env sb s h = (run_cancel-Only env sb).at s h
