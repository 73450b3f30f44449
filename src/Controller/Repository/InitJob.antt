-- ===== src/Controller/Repository/InitJob.antt =====
-- The Job that runs `restic init`: `reconcileInitJob` and `cleanupInitJob`.
use borgbase_operator.Base.{
  ℕ, ◌+◌, ◌-◌, ◌*◌, ltb, Text, codes, text_eq, Bool, true, false, Option, none, some, List, [], ◌∷◌,
  ◌++◌, if◌then◌else◌,
}
use borgbase_operator.Errors.{wrap, is_not_found, is_already_exists}
use borgbase_operator.Api.Meta.{condition_true, condition_false}
use borgbase_operator.Api.Repository.{Repository, secret_name_of}
use borgbase_operator.Kube.Pod.{runtime_default, drop_all}
use borgbase_operator.Kube.Objects.{Job, JobCondition}
use borgbase_operator.Controller.Env.{
  Env, live_repository, get_job, create_job, delete_job, read_clock, event_normal, event_warning,
}
use borgbase_operator.Controller.Exec.{
  Exec, pure, raise, lift, ask, modify, emit, ◌>>=◌, ◌>>◌, on_result, on_option,
}
use borgbase_operator.Controller.Helpers.{second, minute, label_managed_by, managed_by_value}
use borgbase_operator.Controller.Repository.Base.{RepositoryReconciler, set_initialized}
use borgbase_operator.Controller.Repository.Credentials.{empty_meta}

abbrev pub init_retry_delay : ℕ
init_retry_delay = 5 * minute

abbrev pub init_job_name : Repository → Text
init_job_name repo = repo.meta.name ++ codes "-init"

-- `func jobFailedAt`, on the conditions of the Job.
unfoldable pub job_failed_at : List JobCondition → Option ℕ
job_failed_at [] = none
job_failed_at (c ∷ cs) =
    let rest = job_failed_at cs in
    let here : Option ℕ = elim c.status [
      | condition_true ↦ some c.last_transition_time
      | _ ↦ rest
    ] in
    if text_eq c.type (codes "Failed") then here else rest

-- `func (r *RepositoryReconciler) buildInitJob`
unfoldable pub build_init_job : RepositoryReconciler → Repository → Text → Job
build_init_job r repo name = record {
  meta = record empty_meta {
    name = name;
    namespace = repo.meta.namespace;
    labels =
        (codes "app.kubernetes.io/name", repo.meta.name)
        ∷ ((codes "app.kubernetes.io/component", codes "init")
            ∷ ((label_managed_by, managed_by_value) ∷ []));
  };
  spec = record {
    ttl_seconds = some 3600;
    backoff_limit = some 3;
    template = record {
      labels = [];
      pod = record {
        restart_policy = codes "Never";
        containers =
            record {
              name = codes "init";
              image = r.backup_image;
              command =
                  codes "sh"
                  ∷ (codes "-c" ∷ (codes "restic cat config >/dev/null 2>&1 || restic init" ∷ []));
              args = [];
              working_dir = [];
              env = [];
              env_from = record { secret_ref = some (secret_name_of repo) } ∷ [];
              volume_mounts = [];
              resources = record {
                requests = (codes "cpu", codes "10m") ∷ ((codes "memory", codes "64Mi") ∷ []);
                limits = (codes "memory", codes "256Mi") ∷ [];
              };
              security = drop_all;
              stdin = false;
              tty = false;
            }
            ∷ [];
        volumes = [];
        affinity = none;
        automount_token = some false;
        security = runtime_default;
      };
    };
  };
  status = record {
    start_time = none;
    completion_time = none;
    succeeded = 0;
    active = 0;
    failed = 0;
    conditions = [];
  };
}

module _ (env : Env) where
  -- `func (r *RepositoryReconciler) deleteJob`
  unfoldable pub delete_init_job : Job → Exec Repository (Unit {0})
  delete_init_job job = do
    reply ← ask (delete_job job) (λ h. env.deleted_job h job)
    on_result reply pure λ e.
        if is_not_found e
        then pure tt
        else raise (wrap (codes "deleting init job " ++ (job.meta.name ++ codes ": ")) e [])

  -- `func (r *RepositoryReconciler) initializationRecorded`
  unfoldable pub initialization_recorded : Repository → Exec Repository Bool
  initialization_recorded repo = do
    reply ←
        ask (live_repository repo.meta.namespace repo.meta.name)
          (λ h. env.got_live_repository h repo.meta.namespace repo.meta.name)
    on_result reply (λ live. pure live.status.initialized)
        λ e. if is_not_found e then pure false else raise e

  -- The Job has succeeded.
  init_succeeded : Repository → Exec Repository ℕ
  init_succeeded repo = do
    recorded ← initialization_recorded repo
    modify λ o. record o { status = record o.status { initialized = true } }
    if recorded
        then pure tt
        else emit event_normal (codes "Initialized") (codes "Initialize")
            (codes "restic init completed successfully")
    pure 0

  -- The Job has failed at the given time, and is deleted once the delay is over.
  init_failed : Text → Job → ℕ → Exec Repository ℕ
  init_failed name job failed_at = do
    set_initialized env condition_false (codes "InitFailed") (
        codes "restic init failed in Job "
        ++ (name
            ++ codes
                "; on an adopted repository this usually means passwordSecretRef holds the wrong password. Retrying in 5m0s"))
    now ← ask read_clock env.now
    if ltb now (init_retry_delay + failed_at) then pure (init_retry_delay + failed_at - now) else do
      emit event_warning (codes "InitFailed") (codes "Initialize") (
          codes "restic init failed in Job "
          ++ (name
              ++ codes
                  "; if this repository was adopted, check that passwordSecretRef holds its original password. Retrying"))
      delete_init_job job
      pure init_retry_delay

  still_running : Text → Exec Repository ℕ
  still_running name = do
    set_initialized env condition_false (codes "Initializing")
        (codes "waiting for init Job " ++ (name ++ codes " to complete"))
    pure (15 * second)

  -- The Job is there.
  watch_init_job : Repository → Text → Job → Exec Repository ℕ
  watch_init_job repo name job =
      if ltb 0 job.status.succeeded
      then init_succeeded repo
      else on_option (job_failed_at job.status.conditions) (init_failed name job)
          (still_running name)

  init_started : Text → Exec Repository ℕ
  init_started name = do
    emit event_normal (codes "Initializing") (codes "Initialize")
        (codes "Started init job " ++ name)
    set_initialized env condition_false (codes "Initializing") (codes "started init Job " ++ name)
    pure (15 * second)

  -- No Job is there.
  start_init_job : RepositoryReconciler → Repository → Text → Exec Repository ℕ
  start_init_job r repo name = do
    let job = build_init_job r repo name
    meta ← lift (env.set_controller_reference repo.meta job.meta)
    let owned : Job = record job { meta = meta }
    reply ← ask (create_job owned) (λ h. env.created_job h owned)
    on_result reply (λ _. init_started name)
        λ e.
          if is_already_exists e
          then pure (15 * second)
          else raise (wrap (codes "creating init job: ") e [])

  -- `func (r *RepositoryReconciler) reconcileInitJob`: how long to wait, 0 once initialized.
  unfoldable pub reconcile_init_job : RepositoryReconciler → Repository → Exec Repository ℕ
  unfolding init_succeeded init_failed still_running watch_init_job init_started start_init_job
  reconcile_init_job r repo = do
    let name = init_job_name repo
    reply ← ask (get_job repo.meta.namespace name) (λ h. env.got_job h repo.meta.namespace name)
    on_result reply (watch_init_job repo name)
        λ e. if is_not_found e then start_init_job r repo name else raise e

  -- `func (r *RepositoryReconciler) cleanupInitJob`
  unfoldable pub cleanup_init_job : Repository → Exec Repository (Unit {0})
  unfolding delete_init_job
  cleanup_init_job repo = do
    let name = init_job_name repo
    reply ← ask (get_job repo.meta.namespace name) (λ h. env.got_job h repo.meta.namespace name)
    on_result reply delete_init_job λ e. if is_not_found e then pure tt else raise e
