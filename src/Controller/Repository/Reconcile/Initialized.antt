-- ===== src/Controller/Repository/Reconcile/Initialized.antt =====
-- repository_controller.go: status.initialized over a pass.
use borgbase_operator.Base.{Text, Bool, true, Option, none, some, ◌≡◌, refl}
use borgbase_operator.Errors.{Err, Result}
use borgbase_operator.Api.Meta.{SecretKeySelector, Condition}
use borgbase_operator.Api.Repository.{Repository}
use borgbase_operator.Borgbase.Types.{Repo}
use borgbase_operator.Kube.Objects.{Secret, Job}
use borgbase_operator.Controller.Env.{Env}
use borgbase_operator.Controller.Exec.Stays.{Stays, Stays-bind, stays_rules}
use borgbase_operator.Controller.Repository.Base.{
  RepositoryReconciler, set_condition, patch_status, read_secret_key, api_for, fail_pass,
}
use borgbase_operator.Controller.Repository.Resolve.{resolve_repo}
use borgbase_operator.Controller.Repository.Conflict.{repository_conflict}
use borgbase_operator.Controller.Repository.Settings.{reconcile_settings}
use borgbase_operator.Controller.Repository.Credentials.{
  create_or_patch, referenced_password, choose_password, write_secret, reconcile_secret,
}
use borgbase_operator.Controller.Repository.InitJob.{
  delete_init_job, initialization_recorded, reconcile_init_job, cleanup_init_job,
}
use borgbase_operator.Controller.Repository.Reconcile.{
  initialize, provision, conflict_or_provision, refuse_conflict, reconcile, settle, run_with, pause,
  handle_live,
}
use borgbase_operator.Controller.Repository.Reconcile.Pass.{PatchKeeps, ensure_finalizer-Stays}

abbrev pub IsInitialized : Repository → Type 0
IsInitialized o = o.status.initialized ≡ true

initialized_now :
    (o : Repository)
    → IsInitialized o
    → IsInitialized (record o { status = record o.status { initialized = true } })
initialized_now o h = refl

module _ (env : Env) where
  set_condition-IsInitialized : (c : Condition) → Stays IsInitialized (set_condition env c)
  unfolding set_condition
  set_condition-IsInitialized c = search stays_rules depth 5

  patch_status-IsInitialized : (base : Repository) → Stays IsInitialized (patch_status env base)
  unfolding patch_status
  patch_status-IsInitialized base = search stays_rules depth 12

  read_secret_key-IsInitialized :
      (ns : Text) (ref : Option SecretKeySelector)
      → Stays IsInitialized (read_secret_key env ns ref)
  unfolding read_secret_key
  read_secret_key-IsInitialized ns none = search stays_rules
  read_secret_key-IsInitialized ns (some ref) = search stays_rules

  api_for-IsInitialized :
      (r : RepositoryReconciler) (o : Repository) → Stays IsInitialized (api_for env r o)
  unfolding api_for
  api_for-IsInitialized r o = search (stays_rules, read_secret_key-IsInitialized) depth 10

  fail_pass-IsInitialized :
      (base : Repository) (reason : Text) (e : Err)
      → Stays IsInitialized (fail_pass env base reason e)
  unfolding fail_pass
  fail_pass-IsInitialized base reason e =
      search (stays_rules, set_condition-IsInitialized, patch_status-IsInitialized) depth 12

  resolve_repo-IsInitialized :
      (token : Text) (o : Repository) → Stays IsInitialized (resolve_repo env token o)
  unfolding resolve_repo
  resolve_repo-IsInitialized token o = search stays_rules depth 20

  repository_conflict-IsInitialized :
      (o : Repository) (id : Text) → Stays IsInitialized (repository_conflict env o id)
  unfolding repository_conflict
  repository_conflict-IsInitialized o id = search stays_rules depth 12

  reconcile_settings-IsInitialized :
      (token : Text) (o : Repository) (remote : Repo)
      → Stays IsInitialized (reconcile_settings env token o remote)
  unfolding reconcile_settings
  reconcile_settings-IsInitialized token o remote = search stays_rules depth 12

  create_or_patch-IsInitialized :
      (desired existing : Secret) → Stays IsInitialized (create_or_patch env desired existing)
  unfolding create_or_patch
  create_or_patch-IsInitialized desired existing = search stays_rules depth 12

  referenced_password-IsInitialized :
      (o : Repository) (password : Text) → Stays IsInitialized (referenced_password env o password)
  unfolding referenced_password
  referenced_password-IsInitialized o password =
      search (stays_rules, read_secret_key-IsInitialized) depth 10

  choose_password-IsInitialized :
      (o : Repository) (remote : Repo) (adopted known : Bool) (password : Text)
      → Stays IsInitialized (choose_password env o remote adopted known password)
  unfolding choose_password
  choose_password-IsInitialized o remote adopted known password = search stays_rules depth 12

  write_secret-IsInitialized :
      (o : Repository) (url : Text) (existing : Secret) (chosen : Text × Bool)
      → Stays IsInitialized (write_secret env o url existing chosen)
  unfolding write_secret
  write_secret-IsInitialized o url existing (password, generated) =
      search (stays_rules, create_or_patch-IsInitialized) depth 12

  reconcile_secret-IsInitialized :
      (o : Repository) (remote : Repo) (known : Bool)
      → Stays IsInitialized (reconcile_secret env o remote known)
  unfolding reconcile_secret
  reconcile_secret-IsInitialized o remote known =
      search
        (
          stays_rules, referenced_password-IsInitialized, choose_password-IsInitialized,
          write_secret-IsInitialized,
        )
        depth 20

  delete_init_job-IsInitialized : (job : Job) → Stays IsInitialized (delete_init_job env job)
  unfolding delete_init_job
  delete_init_job-IsInitialized job = search stays_rules depth 12

  initialization_recorded-IsInitialized :
      (o : Repository) → Stays IsInitialized (initialization_recorded env o)
  unfolding initialization_recorded
  initialization_recorded-IsInitialized o = search stays_rules depth 12

module _ (env : Env) (r : RepositoryReconciler) where
  reconcile_init_job-IsInitialized :
      (o : Repository) → Stays IsInitialized (reconcile_init_job env r o)
  unfolding reconcile_init_job
  reconcile_init_job-IsInitialized o =
      search
        (
          stays_rules, set_condition-IsInitialized, delete_init_job-IsInitialized,
          initialization_recorded-IsInitialized, initialized_now,
        )
        depth 25

  cleanup_init_job-IsInitialized : (o : Repository) → Stays IsInitialized (cleanup_init_job env o)
  unfolding cleanup_init_job
  cleanup_init_job-IsInitialized o = search (stays_rules, delete_init_job-IsInitialized) depth 12

  initialize-IsInitialized : (o : Repository) → Stays IsInitialized (initialize env r o)
  unfolding initialize
  initialize-IsInitialized o =
      search
        (
          stays_rules, set_condition-IsInitialized, reconcile_init_job-IsInitialized,
          cleanup_init_job-IsInitialized,
        )
        depth 15

  provision-IsInitialized :
      (token : Text) (o : Repository) (remote : Repo) (known : Bool)
      → Stays IsInitialized (provision env r token o remote known)
  unfolding provision
  provision-IsInitialized token o remote known =
      search
        (
          stays_rules, reconcile_settings-IsInitialized, reconcile_secret-IsInitialized,
          initialize-IsInitialized,
        )
        depth 20

  conflict_or_provision-IsInitialized :
      (token : Text) (known : Bool) (remote : Repo) (o : Repository)
      → Stays IsInitialized (conflict_or_provision env r token known remote o)
  unfolding conflict_or_provision refuse_conflict
  conflict_or_provision-IsInitialized token known remote o =
      search
        (
          stays_rules, set_condition-IsInitialized, repository_conflict-IsInitialized,
          provision-IsInitialized,
        )
        depth 20

  reconcile-IsInitialized :
      (token : Text) (o : Repository) → Stays IsInitialized (reconcile env r token o)
  unfolding reconcile
  reconcile-IsInitialized token o =
      search (stays_rules, resolve_repo-IsInitialized, conflict_or_provision-IsInitialized) depth 20

  run_with-IsInitialized :
      (base : Repository) (reply : Result Text) → Stays IsInitialized (run_with env r base reply)
  unfolding run_with settle
  run_with-IsInitialized base reply =
      search
        (stays_rules, reconcile-IsInitialized, fail_pass-IsInitialized, patch_status-IsInitialized)
        depth 20

  pause-IsInitialized : (o : Repository) → Stays IsInitialized (pause env r o)
  unfolding pause
  pause-IsInitialized o =
      search (stays_rules, set_condition-IsInitialized, patch_status-IsInitialized) depth 12

  -- A pass over a live Repository that is initialized leaves it initialized, in every branch and
  -- also if the pass fails, whatever the environment answers, if what the server returns for the
  -- patch of the finalizers of an initialized Repository is initialized.
  pub handle_live-IsInitialized :
      PatchKeeps env IsInitialized → (o : Repository) → Stays IsInitialized (handle_live env r o)
  unfolding handle_live
  handle_live-IsInitialized patched o =
      Stays-bind _ _ (ensure_finalizer-Stays IsInitialized env r o (λ _ _ q. q) patched) λ _.
        search (stays_rules, pause-IsInitialized, api_for-IsInitialized, run_with-IsInitialized)
          depth 20
