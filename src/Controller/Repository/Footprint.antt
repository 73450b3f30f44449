-- ===== src/Controller/Repository/Footprint.antt =====
-- Which requests the parts of a pass over a Repository make.
use borgbase_operator.Base.{Text, Bool, Option, none, some}
use borgbase_operator.Api.Meta.{SecretKeySelector}
use borgbase_operator.Api.Repository.{Repository}
use borgbase_operator.Borgbase.Types.{Repo, EditOptions}
use borgbase_operator.Kube.Objects.{Job}
use borgbase_operator.Errors.{Err, Result}
use borgbase_operator.Controller.Env.{
  Env, Call, EventType, event, live_repository, list_repositories, patch_repository,
  patch_repository_status, get_secret, get_job, create_job, delete_job, borg_get, borg_find,
  borg_edit, read_clock,
}
use borgbase_operator.Controller.Exec.Only.{
  Only, Only-raise, Only-if, Only-get_obj, Only-bind, only_rules,
}
use borgbase_operator.Controller.Repository.Base.{
  RepositoryReconciler, set_condition, patch_status, read_secret_key, api_for, fail_pass,
}
use borgbase_operator.Controller.Repository.Resolve.{resolve_repo}
use borgbase_operator.Controller.Repository.Conflict.{repository_conflict}
use borgbase_operator.Controller.Repository.Settings.{reconcile_settings}
use borgbase_operator.Controller.Repository.Credentials.{reconcile_secret}
use borgbase_operator.Controller.Repository.InitJob.{
  initialization_recorded, delete_init_job, reconcile_init_job, cleanup_init_job,
}
use borgbase_operator.Controller.Repository.Reconcile.{
  initialize, provision, refuse_conflict, conflict_or_provision, known_of, reconcile, settle,
  run_with,
}

-- `P` holds of each request of a pass but those that create or delete a BorgBase repository,
-- write a Secret, or generate a password.
pub record Routine (P : Call → Type 0) : Type 0 where
  pub events : (t : EventType) (r a n : Text) → P (event t r a n)
  pub statuses : (o : Repository) → P (patch_repository_status o)
  pub finalizers : (o : Repository) → P (patch_repository o)
  pub reads : (ns n : Text) → P (live_repository ns n)
  pub lists : P list_repositories
  pub secrets : (ns n : Text) → P (get_secret ns n)
  pub jobs : (ns n : Text) → P (get_job ns n)
  pub created_jobs : (j : Job) → P (create_job j)
  pub deleted_jobs : (j : Job) → P (delete_job j)
  pub clocks : P read_clock
  pub gets : (t id : Text) → P (borg_get t id)
  pub finds : (t n : Text) → P (borg_find t n)
  pub edits : (t id : Text) (o : EditOptions) → P (borg_edit t id o)

module _ (P : Call → Type 0) (R : Routine P) (env : Env) where
  pub patch_status-Only : (base : Repository) → Only P (patch_status env base)
  unfolding patch_status
  patch_status-Only base = search (only_rules, R.statuses) depth 10

  pub read_secret_key-Only :
      (ns : Text) (ref : Option SecretKeySelector) → Only P (read_secret_key env ns ref)
  unfolding read_secret_key
  read_secret_key-Only ns none = search only_rules
  read_secret_key-Only ns (some ref) = search (only_rules, R.secrets)

  pub api_for-Only : (r : RepositoryReconciler) (o : Repository) → Only P (api_for env r o)
  unfolding api_for
  api_for-Only r o = search (only_rules, read_secret_key-Only) depth 10

  pub fail_pass-Only :
      (base : Repository) (reason : Text) (e : Err) → Only P (fail_pass env base reason e)
  unfolding fail_pass set_condition
  fail_pass-Only base reason e = search (only_rules, R.events, patch_status-Only) depth 10

  repository_conflict-Only : (o : Repository) (id : Text) → Only P (repository_conflict env o id)
  unfolding repository_conflict
  repository_conflict-Only o id = search (only_rules, R.lists) depth 10

  reconcile_settings-Only :
      (token : Text) (o : Repository) (remote : Repo)
      → Only P (reconcile_settings env token o remote)
  unfolding reconcile_settings
  reconcile_settings-Only token o remote = search (only_rules, R.edits, R.events) depth 12

  delete_init_job-Only : (job : Job) → Only P (delete_init_job env job)
  unfolding delete_init_job
  delete_init_job-Only job = search (only_rules, R.deleted_jobs) depth 12

  initialization_recorded-Only : (o : Repository) → Only P (initialization_recorded env o)
  unfolding initialization_recorded
  initialization_recorded-Only o = search (only_rules, R.reads) depth 12

  reconcile_init_job-Only :
      (r : RepositoryReconciler) (o : Repository) → Only P (reconcile_init_job env r o)
  unfolding reconcile_init_job set_condition
  reconcile_init_job-Only r o =
      search
        (
          only_rules, R.events, R.jobs, R.created_jobs, R.clocks, delete_init_job-Only,
          initialization_recorded-Only,
        )
        depth 25

  cleanup_init_job-Only : (o : Repository) → Only P (cleanup_init_job env o)
  unfolding cleanup_init_job
  cleanup_init_job-Only o = search (only_rules, R.jobs, delete_init_job-Only) depth 12

  initialize-Only : (r : RepositoryReconciler) (o : Repository) → Only P (initialize env r o)
  unfolding initialize set_condition
  initialize-Only r o = search (only_rules, reconcile_init_job-Only, cleanup_init_job-Only) depth 15

  -- The parts that write Secrets and create repositories are left to the caller.
  module _ (r : RepositoryReconciler) (token : Text) (known : Bool)
      (written : (o : Repository) (remote : Repo)
        → Only P (reconcile_secret env o remote known)) where
    pub provision-Only :
        (o : Repository) (remote : Repo) → Only P (provision env r token o remote known)
    unfolding provision
    provision-Only o remote =
        search (only_rules, reconcile_settings-Only, written, initialize-Only) depth 20

    pub conflict_or_provision-Only :
        (o : Repository) (remote : Repo) → Only P (conflict_or_provision env r token known remote o)
    unfolding conflict_or_provision refuse_conflict set_condition
    conflict_or_provision-Only o remote =
        search (only_rules, repository_conflict-Only, provision-Only) depth 20

  pub reconcile-Only :
      (r : RepositoryReconciler) (token : Text) (base : Repository)
      → Only P (resolve_repo env token base)
      → ((o : Repository) (remote : Repo) → Only P (reconcile_secret env o remote (known_of base)))
      → Only P (reconcile env r token base)
  unfolding reconcile
  reconcile-Only r token base resolved written = Only-bind _ _ resolved λ remote.
      Only-if _ _ _ (Only-raise _) (
        Only-bind _ _ Only-get_obj
          λ o. conflict_or_provision-Only r token (known_of base) written o remote)

  pub run_with-Only :
      (r : RepositoryReconciler) (base : Repository) (reply : Result Text)
      → ((token : Text) → Only P (resolve_repo env token base))
      → ((o : Repository) (remote : Repo) → Only P (reconcile_secret env o remote (known_of base)))
      → Only P (run_with env r base reply)
  unfolding run_with settle
  run_with-Only r base reply resolved written =
      let ran : (token : Text) → Only P (reconcile env r token base) =
        λ token. reconcile-Only r token base (resolved token) written in
      search (only_rules, fail_pass-Only, patch_status-Only, ran) depth 20
