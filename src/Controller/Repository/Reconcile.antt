-- ===== src/Controller/Repository/Reconcile.antt =====
-- A pass over one Repository: `Reconcile` and `reconcile`.
pub mod Pass
pub mod Deletion
pub mod Creation
pub mod Generation
pub mod Suspension
pub mod Requeue
pub mod Initialized
use borgbase_operator.Base.{
  ℕ, ◌*◌, ltb, Text, codes, is_empty, Bool, true, false, not, ◌||◌, List, [], ◌∷◌, ◌++◌,
  if◌then◌else◌, is_some,
}
use borgbase_operator.Errors.{Err, wrap, not_restic, is_not_found, Result, ok, err}
use borgbase_operator.Api.Meta.{condition_true, condition_false}
use borgbase_operator.Api.Repository.{Repository}
use borgbase_operator.Borgbase.Types.{Repo, is_restic, host}
use borgbase_operator.Controller.Env.{Env, History, get_repository, patch_repository}
use borgbase_operator.Controller.Exec.{
  St, Exec, pure, raise, call, attempt, get_obj, modify, ◌>>=◌, ◌>>◌, on_result,
}
use borgbase_operator.Controller.Helpers.{second, format_usage, format_quota}
use borgbase_operator.Controller.Repository.Base.{
  RepositoryReconciler, finalizer_name, interval_of, set_ready, set_initialized, patch_status,
  api_for, fail_pass,
}
use borgbase_operator.Controller.Repository.Resolve.{resolve_repo}
use borgbase_operator.Controller.Repository.Conflict.{repository_conflict}
use borgbase_operator.Controller.Repository.Settings.{reconcile_settings}
use borgbase_operator.Controller.Repository.Credentials.{reconcile_secret}
use borgbase_operator.Controller.Repository.InitJob.{reconcile_init_job, cleanup_init_job}
use borgbase_operator.Controller.Repository.Finalize.{finalize}

abbrev pub init_cleanup_delay : ℕ
init_cleanup_delay = 10 * second

-- Whether a pass has been completed before.
abbrev pub known_of : Repository → Bool
known_of repo = not (is_empty repo.status.repository_id) || repo.status.initialized

module _ (env : Env) (r : RepositoryReconciler) where
  -- The fields of the status that mirror the BorgBase repository.
  unfoldable pub mirror : Repo → Exec Repository (Unit {0})
  mirror remote = modify λ o. record o {
    status = record o.status {
      repository_id = remote.id;
      server = host remote;
      current_usage = format_usage remote.current_usage;
      quota = if remote.quota_enabled then format_quota remote.quota else [];
    };
  }

  -- The two conditions of a repository that is ready.
  unfoldable pub mark_ready : Exec Repository (Unit {0})
  mark_ready = do
    set_initialized env condition_true (codes "Initialized") (codes "repository is initialized")
    set_ready env condition_true (codes "Ready") (codes "repository is ready")

  wait_for_init : ℕ → Exec Repository ℕ
  wait_for_init requeue = do
    set_ready env condition_false (codes "Initializing")
        (codes "waiting for restic init to complete")
    pure requeue

  -- What follows `reconcileInitJob`.
  unfoldable pub after_init : ℕ → Exec Repository ℕ
  unfolding mark_ready wait_for_init
  after_init requeue =
      if ltb 0 requeue then wait_for_init requeue else do mark_ready; pure init_cleanup_delay

  finish_init : Repository → Exec Repository ℕ
  finish_init repo = do cleanup_init_job env repo; mark_ready; pure (interval_of repo)

  -- The end of `reconcile`, from the init Job on.
  unfoldable pub initialize : Repository → Exec Repository ℕ
  unfolding after_init finish_init mark_ready
  initialize repo =
      if repo.status.initialized
      then finish_init repo
      else do requeue ← reconcile_init_job env r repo; after_init requeue

  -- `reconcile` once no other Repository manages the same one.
  unfoldable pub provision : Text → Repository → Repo → Bool → Exec Repository ℕ
  unfolding initialize mirror
  provision token repo remote known = do
    current ← reconcile_settings env token repo remote
    mirror current
    o ← get_obj
    reconcile_secret env o current known
    o ← get_obj
    initialize o

  -- The Ready condition of a Repository whose BorgBase repository an older one manages.
  unfoldable pub refuse_conflict : Repository → Repo → Text → Exec Repository ℕ
  refuse_conflict repo remote other = do
    set_ready env condition_false (codes "RepositoryConflict") (
        codes "BorgBase repository "
        ++ (remote.id
            ++ (codes " is already managed by Repository "
                ++ (other ++ codes "; point one of them elsewhere, or delete this one"))))
    pure (interval_of repo)

  -- `reconcile` once the BorgBase repository is known to be in restic format.
  unfoldable pub conflict_or_provision : Text → Bool → Repo → Repository → Exec Repository ℕ
  unfolding refuse_conflict
  conflict_or_provision token known remote o = do
    other ← repository_conflict env o remote.id
    if not (is_empty other) then refuse_conflict o remote other else provision token o remote known

  -- `func (r *RepositoryReconciler) reconcile`
  unfoldable pub reconcile : Text → Repository → Exec Repository ℕ
  reconcile token repo = do
    remote ← resolve_repo env token repo
    if not (is_restic remote)
        then raise (
            wrap [] not_restic (
              codes ": repository "
              ++ (remote.id ++ (codes " has format \"" ++ (remote.format ++ codes "\"")))))
        else do o ← get_obj; conflict_or_provision token (known_of repo) remote o

  -- The end of a pass that is neither suspended nor without a token.
  unfoldable pub settle : Repository → Result ℕ → Exec Repository ℕ
  settle base result =
      on_result result (λ requeue. do patch_status env base; pure requeue)
        (fail_pass env base (codes "ReconcileFailed"))

  unfoldable pub run_with : Repository → Result Text → Exec Repository ℕ
  unfolding settle
  run_with base reply =
      on_result reply (λ token. do result ← attempt (reconcile token base); settle base result)
        (fail_pass env base (codes "APITokenUnavailable"))

  -- `Reconcile` of an object that is being deleted.
  unfoldable pub handle_deleted : Repository → Exec Repository ℕ
  handle_deleted repo = do
    result ← attempt (finalize env r repo)
    on_result result (λ _. pure 0) λ e. do attempt (patch_status env repo); raise e

  -- The reply to the patch takes the place of the object in memory.
  unfoldable pub ensure_finalizer : Repository → Exec Repository (Unit {0})
  ensure_finalizer repo = if env.contains_finalizer repo.meta finalizer_name then pure tt else do
    modify λ o. record o { meta = env.add_finalizer o.meta finalizer_name }
    o ← get_obj
    stored ← call (patch_repository o) (λ h. env.patched_repository h o)
    modify λ _. stored

  unfoldable pub pause : Repository → Exec Repository ℕ
  pause base = do
    set_ready env condition_false (codes "Suspended")
        (codes "reconciliation is paused by spec.suspend")
    patch_status env base
    pure 0

  unfoldable pub handle_live : Repository → Exec Repository ℕ
  unfolding ensure_finalizer pause run_with
  handle_live repo = do
    ensure_finalizer repo
    base ← get_obj
    if base.spec.suspend
        then pause base
        else do token ← attempt (api_for env r base); run_with base token

  -- `Reconcile` of an object that was read.
  unfoldable pub handle : Repository → Exec Repository ℕ
  handle repo =
      if is_some repo.meta.deletion_timestamp then handle_deleted repo else handle_live repo

  -- `func (r *RepositoryReconciler) Reconcile`: the delay before the next pass, 0 for none.
  unfoldable pub reconcile_request : Text → Text → History → Result ℕ × History
  reconcile_request namespace name h =
      let h' : History = get_repository namespace name ∷ h in
      elim (env.got_repository h namespace name) [
        | err e ↦ (if is_not_found e then ok 0 else err e, h')
        | ok repo ↦
            let (result, s) = handle repo (record { obj = repo; calls = h' }) in (result, s.calls)
      ]
