-- ===== src/Controller/Repository/Reconcile/Generation.antt =====
-- repository_controller.go: the passwords generated in a pass over a known Repository.
use borgbase_operator.Base.{Text, Bool, true, false, ◌||◌, ◌≡◌, arith, All, is_some}
use borgbase_operator.Errors.{ok}
use borgbase_operator.Api.Repository.{Repository}
use borgbase_operator.Borgbase.Types.{Repo, float_positive}
use borgbase_operator.Controller.Env.{Env, History}
use borgbase_operator.Controller.Exec.Only.{Only, only_rules}
use borgbase_operator.Controller.Repository.Base.{RepositoryReconciler}
use borgbase_operator.Controller.Repository.Resolve.{resolve_repo}
use borgbase_operator.Controller.Repository.Credentials.Safety.{
  NoGeneration, reconcile_secret-NoGeneration,
}
use borgbase_operator.Controller.Repository.Reconcile.{known_of, reconcile_request}
use borgbase_operator.Controller.Repository.Footprint.{Routine}
use borgbase_operator.Controller.Repository.Reconcile.Pass.{
  PatchKeeps, request-handle_live, routine_pass,
}

-- An earlier pass recorded the Repository.
abbrev pub Known : Repository → Type 0
Known o = known_of o ≡ true

NoGeneration-Routine : Routine NoGeneration
NoGeneration-Routine = record {
  events = λ _ _ _ _. tt;
  statuses = λ _. tt;
  finalizers = λ _. tt;
  reads = λ _ _. tt;
  lists = tt;
  secrets = λ _ _. tt;
  jobs = λ _ _. tt;
  created_jobs = λ _. tt;
  deleted_jobs = λ _. tt;
  clocks = tt;
  gets = λ _ _. tt;
  finds = λ _ _. tt;
  edits = λ _ _ _. tt;
}

module _ (env : Env) where
  resolve_repo-NoGeneration :
      (token : Text) (repo : Repository) → Only NoGeneration (resolve_repo env token repo)
  unfolding resolve_repo
  resolve_repo-NoGeneration token repo = search only_rules depth 20

  evidence :
      (remote : Repo) (adopted known : Bool)
      → known ≡ true
      → (adopted || (known || float_positive remote.current_usage)) ≡ true
  evidence remote adopted known h = ground arith

module _ (env : Env) (r : RepositoryReconciler) (namespace name : Text) (h : History)
    (repo : Repository) (got : env.got_repository h namespace name ≡ ok repo)
    (live : is_some repo.meta.deletion_timestamp ≡ false) where
  -- A pass over a Repository that was read, is not being deleted, and that an earlier pass recorded
  -- (an ID or the initialized flag in its status) generates no password, whatever the environment
  -- answers, if what the server returns for the patch of the finalizers of such a Repository is
  -- recorded too.
  pub reconcile_request-NoGeneration :
      PatchKeeps env Known
      → known_of repo ≡ true
      → All NoGeneration h
      → All NoGeneration (reconcile_request env r namespace name h).1
  reconcile_request-NoGeneration patched known before =
      request-handle_live env r namespace name h repo got live NoGeneration
        (λ s same.
          routine_pass env r NoGeneration NoGeneration-Routine Known (λ _ _ q. q) patched
            (λ token o _. resolve_repo-NoGeneration env token o)
            (λ o remote base q.
              reconcile_secret-NoGeneration env o remote (known_of base)
                (evidence env remote o.status.adopted (known_of base) q))
            repo s (rw same known))
        tt before
