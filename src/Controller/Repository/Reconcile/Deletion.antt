-- ===== src/Controller/Repository/Reconcile/Deletion.antt =====
-- repository_controller.go: the deletions of a pass over a live Repository.
use borgbase_operator.Base.{Text, Bool, false, ◌≡◌, All, is_some}
use borgbase_operator.Errors.{ok}
use borgbase_operator.Api.Repository.{Repository}
use borgbase_operator.Borgbase.Types.{Repo}
use borgbase_operator.Kube.Objects.{Secret}
use borgbase_operator.Controller.Env.{Env, History}
use borgbase_operator.Controller.Exec.Only.{Only, only_rules}
use borgbase_operator.Controller.Repository.Base.{RepositoryReconciler}
use borgbase_operator.Controller.Repository.Resolve.{resolve_repo}
use borgbase_operator.Controller.Repository.Credentials.{
  create_or_patch, referenced_password, choose_password, write_secret, reconcile_secret,
}
use borgbase_operator.Controller.Repository.Finalize.Safety.{NoDeletion}
use borgbase_operator.Controller.Repository.Reconcile.{known_of, reconcile_request}
use borgbase_operator.Controller.Repository.Footprint.{Routine, read_secret_key-Only}
use borgbase_operator.Controller.Repository.Reconcile.Pass.{request-handle_live, routine_pass}

NoDeletion-Routine : Routine NoDeletion
NoDeletion-Routine = record {
  events = λ _ _ _ _. tt;
  statuses = λ _. tt;
  finalizers = λ _. tt;
  reads = λ _ _. tt;
  lists = tt;
  secrets = λ _ _. tt;
  jobs = λ _ _. tt;
  created_jobs = λ _. tt;
  deleted_jobs = λ _. tt;
  clocks = tt;
  gets = λ _ _. tt;
  finds = λ _ _. tt;
  edits = λ _ _ _. tt;
}

module _ (env : Env) where
  create_or_patch-NoDeletion :
      (desired existing : Secret) → Only NoDeletion (create_or_patch env desired existing)
  unfolding create_or_patch
  create_or_patch-NoDeletion desired existing = search only_rules depth 12

  referenced_password-NoDeletion :
      (repo : Repository) (password : Text)
      → Only NoDeletion (referenced_password env repo password)
  unfolding referenced_password
  referenced_password-NoDeletion repo password =
      search (only_rules, read_secret_key-Only NoDeletion NoDeletion-Routine env) depth 10

  choose_password-NoDeletion :
      (repo : Repository) (remote : Repo) (adopted known : Bool) (password : Text)
      → Only NoDeletion (choose_password env repo remote adopted known password)
  unfolding choose_password
  choose_password-NoDeletion repo remote adopted known password = search only_rules depth 12

  write_secret-NoDeletion :
      (repo : Repository) (url : Text) (existing : Secret) (chosen : Text × Bool)
      → Only NoDeletion (write_secret env repo url existing chosen)
  unfolding write_secret
  write_secret-NoDeletion repo url existing (password, generated) =
      search (only_rules, create_or_patch-NoDeletion) depth 12

  reconcile_secret-NoDeletion :
      (repo : Repository) (remote : Repo) (known : Bool)
      → Only NoDeletion (reconcile_secret env repo remote known)
  unfolding reconcile_secret
  reconcile_secret-NoDeletion repo remote known =
      search
        (
          only_rules, referenced_password-NoDeletion, write_secret-NoDeletion,
          choose_password-NoDeletion,
        )
        depth 20

  resolve_repo-NoDeletion :
      (token : Text) (repo : Repository) → Only NoDeletion (resolve_repo env token repo)
  unfolding resolve_repo
  resolve_repo-NoDeletion token repo = search only_rules depth 20

module _ (env : Env) (r : RepositoryReconciler) (namespace name : Text) (h : History)
    (repo : Repository) (got : env.got_repository h namespace name ≡ ok repo)
    (live : is_some repo.meta.deletion_timestamp ≡ false) where
  -- A pass over a Repository that was read and is not being deleted sends no deletion of a
  -- repository to BorgBase, whatever the environment answers.
  pub reconcile_request-NoDeletion :
      All NoDeletion h → All NoDeletion (reconcile_request env r namespace name h).1
  reconcile_request-NoDeletion before =
      request-handle_live env r namespace name h repo got live NoDeletion
        (λ s same.
          routine_pass env r NoDeletion NoDeletion-Routine (λ _. Unit) (λ _ _ _. tt)
            (λ _ _ _ _ _. tt) (λ token o _. resolve_repo-NoDeletion env token o)
            (λ o remote base _. reconcile_secret-NoDeletion env o remote (known_of base)) repo s tt)
        tt before
