-- ===== src/Controller/Repository/Reconcile/Creation.antt =====
-- repository_controller.go: the creations of a pass over a Repository with an ID.
use borgbase_operator.Base.{Text, is_empty, Bool, true, false, not, ◌||◌, ◌≡◌, arith, All, is_some}
use borgbase_operator.Errors.{ok}
use borgbase_operator.Api.Repository.{Repository}
use borgbase_operator.Borgbase.Types.{Repo}
use borgbase_operator.Kube.Objects.{Secret}
use borgbase_operator.Controller.Env.{Env, Call, History, borg_add}
use borgbase_operator.Controller.Exec.Only.{Only, Only-if_cases, only_rules}
use borgbase_operator.Controller.Repository.Base.{RepositoryReconciler}
use borgbase_operator.Controller.Repository.Resolve.{resolve_repo}
use borgbase_operator.Controller.Repository.Credentials.{
  create_or_patch, referenced_password, choose_password, write_secret, reconcile_secret,
}
use borgbase_operator.Controller.Repository.Reconcile.{known_of, reconcile_request}
use borgbase_operator.Controller.Repository.Footprint.{Routine, read_secret_key-Only}
use borgbase_operator.Controller.Repository.Reconcile.Pass.{
  PatchKeeps, request-handle_live, routine_pass,
}

-- A request that creates no BorgBase repository.
abbrev pub NoCreation : Call → Type 0
NoCreation (borg_add _ _) = ⊥
NoCreation _ = Unit

-- The repository has an ID: one in the spec, or one that an earlier pass recorded.
abbrev pub Identified : Repository → Type 0
Identified o =
    (not (is_empty o.spec.existing_repository_id) || not (is_empty o.status.repository_id)) ≡ true

NoCreation-Routine : Routine NoCreation
NoCreation-Routine = record {
  events = λ _ _ _ _. tt;
  statuses = λ _. tt;
  finalizers = λ _. tt;
  reads = λ _ _. tt;
  lists = tt;
  secrets = λ _ _. tt;
  jobs = λ _ _. tt;
  created_jobs = λ _. tt;
  deleted_jobs = λ _. tt;
  clocks = tt;
  gets = λ _ _. tt;
  finds = λ _ _. tt;
  edits = λ _ _ _. tt;
}

module _ (env : Env) where
  create_or_patch-NoCreation :
      (desired existing : Secret) → Only NoCreation (create_or_patch env desired existing)
  unfolding create_or_patch
  create_or_patch-NoCreation desired existing = search only_rules depth 12

  referenced_password-NoCreation :
      (repo : Repository) (password : Text)
      → Only NoCreation (referenced_password env repo password)
  unfolding referenced_password
  referenced_password-NoCreation repo password =
      search (only_rules, read_secret_key-Only NoCreation NoCreation-Routine env) depth 10

  choose_password-NoCreation :
      (repo : Repository) (remote : Repo) (adopted known : Bool) (password : Text)
      → Only NoCreation (choose_password env repo remote adopted known password)
  unfolding choose_password
  choose_password-NoCreation repo remote adopted known password = search only_rules depth 12

  write_secret-NoCreation :
      (repo : Repository) (url : Text) (existing : Secret) (chosen : Text × Bool)
      → Only NoCreation (write_secret env repo url existing chosen)
  unfolding write_secret
  write_secret-NoCreation repo url existing (password, generated) =
      search (only_rules, create_or_patch-NoCreation) depth 12

  reconcile_secret-NoCreation :
      (repo : Repository) (remote : Repo) (known : Bool)
      → Only NoCreation (reconcile_secret env repo remote known)
  unfolding reconcile_secret
  reconcile_secret-NoCreation repo remote known =
      search
        (
          only_rules, referenced_password-NoCreation, write_secret-NoCreation,
          choose_password-NoCreation,
        )
        depth 20

  neither : (b c : Bool) → (b || c) ≡ true → b ≡ false → c ≡ false → ⊥
  neither b c h p q = ground arith

  resolve_repo-NoCreation :
      (token : Text) (repo : Repository)
      → (not (is_empty repo.spec.existing_repository_id)
          || not (is_empty repo.status.repository_id))
        ≡ true
      → Only NoCreation (resolve_repo env token repo)
  unfolding resolve_repo
  resolve_repo-NoCreation token repo h =
      Only-if_cases (not (is_empty repo.spec.existing_repository_id)) _ _
        (λ _. search only_rules depth 20)
        λ e.
          Only-if_cases (not (is_empty repo.status.repository_id)) _ _
            (λ _. search only_rules depth 20) (λ e'. absurd (neither _ _ h e e'))

module _ (env : Env) (r : RepositoryReconciler) (namespace name : Text) (h : History)
    (repo : Repository) (got : env.got_repository h namespace name ≡ ok repo)
    (live : is_some repo.meta.deletion_timestamp ≡ false) where
  -- A pass over a Repository that was read, is not being deleted and has an ID in its spec or its
  -- status creates no repository at BorgBase, whatever the environment answers, if what the server
  -- returns for the patch of the finalizers of such a Repository has one too.
  pub reconcile_request-NoCreation :
      PatchKeeps env Identified
      → Identified repo
      → All NoCreation h
      → All NoCreation (reconcile_request env r namespace name h).1
  reconcile_request-NoCreation patched identified before =
      request-handle_live env r namespace name h repo got live NoCreation
        (λ s same.
          routine_pass env r NoCreation NoCreation-Routine Identified (λ _ _ q. q) patched
            (λ token o q. resolve_repo-NoCreation env token o q)
            (λ o remote base _. reconcile_secret-NoCreation env o remote (known_of base)) repo s
            (rw same identified))
        tt before
