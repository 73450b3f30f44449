-- ===== src/Controller/Repository/Finalize/Safety.antt =====
-- repository_controller.go: what `finalize` deletes, and when it lets the Repository go.
use borgbase_operator.Base.{Text, is_empty, true, false, not, ◌&&◌, Option, none, some, ◌≡◌}
use borgbase_operator.Errors.{Err, is_repo_not_found, err}
use borgbase_operator.Api.Meta.{SecretKeySelector}
use borgbase_operator.Api.Repository.{Repository}
use borgbase_operator.Controller.Env.{Env, Call, History, borg_delete, patch_repository}
use borgbase_operator.Controller.Exec.Only.{
  Only, Only-pure, Only-if, Only-bind, Only-if_cases, Only-bind_never, only_rules,
}
use borgbase_operator.Controller.Exec.Returns.{
  Returns, Returns-if, Returns-bind, Returns-bind-ask, Returns-bind_never, returns_rules,
}
use borgbase_operator.Controller.Repository.Base.{
  RepositoryReconciler, finalizer_name, set_condition, read_secret_key, api_for,
}
use borgbase_operator.Controller.Repository.Finalize.{
  is_policy_delete, deleted, delete_remote, release_remote, drop_finalizer, finalize,
}

-- A request that deletes no BorgBase repository.
abbrev pub NoDeletion : Call → Type 0
NoDeletion (borg_delete _ _) = ⊥
NoDeletion _ = Unit

-- A request that leaves the finalizers as they are.
abbrev pub KeepsFinalizer : Call → Type 0
KeepsFinalizer (patch_repository _) = ⊥
KeepsFinalizer _ = Unit

module _ (env : Env) (r : RepositoryReconciler) (repo : Repository) where
  drop_finalizer-NoDeletion : Only NoDeletion (drop_finalizer env)
  unfolding drop_finalizer
  drop_finalizer-NoDeletion = search only_rules depth 10

  release_remote-NoDeletion :
      (is_policy_delete repo.spec.deletion_policy && not (is_empty repo.status.repository_id))
        ≡ false
      → Only NoDeletion (release_remote env r repo)
  unfolding release_remote
  release_remote-NoDeletion h =
      Only-if_cases
        (is_policy_delete repo.spec.deletion_policy && not (is_empty repo.status.repository_id))
        (delete_remote env r repo) _ (λ e. cc) (λ _. search only_rules)

  -- Without the policy Delete, or without a recorded ID, nothing is deleted at BorgBase.
  pub finalize-NoDeletion :
      (is_policy_delete repo.spec.deletion_policy && not (is_empty repo.status.repository_id))
        ≡ false
      → Only NoDeletion (finalize env r repo)
  unfolding finalize
  finalize-NoDeletion h =
      Only-if _ _ _ (Only-pure tt)
        (Only-bind _ _ (release_remote-NoDeletion h) (λ _. drop_finalizer-NoDeletion))

  module _
      -- BorgBase refuses every deletion, and not because the repository is gone.
      (refused : (h : History) (token id : Text)
        → (e : Err) × (env.borg_deleted h token id ≡ err e) × (is_repo_not_found e ≡ false)) where
    deleted_never :
        (h : History) (token id : Text)
        → Returns (λ _. ⊥) (deleted env id (env.borg_deleted h token id))
    unfolding deleted
    deleted_never h token id =
        let (e, answer, present) = refused h token id in
        rw answer
          (Returns-if (is_repo_not_found e) _ _ (λ gone. cc) (λ _. search returns_rules depth 10))

    delete_remote_never : Returns (λ _. ⊥) (delete_remote env r repo)
    unfolding delete_remote
    delete_remote_never = Returns-bind _ _ λ reply.
        Returns-bind _ _
          λ token. Returns-bind-ask _ _ _ (λ h. deleted_never h token repo.status.repository_id)

    read_secret_key-KeepsFinalizer :
        (ns : Text) (ref : Option SecretKeySelector)
        → Only KeepsFinalizer (read_secret_key env ns ref)
    unfolding read_secret_key
    read_secret_key-KeepsFinalizer ns none = search only_rules
    read_secret_key-KeepsFinalizer ns (some ref) = search only_rules

    delete_remote-KeepsFinalizer : Only KeepsFinalizer (delete_remote env r repo)
    unfolding delete_remote api_for set_condition
    delete_remote-KeepsFinalizer = search (only_rules, read_secret_key-KeepsFinalizer) depth 20

    -- If the policy is Delete, an ID is recorded and the finalizer is present, while BorgBase
    -- refuses every deletion and not because the repository is gone, `finalize` sends no patch of
    -- the finalizers and returns no success.
    pub finalize-KeepsFinalizer :
        env.contains_finalizer repo.meta finalizer_name ≡ true
        → (is_policy_delete repo.spec.deletion_policy && not (is_empty repo.status.repository_id))
          ≡ true
        → Only KeepsFinalizer (finalize env r repo) × Returns (λ _. ⊥) (finalize env r repo)
    unfolding finalize release_remote
    finalize-KeepsFinalizer present condition =
        rw (present, condition)
          (
            Only-bind_never _ _ delete_remote-KeepsFinalizer delete_remote_never,
            Returns-bind_never _ _ delete_remote_never,
          )
