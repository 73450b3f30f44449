-- ===== src/Controller/Repository/Finalize.antt =====
-- The end of a Repository: `finalize`.
pub mod Safety
use borgbase_operator.Base.{
  Text, codes, is_empty, Bool, true, false, not, ◌&&◌, ◌++◌, if◌then◌else◌, [],
}
use borgbase_operator.Errors.{Err, wrap, error_text, is_repo_not_found, Result, ok, err}
use borgbase_operator.Api.Meta.{condition_false}
use borgbase_operator.Api.Repository.{Repository, DeletionPolicy, policy_delete}
use borgbase_operator.Controller.Env.{
  Env, patch_repository, borg_delete, event_normal, event_warning,
}
use borgbase_operator.Controller.Exec.{
  Exec, pure, raise, ask, call, attempt, get_obj, modify, emit, ◌>>=◌, ◌>>◌, on_result,
}
use borgbase_operator.Controller.Repository.Base.{
  RepositoryReconciler, finalizer_name, set_ready, api_for,
}

abbrev pub is_policy_delete : DeletionPolicy → Bool
is_policy_delete policy_delete = true
is_policy_delete _ = false

module _ (env : Env) where
  abbrev announce_deleted : Text → Exec Repository (Unit {0})
  announce_deleted id =
      emit event_normal (codes "RepositoryDeleted") (codes "Delete")
        (codes "Deleted BorgBase repository " ++ (id ++ codes " and all its snapshots"))

  -- What follows the deletion of the BorgBase repository.
  unfoldable pub deleted : Text → Result (Unit {0}) → Exec Repository (Unit {0})
  deleted id answer =
      on_result answer (λ _. announce_deleted id)
        λ e. if is_repo_not_found e then announce_deleted id else do
          emit event_warning (codes "DeleteFailed") (codes "Delete") (error_text e)
          raise (wrap (codes "deleting repository " ++ (id ++ codes ": ")) e [])

  unfoldable pub token_or_fail : Result Text → Exec Repository Text
  token_or_fail reply = on_result reply pure λ e. do
    set_ready env condition_false (codes "APITokenUnavailable") (error_text e)
    emit event_warning (codes "APITokenUnavailable") (codes "Delete") (error_text e)
    raise e

  -- The first case of the `switch`.
  unfoldable pub delete_remote : RepositoryReconciler → Repository → Exec Repository (Unit {0})
  unfolding deleted token_or_fail
  delete_remote r repo = do
    reply ← attempt (api_for env r repo)
    token ← token_or_fail reply
    answer ←
        ask (borg_delete token repo.status.repository_id)
          (λ h. env.borg_deleted h token repo.status.repository_id)
    deleted repo.status.repository_id answer

  -- The `switch` on the deletion policy.
  unfoldable pub release_remote : RepositoryReconciler → Repository → Exec Repository (Unit {0})
  release_remote r repo =
      if is_policy_delete repo.spec.deletion_policy && not (is_empty repo.status.repository_id)
      then delete_remote r repo
      else if not (is_empty repo.status.repository_id)
      then emit event_normal (codes "RepositoryRetained") (codes "Retain") (
          codes "Retained BorgBase repository "
          ++ (repo.status.repository_id ++ codes "; delete it manually if it is no longer needed"))
      else pure tt

  unfoldable pub drop_finalizer : Exec Repository (Unit {0})
  drop_finalizer = do
    modify λ o. record o { meta = env.remove_finalizer o.meta finalizer_name }
    o ← get_obj
    stored ← call (patch_repository o) (λ h. env.patched_repository h o)
    modify λ _. stored

  -- `func (r *RepositoryReconciler) finalize`
  unfoldable pub finalize : RepositoryReconciler → Repository → Exec Repository (Unit {0})
  finalize r repo =
      if not (env.contains_finalizer repo.meta finalizer_name)
      then pure tt
      else do release_remote r repo; drop_finalizer
