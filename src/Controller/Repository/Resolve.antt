-- ===== src/Controller/Repository/Resolve.antt =====
-- Which BorgBase repository a Repository manages: `resolveRepo`.

use borgbase_operator.Base.{Text, codes, is_empty, text_eq, true, not, ◌&&◌, ◌++◌, if◌then◌else◌}
use borgbase_operator.Errors.{plain, is_repo_not_found}
use borgbase_operator.Api.Repository.{Repository, repository_name_of}
use borgbase_operator.Borgbase.Types.{Repo, AddOptions}
use borgbase_operator.Controller.Env.{Env, borg_get, borg_find, borg_add, event_normal}
use borgbase_operator.Controller.Exec.{Exec, pure, raise, ask, modify, emit, ◌>>=◌, ◌>>◌, on_result}
use borgbase_operator.Controller.Repository.Base.{rewrap}

-- The settings of a new repository.
abbrev pub add_options : Repository → AddOptions
add_options repo = record {
  name = repository_name_of repo;
  region = repo.spec.region;
  quota = repo.spec.quota_gib;
  alert_days = repo.spec.alert_days;
  append_only = repo.spec.append_only;
}

module _ (env : Env) (token : Text) where
  adopt : Repository → Text → Exec Repository Repo
  adopt repo id =
      if not (is_empty repo.status.repository_id) && not (text_eq repo.status.repository_id id)
      then raise (
          plain (
            codes "spec.existingRepositoryID is "
            ++ (id
                ++ (codes " but this resource already manages repository "
                    ++ (repo.status.repository_id
                        ++ codes
                            "; delete and recreate the Repository if the change is intended")))))
      else do
        reply ← ask (borg_get token id) (λ h. env.borg_got h token id)
        remote ← rewrap (codes "adopting repository " ++ (id ++ codes ": ")) reply
        modify λ o. record o { status = record o.status { adopted = true } }
        pure remote

  look_up : Text → Exec Repository Repo
  look_up id = do
    reply ← ask (borg_get token id) (λ h. env.borg_got h token id)
    rewrap (codes "looking up repository " ++ (id ++ codes ": ")) reply

  create : Repository → Exec Repository Repo
  create repo = do
    reply ← ask (borg_add token (add_options repo)) (λ h. env.borg_added h token (add_options repo))
    remote ←
        rewrap (codes "creating repository \"" ++ (repository_name_of repo ++ codes "\": ")) reply
    emit event_normal (codes "RepositoryCreated") (codes "Create") (
        codes "Created BorgBase repository "
        ++ (remote.id ++ (codes " (" ++ (repository_name_of repo ++ codes ")"))))
    pure remote

  find_or_create : Repository → Exec Repository Repo
  unfolding create
  find_or_create repo = do
    found ←
        ask (borg_find token (repository_name_of repo))
          (λ h. env.borg_found h token (repository_name_of repo))
    on_result found pure (λ e. if is_repo_not_found e then create repo else raise e)

  -- `func (r *RepositoryReconciler) resolveRepo`
  unfoldable pub resolve_repo : Repository → Exec Repository Repo
  unfolding adopt look_up find_or_create
  resolve_repo repo =
      if not (is_empty repo.spec.existing_repository_id)
      then adopt repo repo.spec.existing_repository_id
      else if not (is_empty repo.status.repository_id)
      then look_up repo.status.repository_id
      else find_or_create repo
