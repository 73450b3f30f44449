-- ===== src/Controller/Repository/Conflict.antt =====
-- Two Repositories that manage one BorgBase repository: `repositoryConflict`.
pub mod Exclusion
use borgbase_operator.Base.{
  Text, codes, is_empty, text_eq, text_lt, ltb, ◌==◌, Bool, true, false, not, ◌&&◌, ◌||◌, is_some,
  List, [], ◌∷◌, ◌++◌, if◌then◌else◌,
}
use borgbase_operator.Api.Repository.{Repository}
use borgbase_operator.Controller.Env.{Env, list_repositories}
use borgbase_operator.Controller.Exec.{Exec, pure, ask, ◌>>=◌}
use borgbase_operator.Controller.Repository.Base.{rewrap}

-- `func managedID`
unfoldable pub managed_id : Repository → Text
managed_id repo =
    if not (is_empty repo.status.repository_id)
    then repo.status.repository_id
    else repo.spec.existing_repository_id

-- `func olderRepository`
unfoldable pub older_repository : Repository → Repository → Bool
older_repository a b =
    if not (a.meta.creation_timestamp == b.meta.creation_timestamp)
    then ltb a.meta.creation_timestamp b.meta.creation_timestamp
    else if not (text_eq a.meta.namespace b.meta.namespace)
    then text_lt a.meta.namespace b.meta.namespace
    else text_lt a.meta.name b.meta.name

-- Whether the loop of `repositoryConflict` passes over `other`.
abbrev pub skipped : Repository → Repository → Bool
skipped repo other =
    is_some other.meta.deletion_timestamp
    || (text_eq other.meta.namespace repo.meta.namespace && text_eq other.meta.name repo.meta.name)

-- The loop of `repositoryConflict`.
unfoldable pub conflict_in : Repository → Text → List Repository → Text
unfolding managed_id older_repository
conflict_in repo id [] = []
conflict_in repo id (other ∷ others) =
    let rest = conflict_in repo id others in
    if skipped repo other
    then rest
    else if not (text_eq (managed_id other) id)
    then rest
    else if older_repository other repo
    then other.meta.namespace ++ (codes "/" ++ other.meta.name)
    else rest

-- `func (r *RepositoryReconciler) repositoryConflict`
unfoldable pub repository_conflict : Env → Repository → Text → Exec Repository Text
repository_conflict env repo id = if is_empty id then pure [] else do
  reply ← ask list_repositories env.listed_repositories
  list ← rewrap (codes "listing repositories: ") reply
  pure (conflict_in repo id list)
