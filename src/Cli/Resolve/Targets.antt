-- ===== src/Cli/Resolve/Targets.antt =====
-- resolve.go: the resources that a command runs on.
use borgbase_operator.Base.{
  Text, text_eq, text_eq_sound, Bool, true, false, some, List, [], ◌∷◌, ◌≡◌, refl, sym,
  if◌then◌else◌,
}
use borgbase_operator.Errors.{Err, ok}
use borgbase_operator.Api.Repository.{Repository}
use borgbase_operator.Api.ScheduledBackup.{ScheduledBackup}
use borgbase_operator.Controller.Env.{Env, History}
use borgbase_operator.Controller.Exec.{St, pure, raise, on_option}
use borgbase_operator.Controller.Exec.Returns.{
  Returns, Returns-pure, Returns-raise, Returns-bind, Returns-bind-ask, Returns-bind-Returns,
  Returns-weaken, Returns-on_result_cases,
}
use borgbase_operator.Cli.Resolve.{
  Target, repository_target, backup_target, backup_using, resolve, repository_for, run_target_of,
  resolve_run_target, ask_repository,
}

-- The API answers a request for an object with the object of that name.
abbrev pub AnswersByName : Env → Type 0
AnswersByName env =
    (h : History) (ns name : Text) (repo : Repository)
    → env.got_repository h ns name ≡ ok repo
    → repo.meta.name ≡ name

-- The backup writes to the repository.
abbrev pub WritesTo : ScheduledBackup × Repository → Type 0
WritesTo (sb, repo) = sb.spec.repository_ref ≡ repo.meta.name

-- The Repository of a backup is one that the cluster returned.
pub repository_for-Returns :
    {O : Type 0} (env : Env) (sb : ScheduledBackup)
    → Returns {O = O}
        (λ repo.
          (h : History) × (env.got_repository h sb.meta.namespace sb.spec.repository_ref ≡ ok repo))
        (repository_for env sb)
unfolding repository_for ask_repository
repository_for-Returns env sb =
    Returns-bind-ask _ _ _
      λ h. Returns-on_result_cases _ _ _ (λ repo q. Returns-pure repo (h, q)) (λ e. Returns-raise _)

module _ {O : Type 0} (env : Env) (named : AnswersByName env) where
  repository_for-named :
      (sb : ScheduledBackup)
      → Returns {O = O} (λ repo. sb.spec.repository_ref ≡ repo.meta.name) (repository_for env sb)
  repository_for-named sb =
      Returns-weaken (repository_for-Returns env sb)
        (λ repo answer. sym (named answer.0 sb.meta.namespace sb.spec.repository_ref repo answer.1))

  using :
      (repo : Repository) (sbs : List ScheduledBackup) (e : Err)
      → Returns {O = O} WritesTo
          (on_option (backup_using repo.meta.name sbs) (λ sb. pure (sb, repo)) (raise e))
  unfolding backup_using
  using repo [] e = Returns-raise e
  using repo (sb ∷ sbs) e =
      first (text_eq sb.spec.repository_ref repo.meta.name) refl (using repo sbs e)
    where
      first :
          (b : Bool)
          → text_eq sb.spec.repository_ref repo.meta.name ≡ b
          → Returns {O = O} WritesTo
              (on_option (backup_using repo.meta.name sbs) (λ x. pure (x, repo)) (raise e))
          → Returns {O = O} WritesTo (
              on_option
                (if b then some sb else backup_using repo.meta.name sbs)
                (λ x. pure (x, repo))
                (raise e))
      first true q rest = Returns-pure _ (text_eq_sound _ _ q)
      first false q rest = rest

  run_target_of-WritesTo : (t : Target) → Returns {O = O} WritesTo (run_target_of env t)
  unfolding run_target_of
  run_target_of-WritesTo (backup_target sb) =
      Returns-bind-Returns (λ repo. sb.spec.repository_ref ≡ repo.meta.name) _ _
        (repository_for-named sb) (λ repo q. Returns-pure _ q)
  run_target_of-WritesTo (repository_target repo) = Returns-bind _ _ (λ sbs. using repo sbs _)

-- A command that runs restic never pairs a backup with another repository: the backup that
-- `resolveRunTarget` returns refers to the Repository that it returns, whether the argument names the
-- backup or the Repository, if the API answers each request with the object of that name.
pub resolve_run_target-WritesTo :
    {O : Type 0} (env : Env) (ns arg : Text) (s : St O) (sb : ScheduledBackup) (repo : Repository)
    → AnswersByName env
    → (resolve_run_target env ns arg s).0 ≡ ok (sb, repo)
    → sb.spec.repository_ref ≡ repo.meta.name
unfolding resolve_run_target
resolve_run_target-WritesTo env ns arg s sb repo named h =
    (Returns-bind (resolve env ns arg) _ (run_target_of-WritesTo env named)).at s (sb, repo) h
