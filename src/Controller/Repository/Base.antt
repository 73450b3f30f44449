-- ===== src/Controller/Repository/Base.antt =====
-- The reconciler's settings, conditions, status patches and the reading of Secrets.
use borgbase_operator.Base.{
  ℕ, Text, codes, is_empty, lookup, Option, none, some, pos, negsuc, ltb, [], ◌++◌, if◌then◌else◌,
}
use borgbase_operator.Errors.{Err, plain, wrap, error_text, Result}
use borgbase_operator.Api.Meta.{Condition, ConditionStatus, condition_false, SecretKeySelector}
use borgbase_operator.Api.Repository.{Repository, condition_ready, condition_initialized}
use borgbase_operator.Kube.Objects.{Secret}
use borgbase_operator.Controller.Env.{Env, get_secret, patch_repository_status, event_warning}
use borgbase_operator.Controller.Exec.{
  Exec, pure, raise, call, attempt, get_obj, modify, emit, ◌>>=◌, ◌>>◌, on_result, on_option,
}
use borgbase_operator.Controller.Helpers.{hour}

-- `RepositoryReconciler`. A BorgBase client is known by its token.
pub record RepositoryReconciler : Type 0 where
  pub default_token_namespace : Text
  pub default_token_name : Text
  pub default_token_key : Text
  pub backup_image : Text

abbrev pub finalizer_name : Text
finalizer_name = codes "borgbase.clevyr.com/finalizer"

abbrev pub key_restic_repository : Text
key_restic_repository = codes "RESTIC_REPOSITORY"

abbrev pub key_restic_password : Text
key_restic_password = codes "RESTIC_PASSWORD"

-- `fmt.Errorf("<before>: %w", err)` around a failed step.
abbrev pub rewrap : {O A : Type 0} → Text → Result A → Exec O A
rewrap before r = on_result r pure (λ e. raise (wrap before e []))

-- `func (r *RepositoryReconciler) interval`
unfoldable pub interval_of : Repository → ℕ
interval_of repo = elim repo.spec.interval [
  | none ↦ hour
  | some d ↦ elim d [ pos n ↦ if ltb 0 n then n else hour | negsuc _ ↦ hour ]
]

module _ (env : Env) where
  -- `func (r *RepositoryReconciler) setCondition`
  unfoldable pub set_condition : Condition → Exec Repository (Unit {0})
  set_condition c = modify λ repo. record repo {
    status = record repo.status {
      conditions =
          env.set_status_condition repo.status.conditions
            (record c { observed_generation = repo.meta.generation });
    };
  }

  -- The Ready condition with a status, a reason and a message.
  abbrev pub set_ready : ConditionStatus → Text → Text → Exec Repository (Unit {0})
  set_ready status reason message = set_condition (record {
    type = condition_ready;
    status = status;
    reason = reason;
    message = message;
    observed_generation = 0;
  })

  abbrev pub set_initialized : ConditionStatus → Text → Text → Exec Repository (Unit {0})
  set_initialized status reason message = set_condition (record {
    type = condition_initialized;
    status = status;
    reason = reason;
    message = message;
    observed_generation = 0;
  })

  -- `func (r *RepositoryReconciler) patchStatus`
  unfoldable pub patch_status : Repository → Exec Repository (Unit {0})
  patch_status base = do
    modify λ repo. record repo {
      status = record repo.status { observed_generation = repo.meta.generation };
    }
    repo ← get_obj
    if env.same_repository_status repo base
        then pure tt
        else call (patch_repository_status repo) (λ h. env.patched_repository_status h repo)

  abbrev secret_value : Text → Text → SecretKeySelector → Secret → Exec Repository Text
  secret_value namespace missing ref secret =
      on_option (lookup ref.key secret.entries)
        (λ value. if is_empty value then raise (plain missing) else pure value)
        (raise (plain missing))

  -- `func (r *RepositoryReconciler) readSecretKey`
  unfoldable pub read_secret_key : Text → Option SecretKeySelector → Exec Repository Text
  read_secret_key namespace none = raise (plain (codes "no secret reference configured"))
  read_secret_key namespace (some ref) =
      if is_empty ref.name then raise (plain (codes "no secret reference configured")) else do
        secret ← call (get_secret namespace ref.name) (λ h. env.got_secret h namespace ref.name)
        secret_value namespace
            (codes "secret "
              ++ (namespace
                  ++ (codes "/"
                      ++ (ref.name ++ (codes " has no key \"" ++ (ref.key ++ codes "\""))))))
            ref secret

  -- `func (r *RepositoryReconciler) apiFor`: the token of the client.
  unfoldable pub api_for : RepositoryReconciler → Repository → Exec Repository Text
  api_for r repo = do
    token ← attempt (
        on_option repo.spec.api_token_secret_ref
          (λ ref. read_secret_key repo.meta.namespace (some ref))
          (read_secret_key r.default_token_namespace
            (some (record { name = r.default_token_name; key = r.default_token_key }))))
    rewrap (codes "reading BorgBase API token: ") token

  -- The end of a failed pass: the condition, the event, the status and the error.
  unfoldable pub fail_pass : Repository → Text → Err → Exec Repository ℕ
  fail_pass base reason e = do
    set_ready condition_false reason (error_text e)
    emit event_warning reason (codes "Reconcile") (error_text e)
    attempt (patch_status base)
    raise e
