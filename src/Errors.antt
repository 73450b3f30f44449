-- ===== src/Errors.antt =====
-- Go's `error` values as the program builds and inspects them.
use borgbase_operator.Base.{Text, codes, ◌++◌, Bool, true, false, ◌≡◌, refl}

-- The reasons of an API server's error that the program asks about.
pub data Reason : Type 0 where
  not_found already_exists other_reason : Reason

pub data Err : Type 0 where
  -- an error of the Kubernetes API, with its message
  api_error : Reason → Text → Err
  -- the sentinel errors of internal/borgbase/types.go
  repo_not_found not_restic no_credentials : Err
  -- those of internal/cli/runner/runner.go
  no_cron_job command_failed missing_dependency : Err
  -- those of internal/cli
  target_not_found ambiguous unknown_kind no_backup_for_repository : Err
  no_runs trigger_skipped backup_failed not_initialized append_only_repository : Err
  no_restore_target not_confirmed no_database no_source_volume unhealthy : Err
  -- `errors.New`, and `fmt.Errorf` with no `%w`
  plain : Text → Err
  -- `fmt.Errorf` with one `%w`: the text before it, the error, the text after it
  wrap : Text → Err → Text → Err

-- `err.Error()`
unfoldable pub error_text : Err → Text
error_text (api_error _ message) = message
error_text repo_not_found = codes "borgbase: repository not found"
error_text not_restic = codes "borgbase: repository is not restic format"
error_text no_credentials = codes "borgbase: repository has no REST password"
error_text no_cron_job = codes "no CronJob for this backup"
error_text command_failed = codes "command failed"
error_text missing_dependency = codes "the backup references something that does not exist"
error_text target_not_found = codes "not found"
error_text ambiguous = codes "ambiguous name"
error_text unknown_kind = codes "unknown resource type"
error_text no_backup_for_repository = codes "no ScheduledBackup uses this repository"
error_text no_runs = codes "no backup runs found"
error_text trigger_skipped = codes "backup was not started"
error_text backup_failed = codes "backup failed"
error_text not_initialized = codes "repository is not initialized"
error_text append_only_repository = codes "repository is append-only"
error_text no_restore_target = codes "no restore target specified"
error_text not_confirmed = codes "not confirmed"
error_text no_database = codes "this backup has no database"
error_text no_source_volume = codes "this backup has no source volume"
error_text unhealthy = codes "one or more checks failed"
error_text (plain message) = message
error_text (wrap before e after) = before ++ (error_text e ++ after)

-- `apierrors.IsNotFound`, which looks through wrapped errors.
abbrev pub is_not_found : Err → Bool
is_not_found (api_error not_found _) = true
is_not_found (wrap _ e _) = is_not_found e
is_not_found _ = false

-- `apierrors.IsAlreadyExists`
abbrev pub is_already_exists : Err → Bool
is_already_exists (api_error already_exists _) = true
is_already_exists (wrap _ e _) = is_already_exists e
is_already_exists _ = false

-- `errors.Is(err, borgbase.ErrNotFound)`
abbrev pub is_repo_not_found : Err → Bool
is_repo_not_found repo_not_found = true
is_repo_not_found (wrap _ e _) = is_repo_not_found e
is_repo_not_found _ = false

-- A value and a nil error, or an error.
pub data Result {ℓ} (A : Type ℓ) : Type ℓ where
  ok : A → Result A
  err : Err → Result A

-- The next step of a chain, if the first one returned.
infixl 10 ◌>>=◌
abbrev pub ◌>>=◌ {ℓ κ} : {A : Type ℓ} {B : Type κ} → Result A → (A → Result B) → Result B
m >>= next = elim m [ ok a ↦ next a | err e ↦ err e ]

pub ok-inj {ℓ} : {A : Type ℓ} (a b : A) → ok a ≡ ok b → a ≡ b
ok-inj a b h = cc

-- A chain that returns has a first part that returns.
pub bind-ok {ℓ κ} :
    {A : Type ℓ} {B : Type κ} (r : Result A) (f : A → Result B) (b : B)
    → (r >>= f) ≡ ok b
    → (a : A) × ((r ≡ ok a) × (f a ≡ ok b))
bind-ok (ok a) f b h = (a, (refl, h))
bind-ok (err e) f b h = cc
