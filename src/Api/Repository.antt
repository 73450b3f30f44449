-- ===== src/Api/Repository.antt =====
-- api/v1/repository_types.go
use borgbase_operator.Base.{ℕ, Text, codes, is_empty, Bool, List, Option, ℤ, ◌++◌, if◌then◌else◌}
use borgbase_operator.Api.Meta.{ObjectMeta, Condition, SecretKeySelector}

pub data DeletionPolicy : Type 0 where
  policy_unset policy_retain policy_delete : DeletionPolicy

-- `Interval` is a duration in nanoseconds.
pub record RepositorySpec : Type 0 where
  pub interval : Option ℤ
  pub suspend : Bool
  pub deletion_policy : DeletionPolicy
  pub api_token_secret_ref : Option SecretKeySelector
  pub existing_repository_id : Text
  pub password_secret_ref : Option SecretKeySelector
  pub repository_name : Text
  pub region : Text
  pub quota_gib : Option ℤ
  pub alert_days : Option ℤ
  pub append_only : Bool
  pub secret_name : Text

pub record RepositoryStatus : Type 0 where
  pub conditions : List Condition
  pub observed_generation : ℕ
  pub repository_id : Text
  pub adopted : Bool
  pub initialized : Bool
  pub server : Text
  pub secret_name : Text
  pub current_usage : Text
  pub quota : Text

pub record Repository : Type 0 where
  pub meta : ObjectMeta
  pub spec : RepositorySpec
  pub status : RepositoryStatus

-- The types of conditions.
abbrev pub condition_ready : Text
condition_ready = codes "Ready"

abbrev pub condition_initialized : Text
condition_initialized = codes "Initialized"

-- `func (r *Repository) SecretName`
unfoldable pub secret_name_of : Repository → Text
secret_name_of r =
    if is_empty r.spec.secret_name then r.meta.name ++ codes "-borgbase" else r.spec.secret_name

-- `func (r *Repository) RepositoryName`
unfoldable pub repository_name_of : Repository → Text
repository_name_of r =
    if is_empty r.spec.repository_name then r.meta.namespace else r.spec.repository_name
