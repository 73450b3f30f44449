-- ===== src/Api/ScheduledBackup.antt =====
-- api/v1/scheduledbackup_types.go
use borgbase_operator.Base.{
  ℕ, Text, Dict, codes, is_empty, Bool, List, Option, ℤ, ◌++◌, if◌then◌else◌,
}
use borgbase_operator.Api.Meta.{ObjectMeta, Condition, SecretKeySelector}
use borgbase_operator.Kube.Pod.{Affinity, PodSecurity, ContainerSecurity, Resources}
use borgbase_operator.Kube.Objects.{ConcurrencyPolicy}

pub data SourceType : Type 0 where
  source_cnpg source_mariadb source_files : SourceType
  -- any other text in `type`
  source_unknown : Text → SourceType

-- The text of a `SourceType`.
abbrev pub source_type_text : SourceType → Text
source_type_text source_cnpg = codes "cnpg"
source_type_text source_mariadb = codes "mariadb"
source_type_text source_files = codes "files"
source_type_text (source_unknown t) = t

pub data DatabaseEngine : Type 0 where
  engine_cnpg engine_mariadb : DatabaseEngine
  engine_unknown : Text → DatabaseEngine

-- `string(engine)`
abbrev pub engine_text : DatabaseEngine → Text
engine_text engine_cnpg = codes "cnpg"
engine_text engine_mariadb = codes "mariadb"
engine_text (engine_unknown t) = t

abbrev pub db_secret_mount_path : Text
db_secret_mount_path = codes "/var/run/secrets/borgbase/database"

pub record BackupSource : Type 0 where
  pub type : SourceType
  pub tag : Text
  pub path : Text
  pub exclude : List Text
  pub database : Text
  pub extra_args : List Text

-- `func (s BackupSource) EffectiveTag`
unfoldable pub effective_tag : BackupSource → Text
effective_tag s =
    if is_empty s.tag then elim s.type [ source_files ↦ codes "files" | _ ↦ codes "db" ] else s.tag

-- `func (s BackupSource) EffectivePath`
unfoldable pub effective_path : BackupSource → Text
effective_path s = if is_empty s.path then codes "." else s.path

pub record Retention : Type 0 where
  pub last : Option ℤ
  pub hourly : Option ℤ
  pub daily : Option ℤ
  pub weekly : Option ℤ
  pub monthly : Option ℤ
  pub yearly : Option ℤ

pub record DatabaseSpec : Type 0 where
  pub engine : DatabaseEngine
  pub secret_name : Text
  pub host : Text
  pub name : Text
  pub user : Text

-- `func (d *DatabaseSpec) EffectiveSecretName`
unfoldable pub effective_secret_name : DatabaseSpec → Text
effective_secret_name d =
    if is_empty d.secret_name
    then elim d.engine [ engine_mariadb ↦ codes "mariadb" | _ ↦ codes "postgresql-app" ]
    else d.secret_name

-- `func (d *DatabaseSpec) MountPath`
abbrev pub database_mount_path : DatabaseSpec → Text
database_mount_path d = db_secret_mount_path

pub record VolumeSpec : Type 0 where
  pub existing_claim : Text
  pub mount_path : Text
  pub read_only : Bool

-- `func (v *VolumeSpec) EffectiveMountPath`
unfoldable pub effective_mount_path : VolumeSpec → Text
effective_mount_path v =
    if is_empty v.mount_path then codes "/" ++ v.existing_claim else v.mount_path

pub record CacheSpec : Type 0 where
  pub enabled : Option Bool
  pub storage_class : Text
  pub size : Text
  pub access_mode : Text

pub record HealthchecksSpec : Type 0 where
  pub enabled : Option Bool
  pub ping_key_secret_ref : Option SecretKeySelector
  pub slug : Text
  pub create : Option Bool
  pub api_url : Text
  pub uuid_secret_ref : Option SecretKeySelector

-- `retry_lock` is a duration in nanoseconds.
pub record ScheduledBackupSpec : Type 0 where
  pub repository_ref : Text
  pub schedule : Text
  pub time_zone : Text
  pub suspend : Bool
  pub concurrency_policy : ConcurrencyPolicy
  pub image : Text
  pub sources : List BackupSource
  pub script : Text
  pub retention : Option Retention
  pub retry_lock : Option ℤ
  pub env : Dict Text
  pub database : Option DatabaseSpec
  pub volume : Option VolumeSpec
  pub cache : Option CacheSpec
  pub healthchecks : Option HealthchecksSpec
  pub affinity : Option Affinity
  pub pod_security_context : Option PodSecurity
  pub container_security_context : Option ContainerSecurity
  pub pod_labels : Dict Text
  pub resources : Option Resources
  pub successful_jobs_history_limit : Option ℤ
  pub failed_jobs_history_limit : Option ℤ

pub data RunResult : Type 0 where
  run_running run_succeeded run_failed : RunResult

pub data RunTrigger : Type 0 where
  trigger_scheduled trigger_manual : RunTrigger

pub record BackupRun : Type 0 where
  pub job_name : Text
  pub trigger : RunTrigger
  pub result : RunResult
  pub start_time : Option ℕ
  pub completion_time : Option ℕ

pub record ScheduledBackupStatus : Type 0 where
  pub conditions : List Condition
  pub observed_generation : ℕ
  pub effective_schedule : Text
  pub last_schedule_time : Option ℕ
  pub last_successful_time : Option ℕ
  pub active : ℕ
  pub last_trigger_time : Option ℕ
  pub last_trigger_job : Text
  pub history : List BackupRun

pub record ScheduledBackup : Type 0 where
  pub meta : ObjectMeta
  pub spec : ScheduledBackupSpec
  pub status : ScheduledBackupStatus

-- `func (s *ScheduledBackup) Slug`
unfoldable pub slug_of : ScheduledBackup → Text
slug_of s = elim s.spec.healthchecks [
  | Option.none ↦ s.meta.namespace
  | Option.some h ↦ if is_empty h.slug then s.meta.namespace else h.slug
]
