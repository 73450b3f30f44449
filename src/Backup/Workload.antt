-- ===== src/Backup/Workload.antt =====
-- internal/backup/cronjob.go: the CronJob, the Jobs and the cache claim of a backup.
pub mod Pods
pub mod Agreement
use borgbase_operator.Base.{
  ℕ, ◌+◌, ◌-◌, ◌*◌, ◌/◌, ltb, Text, codes, is_empty, Dict, insert, length, take, format_base, Bool,
  true, false, not, Option, none, some, List, [], ◌∷◌, ◌++◌, if◌then◌else◌,
}
use borgbase_operator.Errors.{plain, wrap, Result, ok, err, ◌>>=◌}
use borgbase_operator.Api.Meta.{ObjectMeta}
use borgbase_operator.Api.Repository.{Repository}
use borgbase_operator.Api.ScheduledBackup.{ScheduledBackup, CacheSpec}
use borgbase_operator.Kube.Objects.{
  Job, JobStatus, JobTemplate, CronJob, ConcurrencyPolicy, policy_unset, policy_forbid, VolumeClaim,
}
use borgbase_operator.Backup.Tools.{Tools}
use borgbase_operator.Backup.Schedule.{resolve_schedule}
use borgbase_operator.Backup.Workload.Pods.{
  Config, cache_name, cache_enabled, common_labels, build_job_template,
}

-- `func CronJobName`
abbrev pub cron_job_name : ScheduledBackup → Text
cron_job_name sb = sb.meta.name ++ codes "-backup"

abbrev pub max_manual_job_name : ℕ
max_manual_job_name = 52

-- The end of a manual Job's name: the Unix time in base 36. Times are at or after 1970.
abbrev pub manual_suffix : ℕ → Text
manual_suffix at = codes "-manual-" ++ format_base 36 (at / 1000000000)

-- `func ManualJobName`. Only a suffix of more than 52 bytes would make the limit negative.
unfoldable pub manual_job_name : ScheduledBackup → ℕ → Text
manual_job_name sb at =
    let suffix = manual_suffix at in
    let limit = max_manual_job_name - length suffix in
    (if ltb limit (length sb.meta.name) then take limit sb.meta.name else sb.meta.name) ++ suffix

abbrev new_meta : Text → Text → Dict Text → ObjectMeta
new_meta name namespace labels = record {
  name = name;
  namespace = namespace;
  uid = [];
  labels = labels;
  annotations = [];
  generation = 0;
  creation_timestamp = 0;
  deletion_timestamp = none;
  finalizers = [];
  owner_references = [];
}

abbrev fresh_status : JobStatus
fresh_status = record {
  start_time = none;
  completion_time = none;
  succeeded = 0;
  active = 0;
  failed = 0;
  conditions = [];
}

abbrev pub label_trigger : Text
label_trigger = codes "borgbase.clevyr.com/trigger"

abbrev pub trigger_manual_value : Text
trigger_manual_value = codes "manual"

abbrev default_policy : ConcurrencyPolicy → ConcurrencyPolicy
default_policy policy_unset = policy_forbid
default_policy p = p

-- `func concurrencyPolicy`
abbrev pub concurrency_policy : ScheduledBackup → ConcurrencyPolicy
concurrency_policy sb = default_policy sb.spec.concurrency_policy

-- `func timeZone`
abbrev time_zone : ScheduledBackup → Option Text
time_zone sb = if is_empty sb.spec.time_zone then none else some sb.spec.time_zone

module _ (tools : Tools) (cfg : Config) where
  -- `func BuildManualJob`
  unfoldable pub build_manual_job : ScheduledBackup → Repository → ℕ → Result Job
  build_manual_job sb repo at = build_job_template tools cfg sb repo >>= λ tmpl. ok (record {
    meta =
        new_meta (manual_job_name sb at) sb.meta.namespace
          (insert label_trigger trigger_manual_value tmpl.labels);
    spec = tmpl.spec;
    status = fresh_status;
  })

  -- `func BuildCronJob`
  unfoldable pub build_cron_job : ScheduledBackup → Repository → Result CronJob
  build_cron_job sb repo =
      resolve_schedule tools sb.spec.schedule (sb.meta.namespace ++ (codes "/" ++ sb.meta.name))
      >>= λ schedule. build_job_template tools cfg sb repo >>= λ tmpl. ok (record {
        meta = new_meta (cron_job_name sb) sb.meta.namespace (common_labels sb);
        spec = record {
          schedule = schedule;
          time_zone = time_zone sb;
          concurrency_policy = concurrency_policy sb;
          suspend = some sb.spec.suspend;
          successful_jobs_history_limit = sb.spec.successful_jobs_history_limit;
          failed_jobs_history_limit = sb.spec.failed_jobs_history_limit;
          job_template = tmpl;
        };
        status = record { last_schedule_time = none; last_successful_time = none; active = [] };
      })

  abbrev chosen : Text → Text → Text
  chosen given default = if is_empty given then default else given

  -- The size, the access mode and the storage class of the cache.
  cache_settings : Option CacheSpec → Text × (Text × Text)
  cache_settings none = (codes "1Gi", (codes "ReadWriteMany", cfg.cache_storage_class))
  cache_settings (some c) = (
    chosen c.size (codes "1Gi"),
    (chosen c.access_mode (codes "ReadWriteMany"), chosen c.storage_class cfg.cache_storage_class),
  )

  build_claim : ScheduledBackup → Text × (Text × Text) → Result VolumeClaim
  build_claim sb (size, (mode, class)) = elim (tools.parse_quantity size) [
    | err e ↦ err (wrap (codes "parsing cache size \"" ++ (size ++ codes "\": ")) e [])
    | ok quantity ↦ ok (record {
      meta = new_meta (cache_name sb) sb.meta.namespace (common_labels sb);
      access_modes = mode ∷ [];
      storage_request = quantity;
      storage_class = if is_empty class then none else some class;
      phase = [];
    })
  ]

  -- `func BuildCachePVC`
  unfoldable pub build_cache_claim : ScheduledBackup → Result (Option VolumeClaim)
  unfolding cache_settings build_claim
  build_cache_claim sb =
      if cache_enabled sb
      then (build_claim sb (cache_settings sb.spec.cache) >>= λ claim. ok (some claim))
      else ok none
