-- ===== src/Kube/Objects.antt =====
-- Secrets, Jobs, CronJobs and volume claims (k8s.io/api). Timestamps are in nanoseconds.
use borgbase_operator.Base.{ℕ, Text, Dict, Bool, List, Option, ℤ}
use borgbase_operator.Api.Meta.{ObjectMeta, ConditionStatus}
use borgbase_operator.Kube.Pod.{PodTemplate}

pub record Secret : Type 0 where
  pub meta : ObjectMeta
  pub type : Text
  pub entries : Dict Text

pub record JobSpec : Type 0 where
  pub ttl_seconds : Option ℕ
  pub backoff_limit : Option ℕ
  pub template : PodTemplate

pub record JobCondition : Type 0 where
  pub type : Text
  pub status : ConditionStatus
  pub message : Text
  pub last_transition_time : ℕ

pub record JobStatus : Type 0 where
  pub start_time : Option ℕ
  pub completion_time : Option ℕ
  pub active : ℕ
  pub succeeded : ℕ
  pub failed : ℕ
  pub conditions : List JobCondition

pub record Job : Type 0 where
  pub meta : ObjectMeta
  pub spec : JobSpec
  pub status : JobStatus

pub record JobTemplate : Type 0 where
  pub labels : Dict Text
  pub spec : JobSpec

pub data ConcurrencyPolicy : Type 0 where
  policy_unset policy_allow policy_forbid policy_replace : ConcurrencyPolicy

pub record CronJobSpec : Type 0 where
  pub schedule : Text
  pub time_zone : Option Text
  pub concurrency_policy : ConcurrencyPolicy
  pub suspend : Option Bool
  pub successful_jobs_history_limit : Option ℤ
  pub failed_jobs_history_limit : Option ℤ
  pub job_template : JobTemplate

pub record CronJobStatus : Type 0 where
  pub last_schedule_time : Option ℕ
  pub last_successful_time : Option ℕ
  -- the names of the running jobs
  pub active : List Text

pub record CronJob : Type 0 where
  pub meta : ObjectMeta
  pub spec : CronJobSpec
  pub status : CronJobStatus

pub record VolumeClaim : Type 0 where
  pub meta : ObjectMeta
  pub access_modes : List Text
  pub storage_request : Text
  pub storage_class : Option Text
  -- the phase of its status
  pub phase : Text
