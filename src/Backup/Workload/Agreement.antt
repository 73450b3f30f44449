-- ===== src/Backup/Workload/Agreement.antt =====
-- cronjob.go: how the parts of a backup's objects compare with each other.
use borgbase_operator.Base.{
  ℕ, zero, suc, ◌+◌, ◌-◌, ◌*◌, ◌/◌, ◌%◌, ◌^◌, ◌≤◌, ◌<◌, Text, codes, length, take, length-append,
  length-take, format_onto, format_base, digit_char, map, [], ◌∷◌, ◌++◌, ◌≡◌, ◌∙◌, sym, ap, arith,
}
use borgbase_operator.Errors.{Result, ok, err, bind-ok}
use borgbase_operator.Api.Repository.{Repository}
use borgbase_operator.Api.ScheduledBackup.{ScheduledBackup}
use borgbase_operator.Kube.Pod.{Volume, VolumeMount}
use borgbase_operator.Kube.Objects.{Job, JobSpec, JobTemplate, CronJob}
use borgbase_operator.Backup.Tools.{Tools}
use borgbase_operator.Backup.Schedule.{resolve_schedule}
use borgbase_operator.Backup.Workload.Pods.{Config, build_volumes, build_job_template}
use borgbase_operator.Backup.Workload.{
  manual_job_name, manual_suffix, build_manual_job, build_cron_job,
}

-- The container of a backup mounts exactly the volumes of its pod, in the same order: no mount
-- is without its volume, and no volume is left unmounted.
pub build_volumes-mounts :
    (sb : ScheduledBackup)
    → map (λ (m : VolumeMount). m.name) (build_volumes sb).1
      ≡ map (λ (v : Volume). v.name) (build_volumes sb).0
unfolding build_volumes
build_volumes-mounts sb = ground arith

-- 36 ^ (k + 1)
abbrev cap : ℕ → ℕ
cap zero = 36
cap (suc k) = 36 * cap k

length-format_onto :
    (fuel n k : ℕ) (out : Text)
    → n < cap k
    → length (format_onto fuel 36 n out) ≤ suc k + length out
unfolding format_onto
length-format_onto zero n k out h = omega arith
length-format_onto (suc fuel) n zero out h = ground arith
length-format_onto (suc fuel) n (suc k) out h =
    let below : n / 36 < cap k = omega arith in
    let rest = length-format_onto fuel (n / 36) k (digit_char (n % 36) ∷ out) below in ground arith

-- The name of a manual Job has at most 52 bytes, for every backup and every time below 2 ^ 64
-- seconds.
pub length-manual_job_name :
    (sb : ScheduledBackup) (at : ℕ) → at / 1000000000 < 2 ^ 64 → length (manual_job_name sb at) ≤ 52
unfolding manual_job_name format_base
length-manual_job_name sb at h =
    let digits : length (manual_suffix at) ≤ 21 = omega (
      arith,
      length-format_onto (suc (at / 1000000000)) (at / 1000000000) 12 [] (omega arith),
      length-append (codes "-manual-") (format_base 36 (at / 1000000000)),
    ) in
    ground (
      arith,
      digits,
      length-append (take (52 - length (manual_suffix at)) sb.meta.name) (manual_suffix at),
      length-append sb.meta.name (manual_suffix at),
      length-take (52 - length (manual_suffix at)) sb.meta.name,
    )

-- The specification of a Job that was built.
abbrev job_spec_of : JobSpec → Result Job → JobSpec
job_spec_of default (ok job) = job.spec
job_spec_of default (err _) = default

abbrev cron_spec_of : JobSpec → Result CronJob → JobSpec
cron_spec_of default (ok cron) = cron.spec.job_template.spec
cron_spec_of default (err _) = default

module _ (tools : Tools) (cfg : Config) (sb : ScheduledBackup) (repo : Repository) where
  manual_spec :
      (t : JobTemplate) (at : ℕ)
      → build_job_template tools cfg sb repo ≡ ok t
      → (job : Job) → build_manual_job tools cfg sb repo at ≡ ok job
      → t.spec ≡ job.spec
  unfolding build_manual_job
  manual_spec t at q job built = ap (job_spec_of t.spec) (rw (q, build_manual_job) at built)

  scheduled_spec :
      (t : JobTemplate)
      → build_job_template tools cfg sb repo ≡ ok t
      → (cron : CronJob) → build_cron_job tools cfg sb repo ≡ ok cron
      → t.spec ≡ cron.spec.job_template.spec
  unfolding build_cron_job
  scheduled_spec t q cron built =
      let (schedule, (_, chain)) =
        bind-ok
          (resolve_schedule tools sb.spec.schedule
            (sb.meta.namespace ++ (codes "/" ++ sb.meta.name)))
          _ cron built in
      ap (cron_spec_of t.spec) (rw q at chain)

  manual_template :
      (at : ℕ) (job : Job)
      → build_manual_job tools cfg sb repo at ≡ ok job
      → (t : JobTemplate) × (build_job_template tools cfg sb repo ≡ ok t)
  unfolding build_manual_job
  manual_template at job built =
      let (t, (got, _)) = bind-ok (build_job_template tools cfg sb repo) _ job built in (t, got)

-- A manual Job runs what the CronJob of the same backup runs: if both are built, their pod
-- templates and their other settings are the same.
pub build_manual_job-template :
    (tools : Tools) (cfg : Config) (sb : ScheduledBackup) (repo : Repository) (at : ℕ) (job : Job)
    (cron : CronJob)
    → build_manual_job tools cfg sb repo at ≡ ok job
    → build_cron_job tools cfg sb repo ≡ ok cron
    → job.spec ≡ cron.spec.job_template.spec
build_manual_job-template tools cfg sb repo at job cron built scheduled =
    let (t, got) = manual_template tools cfg sb repo at job built in
    sym (manual_spec tools cfg sb repo t at got job built)
    ∙ scheduled_spec tools cfg sb repo t got cron scheduled
