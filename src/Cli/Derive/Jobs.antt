-- ===== src/Cli/Derive/Jobs.antt =====
-- runner.go: the Jobs that are derived from the CronJobs of the operator.
use borgbase_operator.Base.{
  if◌then◌else◌, ◌-◌, ◌≤◌, Text, codes, is_empty, length, length-append, length-take, take, List,
  [], ◌∷◌, ◌++◌, ◌≡◌, arith,
}
use borgbase_operator.Api.ScheduledBackup.{ScheduledBackup}
use borgbase_operator.Api.Repository.{Repository}
use borgbase_operator.Kube.Pod.{Container, PodSpec}
use borgbase_operator.Kube.Objects.{Job, CronJob}
use borgbase_operator.Backup.Tools.{Tools}
use borgbase_operator.Cli.Derive.{Place, job_name}
use borgbase_operator.Cli.Derive.Mounts.{volume_names, mount_names}

-- The names of the mounts of a pod's containers.
abbrev pub pod_mounts : List Container → List Text
pod_mounts [] = []
pod_mounts (c ∷ cs) = mount_names c.volume_mounts ++ pod_mounts cs

abbrev cron_pod : CronJob → PodSpec
cron_pod cron = cron.spec.job_template.spec.template.pod

-- The pod of a CronJob that the operator built has the one container `restic`, which mounts the
-- volumes of the pod.
pub record OneContainer (pod : PodSpec) : Type 0 where
  pub container : Container
  pub only : pod.containers ≡ container ∷ []
  pub called : container.name ≡ codes "restic"
  pub matched : mount_names container.volume_mounts ≡ volume_names pod.volumes

abbrev lone : Container → Place
lone c = record { before = []; here = c; after = [] }

-- A derived Job mounts exactly the volumes of its pod.
abbrev pub MountsAll : Job → Type 0
MountsAll job =
    pod_mounts job.spec.template.pod.containers ≡ volume_names job.spec.template.pod.volumes

suffix_of : Text → Text → Text
suffix_of purpose random =
    codes "-corg-" ++ ((if is_empty purpose then codes "run" else purpose) ++ (codes "-" ++ random))

length-suffix_of :
    (purpose random : Text)
    → length purpose ≤ 40
    → length random ≡ 5
    → length (suffix_of purpose random) ≤ 52
unfolding suffix_of
length-suffix_of [] random h five = omega (arith, length-append (codes "run") (codes "-" ++ random))
length-suffix_of (c ∷ p) random h five = omega (arith, length-append (c ∷ p) (codes "-" ++ random))

-- The name of a derived Job has at most 52 bytes, for every backup, if the purpose has at most 40
-- bytes and the random part has 5.
pub length-job_name :
    (sb : ScheduledBackup) (purpose random : Text)
    → length purpose ≤ 40
    → length random ≡ 5
    → length (job_name sb purpose random) ≤ 52
length-job_name sb purpose random h five =
    let short = length-suffix_of purpose random h five in
    let suffix = suffix_of purpose random in
    unfold job_name suffix_of in
    ground (
      arith,
      short,
      length-append (take (52 - length suffix) sb.meta.name) suffix,
      length-append sb.meta.name suffix,
      length-take (52 - length suffix) sb.meta.name,
    )
