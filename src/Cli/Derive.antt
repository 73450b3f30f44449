-- ===== src/Cli/Derive.antt =====
-- internal/cli/runner/runner.go: how a one-off Job is derived from the CronJob of a backup.
pub mod Mounts
pub mod Jobs
use borgbase_operator.Base.{
  ℕ, ◌+◌, ◌-◌, ltb, Text, codes, is_empty, text_eq, Dict, lookup, insert, length, take, keep, Bool,
  true, false, not, Option, none, some, List, [], ◌∷◌, ◌++◌, map, if◌then◌else◌,
}
use borgbase_operator.Errors.{plain, Result, ok, err}
use borgbase_operator.Api.ScheduledBackup.{ScheduledBackup}
use borgbase_operator.Kube.Pod.{
  ClaimSource, Volume, VolumeMount, PodAffinity, Affinity, Container, PodSpec,
}
use borgbase_operator.Kube.Objects.{Job, CronJob}
use borgbase_operator.Controller.Repository.Credentials.{empty_meta}

abbrev pub container_name : Text
container_name = codes "restic"

abbrev pub cache_volume : Text
cache_volume = codes "cache"

abbrev pub data_volume : Text
data_volume = codes "data"

abbrev pub db_volume : Text
db_volume = codes "db-credentials"

abbrev pub ttl_after : ℕ
ttl_after = 600

-- `type Options`
pub record Options : Type 0 where
  pub command : List Text
  pub purpose : Text
  pub mount_data : Bool
  pub mount_cache : Bool
  pub mount_database : Bool
  pub image : Text
  pub tty : Bool
  pub keep_job : Bool
  pub extra_volumes : List Volume
  pub extra_mounts : List VolumeMount

-- `func filterVolumes` and `func filterMounts`
abbrev pub filter_volumes : List Volume → Text → List Volume
filter_volumes vs name = keep (λ v. not (text_eq v.name name)) vs

abbrev pub filter_mounts : List VolumeMount → Text → List VolumeMount
filter_mounts ms name = keep (λ m. not (text_eq m.name name)) ms

-- A container with those before it and those after it: a pointer into the list.
pub record Place : Type 0 where
  pub before : List Container
  pub here : Container
  pub after : List Container

abbrev pub containers_of : Place → List Container
containers_of p = p.before ++ (p.here ∷ p.after)

unfoldable pub named_container : List Container → Option Place
named_container [] = none
named_container (c ∷ cs) =
    let later : Option Place = elim (named_container cs) [
      | none ↦ none
      | some p ↦ some (record p { before = c ∷ p.before })
    ] in
    if text_eq c.name container_name
    then some (record { before = []; here = c; after = cs })
    else later

unfoldable pub only_container : List Container → Option Place
only_container [] = none
only_container (c ∷ []) = some (record { before = []; here = c; after = [] })
only_container (c ∷ (d ∷ cs)) = none

-- `func findContainer`
unfoldable pub find_container : List Container → Option Place
unfolding named_container only_container
find_container cs = elim (named_container cs) [ some p ↦ some p | none ↦ only_container cs ]

-- `func useEphemeralCache`, on one volume.
abbrev pub ephemeral : Volume → Volume
ephemeral v = if text_eq v.name cache_volume then record v { claim = none; empty_dir = true } else v

-- `func mountDataWritable`, on one volume and on one mount.
abbrev writable_claim : Option ClaimSource → Option ClaimSource
writable_claim none = none
writable_claim (some c) = some (record c { read_only = false })

abbrev pub writable_volume : Volume → Volume
writable_volume v =
    if text_eq v.name data_volume then record v { claim = writable_claim v.claim } else v

abbrev pub writable_mount : VolumeMount → VolumeMount
writable_mount m = if text_eq m.name data_volume then record m { read_only = false } else m

-- The affinity that `dropData` leaves.
abbrev without_required : PodAffinity → Option PodAffinity
without_required p = elim p.preferred [
  | none ↦ none
  | some terms ↦ some (record { required = none; preferred = some terms })
]

abbrev pub drop_required : Option Affinity → Option Affinity
drop_required none = none
drop_required (some a) = elim a.pod_affinity [
  | none ↦ some a
  | some p ↦ some (record a { pod_affinity = without_required p })
]

-- A pod's volumes and affinity, and its container, as `Build` changes them.
pub record Parts : Type 0 where
  pub volumes : List Volume
  pub mounts : List VolumeMount
  pub affinity : Option Affinity

abbrev pub choose_cache : Options → Parts → Parts
choose_cache opts p = if opts.mount_cache then p else record p { volumes = map ephemeral p.volumes }

-- `func mountDataWritable`, or `func dropData`
abbrev pub choose_data : Options → Parts → Parts
choose_data opts p =
    if opts.mount_data
    then record p { volumes = map writable_volume p.volumes; mounts = map writable_mount p.mounts }
    else record {
      volumes = filter_volumes p.volumes data_volume;
      mounts = filter_mounts p.mounts data_volume;
      affinity = drop_required p.affinity;
    }

abbrev pub choose_database : Options → Parts → Parts
choose_database opts p = if opts.mount_database then p else record p {
  volumes = filter_volumes p.volumes db_volume;
  mounts = filter_mounts p.mounts db_volume;
}

abbrev pub add_extras : Options → Parts → Parts
add_extras opts p = record p {
  volumes = p.volumes ++ opts.extra_volumes;
  mounts = p.mounts ++ opts.extra_mounts;
}

unfoldable pub adjust : Options → Parts → Parts
adjust opts p = add_extras opts (choose_database opts (choose_data opts (choose_cache opts p)))

abbrev pub idle_command : List Text
idle_command = codes "sleep" ∷ (codes "infinity" ∷ [])

abbrev pub parts_of : PodSpec → Container → Parts
parts_of pod c = record { volumes = pod.volumes; mounts = c.volume_mounts; affinity = pod.affinity }

-- The container of the derived Job, with its new mounts.
unfoldable pub derived_container : Options → Container → List VolumeMount → Container
derived_container opts c mounts = record c {
  command = if opts.tty then idle_command else opts.command;
  args = [];
  stdin = if opts.tty then true else c.stdin;
  tty = if opts.tty then true else c.tty;
  image = if is_empty opts.image then c.image else opts.image;
  volume_mounts = mounts;
}

unfoldable pub job_labels : Dict Text → Dict Text
job_labels given =
    let labels : Dict Text = (codes "app.kubernetes.io/managed-by", codes "corg") ∷ [] in
    elim (lookup (codes "mariadb-client") given) [
      | none ↦ labels
      | some v ↦ insert (codes "mariadb-client") v labels
    ]

-- `func jobName`, with the random characters. Only a suffix of more than 52 bytes would make the
-- limit negative.
unfoldable pub job_name : ScheduledBackup → Text → Text → Text
job_name sb purpose random =
    let suffix =
      codes "-corg-"
      ++ ((if is_empty purpose then codes "run" else purpose) ++ (codes "-" ++ random)) in
    let limit = 52 - length suffix in
    (if ltb limit (length sb.meta.name) then take limit sb.meta.name else sb.meta.name) ++ suffix

abbrev pub placed_job : ScheduledBackup → Options → Text → CronJob → Place → Job
placed_job sb opts name cron p =
    let spec = cron.spec.job_template.spec in
    let pod = spec.template.pod in
    let parts = adjust opts (parts_of pod p.here) in
    let labels = job_labels spec.template.labels in
    record {
      meta = record empty_meta { name = name; namespace = sb.meta.namespace; labels = labels };
      spec = record {
        ttl_seconds = some ttl_after;
        backoff_limit = some 0;
        template = record {
          labels = labels;
          pod = record pod {
            restart_policy = codes "Never";
            containers =
                containers_of (record p { here = derived_container opts p.here parts.mounts });
            volumes = parts.volumes;
            affinity = parts.affinity;
          };
        };
      };
      status = record {
        start_time = none;
        completion_time = none;
        succeeded = 0;
        active = 0;
        failed = 0;
        conditions = [];
      };
    }

-- `func (r *Runner) Build`, after the CronJob is read: the Job of each random part of its name.
unfoldable pub derive_job : ScheduledBackup → Options → CronJob → Result (Text → Job)
unfolding find_container adjust job_name
derive_job sb opts cron =
    elim (find_container cron.spec.job_template.spec.template.pod.containers) [
      | none ↦ err (
          plain (codes "CronJob " ++ (sb.meta.name ++ codes "-backup has no \"restic\" container")))
      | some p ↦ ok (λ random. placed_job sb opts (job_name sb opts.purpose random) cron p)
    ]
