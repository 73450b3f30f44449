-- ===== src/Backup/Workload/Pods/Placement.antt =====
-- internal/backup/cronjob.go: the volumes and the affinity of a pod.
use borgbase_operator.Base.{
  Text, codes, Dict, true, false, Option, none, some, List, [], ◌∷◌, ◌++◌, if◌then◌else◌,
}
use borgbase_operator.Api.ScheduledBackup.{
  ScheduledBackup, DatabaseEngine, engine_mariadb, engine_cnpg, engine_unknown, DatabaseSpec,
  effective_secret_name, database_mount_path, VolumeSpec, effective_mount_path,
}
use borgbase_operator.Kube.Pod.{Volume, VolumeMount, Affinity}
use borgbase_operator.Backup.Workload.Pods.Environment.{cache_name, cache_enabled}

abbrev no_volume : Volume
no_volume = record { name = []; secret = none; claim = none; empty_dir = false }

cache_volumes : ScheduledBackup → List Volume × List VolumeMount
cache_volumes sb =
    if cache_enabled sb
    then (
      record no_volume {
        name = codes "cache";
        claim = some (record { claim_name = cache_name sb; read_only = false });
      }
          ∷ [],
      record { name = codes "cache"; mount_path = codes "/cache"; read_only = false } ∷ [],
    )
    else ([], [])

database_volumes : Option DatabaseSpec → List Volume × List VolumeMount
database_volumes none = ([], [])
database_volumes (some db) = (
  record no_volume { name = codes "db-credentials"; secret = some (effective_secret_name db) } ∷ [],
  record { name = codes "db-credentials"; mount_path = database_mount_path db; read_only = true }
      ∷ [],
)

data_volumes : Option VolumeSpec → List Volume × List VolumeMount
data_volumes none = ([], [])
data_volumes (some v) = (
  record no_volume {
    name = codes "data";
    claim = some (record { claim_name = v.existing_claim; read_only = v.read_only });
  }
      ∷ [],
  record { name = codes "data"; mount_path = effective_mount_path v; read_only = v.read_only } ∷ [],
)

-- `func buildVolumes`
unfoldable pub build_volumes : ScheduledBackup → List Volume × List VolumeMount
unfolding cache_volumes database_volumes data_volumes
build_volumes sb =
    let (cache, cache_mounts) = cache_volumes sb in
    let (database, database_mounts) = database_volumes sb.spec.database in
    let (data_, data_mounts) = data_volumes sb.spec.volume in
    (cache ++ (database ++ data_), cache_mounts ++ (database_mounts ++ data_mounts))

abbrev hostname_topology_key : Text
hostname_topology_key = codes "kubernetes.io/hostname"

-- `func hardPodAffinity`
abbrev hard_pod_affinity : Dict Text → Affinity
hard_pod_affinity labels = record {
  other = [];
  pod_affinity = some (record {
    required = some (record { topology_key = hostname_topology_key; match_labels = labels } ∷ []);
    preferred = none;
  });
}

near : Text → Text → Affinity
near name controller = hard_pod_affinity (
    (codes "app.kubernetes.io/name", name)
    ∷ ((codes "app.kubernetes.io/controller", controller) ∷ []))

engine_affinity : DatabaseEngine → Option Affinity
unfolding near
engine_affinity engine_mariadb = some (near (codes "mariadb") (codes "mariadb"))
engine_affinity engine_cnpg = some (record {
  other = [];
  pod_affinity = some (record {
    required = none;
    preferred = some (
        record {
          weight = 100;
          term = record {
            topology_key = hostname_topology_key;
            match_labels =
                (codes "cnpg.io/cluster", codes "postgresql")
                ∷ ((codes "cnpg.io/instanceRole", codes "primary") ∷ []);
          };
        }
        ∷ []);
  });
})
engine_affinity (engine_unknown _) = none

default_affinity : Text → Option VolumeSpec → Option DatabaseSpec → Option Affinity
unfolding near engine_affinity
default_affinity namespace (some _) db = some (near namespace (codes "app"))
default_affinity namespace none none = none
default_affinity namespace none (some db) = engine_affinity db.engine

-- `func buildAffinity`
unfoldable pub build_affinity : ScheduledBackup → Option Affinity
unfolding default_affinity
build_affinity sb = elim sb.spec.affinity [
  | some a ↦ some a
  | none ↦ default_affinity sb.meta.namespace sb.spec.volume sb.spec.database
]
