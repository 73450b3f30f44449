-- ===== src/Backup/Workload/Pods.antt =====
-- internal/backup/cronjob.go: the pod that scheduled and manual backups run.
mod Environment
mod Placement
unfoldable pub use Environment.*
unfoldable pub use Placement.*
use borgbase_operator.Base.{
  Text, codes, is_empty, Dict, insert, copy, text_lt, Bool, true, false, ◌||◌, Option, none, some,
  List, [], ◌∷◌, ◌++◌, get_or_default, if◌then◌else◌,
}
use borgbase_operator.Errors.{plain, Result, ok, err, ◌>>=◌}
use borgbase_operator.Api.Repository.{Repository, secret_name_of}
use borgbase_operator.Api.ScheduledBackup.{
  ScheduledBackup, DatabaseEngine, engine_mariadb, engine_cnpg, engine_unknown, DatabaseSpec,
  effective_secret_name, database_mount_path, VolumeSpec, effective_mount_path, HealthchecksSpec,
}
use borgbase_operator.Kube.Pod.{
  EnvVar, field_ref, Volume, VolumeMount, Resources, PodSecurity, runtime_default,
  ContainerSecurity, drop_all, Affinity, Container,
}
use borgbase_operator.Kube.Objects.{JobTemplate}
use borgbase_operator.Healthchecks.{
  HealthchecksConfig, Overrides, Reporter, resolve, wrap_command, reporter_env,
}
use borgbase_operator.Backup.Tools.{Tools}
use borgbase_operator.Backup.Script.{render}

-- `func commonLabels`
abbrev pub common_labels : ScheduledBackup → Dict Text
common_labels sb =
    (codes "app.kubernetes.io/name", sb.meta.name)
    ∷ ((codes "app.kubernetes.io/managed-by", codes "borgbase-operator") ∷ [])

-- `func podLabels`
unfoldable pub pod_labels : ScheduledBackup → Dict Text
pod_labels sb =
    let labels =
      if is_mariadb sb.spec.database
      then insert (codes "mariadb-client") (codes "true") (common_labels sb)
      else common_labels sb in
    copy labels sb.spec.pod_labels

-- `func resources`
abbrev resources : ScheduledBackup → Resources
resources sb = get_or_default sb.spec.resources (record {
  requests = (codes "cpu", codes "100m") ∷ ((codes "memory", codes "256Mi") ∷ []);
  limits = (codes "cpu", codes "1000m") ∷ ((codes "memory", codes "1Gi") ∷ []);
})

-- `func podSecurityContext`
abbrev pub pod_security_context : ScheduledBackup → PodSecurity
pod_security_context sb = get_or_default sb.spec.pod_security_context runtime_default

-- `func containerSecurityContext`
abbrev pub container_security_context : ScheduledBackup → ContainerSecurity
container_security_context sb = get_or_default sb.spec.container_security_context drop_all

-- `func buildCommand`
abbrev build_command : ScheduledBackup → Config → Text → List Text
build_command sb cfg script =
    wrap_command (reporter_of sb cfg) (codes "sh" ∷ (codes "-c" ∷ (script ∷ [])))

abbrev working_dir : Option VolumeSpec → Text
working_dir none = []
working_dir (some v) = effective_mount_path v

abbrev container_of : ScheduledBackup → Repository → Config → Text → Text → List EnvVar → Container
container_of sb repo cfg script image env =
    let (_, mounts) = build_volumes sb in
    record {
      name = codes "restic";
      image = image;
      command = build_command sb cfg script;
      args = [];
      working_dir = working_dir sb.spec.volume;
      env = env;
      env_from = record { secret_ref = some (secret_name_of repo) } ∷ [];
      volume_mounts = mounts;
      resources = resources sb;
      security = container_security_context sb;
      stdin = false;
      tty = false;
    }

module _ (tools : Tools) (cfg : Config) where
  -- `func BuildJobTemplate`
  unfoldable pub build_job_template : ScheduledBackup → Repository → Result JobTemplate
  build_job_template sb repo = render tools sb.spec >>= λ script.
      (let image = if is_empty sb.spec.image then cfg.image else sb.spec.image in
        if is_empty image
        then err (plain (codes "no backup image configured"))
        else (build_env sb cfg >>= λ env. ok (record {
          labels = common_labels sb;
          spec = record {
            ttl_seconds = some 3600;
            backoff_limit = some 0;
            template = record {
              labels = pod_labels sb;
              pod = record {
                restart_policy = codes "Never";
                containers = container_of sb repo cfg script image env ∷ [];
                volumes = (build_volumes sb).0;
                affinity = build_affinity sb;
                automount_token = some false;
                security = pod_security_context sb;
              };
            };
          };
        })))
