-- ===== src/Backup/Workload/Pods/Environment.antt =====
-- internal/backup/cronjob.go: the configuration, the monitoring and the environment of a pod.
use borgbase_operator.Base.{
  Text, codes, is_empty, Dict, text_lt, Bool, true, false, ◌||◌, Option, none, some, List, [], ◌∷◌,
  ◌++◌, get_or_default, if◌then◌else◌,
}
use borgbase_operator.Errors.{plain, Result, ok, err, ◌>>=◌}
use borgbase_operator.Api.ScheduledBackup.{
  ScheduledBackup, engine_mariadb, DatabaseSpec, HealthchecksSpec,
}
use borgbase_operator.Kube.Pod.{EnvVar, field_ref}
use borgbase_operator.Healthchecks.{HealthchecksConfig, Overrides, Reporter, resolve, reporter_env}

-- `Config`
pub record Config : Type 0 where
  pub image : Text
  pub healthchecks : HealthchecksConfig
  pub cache_storage_class : Text

-- `func CacheName`
abbrev pub cache_name : ScheduledBackup → Text
cache_name sb = sb.meta.name ++ codes "-cache"

-- `func cacheEnabled`
unfoldable pub cache_enabled : ScheduledBackup → Bool
cache_enabled sb = elim sb.spec.cache [ none ↦ true | some c ↦ get_or_default c.enabled true ]

-- `sb.Spec.Database.Engine == DatabaseEngineMariaDB`
abbrev pub is_mariadb : Option DatabaseSpec → Bool
is_mariadb none = false
is_mariadb (some db) = elim db.engine [ engine_mariadb ↦ true | _ ↦ false ]

overrides_of : Option HealthchecksSpec → Overrides
overrides_of none = record {
  enabled = none;
  create = none;
  api_url = [];
  slug = [];
  ping_key_ref = none;
  uuid_ref = none;
}
overrides_of (some hc) = record {
  enabled = hc.enabled;
  create = hc.create;
  api_url = hc.api_url;
  slug = hc.slug;
  ping_key_ref = hc.ping_key_secret_ref;
  uuid_ref = hc.uuid_secret_ref;
}

-- `func Reporter`
unfoldable pub reporter_of : ScheduledBackup → Config → Reporter
unfolding overrides_of
reporter_of sb cfg = resolve cfg.healthchecks (overrides_of sb.spec.healthchecks) sb.meta.namespace

abbrev pub variable : Text → Text → EnvVar
variable name value = record { name = name; value = value; value_from = none }

-- The variables of a MariaDB database.
database_env : Option DatabaseSpec → Result (List EnvVar)
database_env none = ok []
database_env (some db) =
    if is_mariadb (some db)
    then (if is_empty db.host || (is_empty db.name || is_empty db.user)
        then err (
            plain (
              codes
                "database.host, database.name and database.user are required for the mariadb engine"))
        else ok (
            variable (codes "DB_HOST") db.host
            ∷ (variable (codes "DB_DATABASE") db.name
                ∷ (variable (codes "DB_USERNAME") db.user ∷ []))))
    else ok []

-- `slices.Sorted(maps.Keys(m))`, with the values.
unfoldable pub insert_sorted : Text × Text → Dict Text → Dict Text
insert_sorted e [] = e ∷ []
insert_sorted (k, v) ((j, w) ∷ m) =
    let rest = insert_sorted (k, v) m in
    if text_lt j k then (j, w) ∷ rest else (k, v) ∷ ((j, w) ∷ m)

unfoldable pub sorted_entries : Dict Text → Dict Text
unfolding insert_sorted
sorted_entries [] = []
sorted_entries (e ∷ m) = insert_sorted e (sorted_entries m)

user_env : Dict Text → List EnvVar
user_env [] = []
user_env ((k, v) ∷ m) = variable k v ∷ user_env m

-- `func buildEnv`
unfoldable pub build_env : ScheduledBackup → Config → Result (List EnvVar)
unfolding database_env user_env sorted_entries
build_env sb cfg = database_env sb.spec.database >>= λ database.
    reporter_env (reporter_of sb cfg) >>= λ checks. ok (
      variable (codes "TZ") sb.spec.time_zone
      ∷ (record {
        name = codes "RESTIC_HOST";
        value = [];
        value_from = some (field_ref (codes "metadata.namespace"));
      }
          ∷ (database ++ (checks ++ user_env (sorted_entries sb.spec.env)))))
