-- ===== src/Tests/Data.antt =====
-- Objects and environments that the examples share.
use borgbase_operator.Base.{
  ℕ, Text, codes, text_eq, any, true, false, not, none, some, [], ◌∷◌, keep, pos,
}
use borgbase_operator.Errors.{api_error, not_found, plain, Result, ok, err}
use borgbase_operator.Api.Meta.{ObjectMeta}
use borgbase_operator.Api.Repository.{Repository, policy_delete}
use borgbase_operator.Api.ScheduledBackup.{ScheduledBackup}
use borgbase_operator.Borgbase.Types.{Repo}
use borgbase_operator.Borgbase.Client.{Http, Client}
use borgbase_operator.Kube.Objects.{Secret, policy_forbid}
use borgbase_operator.Backup.Tools.{Tools}
use borgbase_operator.Backup.Workload.Pods.{Config}
use borgbase_operator.Controller.Env.{Env}
use borgbase_operator.Controller.Repository.Base.{RepositoryReconciler, finalizer_name}

abbrev pub meta_named : Text → ℕ → ObjectMeta
meta_named name created = record {
  name = name;
  namespace = codes "prod";
  uid = name;
  labels = [];
  annotations = (codes "borgbase.clevyr.com/trigger-at", codes "now") ∷ [];
  generation = 1;
  creation_timestamp = created;
  deletion_timestamp = none;
  finalizers = finalizer_name ∷ [];
  owner_references = [];
}

abbrev pub sample_remote : Repo
sample_remote = record {
  id = codes "abc";
  name = codes "prod";
  region = codes "us";
  format = codes "restic";
  repo_path = [];
  quota = pos 1000;
  quota_enabled = false;
  alert_days = pos 0;
  append_only = false;
  current_usage = record { negative = false; magnitude = 0; scale = 0 };
  htpasswd = codes "token";
  server = record { hostname = codes "abc.repo.borgbase.com"; region = codes "us" };
}

-- A Repository that an earlier pass recorded, to be deleted with its BorgBase repository.
abbrev pub sample_repository : Repository
sample_repository = record {
  meta = meta_named (codes "db") 5;
  spec = record {
    interval = none;
    suspend = false;
    deletion_policy = policy_delete;
    api_token_secret_ref = none;
    existing_repository_id = [];
    password_secret_ref = none;
    repository_name = [];
    region = codes "us";
    quota_gib = some (pos 50);
    alert_days = some (pos 3);
    append_only = true;
    secret_name = [];
  };
  status = record {
    conditions = [];
    observed_generation = 1;
    repository_id = codes "abc";
    adopted = false;
    initialized = true;
    server = [];
    secret_name = [];
    current_usage = [];
    quota = [];
  };
}

abbrev pub sample_secret : Secret
sample_secret = record {
  meta = meta_named (codes "db-borgbase") 6;
  type = [];
  entries = (codes "RESTIC_PASSWORD", codes "hunter2") ∷ [];
}

abbrev pub sample_reconciler : RepositoryReconciler
sample_reconciler = record {
  default_token_namespace = codes "system";
  default_token_name = codes "token";
  default_token_key = codes "key";
  backup_image = codes "restic";
}

abbrev pub sample_backup : ScheduledBackup
sample_backup = record {
  meta = meta_named (codes "nightly") 7;
  spec = record {
    repository_ref = codes "db";
    schedule = codes "@daily";
    time_zone = [];
    suspend = false;
    concurrency_policy = policy_forbid;
    image = codes "restic:1";
    sources = [];
    script = codes "restic backup .";
    retention = none;
    retry_lock = none;
    env = (codes "B", codes "2") ∷ ((codes "A", codes "1") ∷ []);
    database = none;
    volume = some (record { existing_claim = codes "files"; mount_path = []; read_only = true });
    cache = none;
    healthchecks = none;
    affinity = none;
    pod_security_context = none;
    container_security_context = none;
    pod_labels = [];
    resources = none;
    successful_jobs_history_limit = none;
    failed_jobs_history_limit = none;
  };
  status = record {
    conditions = [];
    observed_generation = 1;
    effective_schedule = [];
    last_schedule_time = none;
    last_successful_time = none;
    active = 0;
    last_trigger_time = some 9000000000;
    last_trigger_job = [];
    history = [];
  };
}

-- A backup of the same slug, created later.
abbrev pub later_backup : ScheduledBackup
later_backup = record sample_backup { meta = meta_named (codes "weekly") 8 }

abbrev pub sample_tools : Tools
sample_tools = record {
  parse_duration = λ _. err (plain (codes "invalid duration"));
  duration_text = λ _. codes "5m0s";
  parse_rfc3339 = λ _. ok 9000000000;
  parse_quantity = λ q. ok q;
}

abbrev pub sample_config : Config
sample_config = record {
  image = [];
  healthchecks = record {
    enabled = true;
    api_url = codes "https://hc.example";
    auto_create = false;
  };
  cache_storage_class = [];
}

abbrev missing : {A : Type 0} → Result A
missing = err (api_error not_found (codes "not found"))

-- A cluster with one Repository, its Secret and its tokens, where BorgBase refuses to delete.
abbrev pub sample_env : Env
sample_env = record {
  set_status_condition = λ cs c. c ∷ cs;
  contains_finalizer = λ meta f. any (text_eq f) meta.finalizers;
  add_finalizer = λ meta f. record meta { finalizers = f ∷ meta.finalizers };
  remove_finalizer =
      λ meta f. record meta { finalizers = keep (λ g. not (text_eq f g)) meta.finalizers };
  set_controller_reference = λ owner obj. ok (record obj {
    owner_references =
        record { kind = codes "Owner"; uid = owner.uid; name = owner.name; controller = some true }
        ∷ [];
  });
  get_controller_of = λ _. none;
  same_secret = λ _ _. false;
  same_repository_status = λ _ _. false;
  same_backup_status = λ _ _. false;
  got_repository = λ _ _ _. ok sample_repository;
  got_live_repository = λ _ _ _. ok sample_repository;
  listed_repositories = λ _. ok (sample_repository ∷ []);
  patched_repository = λ _ o. ok o;
  patched_repository_status = λ _ _. ok tt;
  got_secret = λ _ _ _. ok sample_secret;
  created_secret = λ _ _. ok tt;
  updated_secret = λ _ _. ok tt;
  got_job = λ _ _ _. missing;
  created_job = λ _ _. ok tt;
  deleted_job = λ _ _. ok tt;
  listed_jobs = λ _ _. ok [];
  got_backup = λ _ _ _. ok sample_backup;
  listed_backups = λ _ _. ok (sample_backup ∷ (later_backup ∷ []));
  patched_backup_status = λ _ _. ok tt;
  got_cron_job = λ _ _ _. missing;
  created_cron_job = λ _ _. ok (codes "uid");
  updated_cron_job = λ _ _. ok tt;
  got_claim = λ _ _ _. missing;
  created_claim = λ _ _. ok tt;
  deleted_claim = λ _ _. ok tt;
  borg_got = λ _ _ _. ok sample_remote;
  borg_found = λ _ _ _. ok sample_remote;
  borg_added = λ _ _ _. ok sample_remote;
  borg_edited = λ _ _ _ _. ok sample_remote;
  borg_deleted = λ _ _ _. err (plain (codes "borgbase: request failed"));
  password_generated = λ _. ok (codes "generated");
  now = λ _. 100;
  patched_secret = λ _ _. ok tt;
  deleted_secret = λ _ _. ok tt;
  patched_backup = λ _ _. ok tt;
  listed_repositories_in = λ _ _. ok (sample_repository ∷ []);
  listed_pods = λ _ _ _ _. ok [];
  streamed_logs = λ _ _ _. ok tt;
  printed = λ _ _. ok tt;
  printed_error = λ _ _. ok tt;
  runner_made = λ _. ok tt;
  line_read = λ _. ok (codes "nightly\n");
  file_changed = λ _ _. ok tt;
  random_text = λ _. codes "abcde";
  attempts = λ _ _. 3;
  deadline_error = λ _. plain (codes "context deadline exceeded");
}

-- A server that knows one repository by its name, and none by its ID.
abbrev pub sample_http : Http
sample_http = record {
  build_request = λ r. ok r;
  send = λ _. ok (record { status_code = 200; status_text = codes "200 OK"; body = codes "{}" });
  decode_envelope = λ t. ok (record { raw_data = t; errors = [] });
  decode_repo = λ _. ok none;
  decode_repo_list = λ _. ok (sample_remote ∷ []);
  decode_repo_added = λ _. ok (some sample_remote);
  decode_repo_edited = λ _. ok (some sample_remote);
  decode_ok = λ _. ok (some true);
  matches_not_found = λ _. false;
}

abbrev pub sample_client : Client
sample_client = record { endpoint = []; token = codes "secret" }
