-- ===== src/Controller/Env.antt =====
-- What a reconciler or a command calls: its requests to the Kubernetes API, to BorgBase and to the system, and
-- the environment that answers them. An answer is a function of the requests made before it, the
-- newest first, so that the environment may change between two requests in any way.
use borgbase_operator.Base.{ℕ, Text, Bool, List, Option}
use borgbase_operator.Errors.{Err, Result}
use borgbase_operator.Api.Meta.{ObjectMeta, OwnerReference, Condition}
use borgbase_operator.Api.Repository.{Repository}
use borgbase_operator.Api.ScheduledBackup.{ScheduledBackup}
use borgbase_operator.Borgbase.Types.{Repo, AddOptions, EditOptions}
use borgbase_operator.Kube.Objects.{Secret, Job, CronJob, VolumeClaim}
use borgbase_operator.Kube.Running.{Pod}

pub data EventType : Type 0 where
  event_normal event_warning : EventType

-- A change of the files of this machine, each with its path.
pub data FileChange : Type 0 where
  make_dirs write_file remove_file : Text → FileChange
  -- a link, and what it refers to
  make_link : Text → Text → FileChange

-- A request. A namespace stands in front of a name, an API token in front of an ID.
pub data Call : Type 0 where
  get_repository live_repository : Text → Text → Call
  list_repositories : Call
  -- the patch of the finalizers, and that of the status
  patch_repository patch_repository_status : Repository → Call
  get_secret : Text → Text → Call
  create_secret update_secret : Secret → Call
  get_job : Text → Text → Call
  create_job delete_job : Job → Call
  list_jobs : Text → Call
  get_backup : Text → Text → Call
  list_backups : Text → Call
  patch_backup_status : ScheduledBackup → Call
  get_cron_job : Text → Text → Call
  create_cron_job update_cron_job : CronJob → Call
  get_claim : Text → Text → Call
  create_claim delete_claim : VolumeClaim → Call
  borg_get borg_find : Text → Text → Call
  borg_add : Text → AddOptions → Call
  borg_edit : Text → Text → EditOptions → Call
  borg_delete : Text → Text → Call
  generate_password : Call
  read_clock : Call
  -- those of the command line only; a Pod is listed by a label and its value
  patch_secret delete_secret : Secret → Call
  patch_backup : ScheduledBackup → Call
  list_pods : Text → Text → Text → Call
  stream_logs : Text → Text → Call
  random_string : Call
  print print_error : Text → Call
  list_repositories_in : Text → Call
  -- the clients of the runner, a line from the terminal, and changes of this machine's files
  make_runner read_line : Call
  change_file : FileChange → Call
  -- an event: its type, reason, action and note
  event : EventType → Text → Text → Text → Call

abbrev pub History : Type 0
History = List Call

pub record Env : Type 0 where
  -- apimachinery's `SetStatusCondition`
  pub set_status_condition : List Condition → Condition → List Condition
  -- controllerutil's `ContainsFinalizer`, `AddFinalizer` and `RemoveFinalizer`
  pub contains_finalizer : ObjectMeta → Text → Bool
  pub add_finalizer : ObjectMeta → Text → ObjectMeta
  pub remove_finalizer : ObjectMeta → Text → ObjectMeta
  -- controllerutil's `SetControllerReference`, of an owner on an object
  pub set_controller_reference : ObjectMeta → ObjectMeta → Result ObjectMeta
  -- metav1's `GetControllerOf`
  pub get_controller_of : ObjectMeta → Option OwnerReference
  -- the semantic `DeepEqual` of Secrets and of the two statuses
  pub same_secret : Secret → Secret → Bool
  pub same_repository_status : Repository → Repository → Bool
  pub same_backup_status : ScheduledBackup → ScheduledBackup → Bool
  -- replies of the Kubernetes API
  pub got_repository : History → Text → Text → Result Repository
  pub got_live_repository : History → Text → Text → Result Repository
  pub listed_repositories : History → Result (List Repository)
  -- the object as the server has it after the patch
  pub patched_repository : History → Repository → Result Repository
  pub patched_repository_status : History → Repository → Result (Unit {0})
  pub got_secret : History → Text → Text → Result Secret
  pub created_secret : History → Secret → Result (Unit {0})
  pub updated_secret : History → Secret → Result (Unit {0})
  pub got_job : History → Text → Text → Result Job
  pub created_job : History → Job → Result (Unit {0})
  pub deleted_job : History → Job → Result (Unit {0})
  pub listed_jobs : History → Text → Result (List Job)
  pub got_backup : History → Text → Text → Result ScheduledBackup
  pub listed_backups : History → Text → Result (List ScheduledBackup)
  pub patched_backup_status : History → ScheduledBackup → Result (Unit {0})
  pub got_cron_job : History → Text → Text → Result CronJob
  -- the UID that the server gives the new object
  pub created_cron_job : History → CronJob → Result Text
  pub updated_cron_job : History → CronJob → Result (Unit {0})
  pub got_claim : History → Text → Text → Result VolumeClaim
  pub created_claim : History → VolumeClaim → Result (Unit {0})
  pub deleted_claim : History → VolumeClaim → Result (Unit {0})
  -- replies of BorgBase to a client with a token
  pub borg_got : History → Text → Text → Result Repo
  pub borg_found : History → Text → Text → Result Repo
  pub borg_added : History → Text → AddOptions → Result Repo
  pub borg_edited : History → Text → Text → EditOptions → Result Repo
  pub borg_deleted : History → Text → Text → Result (Unit {0})
  -- secrets.GeneratePassword, and the clock in nanoseconds
  pub password_generated : History → Result Text
  pub now : History → ℕ
  -- replies to the command line
  pub patched_secret : History → Secret → Result (Unit {0})
  pub deleted_secret : History → Secret → Result (Unit {0})
  pub patched_backup : History → ScheduledBackup → Result (Unit {0})
  pub listed_repositories_in : History → Text → Result (List Repository)
  pub listed_pods : History → Text → Text → Text → Result (List Pod)
  -- the logs of a pod copied to the output, and lines printed there or to the error output
  pub streamed_logs : History → Text → Text → Result (Unit {0})
  pub printed : History → Text → Result (Unit {0})
  pub printed_error : History → Text → Result (Unit {0})
  pub runner_made : History → Result (Unit {0})
  -- a line with its newline, or at the end of the input what is left of it
  pub line_read : History → Result Text
  pub file_changed : History → FileChange → Result (Unit {0})
  -- apimachinery's `rand.String(5)`
  pub random_text : History → Text
  -- apimachinery's `PollUntilContextTimeout`: how often it asks within a timeout in nanoseconds,
  -- and its error if none of the answers ends it
  pub attempts : History → ℕ → ℕ
  pub deadline_error : History → Err
