-- ===== src/Cli/Repair.antt =====
-- internal/cli/repair.go: the commands `reinit` and `rotate-password`, and `credentials` of
-- internal/cli/env.go.
pub mod Rotation
use borgbase_operator.Base.{
  ℕ, ◌*◌, Text, codes, get_text, insert, Bool, true, false, Option, none, some, List, [], ◌∷◌, ◌++◌,
  if◌then◌else◌, text_eq, not,
}
use borgbase_operator.Errors.{
  Err, target_not_found, not_initialized, wrap, error_text, is_not_found, Result, ok, err,
}
use borgbase_operator.Api.Meta.{OwnerReference}
use borgbase_operator.Api.Repository.{Repository, secret_name_of}
use borgbase_operator.Api.ScheduledBackup.{ScheduledBackup}
use borgbase_operator.Kube.Pod.{Volume, VolumeMount}
use borgbase_operator.Kube.Objects.{Secret, Job}
use borgbase_operator.Controller.Env.{
  Env, get_secret, create_secret, patch_secret, delete_secret, list_jobs, delete_job,
  patch_repository_status, generate_password, random_string, make_runner,
}
use borgbase_operator.Controller.Exec.{
  Exec, pure, raise, lift, ask, call, attempt, get_obj, modify, ◌>>=◌, ◌>>◌, on_result, on_option,
}
use borgbase_operator.Controller.Helpers.{hour}
use borgbase_operator.Controller.Repository.Base.{key_restic_password}
use borgbase_operator.Controller.Repository.Credentials.{empty_meta}
use borgbase_operator.Cli.Console.{
  Console, Cmd, new_printer, new_error_printer, printer_err, say, say_and_check,
}
use borgbase_operator.Cli.Derive.{Options}
use borgbase_operator.Cli.Runner.{run}

abbrev pub default_restic_timeout : ℕ
default_restic_timeout = hour

-- `func resticCommand`
abbrev pub restic_command : List Text → List Text
restic_command args = codes "restic" ∷ args

abbrev pub new_key_mount_path : Text
new_key_mount_path = codes "/newkey"

-- `metav1.IsControlledBy`, by the UID of the object's controller
unfoldable pub is_controlled_by : Env → Job → Repository → Bool
is_controlled_by env job repo = elim (env.get_controller_of job.meta) [
  | none ↦ false
  | some owner ↦ text_eq owner.uid repo.meta.uid
]

abbrev pub temp_secret : Repository → Text → Text → Secret
temp_secret repo random password = record {
  meta = record empty_meta {
    name = repo.meta.name ++ (codes "-corg-newkey-" ++ random);
    namespace = repo.meta.namespace;
    labels = (codes "app.kubernetes.io/managed-by", codes "corg") ∷ [];
  };
  type = [];
  entries = (codes "password", password) ∷ [];
}

-- The settings of the Job that adds the key.
unfoldable pub rotate_options : Secret → Options
rotate_options temp = record {
  command = restic_command (
      codes "key"
      ∷ (codes "add"
          ∷ ((codes "--new-password-file=" ++ (new_key_mount_path ++ codes "/password")) ∷ [])));
  purpose = codes "rotate";
  mount_data = false;
  mount_cache = false;
  mount_database = false;
  image = [];
  tty = false;
  keep_job = false;
  extra_volumes =
      record {
        name = codes "newkey";
        secret = some temp.meta.name;
        claim = none;
        empty_dir = false;
      }
      ∷ [];
  extra_mounts =
      record { name = codes "newkey"; mount_path = new_key_mount_path; read_only = true } ∷ [];
}

module _ {O : Type 0} (env : Env) where
  -- `func credentials`
  unfoldable pub credentials : Repository → Exec O Secret
  credentials repo = do
    let name = secret_name_of repo
    reply ←
        ask (get_secret repo.meta.namespace name) (λ h. env.got_secret h repo.meta.namespace name)
    on_result reply pure λ e.
        if is_not_found e
        then raise (
            wrap [] target_not_found (
              codes ": credentials Secret \""
              ++ (name
                  ++ (codes "\" for repository \""
                      ++ (repo.meta.name
                          ++ (codes "\"; run: corg doctor repo/" ++ repo.meta.name))))))
        else raise e

  -- `func deleteTempKeySecret`
  unfoldable pub delete_temp_secret : Secret → Exec O (Unit {0})
  delete_temp_secret temp = do
    reply ← ask (delete_secret temp) (λ h. env.deleted_secret h temp)
    on_result reply pure λ e. if is_not_found e then pure tt else raise e

module _ (env : Env) where
  -- The loop of `runReinit`.
  unfoldable pub delete_controlled : Repository → List Job → Cmd (Unit {0})
  delete_controlled repo [] = pure tt
  delete_controlled repo (job ∷ jobs) = elim (is_controlled_by env job repo) [
    | false ↦ delete_controlled repo jobs
    | true ↦ ask (delete_job job) (λ h. env.deleted_job h job) >>= λ reply.
        on_result reply (λ _. pure tt)
          (λ e.
            if is_not_found e
            then pure tt
            else raise (wrap (codes "deleting job/" ++ (job.meta.name ++ codes ": ")) e []))
        >>= λ _. say env (codes "deleted job/" ++ (job.meta.name ++ codes "\n")) >>= λ _.
            delete_controlled repo jobs
  ]

  -- `func runReinit`
  unfoldable pub run_reinit : Repository → Cmd (Unit {0})
  unfolding delete_controlled
  run_reinit repo = do
    new_printer
    jobs ← call (list_jobs repo.meta.namespace) (λ h. env.listed_jobs h repo.meta.namespace)
    delete_controlled repo jobs
    let cleared : Repository = record repo { status = record repo.status { initialized = false } }
    reply ← ask (patch_repository_status cleared) (λ h. env.patched_repository_status h cleared)
    on_result reply pure λ e. raise (wrap (codes "clearing status.initialized: ") e [])
    say env (codes "repository/" ++ (repo.meta.name ++ codes " will be initialized again\n"))
    say_and_check env (codes "  watch it with: corg doctor repo/" ++ (repo.meta.name ++ codes "\n"))

  -- The deferred function of `runRotatePassword`.
  unfoldable pub drop_temp_secret : Secret → Cmd (Unit {0})
  drop_temp_secret temp = do
    reply ← attempt (delete_temp_secret env temp)
    on_result reply pure λ e. do
      new_error_printer
      say env (
          codes "! could not delete the temporary key secret/"
          ++ (temp.meta.name ++ (codes ": " ++ (error_text e ++ codes "\n"))))
      say env (
          codes "! it holds the new password in plaintext; delete it with: kubectl -n "
          ++ (temp.meta.namespace ++ (codes " delete secret " ++ (temp.meta.name ++ codes "\n"))))

  -- The temporary Secret is created, and deleted again after the rest.
  unfoldable pub with_temp_secret : Secret → Cmd (Unit {0}) → Cmd (Unit {0})
  unfolding drop_temp_secret
  with_temp_secret temp body = do
    created ← ask (create_secret temp) (λ h. env.created_secret h temp)
    on_result created pure λ e. raise (wrap (codes "creating the temporary key Secret: ") e [])
    reply ← attempt body
    drop_temp_secret temp
    lift reply

  new_password : Text → Secret → Secret
  new_password password current = record current {
    entries = insert key_restic_password password current.entries;
  }

  -- From the new key on.
  unfoldable pub add_key : ScheduledBackup → Repository → Secret → Secret → Text → Cmd (Unit {0})
  unfolding new_password
  add_key sb repo current temp password = do
    call make_runner env.runner_made
    new_error_printer
    say_and_check env (codes "adding a new key to repository/" ++ (repo.meta.name ++ codes "\n"))
    reply ← attempt (run env sb (rotate_options temp) default_restic_timeout)
    on_result reply pure λ e. raise (wrap (codes "adding the new key: ") e [])
    let updated = new_password password current
    patched ← ask (patch_secret updated) (λ h. env.patched_secret h updated)
    on_result patched pure λ e. raise (
        wrap
          (codes "updating "
            ++ (key_restic_password ++ (codes " in secret/" ++ (current.meta.name ++ codes ": "))))
          e [])
    new_printer
    say env (codes "rotated the encryption key for repository/" ++ (repo.meta.name ++ codes "\n"))
    say env (
        codes "  archive it now:   corg env repo/"
        ++ (repo.meta.name ++ codes " --show-password\n"))
    say env (codes "  the old key still works; remove it with:\n")
    say_and_check env (codes "    corg exec " ++ (sb.meta.name ++ codes " -- restic key list\n"))

  -- `func runRotatePassword`
  unfoldable pub run_rotate_password : ScheduledBackup → Repository → Cmd (Unit {0})
  unfolding with_temp_secret add_key
  run_rotate_password sb repo =
      if not repo.status.initialized
      then raise (
          wrap [] not_initialized
            (codes ": repository/" ++ (repo.meta.name ++ codes " has nothing to rotate yet")))
      else do
        current ← credentials env repo
        password ← call generate_password env.password_generated
        random ← ask random_string env.random_text
        let temp = temp_secret repo random password
        with_temp_secret temp (add_key sb repo current temp password)
