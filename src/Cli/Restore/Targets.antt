-- ===== src/Cli/Restore/Targets.antt =====
-- internal/cli/restore_targets.go and `runRestore` of restore.go: the places to restore to.
pub mod Confirmation
pub mod Resumption
use borgbase_operator.Base.{
  ltb, Text, codes, is_empty, join, length, Bool, true, false, not, ◌||◌, none, some, List, [], ◌∷◌,
  ◌++◌, if◌then◌else◌,
}
use borgbase_operator.Errors.{Err, plain, no_database, no_source_volume, wrap, error_text}
use borgbase_operator.Api.ScheduledBackup.{
  ScheduledBackup, VolumeSpec, effective_mount_path, DatabaseSpec, DatabaseEngine, engine_cnpg,
  engine_text, BackupSource, source_cnpg, source_mariadb, effective_tag, db_secret_mount_path,
}
use borgbase_operator.Kube.Objects.{VolumeClaim}
use borgbase_operator.Backup.Tools.{Tools}
use borgbase_operator.Backup.Script.{shell_quote}
use borgbase_operator.Controller.Env.{
  Env, get_backup, get_claim, create_claim, patch_backup, make_runner,
}
use borgbase_operator.Controller.Exec.{
  pure, raise, lift, ask, call, attempt, ◌>>=◌, ◌>>◌, on_result, on_option,
}
use borgbase_operator.Controller.Repository.Credentials.{empty_meta}
use borgbase_operator.Cli.Console.{Cmd, new_error_printer, say, say_and_check}
use borgbase_operator.Cli.Derive.{Options}
use borgbase_operator.Cli.Runner.{run}
use borgbase_operator.Cli.Repair.{default_restic_timeout, restic_command}
use borgbase_operator.Cli.Restore.{
  RestoreOptions, Terminal, targets, restic_restore_args, choose_restore, confirm,
}
use borgbase_operator.Cli.Restore.Download.{Dump, restore_to_dir}

abbrev pub restore_mount_path : Text
restore_mount_path = codes "/restore"

abbrev pub plain_options : Text → List Text → Options
plain_options purpose command = record {
  command = command;
  purpose = purpose;
  mount_data = false;
  mount_cache = false;
  mount_database = false;
  image = [];
  tty = false;
  keep_job = false;
  extra_volumes = [];
  extra_mounts = [];
}

abbrev pub new_claim : ScheduledBackup → Text → Text → VolumeClaim
new_claim sb name size = record {
  meta = record empty_meta {
    name = name;
    namespace = sb.meta.namespace;
    labels = (codes "app.kubernetes.io/managed-by", codes "corg") ∷ [];
  };
  access_modes = codes "ReadWriteOnce" ∷ [];
  storage_request = size;
  storage_class = none;
  phase = [];
}

-- The Job that restores into a new claim.
unfoldable pub new_claim_options : RestoreOptions → Text → Options
new_claim_options o claim =
    record (plain_options (codes "restore")
      (restic_command (restic_restore_args o restore_mount_path))) {
        extra_volumes =
            record {
              name = codes "restore-target";
              secret = none;
              claim = some (record { claim_name = claim; read_only = false });
              empty_dir = false;
            }
            ∷ [];
        extra_mounts =
            record {
              name = codes "restore-target";
              mount_path = restore_mount_path;
              read_only = false;
            }
            ∷ [];
      }

abbrev pub no_volume_error : ScheduledBackup → Err
no_volume_error sb =
    wrap [] no_source_volume
      (codes ": scheduledbackup/" ++ (sb.meta.name ++ codes " has no spec.volume"))

-- `func dumpExtension`
abbrev pub dump_extension : DatabaseEngine → Text
dump_extension engine_cnpg = codes ".dmp"
dump_extension _ = codes ".sql"

-- `func databaseSourceTag`
unfoldable pub database_source_tag : List BackupSource → Text
database_source_tag [] = []
database_source_tag (s ∷ ss) =
    let later = database_source_tag ss in
    elim s.type [ source_cnpg ↦ effective_tag s | source_mariadb ↦ effective_tag s | _ ↦ later ]

-- What a restore into the database overwrites.
unfoldable pub database_target : DatabaseSpec → Text
database_target db =
    if is_empty db.host
    then codes "the " ++ (engine_text db.engine ++ codes " database")
    else codes "the "
      ++ (engine_text db.engine
          ++ (codes " database \"" ++ (db.name ++ (codes "\" on " ++ db.host))))

-- The pipeline of a restore into the database.
unfoldable pub database_pipeline : ScheduledBackup → DatabaseSpec → RestoreOptions → Text
database_pipeline sb db o =
    let tag = database_source_tag sb.spec.sources in
    let dump = codes "dump" ++ (if is_empty tag then [] else codes " --tag=" ++ shell_quote tag) in
    codes "restic "
    ++ (dump
        ++ (codes " "
            ++ (shell_quote o.snapshot
                ++ (codes " "
                    ++ (shell_quote (sb.meta.namespace ++ dump_extension db.engine)
                        ++ (codes " | restoredb "
                            ++ (engine_text db.engine
                                ++ (codes " --secret-mount="
                                    ++ (db_secret_mount_path
                                        ++ (if o.dry_run then codes " --dry-run" else []))))))))))

abbrev pub guarded_pipeline : Text → Text
guarded_pipeline pipeline =
    codes "command -v restoredb >/dev/null 2>&1 || { echo "
    ++ (shell_quote (
          codes
            "this backup image has no restoredb; re-pull ghcr.io/clevyr/restic or unpin spec.image")
        ++ (codes " >&2; exit 1; }\n" ++ pipeline))

module _ (env : Env) (tools : Tools) where
  -- `func claimSize`
  unfoldable pub claim_size : ScheduledBackup → VolumeSpec → Text → Cmd Text
  claim_size sb v override =
      if not (is_empty override) then lift (tools.parse_quantity override) else do
        reply ←
            ask (get_claim sb.meta.namespace v.existing_claim)
              (λ h. env.got_claim h sb.meta.namespace v.existing_claim)
        on_result reply
            (λ source.
              if is_empty source.storage_request
              then raise (
                  plain (
                    codes "pvc/"
                    ++ (source.meta.name ++ codes " requests no storage size; pass --size")))
              else pure source.storage_request)
            λ e. raise (
              wrap (codes "reading pvc/" ++ (v.existing_claim ++ codes " to size the new claim: "))
                e (codes "; pass --size to set it directly"))

  -- `func restoreToNewPVC`
  unfoldable pub restore_to_new_pvc : ScheduledBackup → RestoreOptions → Cmd (Unit {0})
  unfolding claim_size
  restore_to_new_pvc sb o =
      on_option sb.spec.volume
        (λ v. do
          size ← claim_size sb v o.size
          let claim = new_claim sb o.to_new_pvc size
          created ← ask (create_claim claim) (λ h. env.created_claim h claim)
          on_result created pure
              λ e. raise (wrap (codes "creating pvc/" ++ (o.to_new_pvc ++ codes ": ")) e [])
          new_error_printer
          say_and_check env
              (codes "created pvc/" ++ (o.to_new_pvc ++ (codes " (" ++ (size ++ codes ")\n"))))
          call make_runner env.runner_made
          run env sb (new_claim_options o o.to_new_pvc) default_restic_timeout
          new_error_printer
          say env (codes "restored into pvc/" ++ (o.to_new_pvc ++ codes "; inspect it with:\n"))
          say_and_check env (codes "  corg shell " ++ (sb.meta.name ++ codes " --mount-data\n")))
        (raise (no_volume_error sb))

module _ (env : Env) where
  -- `func suspendForRestore`: whether the backup is to be resumed afterwards.
  unfoldable pub suspend_for_restore : ScheduledBackup → Bool → Cmd Bool
  suspend_for_restore sb dry_run = if dry_run || sb.spec.suspend then pure false else do
    let suspended : ScheduledBackup = record sb { spec = record sb.spec { suspend = true } }
    reply ← ask (patch_backup suspended) (λ h. env.patched_backup h suspended)
    on_result reply (λ _. pure true)
        λ e. raise (wrap (codes "suspending scheduledbackup/" ++ (sb.meta.name ++ codes ": ")) e [])

  -- The function that `suspendForRestore` returns.
  unfoldable pub resume : ScheduledBackup → Cmd (Unit {0})
  resume sb = do
    latest ←
        call (get_backup sb.meta.namespace sb.meta.name)
          (λ h. env.got_backup h sb.meta.namespace sb.meta.name)
    let resumed : ScheduledBackup = record latest { spec = record latest.spec { suspend = false } }
    call (patch_backup resumed) (λ h. env.patched_backup h resumed)

  -- The deferred function of `restoreInPlace`.
  unfoldable pub resume_after : Bool → ScheduledBackup → Cmd (Unit {0})
  unfolding resume
  resume_after suspended sb = if not suspended then pure tt else do
    reply ← attempt (resume sb)
    on_result reply pure λ e. do
      new_error_printer
      say env (
          codes "! could not restore spec.suspend on scheduledbackup/"
          ++ (sb.meta.name ++ (codes ": " ++ (error_text e ++ codes "\n"))))
      say env (codes "! check it with: corg status " ++ (sb.meta.name ++ codes "\n"))

  -- The restore itself.
  unfoldable pub overwrite_volume : ScheduledBackup → VolumeSpec → RestoreOptions → Cmd (Unit {0})
  overwrite_volume sb v o = do
    call make_runner env.runner_made
    new_error_printer
    say_and_check env (
        codes "restoring snapshot "
        ++ (o.snapshot ++ (codes " over pvc/" ++ (v.existing_claim ++ codes "\n"))))
    run env sb
        (record (plain_options (codes "restore")
          (restic_command (restic_restore_args o (effective_mount_path v)))) { mount_data = true })
        default_restic_timeout

  -- A backup that stands still while something else runs.
  unfoldable pub with_suspended : ScheduledBackup → Bool → Cmd (Unit {0}) → Cmd (Unit {0})
  unfolding suspend_for_restore resume_after
  with_suspended sb dry_run body = do
    suspended ← suspend_for_restore sb dry_run
    reply ← attempt body
    attempt (resume_after suspended sb)
    lift reply

  module _ (term : Terminal) where
    -- `func restoreInPlace`
    unfoldable pub restore_in_place : ScheduledBackup → RestoreOptions → Cmd (Unit {0})
    unfolding with_suspended overwrite_volume
    restore_in_place sb o =
        on_option sb.spec.volume
          (λ v. do
            confirm env term (o.yes_given || o.dry_run)
                (codes "pvc/"
                  ++ (v.existing_claim ++ (codes " in namespace " ++ sb.meta.namespace)))
                sb.meta.name
            with_suspended sb o.dry_run (overwrite_volume sb v o))
          (raise (no_volume_error sb))

    -- `func restoreToDatabase`
    unfoldable pub restore_to_database : ScheduledBackup → RestoreOptions → Cmd (Unit {0})
    restore_to_database sb o =
        on_option sb.spec.database
          (λ db. do
            confirm env term (o.yes_given || o.dry_run) (database_target db) sb.meta.name
            call make_runner env.runner_made
            new_error_printer
            say_and_check env (
                codes "restoring "
                ++ (database_target db ++ (codes " from snapshot " ++ (o.snapshot ++ codes "\n"))))
            run env sb
                (record (plain_options (codes "restoredb") (
                  codes "sh"
                  ∷ (codes "-c" ∷ (guarded_pipeline (database_pipeline sb db o) ∷ [])))) {
                    mount_database = true;
                  })
                default_restic_timeout)
          (raise (
            wrap [] no_database
              (codes ": scheduledbackup/" ++ (sb.meta.name ++ codes " has no spec.database"))))

    module _ (tools : Tools) (dump : Dump) where
      -- The switch of `runRestore`.
      unfoldable pub restore_to_target : ScheduledBackup → RestoreOptions → Cmd (Unit {0})
      unfolding restore_in_place restore_to_database
      restore_to_target sb o =
          if not (is_empty o.to_dir)
          then restore_to_dir env dump sb o
          else if not (is_empty o.to_new_pvc)
          then restore_to_new_pvc env tools sb o
          else if o.to_database
          then restore_to_database sb o
          else restore_in_place sb o

      -- `func runRestore`
      unfoldable pub run_restore : ScheduledBackup → RestoreOptions → Cmd (Unit {0})
      unfolding restore_to_target
      run_restore sb o =
          let set = targets o in
          if ltb 1 (length set)
          then raise (plain (codes "choose one restore target, got " ++ join set (codes " and ")))
          else do
            chosen ← if ltb 0 (length set) then pure o else choose_restore env term sb o
            restore_to_target sb chosen
