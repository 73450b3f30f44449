-- ===== src/Cli/Restore/Targets/Resumption.antt =====
-- restore_targets.go: the backup that an in-place restore suspends.
use borgbase_operator.Base.{Text, Bool, true, false, ◌≡◌, List, [], ◌∷◌}
use borgbase_operator.Errors.{Result, ok, err}
use borgbase_operator.Api.ScheduledBackup.{ScheduledBackup}
use borgbase_operator.Controller.Env.{Env, History, patch_backup, get_backup}
use borgbase_operator.Controller.Exec.{lift, attempt, ◌>>=◌}
use borgbase_operator.Controller.Exec.Keeps.{Keeps}
use borgbase_operator.Controller.Exec.Settled.{Role, closes, neither, created_role, Roles, Settled}
use borgbase_operator.Cli.Console.{Console, Cmd}
use borgbase_operator.Cli.Restore.Targets.{resume_after}

-- A backup is named by its name. A patch that suspends it and succeeds opens it, and what closes it
-- is the request of a patch that resumes it, or a read of it that fails.
abbrev pub read_role : Text → Result ScheduledBackup → Role Text
read_role name (ok _) = neither
read_role name (err _) = closes name

abbrev pub patch_role : Bool → Text → Result (Unit {0}) → Role Text
patch_role true name reply = created_role name reply
patch_role false name reply = closes name

abbrev pub suspend_role : Env → Roles Text
suspend_role env h (patch_backup sb) =
    patch_role sb.spec.suspend sb.meta.name (env.patched_backup h sb)
suspend_role env h (get_backup ns name) = read_role name (env.got_backup h ns name)
suspend_role env h _ = neither

-- The API answers a request for a backup with the backup of that name.
abbrev pub BackupsByName : Env → Type 0
BackupsByName env =
    (h : History) (ns name : Text) (sb : ScheduledBackup)
    → env.got_backup h ns name ≡ ok sb
    → sb.meta.name ≡ name

module _ (env : Env) (seen : List Text) where
  abbrev Kept : History → Type 0
  Kept = Settled (suspend_role env) seen

module _ (env : Env) (named : BackupsByName env) where
  -- What a suspension leaves to be resumed.
  abbrev left : Bool → Text → List Text
  left true name = name ∷ []
  left false name = []

  module _ (sb : ScheduledBackup) (body : Cmd (Unit {0}))
      (k : (seen : List Text) → Keeps (Kept env seen) body) where
    abbrev rest : Bool → Cmd (Unit {0})
    rest b = attempt body >>= λ reply. attempt (resume_after env b sb) >>= λ _. lift reply

    abbrev suspended : ScheduledBackup
    suspended = record sb { spec = record sb.spec { suspend = true } }
