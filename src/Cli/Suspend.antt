-- ===== src/Cli/Suspend.antt =====
-- internal/cli/lifecycle.go: the commands `suspend` and `resume`.
pub mod Patches
use borgbase_operator.Base.{Text, codes, Bool, true, false, not, List, [], ◌∷◌, ◌++◌, if◌then◌else◌}
use borgbase_operator.Errors.{Result}
use borgbase_operator.Api.Repository.{Repository}
use borgbase_operator.Api.ScheduledBackup.{ScheduledBackup}
use borgbase_operator.Controller.Env.{Env, Call, patch_repository, patch_backup}
use borgbase_operator.Controller.Exec.{Exec, pure, call, ◌>>=◌, ◌>>◌}
use borgbase_operator.Cli.Console.{Console, Cmd, new_printer, say_and_check}
use borgbase_operator.Cli.Resolve.{
  Target, repository_target, backup_target, target_kind, target_name, kind_text, resolve,
}

-- `*current`
abbrev pub is_suspended : Target → Bool
is_suspended (repository_target repo) = repo.spec.suspend
is_suspended (backup_target sb) = sb.spec.suspend

-- `*current = suspend`
abbrev pub set_suspend : Bool → Target → Target
set_suspend b (repository_target repo) =
    repository_target (record repo { spec = record repo.spec { suspend = b } })
set_suspend b (backup_target sb) =
    backup_target (record sb { spec = record sb.spec { suspend = b } })

abbrev pub same_bool : Bool → Bool → Bool
same_bool true b = b
same_bool false b = not b

module _ (env : Env) where
  unfoldable pub patch_target : Target → Cmd (Unit {0})
  patch_target (repository_target repo) =
      call (patch_repository repo) (λ h. env.patched_repository h repo) >>= λ _. pure tt
  patch_target (backup_target sb) = call (patch_backup sb) (λ h. env.patched_backup h sb)

  -- `func runSetSuspend`, after the target is found.
  unfoldable pub suspend_target : Bool → Text → Target → Cmd (Unit {0})
  suspend_target suspend past target =
      let label = kind_text (target_kind target) ++ (codes "/" ++ target_name target) in
      if same_bool (is_suspended target) suspend
      then say_and_check env (label ++ (codes " is already " ++ (past ++ codes "\n")))
      else (patch_target (set_suspend suspend target) >>= λ _.
          say_and_check env (label ++ (codes " " ++ (past ++ codes "\n"))))

  -- `func runSetSuspend`
  unfoldable pub run_set_suspend : Text → Text → Bool → Text → Cmd (Unit {0})
  unfolding suspend_target
  run_set_suspend ns arg suspend past = do
    target ← resolve env ns arg
    new_printer
    suspend_target suspend past target
