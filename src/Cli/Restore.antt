-- ===== src/Cli/Restore.antt =====
-- internal/cli/restore.go: the options of `restore`, the choice of a target, and the confirmation.
pub mod Download
pub mod Targets
use borgbase_operator.Base.{
  ℕ, zero, suc, ltb, Text, codes, is_empty, text_eq, has_prefix, trim_space, join, format_nat,
  length, map, Bool, true, false, not, ◌||◌, Option, none, some, ℤ, pos, negsuc, List, [], ◌∷◌,
  ◌++◌, if◌then◌else◌,
}
use borgbase_operator.Errors.{Err, no_restore_target, not_confirmed, wrap, Result}
use borgbase_operator.Api.ScheduledBackup.{ScheduledBackup}
use borgbase_operator.Controller.Env.{Env, read_line}
use borgbase_operator.Controller.Exec.{pure, raise, call, ◌>>=◌, ◌>>◌, on_option}
use borgbase_operator.Cli.Console.{Cmd, new_error_printer, printer_err, say, say_and_check}

-- `type restoreOptions`
pub record RestoreOptions : Type 0 where
  pub snapshot : Text
  pub in_place : Bool
  pub to_new_pvc : Text
  pub to_database : Bool
  pub to_dir : Text
  pub size : Text
  pub path : Text
  pub include_patterns : List Text
  pub exclude_patterns : List Text
  pub delete_others : Bool
  pub dry_run : Bool
  pub yes_given : Bool

-- What the command is attached to: whether it is a terminal, and `fmt.Sscanf(s, "%d", &n)`.
pub record Terminal : Type 0 where
  pub interactive : Bool
  pub scan_number : Text → Option ℤ

abbrev pub flag_if : Bool → Text → List Text
flag_if b flag = if b then flag ∷ [] else []

-- `func (o *restoreOptions) targets`
abbrev pub targets : RestoreOptions → List Text
targets o =
    flag_if o.in_place (codes "--in-place")
    ++ (flag_if (not (is_empty o.to_new_pvc)) (codes "--to-new-pvc")
        ++ (flag_if o.to_database (codes "--to-database")
            ++ flag_if (not (is_empty o.to_dir)) (codes "--to")))

-- `func (o *restoreOptions) resticRestoreArgs`
unfoldable pub restic_restore_args : RestoreOptions → Text → List Text
restic_restore_args o target =
    (codes "restore" ∷ (o.snapshot ∷ ((codes "--target=" ++ target) ∷ [])))
    ++ (flag_if (not (is_empty o.path)) (codes "--include=" ++ o.path)
        ++ (map (λ p. codes "--include=" ++ p) o.include_patterns
            ++ (map (λ p. codes "--exclude=" ++ p) o.exclude_patterns
                ++ (flag_if o.delete_others (codes "--delete")
                    ++ (if o.dry_run then codes "--dry-run" ∷ (codes "--verbose" ∷ []) else [])))))

-- `func availableTargets`
unfoldable pub available_targets : ScheduledBackup → List Text
available_targets sb =
    codes "--to DIR (download to this machine)"
    ∷ (on_option sb.spec.volume
          (λ v.
            codes "--to-new-pvc NAME (a fresh claim, for inspection)"
            ∷ ((codes "--in-place (overwrite pvc/" ++ (v.existing_claim ++ codes ")")) ∷ []))
          []
        ++ on_option sb.spec.database
            (λ _. codes "--to-database (overwrite the live database)" ∷ []) [])

-- `targets[choice-1]` for a choice from 1 to the number of targets
abbrev pub nth_target : List Text → ℕ → Option Text
nth_target [] n = none
nth_target (t ∷ ts) zero = none
nth_target (t ∷ ts) (suc zero) = some t
nth_target (t ∷ ts) (suc (suc n)) = nth_target ts (suc n)

-- A number that is scanned and is one of the choices.
abbrev pub chosen_target : List Text → Option ℤ → Option Text
chosen_target ts none = none
chosen_target ts (some (pos n)) = nth_target ts n
chosen_target ts (some (negsuc _)) = none

-- The switch of `chooseTarget` on the target that was chosen.
unfoldable pub apply_choice : RestoreOptions → Text → Cmd RestoreOptions
apply_choice o target =
    if has_prefix target (codes "--to ")
    then raise
        (wrap [] no_restore_target (codes ": pass --to DIR with the directory to download into"))
    else if has_prefix target (codes "--to-new-pvc")
    then raise
        (wrap [] no_restore_target (codes ": pass --to-new-pvc NAME with a name for the new claim"))
    else if has_prefix target (codes "--in-place")
    then pure (record o { in_place = true })
    else pure (record o { to_database = true })

module _ (env : Env) where
  list_targets : List Text → Cmd (Unit {0})
  list_targets [] = pure tt
  list_targets (t ∷ ts) = say env (codes "  " ++ (t ++ codes "\n")) >>= λ _. list_targets ts

  number_targets : ℕ → List Text → Cmd (Unit {0})
  number_targets n [] = pure tt
  number_targets n (t ∷ ts) =
      say env (codes "  " ++ (format_nat n ++ (codes ") " ++ (t ++ codes "\n")))) >>= λ _.
      number_targets (suc n) ts

  abbrev pub ask_line : Cmd Text
  ask_line = call read_line env.line_read

  -- The branch of `chooseTarget` with no terminal.
  unfoldable pub refuse_choice : ScheduledBackup → List Text → Cmd RestoreOptions
  unfolding list_targets
  refuse_choice sb ts = do
    new_error_printer
    say env (codes "scheduledbackup/" ++ (sb.meta.name ++ codes " can restore to:\n"))
    list_targets ts
    printer_err
    raise no_restore_target

  -- `func chooseTarget`
  unfoldable pub choose_restore : Terminal → ScheduledBackup → RestoreOptions → Cmd RestoreOptions
  unfolding number_targets refuse_choice apply_choice
  choose_restore term sb o = do
    let ts = available_targets sb
    if not term.interactive then refuse_choice sb ts else do
      new_error_printer
      say env (codes "Where should scheduledbackup/" ++ (sb.meta.name ++ codes " be restored?\n"))
      number_targets 1 ts
      say_and_check env (codes "Choose [1]: ")
      line ← ask_line
      let s = trim_space line
      on_option (if is_empty s then nth_target ts 1 else chosen_target ts (term.scan_number s))
          (apply_choice o)
          (raise (
            wrap [] no_restore_target
              (codes ": \"" ++ (s ++ (codes "\" is not one of 1-" ++ format_nat (length ts))))))

  -- `func confirm`
  unfoldable pub confirm : Terminal → Bool → Text → Text → Cmd (Unit {0})
  confirm term skip what name =
      if skip
      then pure tt
      else if not term.interactive
      then raise (
          wrap [] not_confirmed (
            codes ": this overwrites "
            ++ (what ++ codes ", and there is no terminal to confirm on; pass --yes to proceed")))
      else do
        new_error_printer
        say env (codes "This overwrites " ++ (what ++ codes ".\n"))
        say_and_check env (codes "Type \"" ++ (name ++ codes "\" to confirm: "))
        line ← ask_line
        if text_eq (trim_space line) name
            then pure tt
            else raise (wrap [] not_confirmed (codes ": " ++ (what ++ codes " was not changed")))
