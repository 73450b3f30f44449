-- ===== src/Cli/Restore/Targets/Confirmation.antt =====
-- restore.go: what a restore does that nobody confirms.
use borgbase_operator.Base.{
  Text, text_eq, trim_space, Bool, true, false, ◌≡◌, ◌⊎◌, inl, inr, ◌||◌, All, not, is_empty, List,
  [], ◌∷◌, if◌then◌else◌, arith, ℕ, suc,
}
use borgbase_operator.Errors.{ok}
use borgbase_operator.Api.ScheduledBackup.{ScheduledBackup}
use borgbase_operator.Backup.Tools.{Tools}
use borgbase_operator.Controller.Env.{Env, Call, History, print, print_error, read_line}
use borgbase_operator.Controller.Exec.{St, pure, ◌>>=◌}
use borgbase_operator.Controller.Exec.Only.{
  Only, Only-pure, Only-raise, Only-bind, Only-bind-Returns, Only-bind_never, Only-if,
  Only-if_cases, Only-on_option, only_rules,
}
use borgbase_operator.Controller.Exec.Returns.{
  Returns, Returns-pure, Returns-raise, Returns-call, Returns-if, Returns-bind,
  Returns-bind-Returns, returns_rules,
}
use borgbase_operator.Cli.Console.{Console, Cmd, printer_err, say, say_and_check}
use borgbase_operator.Cli.Restore.{
  RestoreOptions, Terminal, list_targets, number_targets, refuse_choice, apply_choice,
  choose_restore, confirm,
}
use borgbase_operator.Cli.Restore.Download.{Dump}
use borgbase_operator.Cli.Restore.Targets.{
  restore_in_place, restore_to_database, restore_to_target, run_restore,
}

-- Printing, and reading from the terminal.
abbrev pub Quiet : Call → Type 0
Quiet (print _) = Unit
Quiet (print_error _) = Unit
Quiet read_line = Unit
Quiet _ = ⊥

-- There is no terminal, or no line that is typed there is the name.
abbrev pub Unconfirmed : Env → Terminal → Text → Type 0
Unconfirmed env term name =
    (term.interactive ≡ false)
    ⊎ ((h : History) (line : Text)
        → env.line_read h ≡ ok line
        → text_eq (trim_space line) name ≡ false)

-- The restore may only overwrite the volume or the database, and asks for a confirmation.
pub record Overwrites (o : RestoreOptions) : Type 0 where
  pub no_dir : is_empty o.to_dir ≡ true
  pub no_pvc : is_empty o.to_new_pvc ≡ true
  pub no_yes : o.yes_given ≡ false
  pub no_dry_run : o.dry_run ≡ false

module _ (env : Env) (term : Terminal) where
  say-Quiet : (text : Text) → Only Quiet (say env text)
  unfolding say
  say-Quiet text = search only_rules depth 10

  say_and_check-Quiet : (text : Text) → Only Quiet (say_and_check env text)
  unfolding say_and_check
  say_and_check-Quiet text = search (only_rules, say-Quiet) depth 10

  confirm-Quiet : (skip : Bool) (what name : Text) → Only Quiet (confirm env term skip what name)
  unfolding confirm
  confirm-Quiet skip what name = search (only_rules, say-Quiet, say_and_check-Quiet) depth 14

  confirm-never :
      (skip : Bool) (what name : Text)
      → skip ≡ false
      → Unconfirmed env term name
      → Returns (λ _. ⊥) (confirm env term skip what name)
  unfolding confirm
  confirm-never skip what name no_skip un =
      Returns-if skip _ _ (λ e. cc)
        λ _.
          Returns-if (not term.interactive) _ _ (λ _. Returns-raise _)
            λ there. Returns-bind _ _ λ _. Returns-bind _ _ λ _. Returns-bind _ _ λ _.
              Returns-bind-Returns (λ line. text_eq (trim_space line) name ≡ false) _ _
                (Returns-call _ _ (typed un there))
                λ line other.
                  Returns-if (text_eq (trim_space line) name) _ _ (λ e. cc) (λ _. Returns-raise _)
    where
      typed :
          Unconfirmed env term name
          → not term.interactive ≡ false
          → (h : History) (line : Text) → env.line_read h ≡ ok line
          → text_eq (trim_space line) name ≡ false
      typed (inl e) there = λ h line q. ground (arith, e)
      typed (inr f) there = f

  list_targets-Quiet : (ts : List Text) → Only Quiet (list_targets env ts)
  unfolding list_targets
  list_targets-Quiet [] = Only-pure tt
  list_targets-Quiet (t ∷ ts) = Only-bind _ _ (say-Quiet _) (λ _. list_targets-Quiet ts)

  number_targets-Quiet : (n : ℕ) (ts : List Text) → Only Quiet (number_targets env n ts)
  unfolding number_targets
  number_targets-Quiet n [] = Only-pure tt
  number_targets-Quiet n (t ∷ ts) =
      Only-bind _ _ (say-Quiet _) (λ _. number_targets-Quiet (suc n) ts)

  printer_err-Quiet : Only Quiet printer_err
  unfolding printer_err
  printer_err-Quiet = search only_rules

  refuse_choice-Quiet :
      (sb : ScheduledBackup) (ts : List Text) → Only Quiet (refuse_choice env sb ts)
  unfolding refuse_choice
  refuse_choice-Quiet sb ts =
      search (only_rules, say-Quiet, list_targets-Quiet, printer_err-Quiet) depth 12

  apply_choice-Quiet : (o : RestoreOptions) (t : Text) → Only Quiet (apply_choice o t)
  unfolding apply_choice
  apply_choice-Quiet o t = search only_rules depth 10

  kept :
      (o : RestoreOptions) (i d : Bool)
      → Overwrites o
      → Overwrites (record o { in_place = i; to_database = d })
  kept o i d w = record {
    no_dir = w.no_dir;
    no_pvc = w.no_pvc;
    no_yes = w.no_yes;
    no_dry_run = w.no_dry_run;
  }

  apply_choice-Overwrites :
      (o : RestoreOptions) (t : Text) → Overwrites o → Returns Overwrites (apply_choice o t)
  unfolding apply_choice
  apply_choice-Overwrites o t w =
      let volume = kept o true o.to_database w in
      let database = kept o o.in_place true w in search (returns_rules, volume, database) depth 8

  choose_restore-Quiet :
      (sb : ScheduledBackup) (o : RestoreOptions) → Only Quiet (choose_restore env term sb o)
  unfolding choose_restore
  choose_restore-Quiet sb o =
      search
        (
          only_rules, say-Quiet, say_and_check-Quiet, number_targets-Quiet, refuse_choice-Quiet,
          apply_choice-Quiet,
        )
        depth 16

  refuse_choice-never :
      (sb : ScheduledBackup) (ts : List Text) → Returns Overwrites (refuse_choice env sb ts)
  unfolding refuse_choice
  refuse_choice-never sb ts = search returns_rules depth 10

  choose_restore-Overwrites :
      (sb : ScheduledBackup) (o : RestoreOptions)
      → Overwrites o
      → Returns Overwrites (choose_restore env term sb o)
  unfolding choose_restore
  choose_restore-Overwrites sb o w =
      search (returns_rules, refuse_choice-never, apply_choice-Overwrites) depth 12

module _ (env : Env) (term : Terminal) (sb : ScheduledBackup)
    (un : Unconfirmed env term sb.meta.name) where
  -- What follows a confirmation is not done.
  unconfirmed :
      (o : RestoreOptions) (what : Text) (rest : Cmd (Unit {0}))
      → Overwrites o
      → Only Quiet (confirm env term (o.yes_given || o.dry_run) what sb.meta.name >>= λ _. rest)
  unconfirmed o what rest w = Only-bind_never _ _ (confirm-Quiet env term _ what sb.meta.name) (
      confirm-never env term (o.yes_given || o.dry_run) what sb.meta.name
        (ground (arith, w.no_yes, w.no_dry_run)) un)

  restore_in_place-Quiet :
      (o : RestoreOptions) → Overwrites o → Only Quiet (restore_in_place env term sb o)
  unfolding restore_in_place
  restore_in_place-Quiet o w =
      Only-on_option sb.spec.volume _ _ (λ v. unconfirmed o _ _ w) (Only-raise _)

  restore_to_database-Quiet :
      (o : RestoreOptions) → Overwrites o → Only Quiet (restore_to_database env term sb o)
  unfolding restore_to_database
  restore_to_database-Quiet o w =
      Only-on_option sb.spec.database _ _ (λ v. unconfirmed o _ _ w) (Only-raise _)

  module _ (tools : Tools) (dump : Dump) where
    restore_to_target-Quiet :
        (o : RestoreOptions)
        → Overwrites o
        → Only Quiet (restore_to_target env term tools dump sb o)
    unfolding restore_to_target
    restore_to_target-Quiet o w =
        Only-if_cases (not (is_empty o.to_dir)) _ _ (λ e. absurd (ground (arith, w.no_dir)))
          λ _.
            Only-if_cases (not (is_empty o.to_new_pvc)) _ _ (λ e. absurd (ground (arith, w.no_pvc)))
              λ _. Only-if _ _ _ (restore_to_database-Quiet o w) (restore_in_place-Quiet o w)

    chosen-Quiet :
        (o : RestoreOptions) (b : Bool)
        → Overwrites o
        → Only Quiet (
            (if b then pure o else choose_restore env term sb o)
            >>= restore_to_target env term tools dump sb)
    chosen-Quiet o b w =
        Only-bind-Returns Overwrites _ _
          (Only-if b _ _ (Only-pure o) (choose_restore-Quiet env term sb o))
          (Returns-if b _ _ (λ _. Returns-pure o w)
            (λ _. choose_restore-Overwrites env term sb o w))
          restore_to_target-Quiet

-- A restore without --to, --to-new-pvc, --yes and --dry-run only prints and reads lines if there is
-- no terminal, or if no line that is typed there is the name of the backup: it creates no Job, and
-- neither suspends the backup nor changes anything else.
pub run_restore-Quiet :
    (env : Env) (term : Terminal) (tools : Tools) (dump : Dump) (sb : ScheduledBackup)
    (o : RestoreOptions) (s : St Console)
    → Overwrites o
    → Unconfirmed env term sb.meta.name
    → All Quiet s.calls
    → All Quiet (run_restore env term tools dump sb o s).1.calls
unfolding run_restore
run_restore-Quiet env term tools dump sb o s w un h =
    (Only-if _ _ _ (Only-raise _) (chosen-Quiet env term sb un tools dump o _ w)).at s h
