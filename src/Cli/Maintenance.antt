-- ===== src/Cli/Maintenance.antt =====
-- internal/cli/maintenance.go, snapshots.go and restic.go, and `exec` of shell.go: the commands
-- that run restic in a Job. Their flags are arguments.
pub mod Pruning
use borgbase_operator.Base.{
  ℕ, ltb, Text, codes, is_empty, text_eq, format_nat, format_int, Bool, true, false, not, ◌&&◌,
  Option, none, some, ℤ, pos, negsuc, List, [], ◌∷◌, ◌++◌, any, map, if◌then◌else◌,
}
use borgbase_operator.Errors.{Err, plain, wrap, append_only_repository, Result, ok, err}
use borgbase_operator.Api.Repository.{Repository}
use borgbase_operator.Api.ScheduledBackup.{ScheduledBackup, BackupSource, effective_tag, Retention}
use borgbase_operator.Controller.Env.{Env, make_runner}
use borgbase_operator.Controller.Exec.{pure, raise, lift, call, ◌>>=◌, ◌>>◌}
use borgbase_operator.Cli.Console.{Cmd}
use borgbase_operator.Cli.Derive.{Options}
use borgbase_operator.Cli.Resolve.{resolve_run_target}
use borgbase_operator.Cli.Runner.{run}
use borgbase_operator.Cli.Repair.{default_restic_timeout, restic_command}
use borgbase_operator.Cli.Restore.{Terminal, flag_if, confirm}
use borgbase_operator.Cli.Restore.Targets.{plain_options}

-- The loop of `sourceTags`, on the tags that it has seen.
unfoldable pub new_tags : List Text → List BackupSource → List Text
new_tags seen [] = []
new_tags seen (source ∷ sources) =
    let tag = effective_tag source in
    let more = new_tags (tag ∷ seen) sources in
    let same = new_tags seen sources in
    if not (is_empty tag) && not (any (text_eq tag) seen) then tag ∷ more else same

-- `func sourceTags`
unfoldable pub source_tags : ScheduledBackup → List Text
unfolding new_tags
source_tags sb = new_tags [] sb.spec.sources

-- The table of `retentionFlags`, and its loop.
abbrev pub retention_table : Retention → List (Text × Option ℤ)
retention_table r =
    (codes "last", r.last)
    ∷ ((codes "hourly", r.hourly)
        ∷ ((codes "daily", r.daily)
            ∷ ((codes "weekly", r.weekly)
                ∷ ((codes "monthly", r.monthly) ∷ ((codes "yearly", r.yearly) ∷ [])))))

unfoldable pub table_flags : List (Text × Option ℤ) → List Text
table_flags [] = []
table_flags ((name, none) ∷ fs) = table_flags fs
table_flags ((name, some n) ∷ fs) =
    (codes "--keep-" ++ (name ++ (codes "=" ++ format_int n))) ∷ table_flags fs

-- `func retentionFlags`
unfoldable pub retention_flags : Option Retention → List Text
unfolding table_flags
retention_flags none = []
retention_flags (some r) = table_flags (retention_table r)

unfoldable pub prune_with : ScheduledBackup → List Text → Bool → Result (List Text)
prune_with sb [] dry_run = err (
    plain (
      codes "scheduledbackup/"
      ++ (sb.meta.name ++ codes " has no spec.retention, so there is nothing to forget")))
prune_with sb (f ∷ fs) dry_run = ok (
    restic_command
      (codes "forget" ∷ (codes "--prune" ∷ ((f ∷ fs) ++ flag_if dry_run (codes "--dry-run")))))

abbrev pub append_only_error : Repository → Err
append_only_error repo = wrap [] append_only_repository (
    codes ": repository/"
    ++ (repo.meta.name ++ codes " cannot forget or prune; clear spec.appendOnly first"))

-- The command of `prune`.
unfoldable pub prune_command : Bool → ScheduledBackup → Repository → Result (List Text)
unfolding retention_flags prune_with
prune_command dry_run sb repo =
    if repo.spec.append_only
    then err (append_only_error repo)
    else prune_with sb (retention_flags sb.spec.retention) dry_run

-- The flags of `snapshots`; the host is the namespace where none is given.
pub record SnapshotFlags : Type 0 where
  pub all_tags : Bool
  pub host : Option Text
  pub as_json : Bool
  pub latest : ℤ

abbrev latest_flag : ℤ → List Text
latest_flag (pos n) = flag_if (ltb 0 n) (codes "--latest=" ++ format_nat n)
latest_flag (negsuc n) = []

abbrev host_of : Text → Option Text → Text
host_of ns none = ns
host_of ns (some host) = host

unfoldable pub snapshots_command : Text → SnapshotFlags → ScheduledBackup → List Text
unfolding source_tags
snapshots_command ns o sb =
    let host = host_of ns o.host in
    let tags = if o.all_tags then [] else map (λ tag. codes "--tag=" ++ tag) (source_tags sb) in
    restic_command (
      codes "snapshots"
      ∷ (tags
          ++ (flag_if (not (is_empty host)) (codes "--host=" ++ host)
              ++ (flag_if o.as_json (codes "--json") ++ latest_flag o.latest))))

module _ (env : Env) where
  -- `func runRestic`
  unfoldable pub run_restic :
      Text
      → Text
      → Text
      → (ScheduledBackup → Repository → Result (List Text))
      → Options
      → Cmd (Unit {0})
  run_restic ns arg purpose build opts = do
    found ← resolve_run_target env ns arg
    command ← lift (build found.0 found.1)
    call make_runner env.runner_made
    run env found.0 (record opts { command = command; purpose = purpose }) default_restic_timeout

  -- Without options.
  unfoldable pub run_plain :
      Text → Text → Text → (ScheduledBackup → Repository → Result (List Text)) → Cmd (Unit {0})
  unfolding run_restic
  run_plain ns arg purpose build = run_restic ns arg purpose build (plain_options purpose [])

  -- `corg unlock`
  unfoldable pub run_unlock : Terminal → Text → Text → Bool → Bool → Cmd (Unit {0})
  unfolding run_plain
  run_unlock term ns arg remove_all yes_given = do
    if remove_all
        then confirm env term yes_given (codes "every lock on the repository, including live ones")
            arg
        else pure tt
    run_plain ns arg (codes "unlock")
        λ _ _. ok (restic_command (codes "unlock" ∷ flag_if remove_all (codes "--remove-all")))

  -- `corg check`
  unfoldable pub run_check : Text → Text → Text → Cmd (Unit {0})
  unfolding run_plain
  run_check ns arg read_data = run_plain ns arg (codes "check") λ _ _. ok (
      restic_command (
        codes "check"
        ∷ flag_if (not (is_empty read_data)) (codes "--read-data-subset=" ++ read_data)))

  -- `corg prune`
  unfoldable pub run_prune : Terminal → Text → Text → Bool → Bool → Cmd (Unit {0})
  unfolding run_plain prune_command
  run_prune term ns arg dry_run yes_given = do
    if not dry_run
        then confirm env term yes_given
            (codes "snapshots outside the retention policy, permanently") arg
        else pure tt
    run_plain ns arg (codes "prune") (prune_command dry_run)

  -- `corg stats`
  unfoldable pub run_stats : Text → Text → Text → Cmd (Unit {0})
  unfolding run_plain
  run_stats ns arg mode =
      run_plain ns arg (codes "stats")
        λ _ _. ok (restic_command (codes "stats" ∷ ((codes "--mode=" ++ mode) ∷ [])))

  -- `corg snapshots`
  unfoldable pub run_snapshots : Text → Text → SnapshotFlags → Cmd (Unit {0})
  unfolding run_plain snapshots_command
  run_snapshots ns arg o =
      run_plain ns arg (codes "snapshots") (λ sb _. ok (snapshots_command ns o sb))

  -- `corg exec`, on whether exactly one argument stands before the dashes
  unfoldable pub run_exec : Text → Text → List Text → Bool → Options → Cmd (Unit {0})
  unfolding run_restic
  run_exec ns arg command one_before_dash opts =
      if not one_before_dash
      then raise (
          plain (
            codes "separate the command with --, e.g. corg exec "
            ++ (arg ++ codes " -- restic snapshots")))
      else run_restic ns arg (codes "exec") (λ _ _. ok command) opts
