-- ===== src/Tests/Restores.antt =====
-- The theorems on the command `restore`.
use borgbase_operator.Base.{
  Text, codes, text_eq, trim_space, join, split, true, false, none, List, [], ◌∷◌, ◌≡◌, refl, inr,
  All,
}
use borgbase_operator.Errors.{Result, ok, ok-inj}
use borgbase_operator.Controller.Env.{Env}
use borgbase_operator.Api.ScheduledBackup.{ScheduledBackup}
use borgbase_operator.Controller.Exec.Settled.{Settled}
use borgbase_operator.Cli.Restore.{RestoreOptions, Terminal}
use borgbase_operator.Cli.Restore.Download.{
  Dump, Entry, file_entry, link_entry, dir_entry, elements, target_of, untar,
}
use borgbase_operator.Cli.Restore.Download.Extraction.{Extracts, untar-Extracts}
use borgbase_operator.Cli.Restore.Targets.{run_restore}
use borgbase_operator.Cli.Restore.Targets.Confirmation.{
  Quiet, Overwrites, Unconfirmed, run_restore-Quiet,
}
use borgbase_operator.Tests.Data.{sample_backup, sample_tools}
use borgbase_operator.Tests.Commands.{start, cluster}

abbrev in_place_options : RestoreOptions
in_place_options = record {
  snapshot = codes "latest";
  in_place = true;
  to_new_pvc = [];
  to_database = false;
  to_dir = [];
  size = [];
  path = [];
  include_patterns = [];
  exclude_patterns = [];
  delete_others = false;
  dry_run = false;
  yes_given = false;
}

abbrev terminal : Terminal
terminal = record { interactive = true; scan_number = λ _. none }

abbrev archive : List (Result Entry)
archive =
    ok (dir_entry (codes "www/"))
    ∷ (ok (file_entry (codes "../../etc/passwd"))
        ∷ (ok (link_entry (codes "www/a") (codes "b")) ∷ []))

abbrev no_dump : Dump
no_dump = record { absolute = λ p. ok p; dumped = λ _ _. (archive, ok tt) }

-- Somebody types another name.
abbrev other_line : Env
other_line = record cluster { line_read = λ _. ok (codes "weekly\n") }

in_place_options-Overwrites : Overwrites in_place_options
in_place_options-Overwrites = record {
  no_dir = refl;
  no_pvc = refl;
  no_yes = refl;
  no_dry_run = refl;
}

typed_other :
    (line : Text) → codes "weekly\n" ≡ line → text_eq (trim_space line) (codes "nightly") ≡ false
unfolding text_eq trim_space
typed_other line e = rw (← e) refl

other_line-Unconfirmed : Unconfirmed other_line terminal (codes "nightly")
other_line-Unconfirmed = inr (λ h line e. typed_other line (ok-inj (codes "weekly\n") line e))

run_restore-Quiet_example :
    All Quiet
      (run_restore other_line terminal sample_tools no_dump sample_backup in_place_options
        start).1.calls
run_restore-Quiet_example =
    run_restore-Quiet other_line terminal sample_tools no_dump sample_backup in_place_options start
      in_place_options-Overwrites other_line-Unconfirmed tt

-- A cluster that has a backup of every name.
abbrev named_cluster : Env
named_cluster = record cluster {
  got_backup =
      λ _ _ name. ok (record sample_backup { meta = record sample_backup.meta { name = name } });
}

untar-Extracts_example :
    All (Extracts (codes "/tmp/out")) (untar cluster (codes "/tmp/out") 0 archive start).1.calls
untar-Extracts_example = untar-Extracts cluster (codes "/tmp/out") 0 archive start tt

-- A name with `..` stays below the directory.
climbing : target_of (codes "/tmp/out") (codes "../../etc/passwd") ≡ codes "/tmp/out/etc/passwd"
unfolding target_of elements text_eq join split
climbing = refl
