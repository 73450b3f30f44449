-- ===== src/Cli/Restore/Download.antt =====
-- internal/cli/restore_targets.go: the download of a snapshot. Of package path/filepath, Clean, Join
-- and Dir are those of absolute paths.
pub mod Paths
pub mod Extraction
use borgbase_operator.Base.{
  ℕ, ◌+◌, Text, codes, is_empty, text_eq, has_prefix, join, split, format_nat, Bool, false, not,
  ◌||◌, ◌&&◌, List, [], ◌∷◌, ◌++◌, if◌then◌else◌,
}
use borgbase_operator.Errors.{plain, Result, ok, err}
use borgbase_operator.Api.ScheduledBackup.{ScheduledBackup}
use borgbase_operator.Kube.Running.{Pod}
use borgbase_operator.Controller.Env.{
  Env, FileChange, make_dirs, write_file, remove_file, make_link, change_file, make_runner,
}
use borgbase_operator.Controller.Exec.{Exec, pure, raise, lift, call, attempt, ◌>>=◌, ◌>>◌}
use borgbase_operator.Cli.Console.{Cmd, new_error_printer, say_and_check}
use borgbase_operator.Cli.Derive.{Options}
use borgbase_operator.Cli.Runner.{attach}
use borgbase_operator.Cli.Repair.{default_restic_timeout}
use borgbase_operator.Cli.Restore.{RestoreOptions}

-- The last element is dropped.
abbrev pub but_last : List Text → List Text
but_last [] = []
but_last (x ∷ []) = []
but_last (x ∷ (y ∷ ys)) = x ∷ but_last (y ∷ ys)

-- One element of a path on top of those before it.
abbrev pub walk : List Text → Text → List Text
walk els el =
    if is_empty el || text_eq el (codes ".")
    then els
    else if text_eq el (codes "..")
    then but_last els
    else els ++ (el ∷ [])

abbrev pub walk_all : List Text → List Text → List Text
walk_all els [] = els
walk_all els (p ∷ ps) = walk_all (walk els p) ps

-- The elements of an absolute path, where `..` at the root is the root.
unfoldable pub elements : Text → List Text
elements path = walk_all [] (split b'/' path)

abbrev pub rooted : List Text → Text
rooted els = b'/' ∷ join els (codes "/")

-- filepath.Clean of an absolute path
abbrev pub clean : Text → Text
clean path = rooted (elements path)

-- filepath.Join of an absolute path and another path
abbrev pub join_paths : Text → Text → Text
join_paths a b = clean (a ++ (b'/' ∷ b))

-- filepath.Dir of an absolute path that is clean
abbrev pub dir_of : Text → Text
dir_of path = rooted (but_last (elements path))

-- The types of an entry of an archive: a directory, a file with what its content reads as, a link
-- with what it refers to, and any other.
pub data Entry : Type 0 where
  dir_entry file_entry other_entry : Text → Entry
  link_entry : Text → Text → Entry

abbrev pub entry_name : Entry → Text
entry_name (dir_entry name) = name
entry_name (file_entry name) = name
entry_name (other_entry name) = name
entry_name (link_entry name _) = name

-- Where an entry goes.
unfoldable pub target_of : Text → Text → Text
target_of dest name = join_paths dest (clean (b'/' ∷ name))

-- The test of `untar` on a target.
unfoldable pub is_outside : Text → Text → Bool
is_outside dest target =
    not (has_prefix target (clean dest ++ codes "/")) && not (text_eq target (clean dest))

module _ {O : Type 0} (env : Env) where
  change : FileChange → Exec O (Unit {0})
  change c = call (change_file c) (λ h. env.file_changed h c)

  -- The switch of `untar` on an entry: how many files it adds.
  unfoldable pub extract : Text → Entry → Exec O ℕ
  unfolding change
  extract target (dir_entry name) = change (make_dirs target) >>= λ _. pure 0
  extract target (file_entry name) = do
    change (make_dirs (dir_of target))
    change (write_file target)
    pure 1
  extract target (link_entry name to) = do
    change (make_dirs (dir_of target))
    attempt (change (remove_file target))
    change (make_link target to)
    pure 1
  extract target (other_entry name) = pure 0

  -- `func untar`, on the entries that the reader gives and the errors of reading them.
  unfoldable pub untar : Text → ℕ → List (Result Entry) → Exec O ℕ
  unfolding extract
  untar dest count [] = pure count
  untar dest count (err e ∷ entries) = raise e
  untar dest count (ok entry ∷ entries) =
      let target = target_of dest (entry_name entry) in
      if is_outside dest target
      then raise (
          plain (
            codes "refusing entry outside the target directory: \""
            ++ (entry_name entry ++ codes "\"")))
      else (extract target entry >>= λ n. untar dest (count + n) entries)

abbrev download_options : Options
download_options = record {
  command = [];
  purpose = codes "download";
  mount_data = false;
  mount_cache = false;
  mount_database = false;
  image = [];
  tty = false;
  keep_job = false;
  extra_volumes = [];
  extra_mounts = [];
}

-- filepath.Abs, and the run of `restic dump` in a pod with the given arguments: the archive that it
-- writes, and its error.
pub record Dump : Type 0 where
  pub absolute : Text → Result Text
  pub dumped : Pod → List Text → List (Result Entry) × Result (Unit {0})

module _ (env : Env) (dump : Dump) where
  -- The function that `restoreToDir` attaches. The reader and the writer run at one time; the error
  -- of the writer comes first.
  unfoldable pub download : Text → List Text → Pod → Cmd (Unit {0})
  unfolding untar
  download dest args pod = do
    let (entries, written) = dump.dumped pod args
    count ← attempt (untar env dest 0 entries)
    lift written
    n ← lift count
    new_error_printer
    say_and_check env
        (codes "restored " ++ (format_nat n ++ (codes " files into " ++ (dest ++ codes "\n"))))

  -- `func restoreToDir`
  unfoldable pub restore_to_dir : ScheduledBackup → RestoreOptions → Cmd (Unit {0})
  unfolding download
  restore_to_dir sb o = do
    dest ← lift (dump.absolute o.to_dir)
    call (change_file (make_dirs dest)) (λ h. env.file_changed h (make_dirs dest))
    call make_runner env.runner_made
    let path = if is_empty o.path then codes "/" else o.path
    new_error_printer
    say_and_check env (
        codes "downloading "
        ++ (path
            ++ (codes " from snapshot "
                ++ (o.snapshot ++ (codes " into " ++ (dest ++ codes "\n"))))))
    attach env sb download_options default_restic_timeout (
        download dest
          (codes "restic" ∷ (codes "dump" ∷ (codes "--archive=tar" ∷ (o.snapshot ∷ (path ∷ []))))))
