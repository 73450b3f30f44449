-- ===== src/Cli/Restore/Download/Extraction.antt =====
-- restore_targets.go: what `untar` changes.
use borgbase_operator.Base.{ℕ, ◌+◌, Text, All, List, [], ◌∷◌, ◌++◌, ◌≡◌, ◌⊎◌, inl, inr, refl}
use borgbase_operator.Errors.{Result, ok, err}
use borgbase_operator.Controller.Env.{
  Env, Call, FileChange, make_dirs, write_file, remove_file, make_link, change_file,
}
use borgbase_operator.Controller.Exec.{St}
use borgbase_operator.Controller.Exec.Only.{
  Only, Only-pure, Only-raise, Only-bind, Only-if, Only-attempt, only_rules,
}
use borgbase_operator.Cli.Restore.Download.{
  elements, rooted, target_of, dir_of, Entry, entry_name, dir_entry, file_entry, other_entry,
  link_entry, change, extract, untar,
}
use borgbase_operator.Cli.Restore.Download.Paths.{IsPlain, elements-IsPlain, target_of-rooted}

-- The path is that of the directory, or one below it with no `..` in it.
abbrev pub Inside : Text → Text → Type 0
Inside dest path = (els : List Text) × (All IsPlain els × (path ≡ rooted (elements dest ++ els)))

-- A change that an archive may make: files and links at or below the directory, and the directories
-- that hold them.
abbrev pub MayChange : Text → FileChange → Type 0
MayChange dest (make_dirs path) =
    Inside dest path ⊎ ((t : Text) × (Inside dest t × (path ≡ dir_of t)))
MayChange dest (write_file path) = Inside dest path
MayChange dest (remove_file path) = Inside dest path
MayChange dest (make_link path to) = Inside dest path

abbrev pub Extracts : Text → Call → Type 0
Extracts dest (change_file c) = MayChange dest c
Extracts dest _ = ⊥

target_of-Inside : (dest name : Text) → Inside dest (target_of dest name)
target_of-Inside dest name =
    (elements (b'/' ∷ name), (elements-IsPlain (b'/' ∷ name), target_of-rooted dest name))

module _ {O : Type 0} (env : Env) (dest : Text) where
  change-Only : (c : FileChange) → MayChange dest c → Only (Extracts dest) (change {O = O} env c)
  unfolding change
  change-Only c may = search (only_rules, may)

  extract-Only :
      (target : Text) (entry : Entry)
      → Inside dest target
      → Only (Extracts dest) (extract {O = O} env target entry)
  unfolding extract
  extract-Only target (dir_entry name) may =
      Only-bind _ _ (change-Only _ (inl may)) (λ _. Only-pure _)
  extract-Only target (file_entry name) may =
      Only-bind _ _ (change-Only _ (inr (target, (may, refl))))
        λ _. Only-bind _ _ (change-Only _ may) (λ _. Only-pure _)
  extract-Only target (link_entry name to) may =
      Only-bind _ _ (change-Only _ (inr (target, (may, refl)))) λ _.
        Only-bind _ _ (Only-attempt _ (change-Only (remove_file target) may))
          λ _. Only-bind _ _ (change-Only (make_link target to) may) (λ _. Only-pure _)
  extract-Only target (other_entry name) may = Only-pure _

  untar-Only :
      (count : ℕ) (entries : List (Result Entry))
      → Only (Extracts dest) (untar {O = O} env dest count entries)
  unfolding untar
  untar-Only count [] = Only-pure count
  untar-Only count (err e ∷ entries) = Only-raise e
  untar-Only count (ok entry ∷ entries) = Only-if _ _ _ (Only-raise _) (
      Only-bind _ _ (extract-Only _ entry (target_of-Inside dest (entry_name entry)))
        (λ n. untar-Only (count + n) entries))

-- Whatever the names of an archive's entries, `untar` writes, replaces and links only paths at or
-- below the target directory, with no `..` below it, and makes only such directories or those that
-- hold such paths. This is said of the paths: what a link that the archive makes refers to is not
-- looked at.
pub untar-Extracts :
    {O : Type 0} (env : Env) (dest : Text) (count : ℕ) (entries : List (Result Entry)) (s : St O)
    → All (Extracts dest) s.calls
    → All (Extracts dest) (untar env dest count entries s).1.calls
untar-Extracts env dest count entries s h = (untar-Only env dest count entries).at s h
