-- ===== src/Backup/Script.antt =====
-- internal/backup/script.go: the shell script of a backup.
pub mod Quoting
use borgbase_operator.Base.{
  ℕ, ltb, leb, ◌==◌, Text, codes, is_empty, all, join, format_int, map, Bool, true, false, not,
  ◌&&◌, ◌||◌, Option, none, some, ℤ, is_positive, List, [], ◌∷◌, ◌++◌, reverse, if◌then◌else◌,
}
use borgbase_operator.Errors.{plain, Result, ok, err, ◌>>=◌}
use borgbase_operator.Api.ScheduledBackup.{
  SourceType, source_cnpg, source_mariadb, source_files, source_unknown, source_type_text,
  db_secret_mount_path, BackupSource, effective_tag, effective_path, Retention, ScheduledBackupSpec,
}
use borgbase_operator.Backup.Tools.{Tools}

abbrev pub preamble : Text
preamble = codes "exec > >(ts '%H:%M:%S') 2>&1\nset -eu"

abbrev pub postamble : Text
postamble = codes "restic cache --cleanup"

-- strings.ReplaceAll(s, "'", `'\''`)
unfoldable pub escape_quotes : Text → Text
escape_quotes [] = []
escape_quotes (c ∷ s) =
    let rest = escape_quotes s in if c == 39 then codes "'\\''" ++ rest else c ∷ rest

-- `func shellQuote`
unfoldable pub shell_quote : Text → Text
unfolding escape_quotes
shell_quote s = 39 ∷ (escape_quotes s ++ (39 ∷ []))

-- A byte of the class [A-Za-z0-9_.:@%+,/=-] of `safeBare`: the marks are + , - . / : = @ _ %.
unfoldable pub is_safe : ℕ → Bool
is_safe c =
    (leb 65 c && leb c 90)
    || ((leb 97 c && leb c 122)
        || ((leb 43 c && leb c 58) || (c == 61 || (c == 64 || (c == 95 || c == 37)))))

-- `func shellQuoteIfNeeded`
unfoldable pub shell_quote_if_needed : Text → Text
unfolding shell_quote is_safe
shell_quote_if_needed s = if not (is_empty s) && all is_safe s then s else shell_quote s

-- strings.TrimRight(s, "\n")
trim_newlines : Text → Text
trim_newlines s = reverse (skip (reverse s))
  where
    skip : Text → Text
    skip [] = []
    skip (c ∷ t) = let rest = skip t in if c == 10 then rest else c ∷ t

-- A line with its newline.
abbrev line : Text → Text
line s = s ++ codes "\n"

abbrev pub keep_flag : Text → Option ℤ → List Text
keep_flag name none = []
keep_flag name (some n) = (codes "--keep-" ++ (name ++ (codes "=" ++ format_int n))) ∷ []

-- The flags of `renderForget`.
unfoldable pub keep_flags : Retention → List Text
keep_flags r =
    keep_flag (codes "last") r.last
    ++ (keep_flag (codes "hourly") r.hourly
        ++ (keep_flag (codes "daily") r.daily
            ++ (keep_flag (codes "weekly") r.weekly
                ++ (keep_flag (codes "monthly") r.monthly ++ keep_flag (codes "yearly") r.yearly))))

unfoldable pub forget_with : List Text → Text → Text
forget_with [] retry_lock = []
forget_with (f ∷ fs) retry_lock =
    codes "restic forget --prune" ++ (retry_lock ++ (codes " " ++ join (f ∷ fs) (codes " ")))

-- `func renderForget`
unfoldable pub render_forget : Option Retention → Text → Text
unfolding keep_flags forget_with
render_forget none retry_lock = []
render_forget (some r) retry_lock = forget_with (keep_flags r) retry_lock

-- `restic backup<lock> --tag=<tag>`
abbrev backup_command : BackupSource → Text → Text
backup_command src retry_lock =
    codes "restic backup" ++ (retry_lock ++ (codes " --tag=" ++ effective_tag src))

render_files : BackupSource → Text → Text
unfolding shell_quote_if_needed shell_quote
render_files src retry_lock =
    join
      ((backup_command src retry_lock ++ (codes " " ++ shell_quote_if_needed (effective_path src)))
        ∷ map (λ ex. codes "  --exclude=" ++ shell_quote ex) src.exclude)
      (codes " \\\n")

spaced : List Text → Text
spaced [] = []
spaced (a ∷ args) = codes " " ++ (a ++ spaced args)

extra : List Text → Text
unfolding spaced
extra [] = []
extra (a ∷ args) = codes " --" ++ spaced (a ∷ args)

render_database : BackupSource → Text → Text
unfolding shell_quote_if_needed extra
render_database src retry_lock =
    backup_command src retry_lock
    ++ (codes " --stdin-from-command -- dumpdb "
        ++ (source_type_text src.type
            ++ (codes " --secret-mount="
                ++ (db_secret_mount_path
                    ++ ((if is_empty src.database
                          then []
                          else codes " --database=" ++ shell_quote_if_needed src.database)
                        ++ extra src.extra_args)))))

-- `func renderSource`
unfoldable pub render_source : BackupSource → Text → Result Text
unfolding render_files render_database
render_source src retry_lock = elim src.type [
  | source_files ↦ ok (render_files src retry_lock)
  | source_cnpg ↦ ok (render_database src retry_lock)
  | source_mariadb ↦ ok (render_database src retry_lock)
  | source_unknown t ↦ err (plain (codes "unknown source type \"" ++ (t ++ codes "\"")))
]

-- The lines of the sources, in their order.
unfoldable pub render_sources : List BackupSource → Text → Result Text
unfolding render_source
render_sources [] retry_lock = ok []
render_sources (src ∷ more) retry_lock = render_source src retry_lock >>= λ first.
    render_sources more retry_lock >>= λ rest. ok (line first ++ rest)

module _ (tools : Tools) where
  -- `func retryLockFlag`
  unfoldable pub retry_lock_flag : ScheduledBackupSpec → Text
  retry_lock_flag spec = elim spec.retry_lock [
    | none ↦ []
    | some d ↦ if is_positive d then codes " --retry-lock=" ++ tools.duration_text d else []
  ]

  abbrev line_if_any : Text → Text
  line_if_any s = if is_empty s then [] else line s

  -- `func Render`
  unfoldable pub render : ScheduledBackupSpec → Result Text
  unfolding render_sources render_forget retry_lock_flag trim_newlines
  render spec =
      if not (is_empty spec.script)
      then ok (line preamble ++ (line (trim_newlines spec.script) ++ line postamble))
      else render_sources spec.sources (retry_lock_flag spec) >>= λ body. ok (
          line preamble
          ++ (body
              ++ (line_if_any (render_forget spec.retention (retry_lock_flag spec))
                  ++ line postamble)))
