-- ===== src/Cli/Resolve.antt =====
-- internal/cli/resolve.go and `resolveRunTarget` of internal/cli/restic.go: which resources an
-- argument of a command names.
pub mod Targets
pub mod Reads
use borgbase_operator.Base.{
  ℕ, ◌+◌, leb, Text, codes, is_empty, text_eq, Dict, lookup, cut, join, map, Bool, true, false,
  ◌&&◌, Option, none, some, List, [], ◌∷◌, ◌++◌, if◌then◌else◌,
}
use borgbase_operator.Errors.{
  Err, target_not_found, ambiguous, unknown_kind, no_backup_for_repository, wrap, is_not_found,
  Result, ok, err,
}
use borgbase_operator.Api.Repository.{Repository}
use borgbase_operator.Api.ScheduledBackup.{ScheduledBackup}
use borgbase_operator.Controller.Env.{Env, get_repository, get_backup, list_backups}
use borgbase_operator.Controller.Exec.{
  Exec, pure, raise, lift, ask, call, ◌>>=◌, ◌>>◌, on_result, on_option,
}

pub data TargetKind : Type 0 where
  kind_repository kind_backup : TargetKind

-- `string(kind)`
abbrev pub kind_text : TargetKind → Text
kind_text kind_repository = codes "repository"
kind_text kind_backup = codes "scheduledbackup"

-- `kindAliases`, in the order of its keys
abbrev pub kind_aliases : Dict TargetKind
kind_aliases =
    (codes "backup", kind_backup)
    ∷ ((codes "backups", kind_backup)
        ∷ ((codes "repo", kind_repository)
            ∷ ((codes "repos", kind_repository)
                ∷ ((codes "repositories", kind_repository)
                    ∷ ((codes "repository", kind_repository)
                        ∷ ((codes "sb", kind_backup)
                            ∷ ((codes "scheduledbackup", kind_backup)
                                ∷ ((codes "scheduledbackups", kind_backup) ∷ []))))))))

-- `func knownPrefixes`
abbrev pub known_prefixes : List Text
known_prefixes = map (λ alias. alias.0) kind_aliases

-- strings.ToLower on ASCII text
abbrev lower_byte : ℕ → ℕ
lower_byte c = if leb b'A' c && leb c b'Z' then c + 32 else c

abbrev pub to_lower : Text → Text
to_lower s = map lower_byte s

-- `type Target`
pub data Target : Type 0 where
  repository_target : Repository → Target
  backup_target : ScheduledBackup → Target

abbrev pub target_kind : Target → TargetKind
target_kind (repository_target _) = kind_repository
target_kind (backup_target _) = kind_backup

-- `func (t *Target) Name`
abbrev pub target_name : Target → Text
target_name (repository_target repo) = repo.meta.name
target_name (backup_target sb) = sb.meta.name

-- `func wrapNotFound`
abbrev pub wrap_not_found : Text → Text → Text → Err → Err
wrap_not_found kind namespace name e =
    if is_not_found e
    then wrap [] target_not_found (
        codes ": no "
        ++ (kind
            ++ (codes " named \""
                ++ (name ++ (codes "\" in namespace \"" ++ (namespace ++ codes "\""))))))
    else e

abbrev both_kinds : Text → Err
both_kinds arg = wrap [] ambiguous (
    codes ": \""
    ++ (arg
        ++ (codes "\" is both a ScheduledBackup and a Repository; qualify it as sb/"
            ++ (arg ++ (codes " or repo/" ++ arg)))))

abbrev neither_kind : Text → Text → Err
neither_kind arg namespace = wrap [] target_not_found (
    codes ": no ScheduledBackup or Repository named \""
    ++ (arg ++ (codes "\" in namespace \"" ++ (namespace ++ codes "\""))))

-- The switch of `Resolve` on the two answers for a bare name.
unfoldable pub choose_target :
    Text → Text → Result ScheduledBackup → Result Repository → Result Target
choose_target namespace arg (ok sb) (ok repo) = err (both_kinds arg)
choose_target namespace arg (ok sb) (err _) = ok (backup_target sb)
choose_target namespace arg (err _) (ok repo) = ok (repository_target repo)
choose_target namespace arg (err e) (err f) =
    if is_not_found e
    then if is_not_found f then err (neither_kind arg namespace) else err f
    else err e

-- The first backup of a list that writes to the repository.
unfoldable pub backup_using : Text → List ScheduledBackup → Option ScheduledBackup
backup_using name [] = none
backup_using name (sb ∷ sbs) =
    let later = backup_using name sbs in
    if text_eq sb.spec.repository_ref name then some sb else later

module _ {O : Type 0} (env : Env) where
  ask_repository : Text → Text → Exec O (Result Repository)
  ask_repository ns name = ask (get_repository ns name) (λ h. env.got_repository h ns name)

  ask_backup : Text → Text → Exec O (Result ScheduledBackup)
  ask_backup ns name = ask (get_backup ns name) (λ h. env.got_backup h ns name)

  -- `func get`
  unfoldable pub get_target : Text → TargetKind → Text → Exec O Target
  unfolding ask_repository ask_backup
  get_target ns kind_repository name = ask_repository ns name >>= λ reply.
      on_result reply (λ repo. pure (repository_target repo))
        λ e. raise (wrap_not_found (codes "Repository") ns name e)
  get_target ns kind_backup name = ask_backup ns name >>= λ reply.
      on_result reply (λ sb. pure (backup_target sb))
        λ e. raise (wrap_not_found (codes "ScheduledBackup") ns name e)

  -- An argument with a slash.
  unfoldable pub resolve_prefixed : Text → Text → Text → Text → Exec O Target
  unfolding get_target
  resolve_prefixed ns arg prefix name =
      on_option (lookup (to_lower prefix) kind_aliases)
        (λ kind.
          if is_empty name
          then raise (wrap [] target_not_found (codes ": \"" ++ (arg ++ codes "\" has no name")))
          else get_target ns kind name)
        (raise (
          wrap [] unknown_kind (
            codes " \""
            ++ (prefix ++ (codes "\", expected one of: " ++ join known_prefixes (codes ", "))))))

  -- An argument with no slash.
  unfoldable pub resolve_bare : Text → Text → Exec O Target
  unfolding ask_repository ask_backup
  resolve_bare ns arg = do
    sb ← ask_backup ns arg
    repo ← ask_repository ns arg
    lift (choose_target ns arg sb repo)

  -- `func Resolve`
  unfoldable pub resolve : Text → Text → Exec O Target
  unfolding resolve_prefixed resolve_bare
  resolve ns arg =
      if is_empty arg
      then raise (wrap [] target_not_found (codes ": empty name"))
      else on_option (cut b'/' arg) (λ parts. resolve_prefixed ns arg parts.0 parts.1)
          (resolve_bare ns arg)

  -- `func RepositoryFor`
  unfoldable pub repository_for : ScheduledBackup → Exec O Repository
  unfolding ask_repository
  repository_for sb = do
    let name = sb.spec.repository_ref
    reply ← ask_repository sb.meta.namespace name
    on_result reply pure λ e. raise (
        wrap_not_found (codes "Repository") sb.meta.namespace
          (name ++ (codes " (referenced by scheduledbackup/" ++ (sb.meta.name ++ codes ")"))) e)

  unfoldable pub run_target_of : Target → Exec O (ScheduledBackup × Repository)
  run_target_of (backup_target sb) = repository_for sb >>= λ repo. pure (sb, repo)
  run_target_of (repository_target repo) = do
    sbs ← call (list_backups repo.meta.namespace) (λ h. env.listed_backups h repo.meta.namespace)
    on_option (backup_using repo.meta.name sbs) (λ sb. pure (sb, repo))
        (raise (
          wrap [] no_backup_for_repository (
            codes ": repository/"
            ++ (repo.meta.name
                ++ codes " has no ScheduledBackup to borrow credentials and placement from"))))

  -- `func resolveRunTarget`
  unfoldable pub resolve_run_target : Text → Text → Exec O (ScheduledBackup × Repository)
  unfolding run_target_of
  resolve_run_target ns arg = do target ← resolve ns arg; run_target_of target

  -- The Repository of a target, as `corg env` and `corg restore` look it up.
  unfoldable pub repository_of : Target → Exec O Repository
  repository_of (repository_target repo) = pure repo
  repository_of (backup_target sb) = repository_for sb
