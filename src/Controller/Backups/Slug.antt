-- ===== src/Controller/Backups/Slug.antt =====
-- Two backups with one check: `slugConflict` and `olderThan`.
pub mod Exclusion
use borgbase_operator.Base.{
  ℕ, ltb, ◌==◌, Text, codes, text_eq, text_lt, Bool, true, false, not, ◌||◌, ◌&&◌, is_some, List,
  [], ◌∷◌, ◌++◌, if◌then◌else◌,
}
use borgbase_operator.Errors.{wrap, Result}
use borgbase_operator.Api.ScheduledBackup.{ScheduledBackup}
use borgbase_operator.Healthchecks.{Reporter, pings_by_uuid}
use borgbase_operator.Backup.Workload.Pods.{Config, reporter_of}
use borgbase_operator.Controller.Env.{Env, list_backups}
use borgbase_operator.Controller.Exec.{St, Exec, pure, raise, ask, ◌>>=◌, on_result}

-- `func olderThan`
unfoldable pub older_than : ScheduledBackup → ScheduledBackup → Bool
older_than a b =
    if a.meta.creation_timestamp == b.meta.creation_timestamp
    then text_lt a.meta.name b.meta.name
    else ltb a.meta.creation_timestamp b.meta.creation_timestamp

-- Whether the backup pings a check by a slug.
unfoldable pub reports_slug : Config → ScheduledBackup → Bool
reports_slug cfg sb = let r = reporter_of sb cfg in r.enabled && not (pings_by_uuid r)

-- The body of the loop: another backup, not being deleted, that pings the same slug and is older.
unfoldable pub claims_slug : Config → ScheduledBackup → ScheduledBackup → Bool
claims_slug cfg sb other =
    if text_eq other.meta.name sb.meta.name || is_some other.meta.deletion_timestamp
    then false
    else if not (reports_slug cfg other)
        || not (text_eq (reporter_of other cfg).slug (reporter_of sb cfg).slug)
    then false
    else older_than other sb

-- The loop: the name of the first such backup, or the empty text.
unfoldable pub slug_conflict_in : Config → ScheduledBackup → List ScheduledBackup → Text
unfolding claims_slug older_than reports_slug
slug_conflict_in cfg sb [] = []
slug_conflict_in cfg sb (other ∷ more) =
    let rest = slug_conflict_in cfg sb more in
    if claims_slug cfg sb other then other.meta.name else rest

module _ (env : Env) where
  -- `func (r *ScheduledBackupReconciler) slugConflict`
  unfoldable pub slug_conflict : Config → ScheduledBackup → Exec ScheduledBackup Text
  slug_conflict cfg sb = if not (reports_slug cfg sb) then pure [] else do
    reply ← ask (list_backups sb.meta.namespace) (λ h. env.listed_backups h sb.meta.namespace)
    on_result reply (λ items. pure (slug_conflict_in cfg sb items))
        λ e. raise (wrap (codes "listing backups in " ++ (sb.meta.namespace ++ codes ": ")) e [])
