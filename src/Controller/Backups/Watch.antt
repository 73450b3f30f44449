-- ===== src/Controller/Backups/Watch.antt =====
-- `backupsForRepository`, and the index of the backups that SetupWithManager registers.
use borgbase_operator.Base.{
  Text, text_eq, is_empty, Bool, List, [], ◌∷◌, any, keep, map, if◌then◌else◌,
}
use borgbase_operator.Api.Meta.{ObjectMeta}
use borgbase_operator.Api.ScheduledBackup.{ScheduledBackup}
use borgbase_operator.Controller.Env.{Env, list_backups}
use borgbase_operator.Controller.Exec.{Exec, pure, ask, ◌>>=◌, on_result}

-- The values of a backup in the index on its Repository.
unfoldable pub repository_index : ScheduledBackup → List Text
repository_index sb = if is_empty sb.spec.repository_ref then [] else sb.spec.repository_ref ∷ []

-- A list with the selector has the backups that the index has under the name.
unfoldable pub is_indexed : Text → ScheduledBackup → Bool
unfolding repository_index
is_indexed name sb = any (text_eq name) (repository_index sb)

-- `reconcile.Request`
pub record Request : Type 0 where
  pub namespace : Text
  pub name : Text

abbrev pub request_of : ScheduledBackup → Request
request_of sb = record { namespace = sb.meta.namespace; name = sb.meta.name }

-- `func (r *ScheduledBackupReconciler) backupsForRepository`
unfoldable pub backups_for_repository : {O : Type 0} → Env → ObjectMeta → Exec O (List Request)
unfolding is_indexed
backups_for_repository env meta = do
  reply ← ask (list_backups meta.namespace) (λ h. env.listed_backups h meta.namespace)
  on_result reply (λ sbs. pure (map request_of (keep (is_indexed meta.name) sbs))) (λ _. pure [])
