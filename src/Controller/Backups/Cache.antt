-- ===== src/Controller/Backups/Cache.antt =====
-- The cache claim: `reconcileCache` and `deleteCache`.
pub mod Ownership
use borgbase_operator.Base.{
  Text, codes, text_eq, Bool, false, Option, none, some, not, [], ◌++◌, if◌then◌else◌,
}
use borgbase_operator.Errors.{wrap, is_not_found, is_already_exists, Result, ok, err}
use borgbase_operator.Api.Meta.{OwnerReference}
use borgbase_operator.Api.ScheduledBackup.{ScheduledBackup}
use borgbase_operator.Kube.Objects.{VolumeClaim}
use borgbase_operator.Backup.Tools.{Tools}
use borgbase_operator.Backup.Workload.{build_cache_claim}
use borgbase_operator.Backup.Workload.Pods.{Config, cache_name}
use borgbase_operator.Controller.Env.{Env, get_claim, create_claim, delete_claim}
use borgbase_operator.Controller.Exec.{
  St, Exec, pure, raise, lift, ask, ◌>>=◌, on_result, on_option,
}

-- `owner == nil || owner.UID != sb.UID`, the other way round.
abbrev pub is_owner : Option OwnerReference → Text → Bool
is_owner none uid = false
is_owner (some owner) uid = text_eq owner.uid uid

module _ (env : Env) where
  delete_owned : ScheduledBackup → VolumeClaim → Exec ScheduledBackup (Unit {0})
  delete_owned sb claim =
      if not (is_owner (env.get_controller_of claim.meta) sb.meta.uid) then pure tt else do
        reply ← ask (delete_claim claim) (λ h. env.deleted_claim h claim)
        on_result reply pure λ e.
            if is_not_found e then pure tt else raise (wrap (codes "deleting cache volume: ") e [])

  -- `func (r *ScheduledBackupReconciler) deleteCache`
  unfoldable pub delete_cache : ScheduledBackup → Exec ScheduledBackup (Unit {0})
  unfolding delete_owned
  delete_cache sb = do
    reply ←
        ask (get_claim sb.meta.namespace (cache_name sb))
          (λ h. env.got_claim h sb.meta.namespace (cache_name sb))
    on_result reply (delete_owned sb) λ e. if is_not_found e then pure tt else raise e

  create_cache : VolumeClaim → Exec ScheduledBackup (Unit {0})
  create_cache desired = do
    reply ← ask (create_claim desired) (λ h. env.created_claim h desired)
    on_result reply pure λ e.
        if is_already_exists e then pure tt else raise (wrap (codes "creating cache volume: ") e [])

  ensure_cache : ScheduledBackup → VolumeClaim → Exec ScheduledBackup (Unit {0})
  unfolding create_cache
  ensure_cache sb claim = do
    meta ← lift (env.set_controller_reference sb.meta claim.meta)
    let desired : VolumeClaim = record claim { meta = meta }
    reply ← ask (get_claim meta.namespace meta.name) (λ h. env.got_claim h meta.namespace meta.name)
    on_result reply (λ _. pure tt) λ e. if is_not_found e then create_cache desired else raise e

  -- `func (r *ScheduledBackupReconciler) reconcileCache`
  unfoldable pub reconcile_cache :
      Tools → Config → ScheduledBackup → Exec ScheduledBackup (Unit {0})
  unfolding ensure_cache create_cache
  reconcile_cache tools cfg sb = do
    desired ← lift (build_cache_claim tools cfg sb)
    on_option desired (ensure_cache sb) (delete_cache sb)
