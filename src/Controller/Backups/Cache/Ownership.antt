-- ===== src/Controller/Backups/Cache/Ownership.antt =====
-- scheduledbackup_controller.go, reconcileCache: whose claims it deletes.
use borgbase_operator.Base.{Text, true, not, ◌≡◌, arith}
use borgbase_operator.Api.ScheduledBackup.{ScheduledBackup}
use borgbase_operator.Kube.Objects.{VolumeClaim}
use borgbase_operator.Backup.Tools.{Tools}
use borgbase_operator.Backup.Workload.Pods.{Config}
use borgbase_operator.Controller.Env.{Env, Call, delete_claim}
use borgbase_operator.Controller.Exec.Only.{
  Only, Only-pure, Only-lift, Only-bind, Only-if_cases, Only-on_option, only_rules,
}
use borgbase_operator.Controller.Backups.Cache.{
  is_owner, delete_owned, ensure_cache, delete_cache, reconcile_cache,
}

-- A request that, if it deletes a claim, deletes one whose controller is the given object.
abbrev pub DeletesOwned : Env → Text → Call → Type 0
DeletesOwned env uid (delete_claim claim) = is_owner (env.get_controller_of claim.meta) uid ≡ true
DeletesOwned env uid _ = Unit

module _ (env : Env) (sb : ScheduledBackup) where
  delete_owned-Only :
      (claim : VolumeClaim) → Only (DeletesOwned env sb.meta.uid) (delete_owned env sb claim)
  unfolding delete_owned
  delete_owned-Only claim =
      Only-if_cases (not (is_owner (env.get_controller_of claim.meta) sb.meta.uid)) _ _
        (λ _. Only-pure tt)
        λ owned.
          let mine : is_owner (env.get_controller_of claim.meta) sb.meta.uid ≡ true =
            ground (arith, owned) in
          search (only_rules, mine) depth 12

  delete_cache-Only : Only (DeletesOwned env sb.meta.uid) (delete_cache env sb)
  unfolding delete_cache
  delete_cache-Only = search (only_rules, delete_owned-Only) depth 12

  ensure_cache-Only :
      (claim : VolumeClaim) → Only (DeletesOwned env sb.meta.uid) (ensure_cache env sb claim)
  unfolding ensure_cache
  ensure_cache-Only claim = search only_rules depth 20

-- `reconcileCache` deletes no claim that the backup does not control, with the cache on or off
-- and whatever the environment answers.
pub reconcile_cache-Only :
    (env : Env) (sb : ScheduledBackup) (tools : Tools) (cfg : Config)
    → Only (DeletesOwned env sb.meta.uid) (reconcile_cache env tools cfg sb)
unfolding reconcile_cache
reconcile_cache-Only env sb tools cfg =
    Only-bind _ _ (Only-lift _)
      λ desired. Only-on_option desired _ _ (ensure_cache-Only env sb) (delete_cache-Only env sb)
