-- ===== src/Cli/Resolve/Reads.antt =====
-- resolve.go and `resolveRunTarget`: they only read the cluster.
use borgbase_operator.Base.{Text}
use borgbase_operator.Controller.Env.{Call, Env}
use borgbase_operator.Controller.Exec.Only.{Only, Only-bind, only_rules}
use borgbase_operator.Cli.Runner.Reads.{IsRead}
use borgbase_operator.Cli.Resolve.{
  TargetKind, kind_repository, kind_backup, Target, repository_target, backup_target,
  ask_repository, ask_backup, get_target, resolve_prefixed, resolve_bare, resolve, repository_for,
  run_target_of, resolve_run_target,
}

module _ {O : Type 0} (env : Env) (P : Call → Type 0) (reads : (c : Call) → IsRead c → P c) where
  get_target-Only :
      (ns : Text) (kind : TargetKind) (name : Text) → Only P (get_target {O = O} env ns kind name)
  unfolding get_target ask_repository ask_backup
  get_target-Only ns kind_repository name = search (only_rules, reads, tt) depth 10
  get_target-Only ns kind_backup name = search (only_rules, reads, tt) depth 10

  resolve-Only : (ns arg : Text) → Only P (resolve {O = O} env ns arg)
  unfolding resolve resolve_prefixed resolve_bare ask_repository ask_backup
  resolve-Only ns arg = search (only_rules, reads, get_target-Only, tt) depth 14

  run_target_of-Only : (t : Target) → Only P (run_target_of {O = O} env t)
  unfolding run_target_of repository_for ask_repository
  run_target_of-Only (repository_target repo) = search (only_rules, reads, tt) depth 12
  run_target_of-Only (backup_target sb) = search (only_rules, reads, tt) depth 12

  pub resolve_run_target-Only : (ns arg : Text) → Only P (resolve_run_target {O = O} env ns arg)
  unfolding resolve_run_target
  resolve_run_target-Only ns arg = Only-bind _ _ (resolve-Only ns arg) run_target_of-Only
