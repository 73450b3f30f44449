-- ===== src/Controller/Repository/Reconcile/Requeue.antt =====
-- repository_controller.go: the delay that a pass asks for.
use borgbase_operator.Base.{ℕ, ◌<◌, ltb, ltb→lt, Text, Bool, arith}
use borgbase_operator.Api.Repository.{Repository}
use borgbase_operator.Borgbase.Types.{Repo}
use borgbase_operator.Controller.Env.{Env}
use borgbase_operator.Controller.Exec.Returns.{Returns, Returns-if, Returns-bind, returns_rules}
use borgbase_operator.Controller.Repository.Base.{RepositoryReconciler, interval_of}
use borgbase_operator.Controller.Repository.Reconcile.{
  after_init, finish_init, initialize, provision, refuse_conflict, conflict_or_provision, reconcile,
}

-- A delay: the next pass comes by itself.
abbrev pub IsDelay : ℕ → Type 0
IsDelay delay = 0 < delay

interval_of-IsDelay : (repo : Repository) → IsDelay (interval_of repo)
unfolding interval_of
interval_of-IsDelay repo = ground arith

module _ (env : Env) (r : RepositoryReconciler) where
  after_init-IsDelay : (requeue : ℕ) → Returns IsDelay (after_init env r requeue)
  unfolding after_init
  after_init-IsDelay requeue =
      Returns-if (ltb 0 requeue) _ _
        (λ h.
          let later : IsDelay requeue = ltb→lt 0 requeue h in search (returns_rules, later) depth 8)
        (λ _.
          let later : IsDelay 10000000000 = omega arith in search (returns_rules, later) depth 8)

  finish_init-IsDelay : (repo : Repository) → Returns IsDelay (finish_init env r repo)
  unfolding finish_init
  finish_init-IsDelay repo = search (returns_rules, interval_of-IsDelay) depth 8

  initialize-IsDelay : (repo : Repository) → Returns IsDelay (initialize env r repo)
  unfolding initialize
  initialize-IsDelay repo =
      Returns-if repo.status.initialized _ _ (λ _. finish_init-IsDelay repo)
        (λ _. Returns-bind _ _ after_init-IsDelay)

  provision-IsDelay :
      (token : Text) (repo : Repository) (remote : Repo) (known : Bool)
      → Returns IsDelay (provision env r token repo remote known)
  unfolding provision
  provision-IsDelay token repo remote known = search (returns_rules, initialize-IsDelay) depth 12

  conflict_or_provision-IsDelay :
      (token : Text) (known : Bool) (remote : Repo) (o : Repository)
      → Returns IsDelay (conflict_or_provision env r token known remote o)
  unfolding conflict_or_provision refuse_conflict
  conflict_or_provision-IsDelay token known remote o =
      search (returns_rules, provision-IsDelay, interval_of-IsDelay) depth 12

  -- A pass over a Repository that is neither suspended nor being deleted, if it succeeds, asks
  -- for the next pass after a positive delay, in every state of the repository.
  pub reconcile-IsDelay :
      (token : Text) (repo : Repository) → Returns IsDelay (reconcile env r token repo)
  unfolding reconcile
  reconcile-IsDelay token repo = search (returns_rules, conflict_or_provision-IsDelay) depth 12
