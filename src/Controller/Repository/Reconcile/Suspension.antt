-- ===== src/Controller/Repository/Reconcile/Suspension.antt =====
-- repository_controller.go: the requests of a pass over a suspended Repository.
use borgbase_operator.Base.{codes, List, ◌≡◌}
use borgbase_operator.Api.Meta.{Condition, condition_false}
use borgbase_operator.Api.Repository.{Repository, condition_ready}
use borgbase_operator.Controller.Env.{
  Env, Call, patch_repository, patch_repository_status, get_repository,
}
use borgbase_operator.Controller.Exec.Only.{Only}

-- The conditions are some conditions in which the Ready condition is set to false, with the reason
-- that the reconciliation is suspended and at the generation of the Repository.
abbrev pub SaysSuspended : Env → Repository → Type 0
SaysSuspended env o =
    (cs : List Condition) × (o.status.conditions
      ≡ env.set_status_condition cs (record {
        type = condition_ready;
        status = condition_false;
        reason = codes "Suspended";
        message = codes "reconciliation is paused by spec.suspend";
        observed_generation = o.meta.generation;
      }))

-- The requests of a pass over a suspended Repository: it reads the object, and patches its
-- finalizers and its status, in which it then says that it is suspended.
abbrev pub Paused : Env → Call → Type 0
Paused env (get_repository _ _) = Unit
Paused env (patch_repository _) = Unit
Paused env (patch_repository_status o) =
    SaysSuspended env o × (o.status.observed_generation ≡ o.meta.generation)
Paused env _ = ⊥
