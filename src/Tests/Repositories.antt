-- ===== src/Tests/Repositories.antt =====
-- The theorems on Repositories, at a Repository that an earlier pass recorded.
use mathlib.Core.Path.{subst}
use borgbase_operator.Base.{codes, true, [], ◌∷◌, ◌≡◌, ◌≢◌, inl, inr, refl, All, text_eq}
use borgbase_operator.Errors.{plain, ok, ok-inj}
use borgbase_operator.Api.Repository.{Repository}
use borgbase_operator.Controller.Env.{Env, History}
use borgbase_operator.Controller.Exec.{St}
use borgbase_operator.Controller.Exec.Only.{Only}
use borgbase_operator.Controller.Exec.Returns.{Returns}
use borgbase_operator.Controller.Repository.Conflict.{managed_id, conflict_in}
use borgbase_operator.Controller.Repository.Conflict.Exclusion.{conflict_in_exclusive}
use borgbase_operator.Controller.Repository.Credentials.Safety.{NoGeneration}
use borgbase_operator.Controller.Repository.Finalize.{finalize}
use borgbase_operator.Controller.Repository.Finalize.Safety.{
  NoDeletion, KeepsFinalizer, finalize-NoDeletion, finalize-KeepsFinalizer,
}
use borgbase_operator.Controller.Repository.Reconcile.{reconcile, handle_live, reconcile_request}
use borgbase_operator.Controller.Repository.Reconcile.Deletion.{reconcile_request-NoDeletion}
use borgbase_operator.Controller.Repository.Reconcile.Creation.{
  NoCreation, Identified, reconcile_request-NoCreation,
}
use borgbase_operator.Controller.Repository.Reconcile.Generation.{
  Known, reconcile_request-NoGeneration,
}
use borgbase_operator.Controller.Repository.Reconcile.Requeue.{IsDelay, reconcile-IsDelay}
use borgbase_operator.Controller.Repository.Reconcile.Initialized.{
  IsInitialized, handle_live-IsInitialized,
}
use borgbase_operator.Controller.Exec.Stays.{Stays}
use borgbase_operator.Tests.Data.{sample_repository, sample_reconciler, sample_env, meta_named}

abbrev twin : Repository
twin = record sample_repository { meta = meta_named (codes "twin") 9 }

abbrev retained : Repository
retained = record sample_repository {
  status = record sample_repository.status { repository_id = [] };
}

abbrev suspended : Repository
suspended = record sample_repository { spec = record sample_repository.spec { suspend = true } }

abbrev suspended_env : Env
suspended_env = record sample_env { got_repository = λ _ _ _. ok suspended }

abbrev start : St Repository
start = record { obj = sample_repository; calls = [] }

-- The server returns what was sent.
stored_as_sent :
    (Q : Repository → Type 0) (h : History) (o stored : Repository)
    → ok o ≡ ok stored
    → Q o
    → Q stored
stored_as_sent Q h o stored e q = subst Q (ok-inj o stored e) q

reconcile_request-NoGeneration_example :
    All NoGeneration
      (reconcile_request sample_env sample_reconciler (codes "prod") (codes "db") []).1
reconcile_request-NoGeneration_example =
    reconcile_request-NoGeneration sample_env sample_reconciler (codes "prod") (codes "db") []
      sample_repository refl refl (stored_as_sent Known) refl tt

reconcile_request-NoDeletion_example :
    All NoDeletion (reconcile_request sample_env sample_reconciler (codes "prod") (codes "db") []).1
reconcile_request-NoDeletion_example =
    reconcile_request-NoDeletion sample_env sample_reconciler (codes "prod") (codes "db") []
      sample_repository refl refl tt

reconcile_request-NoCreation_example :
    All NoCreation (reconcile_request sample_env sample_reconciler (codes "prod") (codes "db") []).1
reconcile_request-NoCreation_example =
    reconcile_request-NoCreation sample_env sample_reconciler (codes "prod") (codes "db") []
      sample_repository refl refl (stored_as_sent Identified) refl tt

finalize-NoDeletion_example : Only NoDeletion (finalize sample_env sample_reconciler retained)
finalize-NoDeletion_example = finalize-NoDeletion sample_env sample_reconciler retained refl

finalize-KeepsFinalizer_example :
    Only KeepsFinalizer (finalize sample_env sample_reconciler sample_repository)
    × Returns (λ _. ⊥) (finalize sample_env sample_reconciler sample_repository)
unfolding text_eq
finalize-KeepsFinalizer_example =
    finalize-KeepsFinalizer sample_env sample_reconciler sample_repository
      (λ _ _ _. (plain (codes "borgbase: request failed"), refl, refl)) refl refl

conflict_in_exclusive_example :
    conflict_in twin (codes "abc") (sample_repository ∷ (twin ∷ [])) ≢ []
unfolding text_eq managed_id conflict_in
conflict_in_exclusive_example =
    conflict_in_exclusive sample_repository twin (codes "abc") (sample_repository ∷ (twin ∷ []))
      (inl refl) (inr (inl refl)) refl refl refl refl refl refl

reconcile-IsDelay_example :
    Returns IsDelay (reconcile sample_env sample_reconciler (codes "secret") sample_repository)
reconcile-IsDelay_example =
    reconcile-IsDelay sample_env sample_reconciler (codes "secret") sample_repository

handle_live-IsInitialized_example :
    Stays IsInitialized (handle_live sample_env sample_reconciler sample_repository)
handle_live-IsInitialized_example =
    handle_live-IsInitialized sample_env sample_reconciler (stored_as_sent IsInitialized)
      sample_repository
