-- ===== src/Controller/Repository/Reconcile/Pass.antt =====
-- The requests of a whole pass, from those of its parts.
use borgbase_operator.Base.{Text, ◌∷◌, if◌then◌else◌, true, false, ◌≡◌, refl, All, is_some}
use borgbase_operator.Errors.{Result, ok}
use borgbase_operator.Api.Meta.{ObjectMeta}
use borgbase_operator.Api.Repository.{Repository}
use borgbase_operator.Borgbase.Types.{Repo}
use borgbase_operator.Controller.Env.{Env, Call, History, patch_repository, get_repository}
use borgbase_operator.Controller.Exec.{St, attempt, ◌>>=◌}
use borgbase_operator.Controller.Exec.Only.{
  Only, Only-bind, Only-if_cases, Only-attempt, Only-then_obj, only_rules,
}
use borgbase_operator.Controller.Exec.Stays.{
  Stays, Stays-pure, Stays-if, Stays-bind, Stays-modify, Stays-bind-call, Stays-bind-get_obj,
}
use borgbase_operator.Controller.Repository.Base.{RepositoryReconciler, set_condition, api_for}
use borgbase_operator.Controller.Repository.Resolve.{resolve_repo}
use borgbase_operator.Controller.Repository.Credentials.{reconcile_secret}
use borgbase_operator.Controller.Repository.Reconcile.{
  known_of, ensure_finalizer, pause, run_with, handle_live, handle, reconcile_request,
}
use borgbase_operator.Controller.Repository.Footprint.{
  Routine, patch_status-Only, api_for-Only, run_with-Only,
}

module _ (P : Call → Type 0) where
  ensure_finalizer-Only :
      (env : Env) (r : RepositoryReconciler) (repo : Repository)
      → ((o : Repository) → P (patch_repository o))
      → Only P (ensure_finalizer env r repo)
  unfolding ensure_finalizer
  ensure_finalizer-Only env r repo patches = search (only_rules, patches) depth 10

-- What the server returns for a patch of the finalizers still has the property.
abbrev pub PatchKeeps : Env → (Repository → Type 0) → Type 0
PatchKeeps env Q =
    (h : History) (o stored : Repository) → env.patched_repository h o ≡ ok stored → Q o → Q stored

pub ensure_finalizer-Stays :
    (Q : Repository → Type 0) (env : Env) (r : RepositoryReconciler) (repo : Repository)
    → ((o : Repository) (m : ObjectMeta) → Q o → Q (record o { meta = m }))
    → PatchKeeps env Q
    → Stays Q (ensure_finalizer env r repo)
unfolding ensure_finalizer
ensure_finalizer-Stays Q env r repo keeps patched = Stays-if _ _ _ (Stays-pure tt) (
    Stays-bind _ _ (Stays-modify _ (λ o. keeps o _)) λ _.
      Stays-bind-get_obj _
        λ o q. Stays-bind-call _ _ _ λ h stored e. Stays-modify _ (λ _ _. patched h o stored e q))

module _ (env : Env) (r : RepositoryReconciler) where
  pub pause-Only :
      (P : Call → Type 0) (R : Routine P) (base : Repository) → Only P (pause env r base)
  unfolding pause set_condition
  pause-Only P R base = search (only_rules, patch_status-Only P R env) depth 20

  -- The handler of a live Repository, whatever it does after the finalizer.
  pub handle_live-Only :
      (P : Call → Type 0)
      → ((o : Repository) → P (patch_repository o))
      → (Q : Repository → Type 0)
      → ((o : Repository) (m : ObjectMeta) → Q o → Q (record o { meta = m }))
      → PatchKeeps env Q
      → ((base : Repository) → Q base → base.spec.suspend ≡ true → Only P (pause env r base))
      → ((base : Repository) → Q base → base.spec.suspend ≡ false → Only P (api_for env r base))
      → ((base : Repository) (reply : Result Text)
          → Q base
          → base.spec.suspend ≡ false
          → Only P (run_with env r base reply))
      → (repo : Repository) (s : St Repository) → Q s.obj
      → All P s.calls
      → All P (handle_live env r repo s).1.calls
  unfolding handle_live
  handle_live-Only P patches Q keeps patched paused tokens ran repo =
      Only-then_obj Q (ensure_finalizer env r repo)
        (λ base.
          if base.spec.suspend
          then pause env r base
          else attempt (api_for env r base) >>= run_with env r base)
        (ensure_finalizer-Only P env r repo patches)
        (ensure_finalizer-Stays Q env r repo keeps patched)
        λ base q.
          Only-if_cases base.spec.suspend _ _ (paused base q) λ live.
            Only-bind _ _ (Only-attempt _ (tokens base q live)) λ reply. ran base reply q live

-- The same, of requests that every routine step makes.
module _ (env : Env) (r : RepositoryReconciler) (P : Call → Type 0) (R : Routine P)
    (Q : Repository → Type 0)
    (keeps : (o : Repository) (m : ObjectMeta) → Q o → Q (record o { meta = m }))
    (patched : PatchKeeps env Q)
    (resolved : (token : Text) (o : Repository) → Q o → Only P (resolve_repo env token o))
    (written : (o : Repository) (remote : Repo) (base : Repository)
      → Q base
      → Only P (reconcile_secret env o remote (known_of base))) where
  pub routine_pass :
      (repo : Repository) (s : St Repository)
      → Q s.obj
      → All P s.calls
      → All P (handle_live env r repo s).1.calls
  routine_pass repo s =
      handle_live-Only env r P R.finalizers Q keeps patched (λ base _ _. pause-Only env r P R base)
        (λ base _ _. api_for-Only P R env r base)
        (λ base reply q _.
          run_with-Only P R env r base reply (λ token. resolved token base q)
            (λ o remote. written o remote base q))
        repo s

-- A pass over a Repository that is not being deleted is a pass of `handle_live`.
module _ (env : Env) (r : RepositoryReconciler) (namespace name : Text) (h : History)
    (repo : Repository) (got : env.got_repository h namespace name ≡ ok repo)
    (live : is_some repo.meta.deletion_timestamp ≡ false) where
  pub request-handle_live :
      (P : Call → Type 0)
      → ((s : St Repository)
          → s.obj ≡ repo
          → All P s.calls
          → All P (handle_live env r repo s).1.calls)
      → P (get_repository namespace name)
      → All P h
      → All P (reconcile_request env r namespace name h).1
  unfolding reconcile_request handle
  request-handle_live P run read before =
      rw (got, reconcile_request)
        (rw (live, handle)
          (run (record { obj = repo; calls = get_repository namespace name ∷ h }) refl
            (read, before)))
