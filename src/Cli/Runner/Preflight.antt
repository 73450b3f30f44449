-- ===== src/Cli/Runner/Preflight.antt =====
-- runner.go: the objects that a Job needs.
use borgbase_operator.Base.{
  Text, codes, Bool, true, false, if◌then◌else◌, List, [], ◌∷◌, ◌≡◌, refl, All, arith,
}
use borgbase_operator.Errors.{Err, Result, ok, err, is_not_found}
use borgbase_operator.Kube.Objects.{Secret, Job, VolumeClaim}
use borgbase_operator.Controller.Env.{History, Env}
use borgbase_operator.Controller.Exec.{St, Exec, raise, ask, continue, ◌>>=◌}
use borgbase_operator.Cli.Runner.{
  Dependency, needs_secret, needs_claim, volume_needs, source_needs, each, existing, must_exist,
  preflight,
}

module _ {O A B : Type 0} where
  continue-ok :
      (r : Result A) (f : A → Exec O B) (s : St O) (b : B)
      → (continue r f s).0 ≡ ok b
      → (a : A) × ((r ≡ ok a) × ((f a s).0 ≡ ok b))
  continue-ok (ok a) f s b h = (a, (refl, h))
  continue-ok (err e) f s b h = cc

  -- A handler that returns has a first part that returns.
  pub bind-returns :
      (m : Exec O A) (f : A → Exec O B) (s : St O) (b : B)
      → ((m >>= f) s).0 ≡ ok b
      → (a : A) × (((m s).0 ≡ ok a) × ((f a (m s).1).0 ≡ ok b))
  unfolding ◌>>=◌
  bind-returns m f s b h = continue-ok (m s).0 f (m s).1 b h

-- If a loop returns, so does its body at each element, in some state.
each-returns :
    {O A : Type 0} (f : A → Exec O (Unit {0})) (P : A → Type 0) (xs : List A)
    → ((x : A) (s : St O) → (f x s).0 ≡ ok tt → P x)
    → (s : St O) → (each f xs s).0 ≡ ok tt
    → All P xs
unfolding each
each-returns f P [] k s h = tt
each-returns f P (x ∷ xs) k s h =
    let (u, (first, rest)) = bind-returns (f x) (λ _. each f xs) s tt h in
    (k x s first, each-returns f P xs k (f x s).1 rest)

-- The object was there when it was asked for.
abbrev pub Found : Env → Text → Dependency → Type 0
Found env ns (needs_secret name) =
    (h : History) × ((x : Secret) × (env.got_secret h ns name ≡ ok x))
Found env ns (needs_claim name) =
    (h : History) × ((x : VolumeClaim) × (env.got_claim h ns name ≡ ok x))

module _ {O : Type 0} (env : Env) where
  existing-ok :
      {A : Type 0} (kind name ns : Text) (r : Result A) (s : St O)
      → (existing env kind name ns r s).0 ≡ ok tt
      → (a : A) × (r ≡ ok a)
  unfolding existing raise
  existing-ok kind name ns (ok a) s h = (a, refl)
  existing-ok kind name ns (err e) s h = absurd (failed (is_not_found e) _ _ h)
    where
      failed :
          (b : Bool) (d e : Err)
          → ((if b then raise {O = O} {A = Unit {0}} d else raise e) s).0 ≡ ok tt
          → ⊥
      failed true d e q = ground arith
      failed false d e q = ground arith

  must_exist-Found :
      (ns : Text) (d : Dependency) (s : St O) → (must_exist env ns d s).0 ≡ ok tt → Found env ns d
  unfolding must_exist ◌>>=◌ ask
  must_exist-Found ns (needs_secret name) s h =
      (s.calls, existing-ok (codes "Secret") name ns (env.got_secret s.calls ns name) _ h)
  must_exist-Found ns (needs_claim name) s h = (
    s.calls,
    existing-ok (codes "PersistentVolumeClaim") name ns (env.got_claim s.calls ns name) _ h,
  )

-- If `Preflight` returns no error, every Secret and every claim that the volumes of the Job name,
-- and every Secret that its containers take their variables from, was found in its namespace.
pub preflight-Found :
    {O : Type 0} (env : Env) (job : Job) (s : St O)
    → (preflight env job s).0 ≡ ok tt
    → All (λ v. All (Found env job.meta.namespace) (volume_needs v)) job.spec.template.pod.volumes
      × All
          (λ c. All (λ from. All (Found env job.meta.namespace) (source_needs from)) c.env_from)
          job.spec.template.pod.containers
unfolding preflight
preflight-Found {O} env job s h =
    let ns = job.meta.namespace in
    let check = each (must_exist {O = O} env ns) in
    let found = λ (ds : List Dependency) (t : St O).
      each-returns (must_exist env ns) (Found env ns) ds (must_exist-Found env ns) t in
    let (u, (first, rest)) = bind-returns _ _ s tt h in
    (
      each-returns (λ v. check (volume_needs v)) _ job.spec.template.pod.volumes
          (λ v. found (volume_needs v)) s first,
      each-returns _ _ job.spec.template.pod.containers
          (λ c.
            each-returns (λ from. check (source_needs from)) _ c.env_from
              (λ from. found (source_needs from)))
          _ rest,
    )
