-- ===== src/Cli/Repair/Rotation.antt =====
-- repair.go: the temporary Secret of a rotation.
use mathlib.Core.Path.{subst}
use borgbase_operator.Base.{ℕ, Text, List, [], ◌∷◌, ◌≡◌, inl, refl, sym, arith}
use borgbase_operator.Errors.{Err, Result, ok, err}
use borgbase_operator.Api.Repository.{Repository}
use borgbase_operator.Api.ScheduledBackup.{ScheduledBackup}
use borgbase_operator.Kube.Objects.{Secret}
use borgbase_operator.Controller.Env.{Call, History, Env, create_secret, delete_secret}
use borgbase_operator.Controller.Exec.{
  continue, St, Exec, pure, raise, lift, attempt, ◌>>=◌, on_result,
}
use borgbase_operator.Controller.Exec.Keeps.{
  Keeps, Keeps-raise, Keeps-call, Keeps-ask, Keeps-bind, Keeps-if, keeps_rules,
}
use borgbase_operator.Controller.Exec.Settled.{
  closes, neither, created_role, all_of, Roles, Settled, Settled-mono,
}
use borgbase_operator.Cli.Console.{Console, Cmd, new_error_printer, say, say_and_check}
use borgbase_operator.Cli.Derive.{Options}
use borgbase_operator.Cli.Runner.{run}
use borgbase_operator.Cli.Runner.Reads.{IsRead, run-Keeps}
use borgbase_operator.Cli.Repair.{
  credentials, delete_temp_secret, drop_temp_secret, with_temp_secret, add_key, run_rotate_password,
}

-- A Secret is opened by a creation that succeeds, and closed by the request to delete it.
abbrev pub secret_role : Env → Roles Secret
secret_role env h (create_secret secret) = created_role secret (env.created_secret h secret)
secret_role env h (delete_secret secret) = closes secret
secret_role env h _ = neither

module _ (env : Env) (seen : List Secret) where
  abbrev Kept : History → Type 0
  Kept = Settled (secret_role env) seen

  reads : (c : Call) → IsRead c → (h : History) → Kept h → Kept (c ∷ h)
  reads (create_secret _) p h i = absurd p
  reads (delete_secret _) p h i = absurd p
  reads _ p h i = i

  say-Kept : (text : Text) → Keeps Kept (say env text)
  unfolding say
  say-Kept text = search keeps_rules depth 12

  say_and_check-Kept : (text : Text) → Keeps Kept (say_and_check env text)
  unfolding say_and_check
  say_and_check-Kept text = search (keeps_rules, say-Kept) depth 10

  rotated-Kept :
      (sb : ScheduledBackup) (opts : Options) (timeout : ℕ)
      → Keeps Kept (run {O = Console} env sb opts timeout)
  rotated-Kept sb opts timeout =
      run-Keeps env Kept reads sb opts timeout (λ job h i. i) (λ job h i. i)

  credentials-Kept : (repo : Repository) → Keeps Kept (credentials {O = Console} env repo)
  unfolding credentials
  credentials-Kept repo = search keeps_rules depth 10

  add_key-Kept :
      (sb : ScheduledBackup) (repo : Repository) (current temp : Secret) (password : Text)
      → Keeps Kept (add_key env sb repo current temp password)
  unfolding add_key
  add_key-Kept sb repo current temp password =
      search (keeps_rules, rotated-Kept, say-Kept, say_and_check-Kept) depth 20

module _ (env : Env) where
  delete_temp_secret-calls :
      (temp : Secret) (s : St Console)
      → (delete_temp_secret env temp s).1.calls ≡ delete_secret temp ∷ s.calls
  unfolding delete_temp_secret ◌>>=◌
  delete_temp_secret-calls temp s = ground arith

  told-Kept :
      (a : Err → Text) (b : Text) (r : Result (Unit {0}))
      → Keeps
          (Kept env [])
          (on_result r pure λ e. new_error_printer >>= λ _. say env (a e) >>= λ _. say env b)
  told-Kept a b r = search (keeps_rules, say-Kept)

  -- The deferred deletion closes the temporary Secret.
  drop_temp_secret-Settled :
      (temp : Secret) (s : St Console)
      → Settled (secret_role env) (temp ∷ []) s.calls
      → Settled (secret_role env) [] (drop_temp_secret env temp s).1.calls
  unfolding drop_temp_secret ◌>>=◌
  drop_temp_secret-Settled temp s i =
      (told-Kept _ _ (delete_temp_secret env temp s).0).at (delete_temp_secret env temp s).1
        (subst (Kept env []) (sym (delete_temp_secret-calls temp s)) i)

  lift-calls :
      {A : Type 0} (m : Cmd (Unit {0})) (r : Result A) (s : St Console)
      → ((m >>= λ _. lift r) s).1.calls ≡ (m s).1.calls
  unfolding ◌>>=◌
  lift-calls {A} m r s = ended (m s).0 (m s).1
    where
      ended :
          (q : Result (Unit {0})) (t : St Console) → (continue q (λ _. lift r) t).1.calls ≡ t.calls
      ended (ok u) t = refl
      ended (err e) t = refl

  after_create :
      {A : Type 0} (temp : Secret) (body : Exec Console A) (fail : Err → Err)
      → Keeps (Kept env (temp ∷ [])) body
      → (s : St Console) → Kept env [] s.calls
      → (r : Result (Unit {0})) → env.created_secret s.calls temp ≡ r
      → Kept env []
          ((on_result r pure (λ e. raise (fail e)) >>= λ _.
              attempt body >>= λ reply. drop_temp_secret env temp >>= λ _. lift reply)
            (record s { calls = create_secret temp ∷ s.calls })).1.calls
  unfolding ◌>>=◌
  after_create temp body fail k s i (ok u) q =
      let opened : Kept env (temp ∷ []) (create_secret temp ∷ s.calls) =
        rw (q, Settled) (inl refl, Settled-mono (secret_role env) s.calls (all_of (temp ∷ [])) i) in
      subst (Kept env []) (sym (lift-calls (drop_temp_secret env temp) _ _))
        (drop_temp_secret-Settled temp _ (k.at _ opened))
  after_create temp body fail k s i (err e) q = rw (q, Settled) i

  with_temp_secret-Settled :
      (temp : Secret) (body : Cmd (Unit {0}))
      → Keeps (Kept env (temp ∷ [])) body
      → Keeps (Kept env []) (with_temp_secret env temp body)
  unfolding with_temp_secret ◌>>=◌
  with_temp_secret-Settled temp body k = record {
    at = λ s i. after_create temp body _ k s i (env.created_secret s.calls temp) refl;
  }

  rotate-Settled :
      (sb : ScheduledBackup) (repo : Repository)
      → Keeps (Kept env []) (run_rotate_password env sb repo)
  unfolding run_rotate_password
  rotate-Settled sb repo = Keeps-if _ _ _ (Keeps-raise _) (
      Keeps-bind _ _ (credentials-Kept env [] repo) λ current.
        Keeps-bind _ _ (Keeps-call _ _ (λ h i. i)) λ password.
          Keeps-bind _ _ (Keeps-ask _ _ (λ h i. i))
            λ random. with_temp_secret-Settled _ _ (add_key-Kept env _ sb repo current _ password))

-- However a rotation ends, by success or by an error at any point, every Secret whose creation
-- succeeded has been asked to be deleted after it: the requests before the rotation left no Secret
-- behind, and so do those after it. So the new password stays in no temporary Secret unless its
-- deletion is refused.
pub run_rotate_password-Settled :
    (env : Env) (sb : ScheduledBackup) (repo : Repository) (s : St Console)
    → Settled (secret_role env) [] s.calls
    → Settled (secret_role env) [] (run_rotate_password env sb repo s).1.calls
run_rotate_password-Settled env sb repo s i = (rotate-Settled env sb repo).at s i
