-- ===== src/Controller/Exec/Returns.antt =====
-- What holds of the value that a handler returns, if it returns one.
use mathlib.Core.Path.{subst}
use borgbase_operator.Base.{Bool, true, false, Option, none, some, ◌≡◌, refl, if◌then◌else◌}
use borgbase_operator.Errors.{Err, Result, ok, err, ok-inj}
use borgbase_operator.Controller.Env.{Call, History}
use borgbase_operator.Controller.Exec.{
  St, Exec, pure, raise, lift, ask, call, attempt, continue, ◌>>=◌, on_result, on_option,
}

pub record Returns {O A : Type 0} (P : A → Type 0) (m : Exec O A) : Type 0 where
  pub at : (s : St O) (a : A) → (m s).0 ≡ ok a → P a

-- `P` of the value of a result.
abbrev pub Valued : {A : Type 0} → (A → Type 0) → Result A → Type 0
Valued P (ok a) = P a
Valued P (err e) = Unit

module _ {O A : Type 0} {P : A → Type 0} where
  pub Returns-pure : (a : A) → P a → Returns P (pure {O = O} a)
  unfolding pure
  Returns-pure a p = record { at = λ s b e. subst (Valued P) e p }

  pub Returns-raise : (e : Err) → Returns P (raise {O = O} e)
  unfolding raise
  Returns-raise e = record { at = λ s b q. cc }

  pub Returns-lift : (r : Result A) → ((a : A) → r ≡ ok a → P a) → Returns P (lift {O = O} r)
  unfolding lift
  Returns-lift r k = record { at = λ s a e. k a e }

  pub Returns-call :
      (c : Call) (answer : History → Result A)
      → ((h : History) (a : A) → answer h ≡ ok a → P a)
      → Returns P (call {O = O} c answer)
  unfolding call
  Returns-call c answer k = record { at = λ s b e. k s.calls b e }

  -- What holds of a value holds of it in the result that the caller looks at.
  pub Returns-attempt : (m : Exec O A) → Returns P m → Returns (Valued P) (attempt m)
  unfolding attempt
  Returns-attempt m k = record {
    at = λ s r e. let (r', s') = m s in subst (Valued P) (ok-inj r' r e) (valued r' (k.at s));
  }
    where
      valued : (r : Result A) → ((a : A) → r ≡ ok a → P a) → Valued P r
      valued (ok a) p = p a refl
      valued (err e) p = tt

  pub Returns-if :
      (b : Bool) (m n : Exec O A)
      → (b ≡ true → Returns P m)
      → (b ≡ false → Returns P n)
      → Returns P (if b then m else n)
  Returns-if true m n km kn = km refl
  Returns-if false m n km kn = kn refl

  -- What holds of the value holds of it in a weaker form.
  pub Returns-weaken :
      {Q : A → Type 0} {m : Exec O A} → Returns P m → ((a : A) → P a → Q a) → Returns Q m
  Returns-weaken k weaker = record { at = λ s a e. weaker a (k.at s a e) }

module _ {O A B : Type 0} {P : B → Type 0} where
  Returns-continue :
      (r : Result A) (f : A → Exec O B)
      → ((a : A) → Returns P (f a))
      → (s : St O) (b : B) → (continue r f s).0 ≡ ok b
      → P b
  Returns-continue (ok a) f kf s b h = (kf a).at s b h
  Returns-continue (err e) f kf s b h = cc

  pub Returns-bind :
      (m : Exec O A) (f : A → Exec O B) → ((a : A) → Returns P (f a)) → Returns P (m >>= f)
  unfolding ◌>>=◌
  Returns-bind m f kf = record { at = λ s b h. let (r, s') = m s in Returns-continue r f kf s' b h }

  -- The rest may use what the first part returns.
  pub Returns-bind-Returns :
      (Q : A → Type 0) (m : Exec O A) (f : A → Exec O B)
      → Returns Q m
      → ((a : A) → Q a → Returns P (f a))
      → Returns P (m >>= f)
  unfolding ◌>>=◌
  Returns-bind-Returns Q m f rm kf = record {
    at = λ s b h. let (r, s') = m s in go_on r s' b (rm.at s) h;
  }
    where
      go_on :
          (r : Result A) (s' : St O) (b : B)
          → ((a : A) → r ≡ ok a → Q a)
          → (continue r f s').0 ≡ ok b
          → P b
      go_on (ok a) s' b q h = (kf a (q a refl)).at s' b h
      go_on (err e) s' b q h = cc

  -- The rest may use where the answer comes from.
  pub Returns-bind-ask :
      (c : Call) (answer : History → A) (f : A → Exec O B)
      → ((h : History) → Returns P (f (answer h)))
      → Returns P (ask c answer >>= f)
  unfolding ◌>>=◌
  Returns-bind-ask c answer f kf = record { at = λ s b e. (kf s.calls).at _ b e }

  -- A handler whose first part never returns never returns.
  pub Returns-bind_never :
      (m : Exec O A) (f : A → Exec O B) → Returns (λ _. ⊥) m → Returns P (m >>= f)
  unfolding ◌>>=◌
  Returns-bind_never m f never = record {
    at = λ s b e. let (r, s') = m s in stop r s' b (never.at s) e;
  }
    where
      stop :
          (r : Result A) (s' : St O) (b : B)
          → ((a : A) → r ≡ ok a → ⊥)
          → (continue r f s').0 ≡ ok b
          → P b
      stop (ok a) s' b none_such e = absurd (none_such a refl)
      stop (err x) s' b none_such e = cc

  pub Returns-on_result :
      (r : Result A) (f : A → Exec O B) (g : Err → Exec O B)
      → ((a : A) → Returns P (f a))
      → ((e : Err) → Returns P (g e))
      → Returns P (on_result r f g)
  Returns-on_result (ok a) f g kf kg = kf a
  Returns-on_result (err e) f g kf kg = kg e

  -- The rest may use what the answer is.
  pub Returns-on_result_cases :
      (r : Result A) (f : A → Exec O B) (g : Err → Exec O B)
      → ((a : A) → r ≡ ok a → Returns P (f a))
      → ((e : Err) → Returns P (g e))
      → Returns P (on_result r f g)
  Returns-on_result_cases (ok a) f g kf kg = kf a refl
  Returns-on_result_cases (err e) f g kf kg = kg e

  pub Returns-on_option :
      (o : Option A) (f : A → Exec O B) (m : Exec O B)
      → ((a : A) → Returns P (f a))
      → Returns P m
      → Returns P (on_option o f m)
  Returns-on_option (some a) f m kf km = kf a
  Returns-on_option none f m kf km = km

pub ruleset returns_rules =
    (Returns-pure, Returns-raise, Returns-if, Returns-bind, Returns-on_result, Returns-on_option)
