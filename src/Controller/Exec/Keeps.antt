-- ===== src/Controller/Exec/Keeps.antt =====
-- What a handler keeps true of the requests made so far: one rule for each way to build a handler.
use borgbase_operator.Base.{Bool, true, false, Option, none, some, ◌∷◌, if◌then◌else◌}
use borgbase_operator.Errors.{Err, Result, ok, err}
use borgbase_operator.Controller.Env.{Call, History}
use borgbase_operator.Controller.Exec.{
  St, Exec, pure, raise, lift, ask, call, attempt, get_obj, modify, continue, ◌>>=◌, on_result,
  on_option,
}

pub record Keeps {O A : Type 0} (I : History → Type 0) (m : Exec O A) : Type 0 where
  pub at : (s : St O) → I s.calls → I (m s).1.calls

module _ {O A : Type 0} {I : History → Type 0} where
  pub Keeps-pure : (a : A) → Keeps I (pure {O = O} a)
  unfolding pure
  Keeps-pure a = record { at = λ s i. i }

  pub Keeps-raise : (e : Err) → Keeps I (raise {O = O} {A = A} e)
  unfolding raise
  Keeps-raise e = record { at = λ s i. i }

  pub Keeps-lift : (r : Result A) → Keeps I (lift {O = O} r)
  unfolding lift
  Keeps-lift r = record { at = λ s i. i }

  pub Keeps-ask :
      (c : Call) (answer : History → A)
      → ((h : History) → I h → I (c ∷ h))
      → Keeps I (ask {O = O} c answer)
  unfolding ask
  Keeps-ask c answer k = record { at = λ s i. k s.calls i }

  pub Keeps-call :
      (c : Call) (answer : History → Result A)
      → ((h : History) → I h → I (c ∷ h))
      → Keeps I (call {O = O} c answer)
  unfolding call
  Keeps-call c answer k = record { at = λ s i. k s.calls i }

  pub Keeps-attempt : (m : Exec O A) → Keeps I m → Keeps I (attempt m)
  unfolding attempt
  Keeps-attempt m k = record { at = λ s i. k.at s i }

  pub Keeps-if : (b : Bool) (m n : Exec O A) → Keeps I m → Keeps I n → Keeps I (if b then m else n)
  Keeps-if true m n km kn = km
  Keeps-if false m n km kn = kn

module _ {O : Type 0} {I : History → Type 0} where
  pub Keeps-get_obj : Keeps I (get_obj {O = O})
  unfolding get_obj
  Keeps-get_obj = record { at = λ s i. i }

  pub Keeps-modify : (f : O → O) → Keeps I (modify f)
  unfolding modify
  Keeps-modify f = record { at = λ s i. i }

module _ {O A B : Type 0} {I : History → Type 0} where
  Keeps-continue :
      (r : Result A) (f : A → Exec O B)
      → ((a : A) → Keeps I (f a))
      → (s : St O) → I s.calls
      → I (continue r f s).1.calls
  Keeps-continue (ok a) f kf s i = (kf a).at s i
  Keeps-continue (err e) f kf s i = i

  pub Keeps-bind :
      (m : Exec O A) (f : A → Exec O B) → Keeps I m → ((a : A) → Keeps I (f a)) → Keeps I (m >>= f)
  unfolding ◌>>=◌
  Keeps-bind m f km kf = record {
    at = λ s i. let (r, s') = m s in Keeps-continue r f kf s' (km.at s i);
  }

  pub Keeps-on_result :
      (r : Result A) (f : A → Exec O B) (g : Err → Exec O B)
      → ((a : A) → Keeps I (f a))
      → ((e : Err) → Keeps I (g e))
      → Keeps I (on_result r f g)
  Keeps-on_result (ok a) f g kf kg = kf a
  Keeps-on_result (err e) f g kf kg = kg e

  pub Keeps-on_option :
      (o : Option A) (f : A → Exec O B) (m : Exec O B)
      → ((a : A) → Keeps I (f a))
      → Keeps I m
      → Keeps I (on_option o f m)
  Keeps-on_option (some a) f m kf km = kf a
  Keeps-on_option none f m kf km = km

pub ruleset keeps_rules = (
  Keeps-pure, Keeps-raise, Keeps-lift, Keeps-ask, Keeps-call, Keeps-attempt, Keeps-if,
  Keeps-get_obj, Keeps-modify, Keeps-bind, Keeps-on_result, Keeps-on_option,
)
