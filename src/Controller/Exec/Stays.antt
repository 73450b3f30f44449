-- ===== src/Controller/Exec/Stays.antt =====
-- What a handler keeps true of the object in memory, whether it returns or fails.
use borgbase_operator.Base.{
  Text, Bool, true, false, Option, none, some, ◌≡◌, refl, ◌∷◌, if◌then◌else◌,
}
use borgbase_operator.Errors.{Err, Result, ok, err}
use borgbase_operator.Controller.Env.{Call, History, EventType}
use borgbase_operator.Controller.Exec.{
  St, Exec, pure, raise, lift, ask, call, attempt, get_obj, modify, emit, continue, ◌>>=◌,
  on_result, on_option,
}

pub record Stays {O A : Type 0} (Q : O → Type 0) (m : Exec O A) : Type 0 where
  pub at : (s : St O) → Q s.obj → Q (m s).1.obj

module _ {O A : Type 0} {Q : O → Type 0} where
  pub Stays-pure : (a : A) → Stays Q (pure {O = O} a)
  unfolding pure
  Stays-pure a = record { at = λ s h. h }

  pub Stays-raise : (e : Err) → Stays Q (raise {O = O} {A = A} e)
  unfolding raise
  Stays-raise e = record { at = λ s h. h }

  pub Stays-lift : (r : Result A) → Stays Q (lift {O = O} r)
  unfolding lift
  Stays-lift r = record { at = λ s h. h }

  pub Stays-ask : (c : Call) (answer : History → A) → Stays Q (ask {O = O} c answer)
  unfolding ask
  Stays-ask c answer = record { at = λ s h. h }

  pub Stays-call : (c : Call) (answer : History → Result A) → Stays Q (call {O = O} c answer)
  unfolding call
  Stays-call c answer = record { at = λ s h. h }

  pub Stays-attempt : (m : Exec O A) → Stays Q m → Stays Q (attempt m)
  unfolding attempt
  Stays-attempt m k = record { at = λ s h. k.at s h }

  pub Stays-if : (b : Bool) (m n : Exec O A) → Stays Q m → Stays Q n → Stays Q (if b then m else n)
  Stays-if true m n km kn = km
  Stays-if false m n km kn = kn

module _ {O : Type 0} {Q : O → Type 0} where
  pub Stays-get_obj : Stays Q (get_obj {O = O})
  unfolding get_obj
  Stays-get_obj = record { at = λ s h. h }

  pub Stays-modify : (f : O → O) → ((o : O) → Q o → Q (f o)) → Stays Q (modify f)
  unfolding modify
  Stays-modify f k = record { at = λ s h. k s.obj h }

  pub Stays-emit :
      (t : EventType) (reason action note : Text) → Stays Q (emit {O = O} t reason action note)
  unfolding emit
  Stays-emit t reason action note = record { at = λ s h. h }

module _ {O A B : Type 0} {Q : O → Type 0} where
  Stays-continue :
      (r : Result A) (f : A → Exec O B)
      → ((a : A) → Stays Q (f a))
      → (s : St O) → Q s.obj
      → Q (continue r f s).1.obj
  Stays-continue (ok a) f kf s h = (kf a).at s h
  Stays-continue (err e) f kf s h = h

  pub Stays-bind :
      (m : Exec O A) (f : A → Exec O B) → Stays Q m → ((a : A) → Stays Q (f a)) → Stays Q (m >>= f)
  unfolding ◌>>=◌
  Stays-bind m f km kf = record {
    at = λ s h. let (r, s') = m s in Stays-continue r f kf s' (km.at s h);
  }

  -- The rest may use where the answer of a call comes from.
  pub Stays-bind-call :
      (c : Call) (answer : History → Result A) (f : A → Exec O B)
      → ((h : History) (a : A) → answer h ≡ ok a → Stays Q (f a))
      → Stays Q (call c answer >>= f)
  unfolding ◌>>=◌
  Stays-bind-call c answer f kf = record {
    at = λ s q. go_on (answer s.calls) (record s { calls = c ∷ s.calls }) (kf s.calls) q;
  }
    where
      go_on :
          (r : Result A) (s : St O)
          → ((a : A) → r ≡ ok a → Stays Q (f a))
          → Q s.obj
          → Q (continue r f s).1.obj
      go_on (ok a) s k q = (k a refl).at s q
      go_on (err e) s k q = q

  pub Stays-on_result :
      (r : Result A) (f : A → Exec O B) (g : Err → Exec O B)
      → ((a : A) → Stays Q (f a))
      → ((e : Err) → Stays Q (g e))
      → Stays Q (on_result r f g)
  Stays-on_result (ok a) f g kf kg = kf a
  Stays-on_result (err e) f g kf kg = kg e

  pub Stays-on_option :
      (o : Option A) (f : A → Exec O B) (m : Exec O B)
      → ((a : A) → Stays Q (f a))
      → Stays Q m
      → Stays Q (on_option o f m)
  Stays-on_option (some a) f m kf km = kf a
  Stays-on_option none f m kf km = km

-- The rest may use the object.
pub Stays-bind-get_obj :
    {O B : Type 0} {Q : O → Type 0} (f : O → Exec O B)
    → ((o : O) → Q o → Stays Q (f o))
    → Stays Q (get_obj >>= f)
unfolding ◌>>=◌ get_obj
Stays-bind-get_obj f kf = record { at = λ s q. (kf s.obj q).at s q }

pub ruleset stays_rules = (
  Stays-pure, Stays-raise, Stays-lift, Stays-ask, Stays-call, Stays-attempt, Stays-if,
  Stays-get_obj, Stays-modify, Stays-emit, Stays-bind, Stays-on_result, Stays-on_option,
)
