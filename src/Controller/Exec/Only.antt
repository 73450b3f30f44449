-- ===== src/Controller/Exec/Only.antt =====
-- Which requests a handler can make: one rule for each way to build a handler.
use borgbase_operator.Base.{
  Text, Bool, true, false, Option, none, some, ◌≡◌, refl, All, if◌then◌else◌,
}
use borgbase_operator.Errors.{Err, Result, ok, err}
use borgbase_operator.Controller.Env.{Call, History, EventType, event}
use borgbase_operator.Controller.Exec.Stays.{Stays}
use borgbase_operator.Controller.Exec.Returns.{Returns}
use borgbase_operator.Controller.Exec.{
  St, Exec, pure, raise, lift, ask, call, attempt, get_obj, modify, emit, continue, ◌>>=◌,
  on_result, on_option,
}

-- If `P` holds of the requests made before, it holds of those that `m` makes too.
pub record Only {O A : Type 0} (P : Call → Type 0) (m : Exec O A) : Type 0 where
  pub at : (s : St O) → All P s.calls → All P (m s).1.calls

module _ {O A : Type 0} {P : Call → Type 0} where
  pub Only-pure : (a : A) → Only P (pure {O = O} a)
  unfolding pure
  Only-pure a = record { at = λ s h. h }

  pub Only-raise : (e : Err) → Only P (raise {O = O} {A = A} e)
  unfolding raise
  Only-raise e = record { at = λ s h. h }

  pub Only-lift : (r : Result A) → Only P (lift {O = O} r)
  unfolding lift
  Only-lift r = record { at = λ s h. h }

  pub Only-ask : (c : Call) (answer : History → A) → P c → Only P (ask {O = O} c answer)
  unfolding ask
  Only-ask c answer p = record { at = λ s h. (p, h) }

  pub Only-call : (c : Call) (answer : History → Result A) → P c → Only P (call {O = O} c answer)
  unfolding call
  Only-call c answer p = record { at = λ s h. (p, h) }

  pub Only-attempt : (m : Exec O A) → Only P m → Only P (attempt m)
  unfolding attempt
  Only-attempt m k = record { at = λ s h. k.at s h }

  pub Only-if : (b : Bool) (m n : Exec O A) → Only P m → Only P n → Only P (if b then m else n)
  Only-if true m n km kn = km
  Only-if false m n km kn = kn

  pub Only-if_cases :
      (b : Bool) (m n : Exec O A)
      → (b ≡ true → Only P m)
      → (b ≡ false → Only P n)
      → Only P (if b then m else n)
  Only-if_cases true m n km kn = km refl
  Only-if_cases false m n km kn = kn refl

module _ {O : Type 0} {P : Call → Type 0} where
  pub Only-get_obj : Only P (get_obj {O = O})
  unfolding get_obj
  Only-get_obj = record { at = λ s h. h }

  pub Only-modify : (f : O → O) → Only P (modify f)
  unfolding modify
  Only-modify f = record { at = λ s h. h }

  pub Only-emit :
      (t : EventType) (reason action note : Text)
      → P (event t reason action note)
      → Only P (emit {O = O} t reason action note)
  unfolding emit
  Only-emit t reason action note p = record { at = λ s h. (p, h) }

module _ {O A B : Type 0} {P : Call → Type 0} where
  Only-continue :
      (r : Result A) (f : A → Exec O B)
      → ((a : A) → r ≡ ok a → Only P (f a))
      → (s : St O) → All P s.calls
      → All P (continue r f s).1.calls
  Only-continue (ok a) f kf s h = (kf a refl).at s h
  Only-continue (err e) f kf s h = h

  pub Only-bind :
      (m : Exec O A) (f : A → Exec O B) → Only P m → ((a : A) → Only P (f a)) → Only P (m >>= f)
  unfolding ◌>>=◌
  Only-bind m f km kf = record {
    at = λ s h. let (r, s') = m s in Only-continue r f (λ a _. kf a) s' (km.at s h);
  }

  -- The rest may use what the first part returns.
  pub Only-bind-Returns :
      (Q : A → Type 0) (m : Exec O A) (f : A → Exec O B)
      → Only P m
      → Returns Q m
      → ((a : A) → Q a → Only P (f a))
      → Only P (m >>= f)
  unfolding ◌>>=◌
  Only-bind-Returns Q m f km rm kf = record {
    at = λ s h. let (r, s') = m s in Only-continue r f (λ a e. kf a (rm.at s a e)) s' (km.at s h);
  }

  -- The rest may use that `r` is no error.
  pub Only-bind-lift :
      (r : Result A) (f : A → Exec O B)
      → ((a : A) → r ≡ ok a → Only P (f a))
      → Only P (lift r >>= f)
  unfolding ◌>>=◌
  Only-bind-lift r f kf = record { at = λ s h. Only-continue r f kf s h }

  -- The rest may use where the answer comes from.
  pub Only-bind-ask :
      (c : Call) (answer : History → A) (f : A → Exec O B)
      → P c
      → ((h : History) → Only P (f (answer h)))
      → Only P (ask c answer >>= f)
  unfolding ◌>>=◌
  Only-bind-ask c answer f p kf = record { at = λ s h. (kf s.calls).at _ (p, h) }

  pub Only-bind-pure : (a : A) (f : A → Exec O B) → Only P (f a) → Only P (pure a >>= f)
  unfolding ◌>>=◌
  Only-bind-pure a f k = record { at = λ s h. k.at s h }

  -- If the first part never returns, the rest makes no request.
  pub Only-bind_never :
      (m : Exec O A) (f : A → Exec O B) → Only P m → Returns (λ _. ⊥) m → Only P (m >>= f)
  unfolding ◌>>=◌
  Only-bind_never m f km never = record {
    at = λ s h.
        let (r, s') = m s in Only-continue r f (λ a e. absurd (never.at s a e)) s' (km.at s h);
  }

  pub Only-on_result :
      (r : Result A) (f : A → Exec O B) (g : Err → Exec O B)
      → ((a : A) → Only P (f a))
      → ((e : Err) → Only P (g e))
      → Only P (on_result r f g)
  Only-on_result (ok a) f g kf kg = kf a
  Only-on_result (err e) f g kf kg = kg e

  pub Only-on_option :
      (o : Option A) (f : A → Exec O B) (m : Exec O B)
      → ((a : A) → Only P (f a))
      → Only P m
      → Only P (on_option o f m)
  Only-on_option (some a) f m kf km = kf a
  Only-on_option none f m kf km = km

pub ruleset only_rules = (
  Only-pure, Only-raise, Only-lift, Only-ask, Only-call, Only-attempt, Only-if, Only-get_obj,
  Only-modify, Only-emit, Only-bind, Only-on_result, Only-on_option, tt,
)

-- A handler that first runs `m` and then looks at the object, which still has the property `Q`.
pub Only-then_obj :
    {O A B : Type 0} {P : Call → Type 0} (Q : O → Type 0) (m : Exec O A) (f : O → Exec O B)
    → Only P m
    → Stays Q m
    → ((o : O) → Q o → Only P (f o))
    → (s : St O) → Q s.obj
    → All P s.calls
    → All P ((m >>= λ _. get_obj >>= f) s).1.calls
unfolding ◌>>=◌
Only-then_obj {O} {A} {P} Q m f km sm kf s q h =
    let (r, s') = m s in then_obj r s' (sm.at s q) (km.at s h)
  where
    then_obj :
        (r : Result A) (s' : St O)
        → Q s'.obj
        → All P s'.calls
        → All P (continue r (λ _. get_obj >>= f) s').1.calls
    then_obj (ok a) s' q' h' = (kf s'.obj q').at s' h'
    then_obj (err e) s' q' h' = h'
