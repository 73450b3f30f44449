-- ===== src/Controller/Exec.antt =====
-- A handler of a reconciler: it reads and writes the object in memory, makes requests, and
-- returns a value or an error. What it wrote before an error stays written.
pub mod Only
pub mod Keeps
pub mod Settled
pub mod Stays
pub mod Returns
use borgbase_operator.Base.{Text, Option, none, some, ◌∷◌, ◌≡◌, refl}
use borgbase_operator.Errors.{Err, Result, ok, err}
use borgbase_operator.Controller.Env.{Call, History, EventType, event}

pub record St (O : Type 0) : Type 0 where
  pub obj : O
  pub calls : History

abbrev pub Exec : Type 0 → Type 0 → Type 0
Exec O A = St O → Result A × St O

module _ {O A : Type 0} where
  unfoldable pub pure : A → Exec O A
  pure a s = (ok a, s)

  unfoldable pub raise : Err → Exec O A
  raise e s = (err e, s)

  unfoldable pub lift : Result A → Exec O A
  lift r s = (r, s)

  -- A request, with its answer as it is: the caller looks at the error.
  unfoldable pub ask : Call → (History → A) → Exec O A
  ask c answer s = (ok (answer s.calls), record s { calls = c ∷ s.calls })

  -- A request whose error ends the handler.
  unfoldable pub call : Call → (History → Result A) → Exec O A
  call c answer s = (answer s.calls, record s { calls = c ∷ s.calls })

  -- A handler whose error the caller looks at.
  unfoldable pub attempt : Exec O A → Exec O (Result A)
  attempt m s = let (r, s') = m s in (ok r, s')

module _ {O : Type 0} where
  unfoldable pub get_obj : Exec O O
  get_obj s = (ok s.obj, s)

  unfoldable pub modify : (O → O) → Exec O (Unit {0})
  modify f s = (ok tt, record s { obj = f s.obj })

  -- `Recorder.Eventf`
  unfoldable pub emit : EventType → Text → Text → Text → Exec O (Unit {0})
  emit t reason action note s = (ok tt, record s { calls = event t reason action note ∷ s.calls })

module _ {O A B : Type 0} where
  abbrev pub continue : Result A → (A → Exec O B) → Exec O B
  continue (ok a) f s = f a s
  continue (err e) f s = (err e, s)

  -- Opening this opens the actions above too.
  infixl 10 ◌>>=◌ ◌>>◌
  unfoldable pub ◌>>=◌ : Exec O A → (A → Exec O B) → Exec O B
  unfolding pure raise lift ask call attempt get_obj modify emit
  ◌>>=◌ m f s = let (r, s') = m s in continue r f s'

  abbrev pub ◌>>◌ : Exec O A → Exec O B → Exec O B
  m >> n = m >>= λ _. n

-- `if err != nil`, and a switch on a pointer that may be nil.
abbrev pub on_result {ℓ κ} : {A : Type ℓ} {B : Type κ} → Result A → (A → B) → (Err → B) → B
on_result (ok a) f g = f a
on_result (err e) f g = g e

abbrev pub on_option {ℓ κ} : {A : Type ℓ} {B : Type κ} → Option A → (A → B) → B → B
on_option (some a) f b = f a
on_option none f b = b
