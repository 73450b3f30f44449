-- ===== src/Controller/Exec/Settled.antt =====
-- Objects that are created and deleted again, over the requests made so far.
use borgbase_operator.Base.{List, [], ◌∷◌, ◌≡◌, ◌⊎◌, inl, inr}
use borgbase_operator.Errors.{Result, ok, err}
use borgbase_operator.Controller.Env.{Call, History}

-- What a request does to objects of one kind.
pub data Role (A : Type 0) : Type 0 where
  opens closes : A → Role A
  neither : Role A

module _ {A : Type 0} where
  abbrev pub Among : A → List A → Type 0
  Among a [] = ⊥
  Among a (x ∷ xs) = (a ≡ x) ⊎ Among a xs

  -- The list holds more.
  pub data Within : List A → List A → Type 0 where
    all_of : (xs : List A) → Within [] xs
    more : (x : A) {xs ys : List A} → Within xs ys → Within xs (x ∷ ys)
    both : (x : A) {xs ys : List A} → Within xs ys → Within (x ∷ xs) (x ∷ ys)

  pub Within-refl : (xs : List A) → Within xs xs
  Within-refl [] = all_of []
  Within-refl (x ∷ xs) = both x (Within-refl xs)

  pub Among-mono : {xs ys : List A} (a : A) → Within xs ys → Among a xs → Among a ys
  Among-mono a (all_of xs) m = absurd m
  Among-mono a (more x w) m = inr (Among-mono a w m)
  Among-mono a (both x w) (inl e) = inl e
  Among-mono a (both x w) (inr m) = inr (Among-mono a w m)

-- A role of each request, after those made before it.
abbrev pub Roles : Type 0 → Type 0
Roles A = History → Call → Role A

-- The role of a creation, by its answer.
abbrev pub created_role : {A : Type 0} → A → Result (Unit {0}) → Role A
created_role a (ok _) = opens a
created_role a (err _) = neither

module _ {A : Type 0} (role : Roles A) where
  -- Every object that was opened was closed later, or is one of the given ones.
  abbrev pub Settled : List A → History → Type 0
  Settled seen [] = Unit
  Settled seen (c ∷ h) = elim (role h c) [
    | opens a ↦ Among a seen × Settled seen h
    | closes a ↦ Settled (a ∷ seen) h
    | neither ↦ Settled seen h
  ]

  pub Settled-mono : (h : History) {xs ys : List A} → Within xs ys → Settled xs h → Settled ys h
  Settled-mono [] w s = tt
  Settled-mono (c ∷ h) {xs} {ys} w s =
      step (role h c) (Settled-mono h w) (λ a. Settled-mono h (both a w)) s
    where
      step :
          (r : Role A)
          → (Settled xs h → Settled ys h)
          → ((a : A) → Settled (a ∷ xs) h → Settled (a ∷ ys) h)
          → (elim r as (λ _. Type 0) [
            | opens a ↦ Among a xs × Settled xs h
            | closes a ↦ Settled (a ∷ xs) h
            | neither ↦ Settled xs h
          ])
          → elim r as (λ _. Type 0) [
            | opens a ↦ Among a ys × Settled ys h
            | closes a ↦ Settled (a ∷ ys) h
            | neither ↦ Settled ys h
          ]
      step (opens a) same rest (m, k) = (Among-mono a w m, same k)
      step (closes a) same rest k = rest a k
      step neither same rest k = same k
