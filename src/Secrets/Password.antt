-- ===== src/Secrets/Password.antt =====
-- password.go: the generated password as a function of the random bytes.
use borgbase_operator.Base.{
  ℕ, zero, suc, ◌+◌, ◌<◌, ◌≤◌, ltb, leb, Text, length, length-take, take, length-append, true,
  Option, none, some, List, [], ◌∷◌, ◌++◌, ◌≡◌, inl, inr, refl, sym, Bool-cases, arith,
  if◌then◌else◌,
}
use mathlib.Core.List.{append_assoc, append-nil}
use borgbase_operator.Errors.{Result, ok}
use borgbase_operator.Secrets.{fill, letter, rounds, generate_password}

-- The letters of the bytes that are not rejected.
abbrev pub letters : Text → Text
letters [] = []
letters (b ∷ buf) = let rest = letters buf in if leb 248 b then rest else letter b ∷ rest

abbrev pub all_letters : List Text → Text
all_letters [] = []
all_letters (buf ∷ bufs) = letters buf ++ all_letters bufs

-- Reads that all succeed.
abbrev pub read_all : List Text → List (Result Text)
read_all [] = []
read_all (buf ∷ bufs) = ok buf ∷ read_all bufs

take_all : (xs : Text) (n : ℕ) → length xs ≤ n → take n xs ≡ xs
take_all [] zero h = refl
take_all [] (suc n) h = refl
take_all (x ∷ xs) zero h = absurd (omega arith)
take_all (x ∷ xs) (suc n) h = cc (take_all xs n (omega arith))

take_append_full : (xs ys : Text) (n : ℕ) → length xs ≡ n → take n (xs ++ ys) ≡ xs
take_append_full [] ys zero h = refl
take_append_full [] ys (suc n) h = absurd (omega arith)
take_append_full (x ∷ xs) ys zero h = absurd (omega arith)
take_append_full (x ∷ xs) ys (suc n) h = cc (take_append_full xs ys n (omega arith))

fill-letters : (buf out : Text) → length out < 128 → fill buf out ≡ take 128 (out ++ letters buf)
unfolding fill
fill-letters [] out h = rw append-nil (sym (take_all out 128 (omega arith)))
fill-letters (b ∷ buf) out h =
    let longer : Text = out ++ (letter b ∷ []) in
    let size : length longer ≡ length out + 1 = length-append out (letter b ∷ []) in
    let same : longer ++ letters buf ≡ out ++ (letter b ∷ letters buf) =
      append_assoc out (letter b ∷ []) (letters buf) in
    let full : length longer ≡ 128 → take 128 (longer ++ letters buf) ≡ longer =
      take_append_full longer (letters buf) 128 in
    ground (arith, fill-letters buf out, fill-letters buf longer, size, same, full)

length-fill : (buf out : Text) → length out < 128 → length (fill buf out) ≤ 128
length-fill buf out h =
    rw (fill-letters buf out h) (omega (arith, length-take 128 (out ++ letters buf)))

take-take_append : (xs ys : Text) (n : ℕ) → take n (take n xs ++ ys) ≡ take n (xs ++ ys)
take-take_append xs ys zero = refl
take-take_append [] ys (suc n) = refl
take-take_append (x ∷ xs) ys (suc n) = cc (take-take_append xs ys n)

-- The first `n` letters, if there are as many.
chosen : ℕ → Text → Option (Result Text)
chosen n xs = if leb n (length xs) then some (ok (take n xs)) else none

chosen-take : (n : ℕ) (g r : Text) → chosen n (take n g ++ r) ≡ chosen n (g ++ r)
unfolding chosen
chosen-take n g r =
    let same : leb n (length (take n g ++ r)) ≡ leb n (length (g ++ r)) =
      ground (arith, length-append (take n g) r, length-append g r, length-take n g) in
    rw (take-take_append g r n, same)

chosen_full : (n : ℕ) (out r : Text) → length out ≡ n → chosen n (out ++ r) ≡ some (ok out)
unfolding chosen
chosen_full n out r h =
    let long : leb n (length (out ++ r)) ≡ true = ground (arith, length-append out r) in
    rw (long, take_append_full out r n h)

chosen_short : (n : ℕ) (out : Text) → length out < n → chosen n out ≡ none
unfolding chosen
chosen_short n out h = ground arith

rounds-letters :
    (bufs : List Text) (out : Text)
    → length out ≤ 128
    → rounds out (read_all bufs) ≡ chosen 128 (out ++ all_letters bufs)
unfolding rounds
rounds-letters [] out h = elim (Bool-cases (ltb (length out) 128)) [
  | inl short ↦ rw (short, append-nil, chosen_short 128 out (ground arith))
  | inr full ↦
      let whole : chosen 128 (out ++ []) ≡ some (ok out) = chosen_full 128 out [] (ground arith) in
      rw (full, whole)
]
rounds-letters (buf ∷ bufs) out h = elim (Bool-cases (ltb (length out) 128)) [
  | inl short ↦
      let below : length out < 128 = ground arith in
      let more : rounds (fill buf out) (read_all bufs)
          ≡ chosen 128 (fill buf out ++ all_letters bufs) =
        rounds-letters bufs (fill buf out) (length-fill buf out below) in
      rw (
        short,
        more,
        fill-letters buf out below,
        chosen-take 128 (out ++ letters buf) (all_letters bufs),
        append_assoc out (letters buf) (all_letters bufs),
      )
  | inr full ↦ rw (full, chosen_full 128 out (letters buf ++ all_letters bufs) (ground arith))
]

-- Where no read fails, the password is the first 128 letters of the bytes that are not rejected, in
-- their order; and the generator returns it exactly when the bytes hold that many such letters.
pub generate_password-letters :
    (buf : Text) (bufs : List Text)
    → generate_password (read_all (buf ∷ bufs)) ≡ (
        if leb 128 (length (all_letters (buf ∷ bufs)))
        then some (ok (take 128 (all_letters (buf ∷ bufs))))
        else none)
unfolding generate_password chosen
generate_password-letters buf bufs =
    let filled : fill buf [] ≡ take 128 (letters buf) = fill-letters buf [] (omega arith) in
    rw
      (
        filled,
        rounds-letters bufs (take 128 (letters buf)) (omega (arith, length-take 128 (letters buf))),
      )
      (chosen-take 128 (letters buf) (all_letters bufs))
