-- ===== src/Secrets.antt =====
-- internal/secrets/password.go: the generator of restic passwords. The reads of crypto/rand are an
-- argument: the answers that it gives, in their order.
pub mod Password
use borgbase_operator.Base.{
  ℕ, ◌%◌, ltb, leb, ◌==◌, Text, codes, length, drop, Bool, true, false, Option, none, some, List,
  [], ◌∷◌, ◌++◌, if◌then◌else◌,
}
use borgbase_operator.Errors.{Err, wrap, Result, ok, err}

abbrev pub password_length : ℕ
password_length = 128

abbrev pub alphabet : Text
alphabet = codes "abcdefghijklmnopqrstuvwxyzABCDEFGHIJKLMNOPQRSTUVWXYZ0123456789"

-- 256 - 256 % 62
abbrev pub max_unbiased : ℕ
max_unbiased = 248

abbrev pub first_or : ℕ → Text → ℕ
first_or d [] = d
first_or d (c ∷ _) = c

-- `alphabet[int(b)%len(alphabet)]`
unfoldable pub letter : ℕ → ℕ
letter b = first_or 0 (drop (b % 62) alphabet)

-- The loop over one buffer.
unfoldable pub fill : Text → Text → Text
fill [] out = out
fill (b ∷ buf) out = elim (leb max_unbiased b) [
  | true ↦ fill buf out
  | false ↦
      let longer = out ++ (letter b ∷ []) in
      elim (length longer == password_length) [ true ↦ longer | false ↦ fill buf longer ]
]

abbrev pub generation_failed : Err → Err
generation_failed e = wrap (codes "generating password: ") e []

-- The outer loop, before which `out` was filled: `none` if the answers end before it does.
unfoldable pub rounds : Text → List (Result Text) → Option (Result Text)
rounds out [] = if ltb (length out) password_length then none else some (ok out)
rounds out (err e ∷ reads) =
    if ltb (length out) password_length then some (err (generation_failed e)) else some (ok out)
rounds out (ok buf ∷ reads) =
    let more = rounds (fill buf out) reads in
    if ltb (length out) password_length then more else some (ok out)

-- `func GeneratePassword`
unfoldable pub generate_password : List (Result Text) → Option (Result Text)
unfolding rounds
generate_password [] = none
generate_password (err e ∷ reads) = some (err (generation_failed e))
generate_password (ok buf ∷ reads) = rounds (fill buf []) reads
