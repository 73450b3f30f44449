-- ===== src/Base/Order.antt =====
-- The byte order of strings.
use mathlib.Core.Path.{◌≡◌, refl}
use mathlib.Core.Bool.{true, false, not}
use mathlib.Core.List.{[], ◌∷◌}
use native.Mathlib.Omega.{arith}
use borgbase_operator.Base.Strings.{Text, text_eq, text_lt}

-- Of two texts that differ, exactly one comes first.
pub text_lt_total : (s t : Text) → text_eq s t ≡ false → text_lt s t ≡ not (text_lt t s)
unfolding text_lt text_eq
text_lt_total [] [] h = cc
text_lt_total [] (_ ∷ _) h = refl
text_lt_total (_ ∷ _) [] h = refl
text_lt_total (c ∷ s) (d ∷ t) h = ground (arith, text_lt_total s t)

pub text_lt_irrefl : (s : Text) → text_lt s s ≡ false
unfolding text_lt
text_lt_irrefl [] = refl
text_lt_irrefl (c ∷ s) = ground (arith, text_lt_irrefl s)

pub text_lt_trans : (s t u : Text) → text_lt s t ≡ true → text_lt t u ≡ true → text_lt s u ≡ true
unfolding text_lt
text_lt_trans s [] u h k = cc
text_lt_trans s (d ∷ t) [] h k = cc
text_lt_trans [] (d ∷ t) (e ∷ u) h k = refl
text_lt_trans (c ∷ s) (d ∷ t) (e ∷ u) h k = ground (arith, text_lt_trans s t u)
