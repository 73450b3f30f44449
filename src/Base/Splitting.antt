-- ===== src/Base/Splitting.antt =====
-- strings.TrimSpace, Fields, Join, Cut, Split and TrimRight on ASCII text.
use Prim.Native.Nat.{ℕ}
use mathlib.Core.Bool.{Bool, ◌||◌, ◌&&◌}
use mathlib.Core.Option.{Option, none, some}
use mathlib.Core.List.{List, [], ◌∷◌, ◌++◌, reverse}
use borgbase_operator.Base.Tests.{leb, ◌==◌, if◌then◌else◌}
use borgbase_operator.Base.Strings.{Text}

-- Tab, newline, vertical tab, form feed, carriage return and space.
unfoldable pub is_space : ℕ → Bool
is_space c = c == 32 || (leb 9 c && leb c 13)

unfoldable pub trim_left : Text → Text
trim_left [] = []
trim_left (c ∷ s) = let rest = trim_left s in if is_space c then rest else c ∷ s

unfoldable pub trim_space : Text → Text
unfolding trim_left is_space
trim_space s = reverse (trim_left (reverse (trim_left s)))

-- A word that is being read is put in front of those after it.
abbrev close_word : Text → List Text → List Text
close_word [] words = words
close_word (c ∷ w) words = (c ∷ w) ∷ words

-- The word that the text begins with, and the words after it.
unfoldable pub fields_from : Text → Text × List Text
unfolding is_space
fields_from [] = ([], [])
fields_from (c ∷ s) =
    let (word, words) = fields_from s in
    if is_space c then ([], close_word word words) else (c ∷ word, words)

-- strings.Fields
unfoldable pub fields : Text → List Text
unfolding fields_from
fields s = let (word, words) = fields_from s in close_word word words

-- strings.Join
unfoldable pub join : List Text → Text → Text
join [] sep = []
join (s ∷ []) sep = s
join (s ∷ (t ∷ more)) sep = s ++ (sep ++ join (t ∷ more) sep)

-- strings.Cut at one byte: what stands before and after its first occurrence.
unfoldable pub cut : ℕ → Text → Option (Text × Text)
cut d [] = none
cut d (c ∷ s) =
    let rest = cut d s in
    if c == d
    then some ([], s)
    else elim rest [ none ↦ none | some (before, after) ↦ some (c ∷ before, after) ]

-- strings.Split at one byte: the first part, and the parts after it.
unfoldable pub split_from : ℕ → Text → Text × List Text
split_from d [] = ([], [])
split_from d (c ∷ s) =
    let (part, parts) = split_from d s in if c == d then ([], part ∷ parts) else (c ∷ part, parts)

unfoldable pub split : ℕ → Text → List Text
unfolding split_from
split d s = let (part, parts) = split_from d s in part ∷ parts
