-- ===== src/Cli/Restore/Download/Paths.antt =====
-- restore_targets.go: where an entry of an archive goes.
use mathlib.Core.List.{append-nil, append_assoc}
use borgbase_operator.Base.{
  ℕ, ◌==◌, Text, codes, is_empty, text_eq, text_eq_refl, has_prefix, join, split, all, All, Bool,
  true, false, not, ◌||◌, ◌&&◌, List, [], ◌∷◌, ◌++◌, ◌≡◌, refl, sym, ap, ◌∙◌, arith, if◌then◌else◌,
}
use borgbase_operator.Cli.Restore.Download.{
  but_last, walk, walk_all, elements, rooted, clean, target_of, is_outside,
}

abbrev slash : ℕ
slash = 47

-- No byte is a slash.
abbrev pub NoSlash : Text → Type 0
NoSlash s = all (λ c. not (c == b'/')) s ≡ true

-- An element of a clean path: not empty, not `.` or `..`, and with no slash.
pub record IsPlain (s : Text) : Type 0 where
  pub filled : is_empty s ≡ false
  pub not_dot : text_eq s (codes ".") ≡ false
  pub not_dots : text_eq s (codes "..") ≡ false
  pub whole : NoSlash s

split-append : (s t : Text) → split b'/' (s ++ (b'/' ∷ t)) ≡ split b'/' s ++ split b'/' t
unfolding split
split-append [] t = refl
split-append (c ∷ s) t = ground (arith, split-append s t)

split-NoSlash : (s : Text) → All NoSlash (split b'/' s)
unfolding split
split-NoSlash [] = (refl, tt)
split-NoSlash (c ∷ s) = ground (arith, split-NoSlash s)

split-whole : (s : Text) → NoSlash s → split b'/' s ≡ s ∷ []
unfolding split
split-whole [] h = refl
split-whole (c ∷ s) h = ground (arith, split-whole s)

split-join :
    (e : Text) (es : List Text)
    → NoSlash e
    → All IsPlain es
    → split b'/' (join (e ∷ es) (codes "/")) ≡ e ∷ es
unfolding join
split-join e [] h p = split-whole e h
split-join e (f ∷ es) h p =
    split-append e (join (f ∷ es) (codes "/"))
    ∙ (ap (λ (l : List Text). l ++ split b'/' (join (f ∷ es) (codes "/"))) (split-whole e h)
        ∙ ap (λ (l : List Text). e ∷ l) (split-join f es p.0.whole p.1))

walk_all-append : (els ps qs : List Text) → walk_all els (ps ++ qs) ≡ walk_all (walk_all els ps) qs
walk_all-append els [] qs = refl
walk_all-append els (p ∷ ps) qs = walk_all-append (walk els p) ps qs

walk-plain : (els : List Text) (q : Text) → IsPlain q → walk els q ≡ els ++ (q ∷ [])
walk-plain els q h = rw (h.filled, h.not_dot, h.not_dots) refl

walk_all-plain : (els qs : List Text) → All IsPlain qs → walk_all els qs ≡ els ++ qs
walk_all-plain els [] h = sym (append-nil els)
walk_all-plain els (q ∷ qs) h =
    rw (walk-plain els q h.0)
      (walk_all-plain (els ++ (q ∷ [])) qs h.1 ∙ append_assoc els (q ∷ []) qs)

All-but_last : (els : List Text) → All IsPlain els → All IsPlain (but_last els)
All-but_last [] h = tt
All-but_last (x ∷ []) h = tt
All-but_last (x ∷ (y ∷ ys)) h = (h.0, All-but_last (y ∷ ys) h.1)

All-snoc :
    (els : List Text) (q : Text) → All IsPlain els → IsPlain q → All IsPlain (els ++ (q ∷ []))
All-snoc [] q h p = (p, tt)
All-snoc (x ∷ els) q h p = (h.0, All-snoc els q h.1 p)

walk-IsPlain : (els : List Text) (q : Text) → All IsPlain els → NoSlash q → All IsPlain (walk els q)
walk-IsPlain els q h p =
    by_case (is_empty q) (text_eq q (codes ".")) (text_eq q (codes "..")) refl refl refl
  where
    by_case :
        (a b c : Bool)
        → is_empty q ≡ a
        → text_eq q (codes ".") ≡ b
        → text_eq q (codes "..") ≡ c
        → All IsPlain (if a || b then els else if c then but_last els else els ++ (q ∷ []))
    by_case true b c x y z = h
    by_case false true c x y z = h
    by_case false false true x y z = All-but_last els h
    by_case false false false x y z =
        All-snoc els q h (record { filled = x; not_dot = y; not_dots = z; whole = p })

walk_all-IsPlain :
    (els qs : List Text) → All IsPlain els → All NoSlash qs → All IsPlain (walk_all els qs)
walk_all-IsPlain els [] h p = h
walk_all-IsPlain els (q ∷ qs) h p = walk_all-IsPlain (walk els q) qs (walk-IsPlain els q h p.0) p.1

pub elements-IsPlain : (path : Text) → All IsPlain (elements path)
unfolding elements
elements-IsPlain path = walk_all-IsPlain [] (split b'/' path) tt (split-NoSlash path)

-- On top of other elements, a clean path adds its elements.
walk_all-rooted :
    (els qs : List Text) → All IsPlain qs → walk_all els (split b'/' (rooted qs)) ≡ els ++ qs
unfolding split join
walk_all-rooted els [] h = sym (append-nil els)
walk_all-rooted els (q ∷ qs) h =
    ap (walk_all els) (
      split-append [] (join (q ∷ qs) (codes "/"))
      ∙ ap (λ (l : List Text). [] ∷ l) (split-join q qs h.0.whole h.1))
    ∙ walk_all-plain els (q ∷ qs) h

-- The target of an entry has the elements of the directory, and below them those of its name.
pub target_of-rooted :
    (dest name : Text) → target_of dest name ≡ rooted (elements dest ++ elements (b'/' ∷ name))
unfolding target_of elements
target_of-rooted dest name =
    let els = elements (b'/' ∷ name) in
    ap rooted (
      ap (walk_all []) (split-append dest (rooted els))
      ∙ (walk_all-append [] (split b'/' dest) (split b'/' (rooted els))
          ∙ walk_all-rooted (elements dest) els (elements-IsPlain (b'/' ∷ name))))

join-append :
    (e : Text) (es : List Text) (f : Text) (fs : List Text)
    → join ((e ∷ es) ++ (f ∷ fs)) (codes "/")
      ≡ join (e ∷ es) (codes "/") ++ (b'/' ∷ join (f ∷ fs) (codes "/"))
unfolding join
join-append e [] f fs = refl
join-append e (g ∷ es) f fs =
    ap (λ (s : Text). e ++ (b'/' ∷ s)) (join-append g es f fs)
    ∙ sym (append_assoc e (b'/' ∷ join (g ∷ es) (codes "/")) (b'/' ∷ join (f ∷ fs) (codes "/")))

has_prefix-append : (s t : Text) → has_prefix (s ++ t) s ≡ true
unfolding has_prefix
has_prefix-append [] [] = refl
has_prefix-append [] (_ ∷ _) = refl
has_prefix-append (c ∷ s) t = ground (arith, has_prefix-append s t)

abbrev pub is_root : List Text → Bool
is_root [] = true
is_root (_ ∷ _) = false

has_prefix-below :
    (e : Text) (es : List Text) (f : Text) (fs : List Text)
    → has_prefix (rooted ((e ∷ es) ++ (f ∷ fs))) (rooted (e ∷ es) ++ codes "/") ≡ true
has_prefix-below e es f fs =
    let whole : Text = rooted (e ∷ es) ++ codes "/" in
    let rest : Text = join (f ∷ fs) (codes "/") in
    ap (λ (s : Text). has_prefix (b'/' ∷ s) whole) (join-append e es f fs)
    ∙ (ap (λ (s : Text). has_prefix s whole) (sym (append_assoc (rooted (e ∷ es)) (codes "/") rest))
        ∙ has_prefix-append whole rest)

-- No path below the root begins with two slashes.
has_prefix-root :
    (f : Text) (fs : List Text) → IsPlain f → has_prefix (rooted (f ∷ fs)) (codes "//") ≡ false
unfolding has_prefix join
has_prefix-root [] fs h = absurd (ground (arith, h.filled))
has_prefix-root (c ∷ f) [] h = ground (arith, h.whole)
has_prefix-root (c ∷ f) (g ∷ fs) h = ground (arith, h.whole)

text_eq-root :
    (f : Text) (fs : List Text) → IsPlain f → text_eq (rooted (f ∷ fs)) (codes "/") ≡ false
unfolding text_eq join
text_eq-root [] fs h = absurd (ground (arith, h.filled))
text_eq-root (c ∷ f) [] h = refl
text_eq-root (c ∷ f) (g ∷ fs) h = refl

-- The test of `untar` on the target of an entry.
is_outside-rooted :
    (els qs : List Text)
    → All IsPlain qs
    → (not (has_prefix (rooted (els ++ qs)) (rooted els ++ codes "/"))
        && not (text_eq (rooted (els ++ qs)) (rooted els)))
      ≡ (is_root els && not (is_root qs))
unfolding join
is_outside-rooted [] [] h = unfold has_prefix text_eq in refl
is_outside-rooted [] (q ∷ qs) h =
    let a = has_prefix-root q qs h.0 in let b = text_eq-root q qs h.0 in rw (a, b) refl
is_outside-rooted (e ∷ es) [] h =
    let same : text_eq (rooted ((e ∷ es) ++ [])) (rooted (e ∷ es)) ≡ true =
      ap (λ (l : List Text). text_eq (rooted l) (rooted (e ∷ es))) (append-nil (e ∷ es))
      ∙ text_eq_refl (rooted (e ∷ es)) in
    ground (arith, same)
is_outside-rooted (e ∷ es) (q ∷ qs) h = let a = has_prefix-below e es q qs in ground (arith, a)

-- `untar` refuses an entry as outside of the target directory exactly if that directory is the root
-- and the entry is not: the cleaned name leaves no other directory, and at the root the text that
-- `untar` compares with, `//`, begins no path.
pub is_outside-target_of :
    (dest name : Text)
    → is_outside dest (target_of dest name)
      ≡ (is_root (elements dest) && not (is_root (elements (b'/' ∷ name))))
unfolding is_outside
is_outside-target_of dest name =
    ap (λ (t : Text). not (has_prefix t (clean dest ++ codes "/")) && not (text_eq t (clean dest)))
      (target_of-rooted dest name)
    ∙ is_outside-rooted (elements dest) (elements (b'/' ∷ name)) (elements-IsPlain (b'/' ∷ name))
