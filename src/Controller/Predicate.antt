-- ===== src/Controller/Predicate.antt =====
-- internal/controller/predicate.go: which updates of an object start a reconcile.
use borgbase_operator.Base.{
  Text, text_eq, get_text, Bool, true, false, not, ◌&&◌, List, [], ◌∷◌, Option, none, some, is_some,
  any, ◌==◌, if◌then◌else◌,
}
use borgbase_operator.Api.Meta.{ObjectMeta}

-- The semantic `DeepEqual` of two lists of finalizers.
unfoldable pub same_texts : List Text → List Text → Bool
same_texts [] [] = true
same_texts [] (_ ∷ _) = false
same_texts (_ ∷ _) [] = false
same_texts (s ∷ ss) (t ∷ ts) = text_eq s t && same_texts ss ts

-- The `UpdateFunc` of `ignoreOwnStatusWrites`, on the two objects' metadata.
unfoldable pub passes_update : List Text → Option ObjectMeta → Option ObjectMeta → Bool
unfolding same_texts
passes_update watched none _ = true
passes_update watched (some _) none = true
passes_update watched (some before) (some after) =
    if is_some after.deletion_timestamp
    then true
    else if not (same_texts before.finalizers after.finalizers)
    then true
    else if any (λ k. not (text_eq (get_text before.annotations k) (get_text after.annotations k)))
        watched
    then true
    else not (before.generation == after.generation)
