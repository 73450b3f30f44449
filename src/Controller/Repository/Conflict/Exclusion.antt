-- ===== src/Controller/Repository/Conflict/Exclusion.antt =====
-- repository_controller.go, repositoryConflict: the Repositories that manage one BorgBase ID.
use borgbase_operator.Base.{
  Text, codes, text_eq, text_eq_iff, text_lt_total, text_lt_irrefl, text_lt_trans, Bool, true,
  false, not, ◌&&◌, none, List, [], ◌∷◌, ◌++◌, ◌≡◌, ◌≢◌, ◌⊎◌, inl, inr, arith, Bool-cases,
}
use borgbase_operator.Api.Repository.{Repository}
use borgbase_operator.Controller.Repository.Conflict.{
  managed_id, older_repository, skipped, conflict_in,
}

-- Whether two Repositories are the same object.
abbrev pub same_key : Repository → Repository → Bool
same_key a b = text_eq a.meta.namespace b.meta.namespace && text_eq a.meta.name b.meta.name

-- A list has a member.
abbrev pub Has : {A : Type 0} → A → List A → Type 0
Has a [] = ⊥
Has a (b ∷ bs) = (a ≡ b) ⊎ Has a bs

same_key_comm : (a b : Repository) → same_key a b ≡ same_key b a
same_key_comm a b = ground (
  arith,
  text_eq_iff a.meta.namespace b.meta.namespace,
  text_eq_iff b.meta.namespace a.meta.namespace,
  text_eq_iff a.meta.name b.meta.name,
  text_eq_iff b.meta.name a.meta.name,
)

not_skipped :
    (repo other : Repository)
    → same_key repo other ≡ false
    → other.meta.deletion_timestamp ≡ none
    → skipped repo other ≡ false
not_skipped repo other distinct live = rw live (rw same_key_comm at distinct)

-- Of two different Repositories exactly one is older.
pub older_repository_total :
    (a b : Repository) → same_key a b ≡ false → older_repository a b ≡ not (older_repository b a)
unfolding older_repository
older_repository_total a b h = ground (
  arith,
  text_eq_iff a.meta.namespace b.meta.namespace,
  text_eq_iff b.meta.namespace a.meta.namespace,
  text_lt_total a.meta.namespace b.meta.namespace,
  text_lt_total a.meta.name b.meta.name,
)

pub older_repository_trans :
    (a b c : Repository)
    → older_repository a b ≡ true
    → older_repository b c ≡ true
    → older_repository a c ≡ true
unfolding older_repository
older_repository_trans a b c h k = ground (
  arith,
  text_eq_iff a.meta.namespace b.meta.namespace,
  text_eq_iff b.meta.namespace c.meta.namespace,
  text_eq_iff a.meta.namespace c.meta.namespace,
  text_lt_irrefl a.meta.namespace,
  text_lt_trans a.meta.namespace b.meta.namespace c.meta.namespace,
  text_lt_trans a.meta.name b.meta.name c.meta.name,
)

qualified-ne-nil : (s t : Text) → s ++ (codes "/" ++ t) ≢ []
qualified-ne-nil [] t q = cc
qualified-ne-nil (_ ∷ _) t q = cc

-- An older Repository in the list with the same ID is a conflict.
conflict_in-ne-nil :
    (repo other : Repository) (id : Text) (list : List Repository)
    → Has other list
    → skipped repo other ≡ false
    → managed_id other ≡ id
    → older_repository other repo ≡ true
    → conflict_in repo id list ≢ []
unfolding conflict_in
conflict_in-ne-nil repo other id [] member live same older e = elim member [ ]
conflict_in-ne-nil repo other id (o ∷ list) (inl p) live same older e = conflict_here
  where
    live' : skipped repo o ≡ false
    live' = rw (← p) live

    same' : text_eq (managed_id o) id ≡ true
    same' = rw (← p) ((text_eq_iff (managed_id other) id).1 same)

    older' : older_repository o repo ≡ true
    older' = rw (← p) older

    conflict_here : ⊥
    conflict_here = qualified-ne-nil o.meta.namespace o.meta.name (rw (live', same', older') at e)
conflict_in-ne-nil repo other id (o ∷ list) (inr member) live same older e = ground (
  arith,
  conflict_in-ne-nil repo other id list member live same older,
  qualified-ne-nil o.meta.namespace o.meta.name,
)

-- Two live Repositories that manage one ID never both pass, on one list of the Repositories.
pub conflict_in_exclusive :
    (a b : Repository) (id : Text) (list : List Repository)
    → Has a list
    → Has b list
    → same_key a b ≡ false
    → a.meta.deletion_timestamp ≡ none
    → b.meta.deletion_timestamp ≡ none
    → managed_id a ≡ id
    → managed_id b ≡ id
    → conflict_in a id list ≡ []
    → conflict_in b id list ≢ []
conflict_in_exclusive a b id list in_a in_b distinct live_a live_b id_a id_b pass_a pass_b =
    elim (Bool-cases (older_repository b a)) [
      | inl older ↦
          conflict_in-ne-nil a b id list in_b (not_skipped a b distinct live_b) id_b older pass_a
      | inr younger ↦
          conflict_in-ne-nil b a id list in_a (not_skipped b a (rw same_key_comm distinct) live_a)
            id_a (rw (older_repository_total a b distinct, younger)) pass_b
    ]
