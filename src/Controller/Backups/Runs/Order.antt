-- ===== src/Controller/Backups/Runs/Order.antt =====
-- trigger.go, mergeHistory: the length and the order of the history.
use borgbase_operator.Base.{
  ℕ, zero, suc, ◌≤◌, length, take, length-take, true, false, Option, List, [], ◌∷◌, ◌≡◌, arith, All,
  Bool-cases, inl, inr,
}
use borgbase_operator.Api.ScheduledBackup.{BackupRun}
use borgbase_operator.Controller.Backups.Runs.{
  ObservedRun, before_time, insert_run, sort_runs, merge_observed, merge_existing, merge_history,
}

before_time_trans :
    (a b c : Option ℕ) → before_time a b ≡ false → before_time b c ≡ false → before_time a c ≡ false
unfolding before_time
before_time_trans a b c h k = ground arith

before_time_asym : (a b : Option ℕ) → before_time a b ≡ true → before_time b a ≡ false
unfolding before_time
before_time_asym a b h = ground arith

module _ {A : Type 0} (time : A → Option ℕ) where
  -- No run of the list started after `x`.
  abbrev pub NoneLater : A → List A → Type 0
  NoneLater x ys = All (λ y. before_time (time x) (time y) ≡ false) ys

  -- The latest run stands first.
  abbrev pub IsLatestFirst : List A → Type 0
  IsLatestFirst [] = Unit
  IsLatestFirst (x ∷ xs) = NoneLater x xs × IsLatestFirst xs

  later_than_all :
      (x y : A) (ys : List A)
      → before_time (time x) (time y) ≡ false
      → NoneLater y ys
      → NoneLater x ys
  later_than_all x y [] h k = tt
  later_than_all x y (z ∷ ys) h (p, ps) =
      (before_time_trans (time x) (time y) (time z) h p, later_than_all x y ys h ps)

  NoneLater-insert_run :
      (y x : A) (ys : List A)
      → before_time (time y) (time x) ≡ false
      → NoneLater y ys
      → NoneLater y (insert_run time x ys)
  unfolding insert_run
  NoneLater-insert_run y x [] h k = (h, tt)
  NoneLater-insert_run y x (z ∷ ys) h (p, ps) = elim (Bool-cases (before_time (time x) (time z))) [
    | inl later ↦ rw later (p, NoneLater-insert_run y x ys h ps)
    | inr first ↦ rw first (h, (p, ps))
  ]

  insert_run-IsLatestFirst :
      (x : A) (ys : List A) → IsLatestFirst ys → IsLatestFirst (insert_run time x ys)
  unfolding insert_run
  insert_run-IsLatestFirst x [] h = (tt, tt)
  insert_run-IsLatestFirst x (y ∷ ys) (p, ps) = elim (Bool-cases (before_time (time x) (time y))) [
    | inl later ↦ rw later (
      NoneLater-insert_run y x ys (before_time_asym (time x) (time y) later) p,
      insert_run-IsLatestFirst x ys ps,
    )
    | inr first ↦ rw first ((first, later_than_all x y ys first p), (p, ps))
  ]

  sort_runs-IsLatestFirst : (xs : List A) → IsLatestFirst (sort_runs time xs)
  unfolding sort_runs
  sort_runs-IsLatestFirst [] = tt
  sort_runs-IsLatestFirst (x ∷ xs) = insert_run-IsLatestFirst x _ (sort_runs-IsLatestFirst xs)

  take-NoneLater : (n : ℕ) (x : A) (xs : List A) → NoneLater x xs → NoneLater x (take n xs)
  take-NoneLater zero x xs h = tt
  take-NoneLater (suc n) x [] h = tt
  take-NoneLater (suc n) x (y ∷ xs) (p, ps) = (p, take-NoneLater n x xs ps)

  take-IsLatestFirst : (n : ℕ) (xs : List A) → IsLatestFirst xs → IsLatestFirst (take n xs)
  take-IsLatestFirst zero xs h = tt
  take-IsLatestFirst (suc n) [] h = tt
  take-IsLatestFirst (suc n) (x ∷ xs) (p, ps) =
      (take-NoneLater n x xs p, take-IsLatestFirst n xs ps)

-- The history in the status has at most ten runs, the one that started last first, whatever was
-- recorded and observed.
pub merge_history-IsLatestFirst :
    (existing : List BackupRun) (observed : List ObservedRun)
    → (length (merge_history existing observed) ≤ 10)
      × IsLatestFirst (λ (run : BackupRun). run.start_time) (merge_history existing observed)
unfolding merge_history
merge_history-IsLatestFirst existing observed =
    let sorted =
      sort_runs (λ (run : BackupRun). run.start_time)
        (merge_existing existing (merge_observed observed [] []).0
          (merge_observed observed [] []).1) in
    (
      omega (arith, length-take 10 sorted),
      take-IsLatestFirst (λ run. run.start_time) 10 sorted
          (sort_runs-IsLatestFirst (λ run. run.start_time) _),
    )
