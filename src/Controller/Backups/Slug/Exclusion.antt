-- ===== src/Controller/Backups/Slug/Exclusion.antt =====
-- scheduledbackup_controller.go, slugConflict: the backups that report one slug.
use borgbase_operator.Base.{
  text_eq, text_eq_iff, text_lt_total, is_some, is_empty, true, false, not, none, List, [], ◌∷◌,
  ◌≡◌, ◌≢◌, inl, inr, refl, sym, arith, Bool-cases,
}
use borgbase_operator.Api.ScheduledBackup.{ScheduledBackup}
use borgbase_operator.Backup.Workload.Pods.{Config, reporter_of}
use borgbase_operator.Controller.Repository.Conflict.Exclusion.{Has}
use borgbase_operator.Controller.Backups.Slug.{
  older_than, reports_slug, claims_slug, slug_conflict_in,
}

-- Of two backups with different names exactly one is older.
older_than_total :
    (a b : ScheduledBackup)
    → text_eq a.meta.name b.meta.name ≡ false
    → older_than a b ≡ not (older_than b a)
unfolding older_than
older_than_total a b h =
    ground (arith, text_eq_iff a.meta.name b.meta.name, text_lt_total a.meta.name b.meta.name)

module _ (cfg : Config) where
  -- A backup that is not being deleted, has a name, and pings its check by its slug.
  abbrev pub Reports : ScheduledBackup → Type 0
  Reports sb =
      (sb.meta.deletion_timestamp ≡ none)
      × ((is_empty sb.meta.name ≡ false) × (reports_slug cfg sb ≡ true))

  same_name_comm :
      (a b : ScheduledBackup)
      → text_eq a.meta.name b.meta.name ≡ false
      → text_eq b.meta.name a.meta.name ≡ false
  same_name_comm a b h =
      ground (arith, text_eq_iff a.meta.name b.meta.name, text_eq_iff b.meta.name a.meta.name)

  older-claims_slug :
      (a b : ScheduledBackup)
      → Reports b
      → text_eq b.meta.name a.meta.name ≡ false
      → (reporter_of b cfg).slug ≡ (reporter_of a cfg).slug
      → claims_slug cfg a b ≡ older_than b a
  unfolding claims_slug
  older-claims_slug a b (live, (_, reports)) distinct same =
      let alive : is_some b.meta.deletion_timestamp ≡ false = rw live refl in
      rw
        (
          distinct,
          alive,
          reports,
          (text_eq_iff (reporter_of b cfg).slug (reporter_of a cfg).slug).1 same,
        )
        refl

  claimed-ne-nil :
      (a b : ScheduledBackup) (list : List ScheduledBackup)
      → Has b list
      → is_empty b.meta.name ≡ false
      → claims_slug cfg a b ≡ true
      → (is_named : (o : ScheduledBackup) → Has o list → is_empty o.meta.name ≡ false)
      → slug_conflict_in cfg a list ≢ []
  unfolding slug_conflict_in
  claimed-ne-nil a b [] member named claims is_named e = elim member [ ]
  claimed-ne-nil a b (o ∷ list) (inl p) named claims is_named e =
      let claims' : claims_slug cfg a o ≡ true = rw (← p) claims in
      let named' = is_named o (inl refl) in ground arith
  claimed-ne-nil a b (o ∷ list) (inr member) named claims is_named e =
      let rest = claimed-ne-nil a b list member named claims (λ x m. is_named x (inr m)) in
      let named' = is_named o (inl refl) in ground (arith, rest)

-- Of two backups with different names that report one slug, are not being deleted and stand in
-- one list of named backups, one at most has no conflict.
pub slug_conflict_in_exclusive :
    (cfg : Config) (a b : ScheduledBackup) (list : List ScheduledBackup)
    → Has a list
    → Has b list
    → ((o : ScheduledBackup) → Has o list → is_empty o.meta.name ≡ false)
    → text_eq a.meta.name b.meta.name ≡ false
    → Reports cfg a
    → Reports cfg b
    → (reporter_of a cfg).slug ≡ (reporter_of b cfg).slug
    → slug_conflict_in cfg a list ≡ []
    → slug_conflict_in cfg b list ≢ []
slug_conflict_in_exclusive cfg a b list in_a in_b named distinct ra rb same pass_a pass_b =
    elim (Bool-cases (older_than b a)) [
      | inl older ↦
          claimed-ne-nil cfg a b list in_b rb.1.0
            (rw (older-claims_slug cfg a b rb (same_name_comm cfg a b distinct) (sym same)) older)
            named pass_a
      | inr younger ↦
          claimed-ne-nil cfg b a list in_a ra.1.0
            (rw (older-claims_slug cfg b a ra distinct same)
              (rw (older_than_total a b distinct, younger) refl))
            named pass_b
    ]
