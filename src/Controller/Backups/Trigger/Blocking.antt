-- ===== src/Controller/Backups/Trigger/Blocking.antt =====
-- trigger.go, reconcileTrigger: when a trigger starts no Job.
use borgbase_operator.Base.{
  ℕ, ◌≤◌, ltb, get_text, is_empty, text_eq, true, false, not, some, List, [], ◌∷◌, ◌++◌, All, ◌⊎◌,
  inl, inr, ◌≡◌, refl, ap, arith,
}
use borgbase_operator.Errors.{ok}
use borgbase_operator.Kube.Objects.{policy_forbid}
use borgbase_operator.Backup.Workload.{manual_job_name}
use borgbase_operator.Api.Repository.{Repository}
use borgbase_operator.Api.ScheduledBackup.{ScheduledBackup}
use borgbase_operator.Backup.Tools.{Tools}
use borgbase_operator.Backup.Workload.Pods.{Config}
use borgbase_operator.Controller.Env.{Env, Call, create_job}
use borgbase_operator.Controller.Exec.Only.{Only, Only-if, Only-if_cases, only_rules, Only-pure}
use borgbase_operator.Controller.Backups.Runs.{ObservedRun, active_run}
use borgbase_operator.Controller.Backups.Trigger.{
  annotation_trigger_at, is_handled, is_blocked, trigger_at, reconcile_trigger,
}

-- A request that creates no Job.
abbrev pub NoJob : Call → Type 0
NoJob (create_job _) = ⊥
NoJob _ = Unit

-- The trigger's time is not after the last one that was recorded.
abbrev Recorded : ScheduledBackup → ℕ → Type 0
Recorded sb at = (last : ℕ) × ((sb.status.last_trigger_time ≡ some last) × (at ≤ last))

-- The policy is Forbid, and the first active run is that of another Job than the trigger's.
abbrev Blocked : ScheduledBackup → ℕ → List ObservedRun → Type 0
Blocked sb at runs =
    (before : List ObservedRun) × ((r : ObservedRun) × ((after : List ObservedRun)
        × ((sb.spec.concurrency_policy ≡ policy_forbid)
            × ((runs ≡ before ++ (r ∷ after))
                × (All (λ o. o.active ≡ false) before
                    × ((r.active ≡ true)
                        × ((is_empty r.run.job_name ≡ false)
                            × (text_eq r.run.job_name (manual_job_name sb at) ≡ false))))))))

active_run-first :
    (before after : List ObservedRun) (r : ObservedRun)
    → All (λ o. o.active ≡ false) before
    → r.active ≡ true
    → active_run (before ++ (r ∷ after)) ≡ r.run.job_name
unfolding active_run
active_run-first [] after r idle active = rw (active) refl
active_run-first (o ∷ os) after r idle active =
    rw (idle.0) (active_run-first os after r idle.1 active)

Recorded-is_handled :
    (sb : ScheduledBackup) (at : ℕ)
    → Recorded sb at
    → is_handled sb.status.last_trigger_time at ≡ true
Recorded-is_handled sb at (last, (recorded, le)) = rw (recorded) (ap not (later last at le))
  where
    later : (m n : ℕ) → n ≤ m → ltb m n ≡ false
    later m n h = ground arith

Blocked-is_blocked :
    (sb : ScheduledBackup) (at : ℕ) (runs : List ObservedRun)
    → Blocked sb at runs
    → is_blocked sb at runs ≡ true
unfolding is_blocked
Blocked-is_blocked sb at runs
      (before, (r, (after, (forbid, (split, (idle, (active, (named, other)))))))) =
    rw (split, active_run-first before after r idle active, named, other, forbid) refl

module _ (env : Env) (tools : Tools) (cfg : Config) (sb : ScheduledBackup) (repo : Repository)
    (runs : List ObservedRun) (at : ℕ) (idle : Recorded sb at ⊎ Blocked sb at runs) where
  trigger_at-NoJob : Only NoJob (trigger_at env tools cfg sb repo runs at)
  unfolding trigger_at
  trigger_at-NoJob =
      Only-if_cases (is_handled sb.status.last_trigger_time at) _ _ (λ _. Only-pure tt)
        λ fresh.
          Only-if_cases (is_blocked sb at runs) _ _ (λ _. search only_rules depth 12)
            λ free. absurd (neither fresh free idle)
    where
      neither :
          is_handled sb.status.last_trigger_time at ≡ false
          → is_blocked sb at runs ≡ false
          → Recorded sb at ⊎ Blocked sb at runs
          → ⊥
      neither p q (inl h) = let e = Recorded-is_handled sb at h in cc
      neither p q (inr h) = let e = Blocked-is_blocked sb at runs h in cc

  -- A trigger whose time is at most the time of the last recorded one, or one that comes while the
  -- policy is Forbid and the first active run of the backup is that of a Job with another name (not
  -- empty) than the Job of the trigger, creates no Job, whatever the environment answers.
  pub reconcile_trigger-NoJob :
      tools.parse_rfc3339 (get_text sb.meta.annotations annotation_trigger_at) ≡ ok at
      → Only NoJob (reconcile_trigger env tools cfg sb repo runs)
  unfolding reconcile_trigger
  reconcile_trigger-NoJob parsed =
      rw (parsed, reconcile_trigger)
        (Only-if (is_empty (get_text sb.meta.annotations annotation_trigger_at)) _ _ (Only-pure tt)
          trigger_at-NoJob)
