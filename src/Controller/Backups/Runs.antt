-- ===== src/Controller/Backups/Runs.antt =====
-- The runs of a backup: those observed in the cluster, and the history in the status.
pub mod Order
use borgbase_operator.Base.{
  ℕ, zero, suc, ltb, Text, codes, is_empty, text_eq, Dict, lookup, insert, get_text, length, take,
  map, Bool, true, false, not, ◌&&◌, ◌||◌, Option, none, some, List, [], ◌∷◌, ◌++◌, if◌then◌else◌,
}
use borgbase_operator.Errors.{Result}
use borgbase_operator.Api.Meta.{OwnerReference}
use borgbase_operator.Api.ScheduledBackup.{
  ScheduledBackup, BackupRun, RunResult, run_running, run_succeeded, run_failed, RunTrigger,
  trigger_scheduled, trigger_manual,
}
use borgbase_operator.Kube.Objects.{Job}
use borgbase_operator.Backup.Workload.{label_trigger, trigger_manual_value}
use borgbase_operator.Controller.Env.{Env, list_jobs}
use borgbase_operator.Controller.Exec.{St, Exec, pure, call, ◌>>=◌}

abbrev pub history_limit : ℕ
history_limit = 10

pub record ObservedRun : Type 0 where
  pub run : BackupRun
  pub active : Bool

-- `func activeRun`
unfoldable pub active_run : List ObservedRun → Text
active_run [] = []
active_run (o ∷ os) = let rest = active_run os in if o.active then o.run.job_name else rest

-- `compareRunTimes(a, b) < 0`
unfoldable pub before_time : Option ℕ → Option ℕ → Bool
before_time none none = false
before_time none (some _) = true
before_time (some _) none = false
before_time (some a) (some b) = ltb a b

-- `slices.SortStableFunc`, by a key, the latest first.
module _ {A : Type 0} (time : A → Option ℕ) where
  unfoldable pub insert_run : A → List A → List A
  insert_run x [] = x ∷ []
  insert_run x (y ∷ ys) =
      let rest = insert_run x ys in if before_time (time x) (time y) then y ∷ rest else x ∷ (y ∷ ys)

  unfoldable pub sort_runs : List A → List A
  sort_runs [] = []
  sort_runs (x ∷ xs) = insert_run x (sort_runs xs)

abbrev start_or : Option ℕ → ℕ → Option ℕ
start_or none created = some created
start_or (some t) created = some t

-- `func runFromJob`
unfoldable pub run_from_job : Job → ObservedRun
run_from_job job =
    let with_result : RunResult → BackupRun = λ result. record {
      job_name = job.meta.name;
      trigger =
          if text_eq (get_text job.meta.labels label_trigger) trigger_manual_value
          then trigger_manual
          else trigger_scheduled;
      result = result;
      start_time = start_or job.status.start_time job.meta.creation_timestamp;
      completion_time = job.status.completion_time;
    } in
    if ltb 0 job.status.succeeded
    then record { run = with_result run_succeeded; active = false }
    else if ltb 0 job.status.failed
    then record { run = with_result run_failed; active = false }
    else record { run = with_result run_running; active = true }

-- The owner is the backup, or its CronJob if that one's UID is known.
unfoldable pub is_ours : Option OwnerReference → Text → Text → Bool
is_ours none uid cron_job_uid = false
is_ours (some owner) uid cron_job_uid =
    text_eq owner.uid uid || (not (is_empty cron_job_uid) && text_eq owner.uid cron_job_uid)

abbrev field_or : Option ℕ → Option ℕ → Option ℕ
field_or none recorded = recorded
field_or (some t) recorded = some t

-- `func mostComplete`
unfoldable pub most_complete : BackupRun → BackupRun → BackupRun
most_complete recorded live = record live {
  start_time = field_or live.start_time recorded.start_time;
  completion_time = field_or live.completion_time recorded.completion_time;
}

-- `merged[i] = f(merged[i])`
abbrev update_at : ℕ → (BackupRun → BackupRun) → List BackupRun → List BackupRun
update_at i f [] = []
update_at zero f (x ∷ xs) = f x ∷ xs
update_at (suc i) f (x ∷ xs) = x ∷ update_at i f xs

-- The first loop of `mergeHistory`.
unfoldable pub merge_observed : List ObservedRun → List BackupRun → Dict ℕ → List BackupRun × Dict ℕ
merge_observed [] merged seen = (merged, seen)
merge_observed (o ∷ os) merged seen =
    merge_observed os (merged ++ (o.run ∷ [])) (insert o.run.job_name (length merged) seen)

-- The second loop.
unfoldable pub merge_existing : List BackupRun → List BackupRun → Dict ℕ → List BackupRun
merge_existing [] merged seen = merged
merge_existing (run ∷ runs) merged seen = elim (lookup run.job_name seen) [
  | some i ↦ merge_existing runs (update_at i (most_complete run) merged) seen
  | none ↦ merge_existing runs (merged ++ (run ∷ [])) (insert run.job_name (length merged) seen)
]

-- `func mergeHistory`
unfoldable pub merge_history : List BackupRun → List ObservedRun → List BackupRun
unfolding merge_observed merge_existing
merge_history existing observed =
    let (merged, seen) = merge_observed observed [] [] in
    take history_limit (sort_runs (λ run. run.start_time) (merge_existing existing merged seen))

module _ (env : Env) where
  -- The runs of the Jobs that are the backup's.
  unfoldable pub runs_of : List Job → Text → Text → List ObservedRun
  unfolding run_from_job is_ours
  runs_of [] uid cron_job_uid = []
  runs_of (job ∷ jobs) uid cron_job_uid =
      let rest = runs_of jobs uid cron_job_uid in
      if is_ours (env.get_controller_of job.meta) uid cron_job_uid
      then run_from_job job ∷ rest
      else rest

  -- `func (r *ScheduledBackupReconciler) observedRuns`
  unfoldable pub observed_runs : ScheduledBackup → Text → Exec ScheduledBackup (List ObservedRun)
  observed_runs sb cron_job_uid = do
    jobs ← call (list_jobs sb.meta.namespace) (λ h. env.listed_jobs h sb.meta.namespace)
    pure (sort_runs (λ o. o.run.start_time) (runs_of jobs sb.meta.uid cron_job_uid))
