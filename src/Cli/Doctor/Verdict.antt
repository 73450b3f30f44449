-- ===== src/Cli/Doctor/Verdict.antt =====
-- doctor.go: what holds of the resources when the command reports no failure.
use borgbase_operator.Base.{
  ℕ, Text, is_empty, true, false, not, List, [], ◌∷◌, map, any, ◌≡◌, refl, arith, ◌⊎◌, inl, inr,
  All, All-append, All-map,
}
use borgbase_operator.Errors.{ok}
use borgbase_operator.Api.Repository.{Repository}
use borgbase_operator.Api.ScheduledBackup.{ScheduledBackup}
use borgbase_operator.Controller.Env.{History, Env}
use borgbase_operator.Controller.Exec.{St}
use borgbase_operator.Controller.Exec.Returns.{
  Returns, Returns-pure, Returns-raise, Returns-call, Returns-if, Returns-bind,
  Returns-bind-Returns, Returns-weaken,
}
use borgbase_operator.Cli.Console.{Console}
use borgbase_operator.Cli.Resolve.{Target, repository_target, backup_target, resolve}
use borgbase_operator.Cli.Doctor.Checks.{Report, report_failed}
use borgbase_operator.Cli.Doctor.Soundness.{any-Clean, RepositorySound, check_repository-Sound}
use borgbase_operator.Cli.Doctor.{
  check_target, check_targets, collect_reports, print_reports, run_doctor,
}
use borgbase_operator.Cli.Doctor.Backups.{BackupSound, check_backup-Sound}

module _ (env : Env) (human_duration : ℕ → ℕ → Text) where
  abbrev pub TargetSound : Target → Type 0
  TargetSound (repository_target repo) = RepositorySound env repo
  TargetSound (backup_target sb) = BackupSound env sb

  check_target-Sound :
      (t : Target)
      → Returns (λ r. report_failed r ≡ false → TargetSound t) (check_target env human_duration t)
  unfolding check_target
  check_target-Sound (repository_target repo) =
      Returns-bind-Returns _ _ _ (check_repository-Sound env repo)
        λ checks sound. Returns-pure _ (λ e. sound (any-Clean checks e))
  check_target-Sound (backup_target sb) =
      Returns-bind-Returns _ _ _ (check_backup-Sound env human_duration sb)
        λ checks sound. Returns-pure _ (λ e. sound (any-Clean checks e))

  check_targets-Sound :
      (ts : List Target)
      → Returns
          (λ rs. any report_failed rs ≡ false → All TargetSound ts)
          (check_targets env human_duration ts)
  unfolding check_targets
  check_targets-Sound [] = Returns-pure _ (λ _. tt)
  check_targets-Sound (t ∷ ts) = Returns-bind-Returns _ _ _ (check_target-Sound t) λ report sound.
      Returns-bind-Returns _ _ _ (check_targets-Sound ts) λ reports all_sound.
        Returns-pure _ (λ e. (sound (ground (arith, e)), all_sound (ground (arith, e))))

  -- The target that the argument names, or without one every resource of the namespace.
  abbrev pub Diagnosed : Text → Text → Type 0
  Diagnosed ns arg =
      ((is_empty arg ≡ false)
        × ((s : St Console) × ((t : Target) × (((resolve env ns arg s).0 ≡ ok t) × TargetSound t))))
      ⊎ ((is_empty arg ≡ true)
          × ((repos : List Repository) × ((sbs : List ScheduledBackup) × (((h : History)
                    × (env.listed_repositories_in h ns ≡ ok repos))
                  × (((h : History) × (env.listed_backups h ns ≡ ok sbs))
                      × (All (RepositorySound env) repos × All (BackupSound env) sbs))))))

  resolved :
      (ns arg : Text)
      → Returns {O = Console}
          (λ t. (s : St Console) × ((resolve env ns arg s).0 ≡ ok t))
          (resolve env ns arg)
  resolved ns arg = record { at = λ s t e. (s, e) }

  collect_reports-Sound :
      (ns arg : Text)
      → Returns
          (λ rs. any report_failed rs ≡ false → Diagnosed ns arg)
          (collect_reports env human_duration ns arg)
  unfolding collect_reports
  collect_reports-Sound ns arg =
      Returns-if (not (is_empty arg)) _ _
        (λ named. Returns-bind-Returns _ _ _ (resolved ns arg) λ t from.
          Returns-weaken (check_targets-Sound (t ∷ []))
            (λ rs sound e. inl (ground (arith, named), (from.0, (t, (from.1, (sound e).0))))))
        λ bare. Returns-bind-Returns _ _ _ (Returns-call _ _ (λ h repos q. (h, q))) λ repos from.
          Returns-bind-Returns _ _ _ (Returns-call _ _ (λ h sbs q. (h, q))) λ sbs from'.
            Returns-weaken (check_targets-Sound _) (λ rs sound e.
              let (firsts, lasts) =
                All-append (TargetSound) (map repository_target repos) _ (sound e) in
              inr (
                ground (arith, bare),
                (
                  repos,
                  (
                    sbs,
                    (
                      from,
                      (
                        from',
                        (All-map TargetSound _ repos firsts, All-map TargetSound _ sbs lasts),
                      ),
                    ),
                  ),
                ),
              ))

  print_reports-passed :
      (ns : Text) (rs : List Report)
      → Returns (λ _. any report_failed rs ≡ false) (print_reports env human_duration ns rs)
  unfolding print_reports
  print_reports-passed ns [] = Returns-weaken (record { at = λ s u e. tt }) (λ _ _. refl)
  print_reports-passed ns (r ∷ rs) =
      Returns-bind _ _
        λ _. Returns-bind _ _ λ _. Returns-if _ _ _ (λ _. Returns-raise _) (λ e. Returns-pure _ e)

-- If `doctor` reports no failure, then what it looked at is in order: the target that its argument
-- resolves to, or without one every Repository and backup of the namespace. A backup's CronJob is
-- there and controlled by the backup, its Repository is there, initialized and with a Secret that
-- has both keys, its Ready condition is not false, and a run of it is active or the newest recorded
-- one did not fail; where none is recorded, it was never scheduled or its last success is not before
-- the last schedule. A Repository is suspended, or its Ready condition is not false and, unless that
-- says it is in conflict, it is initialized and has such a Secret.
pub run_doctor-Diagnosed :
    (env : Env) (human_duration : ℕ → ℕ → Text) (ns arg : Text) (s : St Console)
    → (run_doctor env human_duration ns arg s).0 ≡ ok tt
    → Diagnosed env human_duration ns arg
unfolding run_doctor
run_doctor-Diagnosed env human_duration ns arg s h =
    (Returns-bind-Returns _ _ _ (collect_reports-Sound env human_duration ns arg) λ reports sound.
        Returns-bind _ _ λ _.
          Returns-weaken (print_reports-passed env human_duration ns reports)
            (λ _ passed. sound passed)).at
      s tt h
