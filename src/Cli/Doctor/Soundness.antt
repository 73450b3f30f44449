-- ===== src/Cli/Doctor/Soundness.antt =====
-- doctor.go: what holds of a backup with which `doctor` finds nothing wrong.
use borgbase_operator.Base.{
  Text, codes, is_empty, get_text, Bool, true, false, not, Option, none, some, List, [], ◌∷◌, ◌++◌,
  any, ◌≡◌, refl, arith, ◌⊎◌, inl, inr, All, All-append, if◌then◌else◌,
}
use borgbase_operator.Errors.{is_not_found, ok}
use borgbase_operator.Api.Meta.{Condition}
use borgbase_operator.Api.Repository.{Repository, secret_name_of, condition_ready}
use borgbase_operator.Api.ScheduledBackup.{ScheduledBackup}
use borgbase_operator.Kube.Objects.{Secret, CronJob}
use borgbase_operator.Backup.Workload.{cron_job_name}
use borgbase_operator.Controller.Env.{History, Env}
use borgbase_operator.Controller.Exec.Returns.{
  Returns, Returns-pure, Returns-if, Returns-bind, Returns-bind-ask, Returns-bind-Returns,
  Returns-on_result_cases,
}
use borgbase_operator.Controller.Repository.Base.{key_restic_repository, key_restic_password}
use borgbase_operator.Controller.Backups.Cache.{is_owner}
use borgbase_operator.Cli.Console.{find_condition}
use borgbase_operator.Cli.Doctor.Checks.{
  Check, is_failure, is_true, check_generation, check_condition, missing_keys, secret_check,
  is_conflict, check_adopted,
}
use borgbase_operator.Cli.Doctor.Cluster.{
  check_initialized, check_credentials, check_repository, check_cron_job,
}

-- No check of a list fails.
abbrev pub Clean : List Check → Type 0
Clean cs = All (λ c. is_failure c ≡ false) cs

pub any-Clean : (cs : List Check) → any is_failure cs ≡ false → Clean cs
any-Clean [] h = tt
any-Clean (c ∷ cs) h =
    let first : is_failure c ≡ false = ground (arith, h) in
    let rest : any is_failure cs ≡ false = ground (arith, h) in (first, any-Clean cs rest)

-- A list that fails is not the one that was chosen.
pub Clean-then :
    (b : Bool) (xs ys : List Check) → Clean (if b then xs else ys) → ¬ Clean ys → b ≡ true
Clean-then true xs ys h bad = refl
Clean-then false xs ys h bad = absurd (bad h)

pub Clean-else :
    (b : Bool) (xs ys : List Check)
    → Clean (if b then xs else ys)
    → ¬ Clean xs
    → (b ≡ false) × Clean ys
Clean-else true xs ys h bad = absurd (bad h)
Clean-else false xs ys h bad = (refl, h)

pub Clean-append : (xs ys : List Check) → Clean (xs ++ ys) → Clean xs × Clean ys
Clean-append = All-append _

-- The condition is true, if there is one.
abbrev pub NotFalse : Option Condition → Type 0
NotFalse none = Unit
NotFalse (some c) = is_true c.status ≡ true

pub check_condition-Clean :
    (c : Option Condition) (noun : Text) → Clean (check_condition c noun) → NotFalse c
unfolding check_condition
check_condition-Clean none noun h = tt
check_condition-Clean (some c) noun h = Clean-then (is_true c.status) _ _ h λ fails. cc

secret_check-Clean :
    (name : Text) (secret : Secret)
    → Clean (secret_check name secret)
    → (is_empty (get_text secret.entries key_restic_repository) ≡ false)
      × (is_empty (get_text secret.entries key_restic_password) ≡ false)
unfolding secret_check missing_keys
secret_check-Clean name secret h = ground (arith, h)

module _ (env : Env) where
  -- The cluster returned a Secret of the Repository with a value for both keys.
  abbrev pub SecretUsable : Repository → Type 0
  SecretUsable repo =
      (h : History) × ((secret : Secret) × ((env.got_secret h repo.meta.namespace
              (secret_name_of repo)
            ≡ ok secret)
          × ((is_empty (get_text secret.entries key_restic_repository) ≡ false)
              × (is_empty (get_text secret.entries key_restic_password) ≡ false))))

  pub check_credentials-Sound :
      (repo : Repository)
      → Returns (λ cs. Clean cs → SecretUsable repo) (check_credentials env repo)
  unfolding check_credentials
  check_credentials-Sound repo =
      let name = secret_name_of repo in
      Returns-bind-ask _ _ _ λ h.
        Returns-on_result_cases _ _ _
          (λ secret q.
            Returns-pure _ λ clean. (h, (secret, (q, secret_check-Clean name secret clean))))
          λ e.
            Returns-if (is_not_found e) _ _ (λ _. Returns-pure _ λ clean. cc)
              (λ _. Returns-pure _ λ clean. cc)

  -- The cluster returned the CronJob of the backup, which the backup controls.
  abbrev pub CronJobOwned : ScheduledBackup → Type 0
  CronJobOwned sb =
      (h : History) × ((cron : CronJob) × ((env.got_cron_job h sb.meta.namespace (cron_job_name sb)
            ≡ ok cron)
          × (is_owner (env.get_controller_of cron.meta) sb.meta.uid ≡ true)))

  pub check_cron_job-Sound :
      (sb : ScheduledBackup) → Returns (λ cs. Clean cs → CronJobOwned sb) (check_cron_job env sb)
  unfolding check_cron_job
  check_cron_job-Sound sb = Returns-bind-ask _ _ _ λ h.
      Returns-on_result_cases _ _ _
        (λ cron q. Returns-pure _ λ clean.
          let (mine, _) =
            Clean-else (not (is_owner (env.get_controller_of cron.meta) sb.meta.uid)) _ _ clean
              (λ bad. cc) in
          (h, (cron, (q, ground (arith, mine)))))
        λ e.
          Returns-if (is_not_found e) _ _ (λ _. Returns-pure _ λ clean. cc)
            (λ _. Returns-pure _ λ clean. cc)

  -- Why a Repository passes.
  abbrev pub RepositorySound : Repository → Type 0
  RepositorySound repo =
      let ready = find_condition repo.status.conditions condition_ready in
      (repo.spec.suspend ≡ true)
      ⊎ (NotFalse ready
          × ((is_conflict ready ≡ true) ⊎ ((repo.status.initialized ≡ true) × SecretUsable repo)))

  check_initialized-Sound :
      (repo : Repository)
      → Returns (λ cs. Clean cs → repo.status.initialized ≡ true) (check_initialized env repo)
  unfolding check_initialized
  check_initialized-Sound repo =
      Returns-if repo.status.initialized _ _ (λ e. Returns-pure _ (λ _. e))
        λ _. Returns-bind _ _ (λ jobs. Returns-pure _ λ clean. cc)

  pub check_repository-Sound :
      (repo : Repository)
      → Returns (λ cs. Clean cs → RepositorySound repo) (check_repository env repo)
  unfolding check_repository
  check_repository-Sound repo =
      let ready = find_condition repo.status.conditions condition_ready in
      let generation = check_generation repo.meta.generation repo.status.observed_generation in
      let condition = check_condition ready (codes "repository") in
      let told = λ (clean : Clean (generation ++ condition)).
        check_condition-Clean ready (codes "repository")
          (Clean-append generation condition clean).1 in
      Returns-if repo.spec.suspend _ _ (λ e. Returns-pure _ (λ _. inl e))
        λ _.
          Returns-if (is_conflict ready) _ _ (λ e. Returns-pure _ λ clean. inr (told clean, inl e))
            λ _.
              Returns-bind-Returns _ _ _ (check_initialized-Sound repo)
                λ initialized if_initialized.
                  Returns-bind-Returns _ _ _ (check_credentials-Sound repo) λ secret if_usable.
                    Returns-pure _ λ clean.
                      let (first, rest) = Clean-append (generation ++ condition) _ clean in
                      let (second, rest') = Clean-append initialized _ rest in
                      let (_, last) = Clean-append (check_adopted repo) secret rest' in
                      inr (told first, inr (if_initialized second, if_usable last))
