-- ===== src/Cli/Doctor/Cluster.antt =====
-- doctor.go: the checks that read the cluster. Each returns what it adds to the report.
use borgbase_operator.Base.{
  Text, codes, text_eq, false, not, Option, none, some, List, [], ◌∷◌, ◌++◌, if◌then◌else◌,
}
use borgbase_operator.Errors.{is_not_found, error_text}
use borgbase_operator.Api.Repository.{Repository, secret_name_of, condition_ready}
use borgbase_operator.Api.ScheduledBackup.{ScheduledBackup}
use borgbase_operator.Kube.Objects.{Job}
use borgbase_operator.Backup.Workload.{cron_job_name}
use borgbase_operator.Backup.Workload.Pods.{cache_name}
use borgbase_operator.Controller.Env.{Env, get_secret, get_cron_job, get_claim, list_jobs}
use borgbase_operator.Controller.Exec.{pure, ask, attempt, ◌>>=◌, on_result, on_option}
use borgbase_operator.Controller.Backups.Cache.{is_owner}
use borgbase_operator.Cli.Console.{Cmd, find_condition}
use borgbase_operator.Cli.Resolve.{repository_for}
use borgbase_operator.Cli.Doctor.Checks.{
  level_ok, level_info, level_warn, level_fail, is_conflict, check_adopted, Check, one_check,
  quoted, is_target_not_found, is_true, check_generation, check_condition, secret_check,
  suspend_check, controlled_by, init_job_check,
}

module _ (env : Env) where
  -- `func checkCredentialsSecret`
  unfoldable pub check_credentials : Repository → Cmd (List Check)
  unfolding secret_check
  check_credentials repo = do
    let name = secret_name_of repo
    reply ←
        ask (get_secret repo.meta.namespace name) (λ h. env.got_secret h repo.meta.namespace name)
    on_result reply (λ secret. pure (secret_check name secret))
        λ e.
          if is_not_found e
          then pure (
              one_check level_fail
                (codes "credentials Secret " ++ (quoted name ++ codes " does not exist"))
                (codes
                    "The operator writes it on reconcile; if it is missing the repository has not reconciled."
                  ∷ []))
          else pure (
              one_check level_fail (codes "could not read Secret " ++ quoted name)
                (error_text e ∷ []))

  -- The first Job of a list that the Repository controls.
  unfoldable pub controlled_job : Text → List Job → Option Job
  controlled_job uid [] = none
  controlled_job uid (job ∷ jobs) =
      let later = controlled_job uid jobs in
      if is_owner (env.get_controller_of job.meta) uid then some job else later

  -- `func describeInitJobs`
  unfoldable pub describe_init_jobs : Repository → Cmd (List Check)
  unfolding controlled_job init_job_check
  describe_init_jobs repo = do
    reply ← ask (list_jobs repo.meta.namespace) (λ h. env.listed_jobs h repo.meta.namespace)
    on_result reply
        (λ jobs.
          on_option (controlled_job repo.meta.uid jobs) (λ job. pure (init_job_check job))
            (pure (one_check level_info (codes "no init Job exists yet") [])))
        (λ _. pure [])

  unfoldable pub check_initialized : Repository → Cmd (List Check)
  unfolding describe_init_jobs
  check_initialized repo =
      if repo.status.initialized
      then pure (one_check level_ok (codes "restic repository is initialized") [])
      else do
        jobs ← describe_init_jobs repo
        pure (one_check level_fail (codes "restic repository is not initialized") [] ++ jobs)

  -- `func checkRepository`
  unfoldable pub check_repository : Repository → Cmd (List Check)
  unfolding check_initialized check_credentials
  check_repository repo =
      if repo.spec.suspend
      then pure (
          one_check level_warn (codes "reconciliation is suspended") (
            codes "The operator will not touch this repository until spec.suspend is cleared."
            ∷ []))
      else do
        let ready = find_condition repo.status.conditions condition_ready
        let first =
            check_generation repo.meta.generation repo.status.observed_generation
            ++ check_condition ready (codes "repository")
        if is_conflict ready then pure first else do
          initialized ← check_initialized repo
          secret ← check_credentials repo
          pure (first ++ (initialized ++ (check_adopted repo ++ secret)))

  -- `func checkReferencedRepository`
  unfoldable pub check_referenced : Repository → Cmd (List Check)
  unfolding check_credentials
  check_referenced repo = do
    let ready = find_condition repo.status.conditions condition_ready
    secret ← check_credentials repo
    let named = codes "repository " ++ quoted repo.meta.name
    let state =
        if not repo.status.initialized
        then one_check level_fail (named ++ codes " is not initialized") (
            (codes "Backups cannot run until `restic init` succeeds. Run: corg doctor repo/"
              ++ repo.meta.name)
            ∷ [])
        else if on_option ready (λ c. is_true c.status) false
        then one_check level_ok (named ++ codes " is ready and initialized") []
        else one_check level_warn (named ++ codes " is not ready")
            ((codes "Run: corg doctor repo/" ++ repo.meta.name) ∷ [])
    pure (state ++ secret)

  -- The switch of `checkScheduledBackup` on its Repository.
  unfoldable pub check_reference : ScheduledBackup → Cmd (List Check)
  unfolding check_referenced
  check_reference sb = do
    reply ← attempt (repository_for env sb)
    on_result reply check_referenced λ e.
        if is_target_not_found e
        then pure (
            one_check level_fail
              (codes "repository " ++ (quoted sb.spec.repository_ref ++ codes " does not exist"))
              (codes "spec.repositoryRef must name a Repository in this namespace." ∷ []))
        else pure (
            one_check level_fail (codes "could not read the referenced repository")
              (error_text e ∷ []))

  -- `func checkCronJob`
  unfoldable pub check_cron_job : ScheduledBackup → Cmd (List Check)
  unfolding suspend_check
  check_cron_job sb = do
    let name = cron_job_name sb
    reply ←
        ask (get_cron_job sb.meta.namespace name) (λ h. env.got_cron_job h sb.meta.namespace name)
    on_result reply
        (λ cron. pure (
          if not (is_owner (env.get_controller_of cron.meta) sb.meta.uid)
          then one_check level_fail
              (codes "CronJob "
                ++ (quoted name ++ codes " is not controlled by this ScheduledBackup"))
              (codes "The operator will not adopt a CronJob it does not own."
                ∷ (controlled_by (env.get_controller_of cron.meta)
                    ++ ((codes "Remove whatever created it, then delete cronjob/"
                          ++ (name ++ codes "."))
                        ∷ [])))
          else one_check level_ok
              (codes "CronJob " ++ (quoted name ++ codes " is owned by this ScheduledBackup")) []
            ++ suspend_check cron sb))
        λ e.
          if is_not_found e
          then pure (
              one_check level_fail (codes "CronJob " ++ (quoted name ++ codes " does not exist"))
                (codes "The operator creates it once the backup is ready." ∷ []))
          else pure (
              one_check level_fail (codes "could not read CronJob " ++ quoted name)
                (error_text e ∷ []))

  -- `func checkCachePVC`
  unfoldable pub check_cache : ScheduledBackup → Cmd (List Check)
  check_cache sb =
      if on_option sb.spec.cache (λ c. on_option c.enabled not false) false then pure [] else do
        let name = cache_name sb
        reply ← ask (get_claim sb.meta.namespace name) (λ h. env.got_claim h sb.meta.namespace name)
        on_result reply
            (λ claim. pure (
              if not (text_eq claim.phase (codes "Bound"))
              then one_check level_warn
                  (codes "cache PVC "
                    ++ (quoted name ++ (codes " is " ++ (claim.phase ++ codes ", not Bound"))))
                  (codes "A pending claim will block the backup pod from starting." ∷ [])
              else one_check level_ok (codes "cache PVC " ++ (quoted name ++ codes " is bound"))
                  []))
            λ e.
              if is_not_found e
              then pure (
                  one_check level_warn
                    (codes "cache PVC " ++ (quoted name ++ codes " does not exist"))
                    (codes "Backups still run, but restic re-reads the repository index every time."
                      ∷ []))
              else pure (
                  one_check level_warn (codes "could not read PVC " ++ quoted name)
                    (error_text e ∷ []))
