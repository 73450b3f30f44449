-- ===== src/Cli/Doctor/Checks.antt =====
-- doctor.go: a report, and the checks that read nothing but the resources themselves.
use borgbase_operator.Base.{
  ℕ, ltb, ◌==◌, Text, codes, is_empty, text_eq, format_nat, join, get_text, Bool, true, false, not,
  ◌&&◌, Option, none, some, List, [], ◌∷◌, ◌++◌, any, keep, if◌then◌else◌,
}
use borgbase_operator.Errors.{Err, target_not_found, wrap}
use borgbase_operator.Api.Meta.{OwnerReference, Condition, ConditionStatus, condition_true}
use borgbase_operator.Api.Repository.{Repository}
use borgbase_operator.Api.ScheduledBackup.{
  ScheduledBackup, RunTrigger, trigger_scheduled, trigger_manual,
}
use borgbase_operator.Kube.Objects.{Secret, Job, JobCondition, CronJob}
use borgbase_operator.Controller.Exec.{on_option}
use borgbase_operator.Controller.Repository.Base.{key_restic_repository, key_restic_password}

pub data CheckLevel : Type 0 where
  level_ok level_info level_warn level_fail : CheckLevel

-- `func (l checkLevel) symbol`
abbrev pub level_symbol : CheckLevel → Text
level_symbol level_ok = codes "✔"
level_symbol level_info = codes "·"
level_symbol level_warn = codes "!"
level_symbol level_fail = codes "✖"

pub record Check : Type 0 where
  pub level : CheckLevel
  pub summary : Text
  pub detail : List Text

pub record Report : Type 0 where
  pub subject : Text
  pub checks : List Check

-- What `func (r *report) add` appends.
abbrev pub one_check : CheckLevel → Text → List Text → List Check
one_check level summary detail = record { level = level; summary = summary; detail = detail } ∷ []

abbrev pub is_failure : Check → Bool
is_failure c = elim c.level [ level_fail ↦ true | _ ↦ false ]

-- `func (r *report) failed`
abbrev pub report_failed : Report → Bool
report_failed r = any is_failure r.checks

-- `%q` of a name
abbrev pub quoted : Text → Text
quoted name = codes "\"" ++ (name ++ codes "\"")

-- `errors.Is(err, ErrTargetNotFound)`
abbrev pub is_target_not_found : Err → Bool
is_target_not_found target_not_found = true
is_target_not_found (wrap _ e _) = is_target_not_found e
is_target_not_found _ = false

abbrev pub is_true : ConditionStatus → Bool
is_true condition_true = true
is_true _ = false

-- `func checkGeneration`
unfoldable pub check_generation : ℕ → ℕ → List Check
check_generation generation observed =
    if not (observed == 0) && ltb observed generation
    then one_check level_warn (codes "the operator has not caught up with the latest spec change") (
        (codes "generation "
          ++ (format_nat generation ++ (codes ", observed " ++ (format_nat observed ++ codes "."))))
        ∷ [])
    else []

-- `func checkCondition`
unfoldable pub check_condition : Option Condition → Text → List Check
check_condition none noun =
    one_check level_warn (codes "the operator has not reconciled this " ++ (noun ++ codes " yet"))
      []
check_condition (some c) noun =
    if is_true c.status
    then one_check level_ok (noun ++ codes " is ready") []
    else one_check level_fail (noun ++ (codes " is not ready (" ++ (c.reason ++ codes ")")))
        (if is_empty c.message then [] else c.message ∷ [])

-- The keys that a Secret has no value for.
unfoldable pub missing_keys : Secret → List Text
missing_keys secret =
    keep (λ key. is_empty (get_text secret.entries key))
      (key_restic_repository ∷ (key_restic_password ∷ []))

unfoldable pub secret_check : Text → Secret → List Check
unfolding missing_keys
secret_check name secret = elim (missing_keys secret) [
  | [] ↦
      one_check level_ok (codes "credentials Secret " ++ (quoted name ++ codes " has both keys")) []
  | key ∷ keys ↦
      one_check level_fail
        (codes "Secret "
          ++ (quoted name
              ++ (codes " is missing [" ++ (join (key ∷ keys) (codes " ") ++ codes "]"))))
        []
]

-- The suspend states that differ.
unfoldable pub suspend_check : CronJob → ScheduledBackup → List Check
suspend_check cron sb =
    let suspended = on_option cron.spec.suspend (λ b. b) false in
    elim suspended [
      | true ↦ if sb.spec.suspend then [] else mismatch (codes "true") (codes "false")
      | false ↦ if sb.spec.suspend then mismatch (codes "false") (codes "true") else []
    ]
  where
    mismatch : Text → Text → List Check
    mismatch actual wanted =
        one_check level_warn (codes "CronJob suspend state does not match spec.suspend") (
          (codes "CronJob suspended="
            ++ (actual
                ++ (codes ", spec.suspend="
                    ++ (wanted ++ codes ". The operator has not reconciled yet."))))
          ∷ [])

-- Whom a CronJob belongs to.
abbrev pub controlled_by : Option OwnerReference → List Text
controlled_by none = []
controlled_by (some owner) =
    (codes "It is controlled by " ++ (owner.kind ++ (codes "/" ++ (owner.name ++ codes ".")))) ∷ []

-- The messages of a failed Job, the last one first, in front of how to read its logs.
unfoldable pub failure_detail : List JobCondition → List Text → List Text
failure_detail [] detail = detail
failure_detail (c ∷ cs) detail =
    let told = failure_detail cs (c.message ∷ detail) in
    let untold = failure_detail cs detail in
    if text_eq c.type (codes "Failed") && not (is_empty c.message) then told else untold

unfoldable pub init_job_check : Job → List Check
unfolding failure_detail
init_job_check job =
    if ltb 0 job.status.failed
    then one_check level_info
        (codes "init Job "
          ++ (quoted job.meta.name
              ++ (codes " has failed " ++ (format_nat job.status.failed ++ codes " time(s)"))))
        (failure_detail job.status.conditions
          ((codes "Run: kubectl logs job/" ++ job.meta.name) ∷ []))
    else if ltb 0 job.status.active
    then one_check level_info (codes "init Job " ++ (quoted job.meta.name ++ codes " is running"))
        []
    else []

-- `string(last.Trigger)`
abbrev pub trigger_text : RunTrigger → Text
trigger_text trigger_scheduled = codes "Scheduled"
trigger_text trigger_manual = codes "Manual"

abbrev pub is_conflict : Option Condition → Bool
is_conflict none = false
is_conflict (some c) = text_eq c.reason (codes "RepositoryConflict")

abbrev pub check_adopted : Repository → List Check
check_adopted repo =
    if is_empty repo.status.repository_id
    then one_check level_warn (codes "no BorgBase repository ID recorded yet") []
    else if repo.status.adopted
    then one_check level_info
        (codes "adopted existing BorgBase repository " ++ repo.status.repository_id) []
    else []
