-- ===== src/Cli/Runner.antt =====
-- internal/cli/runner/runner.go: one-off Jobs, created, waited for and deleted.
pub mod Reads
pub mod Cleanup
pub mod Preflight
pub mod Waits
pub mod Commands
use borgbase_operator.Base.{
  ℕ, zero, suc, ◌*◌, ltb, Text, codes, is_empty, text_eq, Bool, true, false, not, ◌||◌, ◌&&◌,
  Option, none, some, List, [], ◌∷◌, ◌++◌, if◌then◌else◌,
}
use borgbase_operator.Errors.{
  Err, no_cron_job, command_failed, missing_dependency, wrap, is_not_found, Result, ok, err,
}
use borgbase_operator.Api.Meta.{ConditionStatus, condition_false}
use borgbase_operator.Api.ScheduledBackup.{ScheduledBackup}
use borgbase_operator.Kube.Pod.{Volume, EnvFromSource, Container}
use borgbase_operator.Kube.Objects.{Job}
use borgbase_operator.Kube.Running.{Waiting, ContainerStatus, PodCondition, Pod}
use borgbase_operator.Backup.Workload.{cron_job_name}
use borgbase_operator.Controller.Env.{
  Env, get_cron_job, get_secret, get_claim, get_job, create_job, delete_job, list_pods, stream_logs,
  random_string,
}
use borgbase_operator.Controller.Exec.{
  Exec, pure, raise, lift, ask, call, attempt, ◌>>=◌, ◌>>◌, on_result, on_option,
}
use borgbase_operator.Controller.Helpers.{minute}
use borgbase_operator.Cli.Derive.{Options, derive_job}

abbrev pub pod_start_timeout : ℕ
pod_start_timeout = 3 * minute

abbrev pub job_name_label : Text
job_name_label = codes "batch.kubernetes.io/job-name"

-- A request about the Secret or the claim that a Job needs.
pub data Dependency : Type 0 where
  needs_secret needs_claim : Text → Dependency

-- What a volume needs: a switch, in which a Secret comes first.
abbrev pub volume_needs : Volume → List Dependency
volume_needs v = elim v.secret [
  | some name ↦ needs_secret name ∷ []
  | none ↦ elim v.claim [ some c ↦ needs_claim c.claim_name ∷ [] | none ↦ [] ]
]

abbrev pub source_needs : EnvFromSource → List Dependency
source_needs from = elim from.secret_ref [ none ↦ [] | some name ↦ needs_secret name ∷ [] ]

-- The reason and the message of a container that cannot start.
unfoldable pub waiting_reason : List ContainerStatus → Text
waiting_reason [] = []
waiting_reason (cs ∷ more) =
    let later = waiting_reason more in
    elim cs.waiting [
      | none ↦ later
      | some w ↦
          if text_eq w.reason (codes "ErrImagePull")
            || (text_eq w.reason (codes "ImagePullBackOff")
                || (text_eq w.reason (codes "CreateContainerConfigError")
                    || text_eq w.reason (codes "InvalidImageName")))
          then w.reason ++ (codes ": " ++ w.message)
          else later
    ]

abbrev is_status_false : ConditionStatus → Bool
is_status_false condition_false = true
is_status_false _ = false

unfoldable pub unschedulable_reason : List PodCondition → Text
unschedulable_reason [] = []
unschedulable_reason (c ∷ more) =
    let later = unschedulable_reason more in
    if text_eq c.type (codes "PodScheduled")
      && (is_status_false c.status && text_eq c.reason (codes "Unschedulable"))
    then codes "Unschedulable: " ++ c.message
    else later

-- `func blockedReason`. A reason that is found is never empty.
unfoldable pub blocked_reason : Pod → Text
blocked_reason pod =
    let waiting = waiting_reason pod.container_statuses in
    if is_empty waiting then unschedulable_reason pod.conditions else waiting

-- The pods of one answer: the first that has started, unless one before it is blocked.
unfoldable pub scan_pods : List Pod → Result (Option Pod)
scan_pods [] = ok none
scan_pods (pod ∷ pods) =
    let later = scan_pods pods in
    if not (text_eq pod.phase (codes "Pending"))
    then ok (some pod)
    else if is_empty (blocked_reason pod)
    then later
    else err (wrap [] command_failed (codes ": " ++ blocked_reason pod))

-- What the first pod waits for.
unfoldable pub first_waiting : Text → List ContainerStatus → Text
first_waiting detail [] = detail
first_waiting detail (cs ∷ more) =
    let later = first_waiting detail more in elim cs.waiting [ none ↦ later | some w ↦ w.reason ]

abbrev pending_text : List Pod → Text
pending_text [] = []
pending_text (pod ∷ _) =
    pod.meta.name ++ (codes " is " ++ first_waiting pod.phase pod.container_statuses)

-- The Job has ended.
abbrev pub has_ended : Job → Bool
has_ended job = ltb 0 job.status.succeeded || ltb 0 job.status.failed

abbrev pub missing_error : Text → Text → Text → Err
missing_error kind name namespace = wrap [] missing_dependency (
    codes ": "
    ++ (kind
        ++ (codes " \""
            ++ (name ++ (codes "\" does not exist in namespace \"" ++ (namespace ++ codes "\""))))))

-- A loop whose body may return an error.
unfoldable pub each : {O A : Type 0} → (A → Exec O (Unit {0})) → List A → Exec O (Unit {0})
each f [] = pure tt
each f (x ∷ xs) = f x >>= λ _. each f xs

module _ {O : Type 0} (env : Env) where
  -- `wait.PollUntilContextTimeout` that asks at most the given number of times.
  unfoldable pub poll : {A : Type 0} → ℕ → Exec O (Option A) → Exec O A
  poll zero condition = λ s. raise (env.deadline_error s.calls) s
  poll (suc n) condition = condition >>= λ done. on_option done pure (poll n condition)

  -- A poll with a timeout: the number of attempts is the environment's.
  unfoldable pub poll_for : {A : Type 0} → ℕ → Exec O (Option A) → Exec O A
  unfolding poll
  poll_for timeout condition s = poll (env.attempts s.calls timeout) condition s

  -- `func (r *Runner) Build`
  unfoldable pub build_job : ScheduledBackup → Options → Exec O Job
  build_job sb opts = do
    let name = cron_job_name sb
    reply ←
        ask (get_cron_job sb.meta.namespace name) (λ h. env.got_cron_job h sb.meta.namespace name)
    on_result reply
        (λ cron. lift (derive_job sb opts cron) >>= λ make.
          ask random_string env.random_text >>= λ random. pure (make random))
        λ e.
          if is_not_found e
          then raise (
              wrap [] no_cron_job (
                codes ": expected "
                ++ (name ++ (codes "; run `corg doctor " ++ (sb.meta.name ++ codes "`")))))
          else raise e

  -- `func (r *Runner) Cleanup`
  unfoldable pub cleanup : Job → Exec O (Unit {0})
  cleanup job = do
    reply ← ask (delete_job job) (λ h. env.deleted_job h job)
    on_result reply pure λ e.
        if is_not_found e
        then pure tt
        else raise (wrap (codes "deleting job/" ++ (job.meta.name ++ codes ": ")) e [])

  -- `func (r *Runner) mustExist`, on an answer.
  unfoldable pub existing : {A : Type 0} → Text → Text → Text → Result A → Exec O (Unit {0})
  existing kind name namespace reply =
      on_result reply (λ _. pure tt)
        λ e. if is_not_found e then raise (missing_error kind name namespace) else raise e

  unfoldable pub must_exist : Text → Dependency → Exec O (Unit {0})
  unfolding existing
  must_exist ns (needs_secret name) =
      ask (get_secret ns name) (λ h. env.got_secret h ns name) >>= existing (codes "Secret") name ns
  must_exist ns (needs_claim name) =
      ask (get_claim ns name) (λ h. env.got_claim h ns name)
      >>= existing (codes "PersistentVolumeClaim") name ns

  -- `func (r *Runner) Preflight`
  unfoldable pub preflight : Job → Exec O (Unit {0})
  preflight job = do
    let check = each (must_exist job.meta.namespace)
    each (λ v. check (volume_needs v)) job.spec.template.pod.volumes
    each (λ c. each (λ from. check (source_needs from)) c.env_from) job.spec.template.pod.containers

  pods_of : Job → Exec O (List Pod)
  pods_of job =
      call (list_pods job.meta.namespace job_name_label job.meta.name)
        (λ h. env.listed_pods h job.meta.namespace job_name_label job.meta.name)

  -- `func (r *Runner) pendingPod`
  unfoldable pub pending_pod : Job → Exec O Text
  unfolding pods_of
  pending_pod job = attempt (pods_of job) >>= λ reply.
      on_result reply (λ pods. pure (pending_text pods)) λ _. pure []

  -- `func (r *Runner) WaitForPod`. It ends without an error only with a pod, so that `ErrNoPod` is
  -- never returned.
  unfoldable pub wait_for_pod : Job → ℕ → Exec O Pod
  unfolding pods_of pending_pod poll_for
  wait_for_pod job timeout = do
    let limit = if ltb pod_start_timeout timeout then pod_start_timeout else timeout
    reply ← attempt (poll_for limit (pods_of job >>= λ pods. lift (scan_pods pods)))
    on_result reply pure λ e. do
      pending ← pending_pod job
      if is_empty pending
          then raise e
          else raise
              (wrap [] e (codes ": pod " ++ (pending ++ codes "; describe it for the reason")))

  -- The condition of a wait: the Job, once it has ended.
  unfoldable pub ended_at : Text → Text → Exec O (Option Job)
  ended_at ns name = do
    reply ← ask (get_job ns name) (λ h. env.got_job h ns name)
    on_result reply (λ seen. pure (if has_ended seen then some seen else none))
        λ e. if is_not_found e then pure none else raise e

  abbrev pub ended_job : Job → Exec O (Option Job)
  ended_job job = ended_at job.meta.namespace job.meta.name

  -- `func (r *Runner) Wait`
  unfoldable pub wait_for_end : Job → ℕ → Exec O (Unit {0})
  unfolding ended_at poll_for
  wait_for_end job timeout = do
    last ← poll_for timeout (ended_job job)
    if ltb 0 last.status.failed
        then raise (wrap [] command_failed (codes ": job/" ++ job.meta.name))
        else pure tt

  -- The deferred `Cleanup`, whose error is not looked at.
  unfoldable pub with_cleanup : {A : Type 0} → Bool → Job → Exec O A → Exec O A
  unfolding cleanup
  with_cleanup kept job body = do
    reply ← attempt body
    if kept then pure tt else (attempt (cleanup job) >>= λ _. pure tt)
    lift reply

  -- Build, check and create a Job, and go on with it.
  unfoldable pub started_job :
      {A : Type 0} → ScheduledBackup → Options → (Job → Exec O A) → Exec O A
  unfolding build_job preflight with_cleanup
  started_job sb opts next = do
    job ← build_job sb opts
    preflight job
    reply ← ask (create_job job) (λ h. env.created_job h job)
    on_result reply (λ _. with_cleanup opts.keep_job job (next job))
        λ e. raise (wrap (codes "creating job/" ++ (job.meta.name ++ codes ": ")) e [])

  -- `func (r *Runner) Run`
  unfoldable pub run : ScheduledBackup → Options → ℕ → Exec O (Unit {0})
  unfolding started_job wait_for_pod wait_for_end
  run sb opts timeout = started_job sb opts λ job. do
    pod ← wait_for_pod job timeout
    call (stream_logs pod.meta.namespace pod.meta.name)
        (λ h. env.streamed_logs h pod.meta.namespace pod.meta.name)
    wait_for_end job timeout

  -- `func (r *Runner) Attach`
  unfoldable pub attach :
      ScheduledBackup → Options → ℕ → (Pod → Exec O (Unit {0})) → Exec O (Unit {0})
  unfolding started_job wait_for_pod
  attach sb opts timeout use_pod =
      started_job sb (record opts { tty = true })
        λ job. do pod ← wait_for_pod job timeout; use_pod pod
