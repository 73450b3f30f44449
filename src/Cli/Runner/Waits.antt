-- ===== src/Cli/Runner/Waits.antt =====
-- runner.go: the waits for a pod and for the end of a Job.
use borgbase_operator.Base.{
  ap, ◌∙◌, ◌⊎◌, inl, inr, codes, ◌++◌, ℕ, zero, suc, ◌<◌, ltb, Bool, true, false, Option, none,
  some, [], ◌∷◌, ◌≡◌, refl, arith, if◌then◌else◌,
}
use borgbase_operator.Errors.{ok-inj, Err, command_failed, wrap, Result, ok, err, is_not_found}
use borgbase_operator.Kube.Objects.{Job}
use borgbase_operator.Controller.Env.{History, Env, get_job}
use borgbase_operator.Controller.Exec.{St, Exec, raise, pure, on_option, on_result, ◌>>=◌}
use borgbase_operator.Cli.Runner.Preflight.{bind-returns}
use borgbase_operator.Cli.Runner.{has_ended, poll, poll_for, ended_at, ended_job, wait_for_end}

-- What `ended_job` makes of an answer.
abbrev judged : {O : Type 0} → Result Job → Exec O (Option Job)
judged reply =
    on_result reply (λ seen. pure (if has_ended seen then some seen else none))
      λ e. if is_not_found e then pure none else raise e

-- The request of `Wait`, made so many times.
abbrev pub asked : Job → ℕ → History → History
asked job zero h = h
asked job (suc n) h = asked job n (get_job job.meta.namespace job.meta.name ∷ h)

-- The answer does not end the wait: the Job is not there, or it runs.
abbrev pub Unfinished : Result Job → Type 0
Unfinished (ok seen) = has_ended seen ≡ false
Unfinished (err e) = is_not_found e ≡ true

judged-Unfinished :
    {O : Type 0} (r : Result Job) (t : St O) → Unfinished r → judged r t ≡ (ok none, t)
unfolding pure
judged-Unfinished (ok seen) t h = rw h refl
judged-Unfinished (err e) t h = rw h refl

abbrev pub answer : Env → Job → History → Result Job
answer env job h = env.got_job h job.meta.namespace job.meta.name

module _ {O : Type 0} (env : Env) (job : Job) where
  ended_job-judged :
      (t : St O)
      → ended_job env job t
        ≡ judged
            (answer env job t.calls)
            (record t { calls = get_job job.meta.namespace job.meta.name ∷ t.calls })
  unfolding ended_at ◌>>=◌
  ended_job-judged t = refl

  -- The rest of a round of the poll, once the answer is judged.
  abbrev go_on : Exec O Job → Option Job → Exec O Job
  go_on m done = on_option done pure m

  poll-suc :
      (n : ℕ) (s : St O)
      → poll env (suc n) (ended_job env job) s
        ≡ (judged (answer env job s.calls) >>= go_on (poll env n (ended_job env job)))
            (record s { calls = get_job job.meta.namespace job.meta.name ∷ s.calls })
  unfolding poll ended_at ◌>>=◌
  poll-suc n s = refl

  round_ok :
      (b : Bool) (seen a : Job) (t : St O) (m : Exec O Job)
      → ((pure (if b then some seen else none) >>= go_on m) t).0 ≡ ok a
      → ((b ≡ true) × (seen ≡ a)) ⊎ ((m t).0 ≡ ok a)
  unfolding ◌>>=◌
  round_ok true seen a t m h = inl (refl, ok-inj seen a h)
  round_ok false seen a t m h = inr h

  round_err :
      (b : Bool) (e : Err) (a : Job) (t : St O) (m : Exec O Job)
      → (((if b then pure none else raise e) >>= go_on m) t).0 ≡ ok a
      → (m t).0 ≡ ok a
  unfolding ◌>>=◌
  round_err true e a t m h = h
  round_err false e a t m h = cc

  -- A poll that returns was answered by a Job that has ended, at one of its attempts.
  abbrev Answered : ℕ → St O → Job → Type 0
  Answered n s a =
      (k : ℕ) × ((k < n) × ((answer env job (asked job k s.calls) ≡ ok a) × (has_ended a ≡ true)))

  poll-Answered :
      (n : ℕ) (s : St O) (a : Job) → (poll env n (ended_job env job) s).0 ≡ ok a → Answered n s a
  unfolding poll raise
  poll-Answered zero s a h = cc
  poll-Answered (suc n) s a h =
      by_answer (answer env job s.calls) refl (rw (poll-suc n s) at h) (poll-Answered n next a)
    where
      next : St O
      next = record s { calls = get_job job.meta.namespace job.meta.name ∷ s.calls }

      later : Answered n next a → Answered (suc n) s a
      later (k, (lt, found)) = (suc k, (omega arith, found))

      by_answer :
          (r : Result Job)
          → answer env job s.calls ≡ r
          → ((judged r >>= go_on (poll env n (ended_job env job))) next).0 ≡ ok a
          → ((poll env n (ended_job env job) next).0 ≡ ok a → Answered n next a)
          → Answered (suc n) s a
      by_answer (ok seen) q g more = elim (round_ok (has_ended seen) seen a next _ g) [
        | inl (ended, same) ↦ (0, (omega arith, (q ∙ ap ok same, rw (← same) ended)))
        | inr rest ↦ later (more rest)
      ]
      by_answer (err e) q g more = later (more (round_err (is_not_found e) e a next _ g))

  poll-ended :
      (k n : ℕ) (s : St O) (seen : Job)
      → k < n
      → ((i : ℕ) → i < k → Unfinished (answer env job (asked job i s.calls)))
      → answer env job (asked job k s.calls) ≡ ok seen
      → has_ended seen ≡ true
      → poll env n (ended_job env job) s ≡ (ok seen, record s { calls = asked job (suc k) s.calls })
  unfolding poll ◌>>=◌
  poll-ended zero zero s seen lt before at done = elim lt [ ]
  poll-ended (suc k) zero s seen lt before at done = elim lt [ ]
  poll-ended zero (suc n) s seen lt before at done = rw (ended_job-judged s, at, done) refl
  poll-ended (suc k) (suc n) s seen lt before at done =
      let next : St O = record s { calls = get_job job.meta.namespace job.meta.name ∷ s.calls } in
      rw
        (
          ended_job-judged s,
          judged-Unfinished (answer env job s.calls) next (before 0 (omega arith)),
        )
        (poll-ended k n next seen (omega arith) (λ i h. before (suc i) (omega arith)) at done)

module _ {O : Type 0} where
  if_raise :
      (b : Bool) (e : Err) (s : St O)
      → (if b then raise e else pure tt) s ≡ (if b then err e else ok tt, s)
  unfolding raise pure
  if_raise true e s = refl
  if_raise false e s = refl

  -- What `Wait` makes of the Job that has ended.
  abbrev verdict : Job → Job → Exec O (Unit {0})
  verdict job last =
      if ltb 0 last.status.failed
      then raise (wrap [] command_failed (codes ": job/" ++ job.meta.name))
      else pure tt

  verdict-returns :
      (job last : Job) (s : St O)
      → (verdict job last s).0 ≡ ok tt
      → ltb 0 last.status.failed ≡ false
  unfolding raise
  verdict-returns job last s h = ground arith

succeeded :
    (last : Job)
    → has_ended last ≡ true
    → ltb 0 last.status.failed ≡ false
    → (0 < last.status.succeeded) × (last.status.failed ≡ 0)
succeeded last ended sound = ground arith

-- `Wait` returns without an error only if one of the answers that it was given, of no more than it
-- may ask for, showed that the Job had succeeded and had no failed pod.
pub wait_for_end-succeeded :
    {O : Type 0} (env : Env) (job : Job) (timeout : ℕ) (s : St O)
    → (wait_for_end env job timeout s).0 ≡ ok tt
    → (k : ℕ) × ((k < env.attempts s.calls timeout)
        × ((seen : Job) × ((answer env job (asked job k s.calls) ≡ ok seen)
              × ((0 < seen.status.succeeded) × (seen.status.failed ≡ 0)))))
unfolding wait_for_end poll_for
wait_for_end-succeeded env job timeout s h =
    let (last, (polled, judgement)) =
      bind-returns (poll_for env timeout (ended_job env job)) (verdict job) s tt h in
    let (k, (lt, (found, ended))) =
      poll-Answered env job (env.attempts s.calls timeout) s last polled in
    (k, (lt, (last, (found, succeeded last ended (verdict-returns job last _ judgement)))))

-- If the Job ends while `Wait` may still ask, that is, if the answer number `k` (from 0) shows an
-- ended Job, those before show none or a running one, and `k` is below the number of attempts, then
-- `Wait` returns after exactly `k + 1` requests, and its result says whether the Job failed.
pub wait_for_end-ends :
    {O : Type 0} (env : Env) (job : Job) (timeout k : ℕ) (s : St O) (seen : Job)
    → k < env.attempts s.calls timeout
    → ((i : ℕ) → i < k → Unfinished (answer env job (asked job i s.calls)))
    → answer env job (asked job k s.calls) ≡ ok seen
    → has_ended seen ≡ true
    → wait_for_end env job timeout s ≡ (
      if ltb 0 seen.status.failed
          then err (wrap [] command_failed (codes ": job/" ++ job.meta.name))
          else ok tt,
      record s { calls = asked job (suc k) s.calls },
    )
unfolding wait_for_end poll_for ◌>>=◌
wait_for_end-ends env job timeout k s seen lt before at done =
    rw (poll-ended env job k (env.attempts s.calls timeout) s seen lt before at done)
      (if_raise (ltb 0 seen.status.failed) _ _)
