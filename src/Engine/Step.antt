-- ===== src/Engine/Step.antt =====
-- src/engine.rs: `run_step` and `await_job_renewing_lease`.

use agentq.Prelude.{
  ℕ, ◌+◌, ◌%◌, ◌^◌, List, [], ◌∷◌, ◌++◌, Option, none, some, Result, ok, err, if◌then◌else◌, ltb,
}
use agentq.Text.{Text, codes}
use agentq.Event.{
  Event, step_started, step_completed, step_failed, retry_scheduled, step_waiting, workflow_failed,
  ClaimResult, claimed, already_completed, held_by_other, already_waiting,
}
use agentq.Job.{Job, Func, Outcome, PushError}
use agentq.Workflow.{StepDef, Duration}
use agentq.Store.{DurableStore, backend}
use agentq.Engine.Replay.{workflow_is_cancelled}
use agentq.Engine.Backoff.{backoff_duration}
use agentq.Engine.Reasons.{parse_waiting_reason, parse_non_retryable_reason}
use agentq.Engine.Key.{job_key}
use agentq.Engine.State.{
  WorkflowEngine, EngineError, StepOutcome, Accepted, queued, in_flight, cached, Ready, handle,
  deadline, renewal, Wake, Turn, returned, blocked, Async, pure, fail, ◌>>=◌, ◌>>◌, call_store,
  yield_to,
}

-- `Debug` of the step's timeout is not modelled: the text is an argument of the wait.
abbrev pub timed_out : Text → Outcome
timed_out shown = Outcome.failed (codes "step timed out after " ++ shown)

-- `attempt + 1` on `u32`, wrapping as in a release build.
abbrev pub next_attempt : ℕ → ℕ
next_attempt attempt = (attempt + 1) % 2 ^ 32

module _ {S : Type 0} (ds : DurableStore S) (show : Duration → Text) (engine : WorkflowEngine)
    (workflow_id : Text) (step_index : ℕ) where
  unfoldable pub append : Event → Async S (Unit {0})
  unfolding call_store
  append event = call_store (ds.append_event event)

  -- A failed renewal is only logged.
  unfoldable pub renew : Async S (Unit {0})
  renew w =
      let r = ds.renew_lease workflow_id step_index engine.worker_id engine.lease_ttl w.shared.db in
      (returned tt, record w { shared = record w.shared { db = r.1 } })

  -- The `select!` of one wake, in its biased order; the deadline is there with a timeout only.
  unfoldable pub on_ready : Option Duration → Ready → Async S Outcome → Async S Outcome
  unfolding renew
  on_ready timeout (handle (ok outcome)) again = pure outcome
  on_ready timeout (handle (err e)) again = fail (EngineError.job_lost e)
  on_ready (some limit) deadline again = pure (timed_out (show limit))
  on_ready none deadline again = again
  on_ready timeout renewal again = do renew; again

  unfoldable pub await_job_renewing_lease : Option Duration → List (Wake S) → Async S Outcome
  unfolding yield_to on_ready
  await_job_renewing_lease timeout [] w = (blocked, w)
  await_job_renewing_lease timeout (wake ∷ wakes) w =
      (do
        yield_to wake.others
        on_ready timeout wake.ready (await_job_renewing_lease timeout wakes))
        w

  unfoldable pub after_sleep : (ℕ → Async S StepOutcome) → ℕ → List Event → Async S StepOutcome
  unfolding workflow_is_cancelled
  after_sleep again attempt events =
      if workflow_is_cancelled events then pure StepOutcome.waiting else again attempt

  -- The next attempt, after the sleep that follows the failed one.
  unfoldable pub retry : StepDef → Turn S → (ℕ → Async S StepOutcome) → ℕ → Async S StepOutcome
  unfolding append yield_to call_store after_sleep backoff_duration
  retry step turn again attempt = do
    append (retry_scheduled workflow_id step_index (next_attempt attempt))
    yield_to (turn.during_sleep (backoff_duration step.retry_policy attempt))
    events ← call_store (ds.load_events workflow_id)
    after_sleep again (next_attempt attempt) events

  unfoldable pub give_up : Text → Async S StepOutcome
  unfolding append
  give_up reason = do
    append (workflow_failed workflow_id reason)
    fail (EngineError.workflow_failed reason)

  -- What follows the wait for a job's outcome; `again` is the next round of the loop.
  unfoldable pub on_failed :
      StepDef
      → Turn S
      → (ℕ → Async S StepOutcome)
      → ℕ
      → Text
      → Option Text
      → Option Text
      → Async S StepOutcome
  unfolding append retry give_up
  on_failed step turn again attempt reason (some wait_reason) _ = do
    append (step_waiting workflow_id step_index wait_reason)
    pure StepOutcome.waiting
  on_failed step turn again attempt reason none (some stripped) = do
    append (step_failed workflow_id step_index stripped)
    append (workflow_failed workflow_id stripped)
    fail (EngineError.workflow_failed stripped)
  on_failed step turn again attempt reason none none = do
    append (step_failed workflow_id step_index reason)
    if ltb (next_attempt attempt) step.retry_policy.max_attempts
        then retry step turn again attempt
        else give_up reason

  unfoldable pub on_outcome :
      StepDef → Turn S → (ℕ → Async S StepOutcome) → ℕ → Outcome → Async S StepOutcome
  unfolding append on_failed
  on_outcome step turn again attempt (Outcome.completed output) = do
    append (step_completed workflow_id step_index output)
    pure StepOutcome.completed
  on_outcome step turn again attempt (Outcome.failed reason) =
      on_failed step turn again attempt reason (parse_waiting_reason reason)
        (parse_non_retryable_reason reason)

  unfoldable pub wait_for : StepDef → Turn S → (ℕ → Async S StepOutcome) → ℕ → Async S StepOutcome
  unfolding on_outcome
  wait_for step turn again attempt = do
    outcome ← await_job_renewing_lease step.timeout turn.wakes
    on_outcome step turn again attempt outcome

  unfoldable pub on_pushed :
      StepDef
      → Turn S
      → (ℕ → Async S StepOutcome)
      → ℕ
      → Result PushError Accepted
      → Async S StepOutcome
  unfolding append wait_for
  on_pushed step turn again attempt (ok queued) = wait_for step turn again attempt
  on_pushed step turn again attempt (ok in_flight) = wait_for step turn again attempt
  on_pushed step turn again attempt (ok (cached output)) = do
    append (step_completed workflow_id step_index output)
    pure StepOutcome.completed
  on_pushed step turn again attempt (err e) = fail (EngineError.push e)

  -- `self.queue.push(job).await`, with the turn that answers it.
  unfoldable pub push : Job → Turn S → List (Turn S) → Async S (Result PushError Accepted)
  push job turn turns w = (
    returned turn.answer,
    record w { shared = turn.during_push w.shared; pushed = w.pushed ++ job ∷ []; turns = turns },
  )

  unfoldable pub attempt_job : Func → ℕ → Job
  unfolding job_key
  attempt_job body attempt = record {
    key = job_key workflow_id step_index attempt;
    priority = engine.priority;
    func = body;
  }

  -- From the push on: without a turn the push is not answered.
  unfoldable pub from_push :
      StepDef → Func → List (Turn S) → (ℕ → Async S StepOutcome) → ℕ → Async S StepOutcome
  unfolding push on_pushed attempt_job
  from_push step body [] again attempt =
      λ w. (blocked, record w { pushed = w.pushed ++ attempt_job body attempt ∷ [] })
  from_push step body (turn ∷ turns) again attempt = do
    answer ← push (attempt_job body attempt) turn turns
    on_pushed step turn again attempt answer

  unfoldable pub on_claim : ClaimResult → Async S StepOutcome → Async S StepOutcome
  on_claim (already_completed output) started = pure StepOutcome.completed
  on_claim held_by_other started =
      fail (EngineError.store (backend (codes "step is held by another worker")))
  on_claim already_waiting started = pure StepOutcome.waiting
  on_claim claimed started = started

  -- One round of the loop of `run_step`.
  unfoldable pub run_round :
      StepDef → Func → List (Turn S) → (ℕ → Async S StepOutcome) → ℕ → Async S StepOutcome
  unfolding call_store append from_push on_claim
  run_round step body turns again attempt = do
    claim ← call_store (ds.claim_step workflow_id step_index engine.worker_id engine.lease_ttl)
    on_claim claim (do
      append (step_started workflow_id step_index attempt)
      from_push step body turns again attempt)

  unfoldable pub run_loop : StepDef → Func → List (Turn S) → ℕ → Async S StepOutcome
  unfolding run_round
  run_loop step body [] attempt = run_round step body [] (λ a w. (blocked, w)) attempt
  run_loop step body (turn ∷ turns) attempt =
      run_round step body (turn ∷ turns) (run_loop step body turns) attempt

  unfoldable pub run_step : StepDef → Func → ℕ → Async S StepOutcome
  unfolding run_loop
  run_step step body start_attempt w = run_loop step body w.turns start_attempt w
