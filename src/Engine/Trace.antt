-- ===== src/Engine/Trace.antt =====
-- src/engine.rs: what a run of a workflow amounts to, told without a store, a lease or another
-- task: the events that it appends, the jobs that it pushes, its reply, and what it leaves.
pub mod Stands
pub mod Follows
pub mod Wait
pub mod Attempt
pub mod Step
pub mod Sound
pub mod After
pub mod Suffix
pub mod Drive
pub mod Run
pub mod Rest
pub mod Readmit
pub mod Resume
pub mod Success
pub mod Recovered
pub mod Succeeds
pub mod Forget
pub mod Alike
pub mod Keys
pub mod Distinct
pub mod Claimed
mod StoreTests
mod QueueTests
mod Tests
mod RestTests
use agentq.Prelude.{
  ℕ, suc, List, [], ◌∷◌, ◌++◌, Option, none, some, Result, ok, err, ltb, if◌then◌else◌,
}
use agentq.Text.{Text, codes}
use agentq.Event.{
  Event, workflow_started, step_started, step_completed, step_failed, retry_scheduled, step_waiting,
  workflow_completed, workflow_failed,
}
use agentq.Job.{Job, Func, Outcome, PushError}
use agentq.Workflow.{StepDef, Duration}
use agentq.Engine.Reasons.{parse_waiting_reason, parse_non_retryable_reason}
use agentq.Engine.Key.{job_key}
use agentq.Engine.State.{
  WorkflowEngine, RunningWorkflow, EngineError, StepOutcome, Accepted, queued, in_flight, cached,
  Ready, handle, deadline, renewal, Wake, Turn, Reply, returned, failed, panicked, blocked,
}
use agentq.Engine.Step.{next_attempt}

-- `found` is what is mounted for the workflow at the end, `left` the turns that are not used up.
pub record Trace (S A : Type 0) : Type 0 where
  pub events : List Event
  pub jobs : List Job
  pub reply : Reply A
  pub found : Option RunningWorkflow
  pub left : List (Turn S)

module _ {S A : Type 0} where
  unfoldable pub logs : Event → Trace S A → Trace S A
  logs e tr = record tr { events = e ∷ tr.events }

  unfoldable pub pushes : Job → Trace S A → Trace S A
  pushes job tr = record tr { jobs = job ∷ tr.jobs }

  unfoldable pub stopped : Reply A → Option RunningWorkflow → List (Turn S) → Trace S A
  stopped reply found left = record {
    events = [];
    jobs = [];
    reply = reply;
    found = found;
    left = left;
  }

-- One trace behind the events and jobs of another.
unfoldable pub behind : {S A B : Type 0} → Trace S A → Trace S B → Trace S B
behind first tr = record tr { events = first.events ++ tr.events; jobs = first.jobs ++ tr.jobs }

module _ (show : Duration → Text) where
  -- What ends the wait for a job, if the wake does.
  unfoldable pub decided : Option Duration → Ready → Option (Reply Outcome)
  decided timeout (handle (ok outcome)) = some (returned outcome)
  decided timeout (handle (err e)) = some (failed (EngineError.job_lost e))
  decided (some limit) deadline =
      some (returned (Outcome.failed (codes "step timed out after " ++ show limit)))
  decided none deadline = none
  decided timeout renewal = none

  or_later : Option (Reply Outcome) → Reply Outcome → Reply Outcome
  or_later none later = later
  or_later (some reply) later = reply

  -- The first wake that decides ends the wait.
  unfoldable pub wait_reply : {S : Type 0} → Option Duration → List (Wake S) → Reply Outcome
  unfolding decided or_later
  wait_reply timeout [] = blocked
  wait_reply timeout (wake ∷ wakes) =
      or_later (decided timeout wake.ready) (wait_reply timeout wakes)

  -- The outcome of an attempt by the queue's answer: a cached one is there at once.
  unfoldable pub attempt_reply :
      {S : Type 0} → Option Duration → List (Wake S) → Result PushError Accepted → Reply Outcome
  unfolding wait_reply
  attempt_reply timeout wakes (ok queued) = wait_reply timeout wakes
  attempt_reply timeout wakes (ok in_flight) = wait_reply timeout wakes
  attempt_reply timeout wakes (ok (cached output)) = returned (Outcome.completed output)
  attempt_reply timeout wakes (err e) = failed (EngineError.push e)

-- The job of an attempt.
unfoldable pub job_of : WorkflowEngine → Text → ℕ → Func → ℕ → Job
unfolding job_key
job_of engine w i body a = record { key = job_key w i a; priority = engine.priority; func = body }

module _ {S : Type 0} (show : Duration → Text) (engine : WorkflowEngine) (w : Text)
    (running : RunningWorkflow) where
  module _ (i : ℕ) (step : StepDef) (body : Func) where
    unfoldable pub step_trace : Reply StepOutcome → List (Turn S) → Trace S StepOutcome
    unfolding stopped
    step_trace reply left = stopped reply (some running) left

    -- By the step's failure: it waits, it fails for good, or it is tried again while the policy
    -- allows it; `rest` is the trace from the next attempt on.
    unfoldable pub failure_trace :
        ℕ
        → Text
        → Option Text
        → Option Text
        → Trace S StepOutcome
        → List (Turn S)
        → Trace S StepOutcome
    unfolding step_trace logs
    failure_trace a reason (some wait_reason) _ rest left =
        logs (step_waiting w i wait_reason) (step_trace (returned StepOutcome.waiting) left)
    failure_trace a reason none (some stripped) rest left = logs (step_failed w i stripped) (
        logs (workflow_failed w stripped)
          (step_trace (failed (EngineError.workflow_failed stripped)) left))
    failure_trace a reason none none rest left = logs (step_failed w i reason) (
        if ltb (next_attempt a) step.retry_policy.max_attempts
        then logs (retry_scheduled w i (next_attempt a)) rest
        else logs (workflow_failed w reason)
            (step_trace (failed (EngineError.workflow_failed reason)) left))

    unfoldable pub outcome_trace :
        ℕ → Reply Outcome → Trace S StepOutcome → List (Turn S) → Trace S StepOutcome
    unfolding step_trace logs failure_trace
    outcome_trace a (returned (Outcome.completed output)) rest left =
        logs (step_completed w i output) (step_trace (returned StepOutcome.completed) left)
    outcome_trace a (returned (Outcome.failed reason)) rest left =
        failure_trace a reason (parse_waiting_reason reason) (parse_non_retryable_reason reason)
          rest left
    outcome_trace a (failed e) rest left = step_trace (failed e) left
    outcome_trace a panicked rest left = step_trace panicked left
    outcome_trace a blocked rest left = step_trace blocked left

    -- A step from its attempt `a` on: each attempt is one turn.
    unfoldable pub step_run : ℕ → List (Turn S) → Trace S StepOutcome
    unfolding logs pushes outcome_trace attempt_reply step_trace job_of
    step_run a [] =
        logs (step_started w i a) (pushes (job_of engine w i body a) (step_trace blocked []))
    step_run a (turn ∷ turns) =
        let rest = step_run (next_attempt a) turns in
        logs (step_started w i a) (
          pushes (job_of engine w i body a)
            (outcome_trace a (attempt_reply show step.timeout turn.wakes turn.answer) rest turns))

  -- What follows a step: the steps behind it, or the end of the drive.
  unfoldable pub after_step :
      Trace S StepOutcome → Reply StepOutcome → Trace S (Unit {0}) → Trace S (Unit {0})
  unfolding behind stopped
  after_step tr (returned StepOutcome.completed) rest = behind tr rest
  after_step tr (returned StepOutcome.waiting) rest =
      behind tr (stopped (returned tt) (some running) tr.left)
  after_step tr (failed e) rest = behind tr (stopped (failed e) none tr.left)
  after_step tr panicked rest = behind tr (stopped panicked (some running) tr.left)
  after_step tr blocked rest = behind tr (stopped blocked (some running) tr.left)

  -- The steps from the `i`-th on, with their bodies.
  unfoldable pub drive_run : ℕ → List StepDef → List Func → List (Turn S) → Trace S (Unit {0})
  unfolding logs stopped step_run after_step
  drive_run i [] bodies turns = logs (workflow_completed w) (stopped (returned tt) none turns)
  drive_run i (step ∷ steps) [] turns = stopped panicked (some running) turns
  drive_run i (step ∷ steps) (body ∷ bodies) turns =
      let tr = step_run i step body 0 turns in
      after_step tr tr.reply (drive_run (suc i) steps bodies tr.left)

  unfoldable pub whole_run : List (Turn S) → Trace S (Unit {0})
  unfolding logs drive_run
  whole_run turns = logs (workflow_started w) (drive_run 0 running.steps running.bodies turns)
