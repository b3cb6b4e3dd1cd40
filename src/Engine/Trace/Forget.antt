-- ===== src/Engine/Trace/Forget.antt =====
-- src/engine.rs: what a run amounts to depends on the queue's answers and on what the waits are
-- woken by, not on the store and not on what other tasks do to it.
use agentq.Prelude.{
  ℕ, suc, ◌≡◌, refl, List, [], ◌∷◌, map, Option, none, some, Result, ok, err, Bool-cases, inl, inr,
  ltb,
}
use agentq.Text.{Text}
use agentq.Job.{Func, Outcome, PushError}
use agentq.Workflow.{Duration, StepDef}
use agentq.Engine.Reasons.{parse_waiting_reason, parse_non_retryable_reason}
use agentq.Engine.State.{
  WorkflowEngine, RunningWorkflow, Wake, Turn, Reply, returned, failed, panicked, blocked,
  StepOutcome, Accepted, queued, in_flight, cached,
}
use agentq.Engine.Step.{next_attempt}
use agentq.Engine.Trace.{
  Trace, wait_reply, attempt_reply, failure_trace, outcome_trace, step_run, after_step, drive_run,
  whole_run,
}

-- A turn without what other tasks do.
module _ {S : Type 0} where
  abbrev pub forget_wake : Wake S → Wake (Unit {0})
  forget_wake wake = record { others = λ sh. sh; ready = wake.ready }

  abbrev pub forget_turn : Turn S → Turn (Unit {0})
  forget_turn turn = record {
    during_push = λ sh. sh;
    answer = turn.answer;
    wakes = map forget_wake turn.wakes;
    during_sleep = λ d sh. sh;
  }

  abbrev pub forget : {A : Type 0} → Trace S A → Trace (Unit {0}) A
  forget tr = record {
    events = tr.events;
    jobs = tr.jobs;
    reply = tr.reply;
    found = tr.found;
    left = map forget_turn tr.left;
  }

  module _ (show : Duration → Text) where
    wait_reply-forget :
        (timeout : Option Duration) (wakes : List (Wake S))
        → wait_reply show timeout (map forget_wake wakes) ≡ wait_reply show timeout wakes
    unfolding wait_reply
    wait_reply-forget timeout [] = refl
    wait_reply-forget timeout (wake ∷ wakes) = rw (wait_reply-forget timeout wakes)

    attempt_reply-forget :
        (timeout : Option Duration) (wakes : List (Wake S)) (answer : Result PushError Accepted)
        → attempt_reply show timeout (map forget_wake wakes) answer
          ≡ attempt_reply show timeout wakes answer
    unfolding attempt_reply
    attempt_reply-forget timeout wakes (ok queued) = wait_reply-forget timeout wakes
    attempt_reply-forget timeout wakes (ok in_flight) = wait_reply-forget timeout wakes
    attempt_reply-forget timeout wakes (ok (cached output)) = refl
    attempt_reply-forget timeout wakes (err e) = refl

    module _ (engine : WorkflowEngine) (w : Text) (running : RunningWorkflow) where
      module _ (i : ℕ) (step : StepDef) (body : Func) where
        failure_trace-forget :
            (a : ℕ) (reason : Text) (waits strips : Option Text) (rest : Trace S StepOutcome)
            (left : List (Turn S))
            → failure_trace show engine w running i step body a reason waits strips
                (forget rest)
                (map forget_turn left)
              ≡ forget
                  (failure_trace show engine w running i step body a reason waits strips rest left)
        unfolding failure_trace
        failure_trace-forget a reason (some waits) strips rest left = refl
        failure_trace-forget a reason none (some stripped) rest left = refl
        failure_trace-forget a reason none none rest left =
            elim (Bool-cases (ltb (next_attempt a) step.retry_policy.max_attempts)) [
              | inl e ↦ rw e refl
              | inr e ↦ rw e refl
            ]

        outcome_trace-forget :
            (a : ℕ) (reply : Reply Outcome) (rest : Trace S StepOutcome) (left : List (Turn S))
            → outcome_trace show engine w running i step body a reply
                (forget rest)
                (map forget_turn left)
              ≡ forget (outcome_trace show engine w running i step body a reply rest left)
        unfolding outcome_trace
        outcome_trace-forget a (returned (Outcome.completed output)) rest left = refl
        outcome_trace-forget a (returned (Outcome.failed reason)) rest left =
            failure_trace-forget a reason (parse_waiting_reason reason)
              (parse_non_retryable_reason reason) rest left
        outcome_trace-forget a (failed e) rest left = refl
        outcome_trace-forget a panicked rest left = refl
        outcome_trace-forget a blocked rest left = refl

        step_run-forget :
            (a : ℕ) (turns : List (Turn S))
            → step_run show engine w running i step body a (map forget_turn turns)
              ≡ forget (step_run show engine w running i step body a turns)
        unfolding step_run
        step_run-forget a [] = refl
        step_run-forget a (turn ∷ turns) =
            rw
              (
                step_run-forget (next_attempt a) turns,
                attempt_reply-forget step.timeout turn.wakes turn.answer,
                outcome_trace-forget a (attempt_reply show step.timeout turn.wakes turn.answer)
                    (step_run show engine w running i step body (next_attempt a) turns) turns,
              )
              refl

      after_step-forget :
          (tr : Trace S StepOutcome) (reply : Reply StepOutcome) (rest : Trace S (Unit {0}))
          → after_step show engine w running (forget tr) reply (forget rest)
            ≡ forget (after_step show engine w running tr reply rest)
      unfolding after_step
      after_step-forget tr (returned StepOutcome.completed) rest = refl
      after_step-forget tr (returned StepOutcome.waiting) rest = refl
      after_step-forget tr (failed e) rest = refl
      after_step-forget tr panicked rest = refl
      after_step-forget tr blocked rest = refl

      drive_run-forget :
          (i : ℕ) (steps : List StepDef) (bodies : List Func) (turns : List (Turn S))
          → drive_run show engine w running i steps bodies (map forget_turn turns)
            ≡ forget (drive_run show engine w running i steps bodies turns)
      unfolding drive_run
      drive_run-forget i [] bodies turns = refl
      drive_run-forget i (step ∷ steps) [] turns = refl
      drive_run-forget i (step ∷ steps) (body ∷ bodies) turns =
          let tr = step_run show engine w running i step body 0 turns in
          rw (step_run-forget i step body 0 turns, drive_run-forget (suc i) steps bodies tr.left)
            (after_step-forget tr tr.reply
              (drive_run show engine w running (suc i) steps bodies tr.left))

      pub whole_run-forget :
          (turns : List (Turn S))
          → whole_run show engine w running (map forget_turn turns)
            ≡ forget (whole_run show engine w running turns)
      unfolding whole_run
      whole_run-forget turns = rw (drive_run-forget 0 running.steps running.bodies turns) refl
