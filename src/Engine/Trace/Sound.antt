-- ===== src/Engine/Trace/Sound.antt =====
-- src/engine.rs: what the trace of a step leaves.
use agentq.Prelude.{
  ℕ, ◌≡◌, refl, false, List, [], ◌∷◌, Option, none, some, All, ltb, Bool-cases, inl, inr,
}
use agentq.Text.{Text}
use agentq.Event.{Event, step_started, step_failed, retry_scheduled}
use agentq.Job.{Func, Outcome}
use agentq.Workflow.{StepDef, Duration}
use agentq.Engine.Replay.{workflow_has_terminal_event, is_terminal}
use agentq.Engine.State.{
  WorkflowEngine, RunningWorkflow, StepOutcome, Turn, Reply, returned, failed, panicked, blocked,
}
use agentq.Engine.Step.{next_attempt}
use agentq.Engine.Trace.{
  job_of, Trace, logs, pushes, stopped, step_trace, failure_trace, outcome_trace, attempt_reply,
  step_run,
}

-- Where a step returns a value, it has not ended the workflow.
unfoldable pub IsUnended : {A : Type 0} → Reply A → List Event → Type 0
IsUnended (returned a) es = workflow_has_terminal_event es ≡ false
IsUnended (failed e) es = Unit
IsUnended panicked es = Unit
IsUnended blocked es = Unit

IsUnended-cons :
    {A : Type 0} (r : Reply A) (e : Event) (es : List Event)
    → is_terminal e ≡ false
    → IsUnended r es
    → IsUnended r (e ∷ es)
unfolding IsUnended workflow_has_terminal_event
IsUnended-cons (returned a) e es n h = rw n h
IsUnended-cons (failed x) e es n h = tt
IsUnended-cons panicked e es n h = tt
IsUnended-cons blocked e es n h = tt

module _ {S : Type 0} (P : Turn S → Type 0) (show : Duration → Text) (engine : WorkflowEngine)
    (w : Text) (running : RunningWorkflow) where
  -- What a step leaves: the workflow mounted, turns of the same kind, and a log that is not ended
  -- where it returns a value.
  abbrev pub Sound : Trace S StepOutcome → Type 0
  Sound tr = (tr.found ≡ some running) × All P tr.left × IsUnended tr.reply tr.events

  module _ (i : ℕ) (step : StepDef) (body : Func) where
    log-Sound :
        (e : Event) (tr : Trace S StepOutcome)
        → is_terminal e ≡ false
        → Sound tr
        → Sound (logs e tr)
    unfolding logs
    log-Sound e tr n h = (h.0, h.1, IsUnended-cons tr.reply e tr.events n h.2)

    failure_trace-Sound :
        (a : ℕ) (reason : Text) (wait non : Option Text) (rest : Trace S StepOutcome)
        (left : List (Turn S))
        → All P left
        → Sound rest
        → Sound (failure_trace show engine w running i step body a reason wait non rest left)
    unfolding failure_trace step_trace logs stopped IsUnended workflow_has_terminal_event
        is_terminal
    failure_trace-Sound a reason (some r) non rest left hl hr = (refl, hl, refl)
    failure_trace-Sound a reason none (some r) rest left hl hr = (refl, hl, tt)
    failure_trace-Sound a reason none none rest left hl hr =
        elim (Bool-cases (ltb (next_attempt a) step.retry_policy.max_attempts)) [
          | inl e ↦ rw e (
              log-Sound (step_failed w i reason) (logs (retry_scheduled w i (next_attempt a)) rest)
                refl (log-Sound (retry_scheduled w i (next_attempt a)) rest refl hr))
          | inr e ↦ rw e (refl, hl, tt)
        ]

    outcome_trace-Sound :
        (a : ℕ) (r : Reply Outcome) (rest : Trace S StepOutcome) (left : List (Turn S))
        → All P left
        → Sound rest
        → Sound (outcome_trace show engine w running i step body a r rest left)
    unfolding outcome_trace step_trace logs stopped IsUnended workflow_has_terminal_event
        is_terminal
    outcome_trace-Sound a (returned (Outcome.completed o)) rest left hl hr = (refl, hl, refl)
    outcome_trace-Sound a (returned (Outcome.failed reason)) rest left hl hr =
        failure_trace-Sound a reason _ _ rest left hl hr
    outcome_trace-Sound a (failed e) rest left hl hr = (refl, hl, tt)
    outcome_trace-Sound a panicked rest left hl hr = (refl, hl, tt)
    outcome_trace-Sound a blocked rest left hl hr = (refl, hl, tt)

    pub step_run-Sound :
        (turns : List (Turn S)) (a : ℕ)
        → All P turns
        → Sound (step_run show engine w running i step body a turns)
    unfolding step_run logs pushes step_trace stopped IsUnended workflow_has_terminal_event
        is_terminal
    step_run-Sound [] a h = (refl, tt, tt)
    step_run-Sound (turn ∷ turns) a h =
        let rest = step_run show engine w running i step body (next_attempt a) turns in
        log-Sound (step_started w i a)
          (pushes (job_of engine w i body a) (
            outcome_trace show engine w running i step body a
              (attempt_reply show step.timeout turn.wakes turn.answer) rest turns))
          refl
          (outcome_trace-Sound a (attempt_reply show step.timeout turn.wakes turn.answer) rest turns
            h.1 (step_run-Sound turns (next_attempt a) h.1))
