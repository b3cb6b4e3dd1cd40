-- ===== src/Engine/Trace/Succeeds.antt =====
-- src/engine.rs: turns on which the steps of a workflow succeed, and the outputs of a log.
use agentq.Prelude.{ℕ, suc, ◌≡◌, true, List, [], ◌∷◌, none, ltb}
use agentq.Text.{Text}
use agentq.Event.{Event, step_completed}
use agentq.Job.{Outcome}
use agentq.Workflow.{StepDef, Duration}
use agentq.Engine.Reasons.{parse_waiting_reason, parse_non_retryable_reason}
use agentq.Engine.State.{Turn, Reply, returned}
use agentq.Engine.Step.{next_attempt}
use agentq.Engine.Trace.{attempt_reply}

-- The outcome of the attempt that the turn answers.
abbrev pub turn_reply : {S : Type 0} → (Duration → Text) → StepDef → Turn S → Reply Outcome
turn_reply show step turn = attempt_reply show step.timeout turn.wakes turn.answer

-- From attempt `a` on, the step fails while its policy allows another attempt, each time with a
-- reason that asks for one, and then completes with an output; the turns left follow.
pub data Succeeds {S : Type 0} (show : Duration → Text) (step : StepDef)
    : ℕ → List (Turn S) → Text → List (Turn S) → Type 0 where
  done :
      (a : ℕ) (turn : Turn S) (turns : List (Turn S)) (output : Text)
      → turn_reply show step turn ≡ returned (Outcome.completed output)
      → Succeeds show step a (turn ∷ turns) output turns
  again :
      (a : ℕ) (turn : Turn S) (turns left : List (Turn S)) (reason output : Text)
      → turn_reply show step turn ≡ returned (Outcome.failed reason)
      → parse_waiting_reason reason ≡ none
      → parse_non_retryable_reason reason ≡ none
      → ltb (next_attempt a) step.retry_policy.max_attempts ≡ true
      → Succeeds show step (next_attempt a) turns output left
      → Succeeds show step a (turn ∷ turns) output left

-- Each step succeeds, in order, with these outputs.
pub data AllSucceed {S : Type 0} (show : Duration → Text)
    : List StepDef → List (Turn S) → List Text → List (Turn S) → Type 0 where
  no_step : (turns : List (Turn S)) → AllSucceed show [] turns [] turns
  step_then :
      (step : StepDef) (steps : List StepDef) (turns between left : List (Turn S)) (output : Text)
      (outputs : List Text)
      → Succeeds show step 0 turns output between
      → AllSucceed show steps between outputs left
      → AllSucceed show (step ∷ steps) turns (output ∷ outputs) left

-- The outputs that a log holds, in order, each with its step.
unfoldable pub outputs_of : List Event → List (ℕ × Text)
outputs_of [] = []
outputs_of (e ∷ es) =
    let rest = outputs_of es in elim e [ step_completed w i output ↦ (i, output) ∷ rest | _ ↦ rest ]

unfoldable pub numbered : ℕ → List Text → List (ℕ × Text)
numbered i [] = []
numbered i (output ∷ outputs) = (i, output) ∷ numbered (suc i) outputs
