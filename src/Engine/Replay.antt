-- ===== src/Engine/Replay.antt =====
-- src/engine.rs: what the engine reads off the events of a workflow.
pub mod Laws
pub mod Attempt
use agentq.Prelude.{
  ℕ, Bool, true, false, List, [], ◌∷◌, Option, none, some, ◌==◌, if◌then◌else◌, any,
}
use agentq.Text.{Text}
use agentq.Event.{
  Event, workflow_started, step_started, step_completed, step_failed, retry_scheduled, step_waiting,
  step_resumed, workflow_completed, workflow_failed, workflow_cancelled, worker_recovered,
}
use agentq.Workflow.{StepStatus, pending, completed, failed, waiting}

unfoldable pub is_terminal : Event → Bool
is_terminal (workflow_completed _) = true
is_terminal (workflow_failed _ _) = true
is_terminal (workflow_cancelled _ _) = true
is_terminal _ = false

unfoldable pub workflow_has_terminal_event : List Event → Bool
unfolding is_terminal
workflow_has_terminal_event events = any is_terminal events

unfoldable pub is_cancelled : Event → Bool
is_cancelled (workflow_cancelled _ _) = true
is_cancelled _ = false

unfoldable pub workflow_is_cancelled : List Event → Bool
unfolding is_cancelled
workflow_is_cancelled events = any is_cancelled events

-- One round of the loop of `current_attempt_from_events`.
unfoldable pub observe_attempt : ℕ → Event → ℕ → ℕ
observe_attempt step_index (step_started _ si a) attempt = if si == step_index then a else attempt
observe_attempt step_index (retry_scheduled _ si a) attempt =
    if si == step_index then a else attempt
observe_attempt step_index _ attempt = attempt

attempt_loop : ℕ → List Event → ℕ → ℕ
unfolding observe_attempt
attempt_loop step_index [] attempt = attempt
attempt_loop step_index (event ∷ events) attempt =
    attempt_loop step_index events (observe_attempt step_index event attempt)

unfoldable pub current_attempt_from_events : List Event → ℕ → ℕ
unfolding attempt_loop
current_attempt_from_events events step_index = attempt_loop step_index events 0

-- One round of the loop of `step_status_from_events`, on its variables `status` and `attempt`.
unfoldable pub observe_status : ℕ → Event → StepStatus × ℕ → StepStatus × ℕ
observe_status step_index (step_started _ si a) (status, attempt) =
    if si == step_index then (pending, a) else (status, attempt)
observe_status step_index (step_completed _ si output) (status, attempt) =
    if si == step_index then (completed output, attempt) else (status, attempt)
observe_status step_index (step_failed _ si reason) (status, attempt) =
    if si == step_index then (failed reason attempt, attempt) else (status, attempt)
observe_status step_index (step_waiting _ si reason) (status, attempt) =
    if si == step_index then (waiting reason, attempt) else (status, attempt)
observe_status step_index (retry_scheduled _ si a) (status, attempt) =
    if si == step_index then (pending, a) else (status, attempt)
observe_status step_index (step_resumed _ si _) (status, attempt) =
    if si == step_index then (pending, attempt) else (status, attempt)
observe_status step_index (worker_recovered _ si) (status, attempt) =
    if si == step_index then (pending, attempt) else (status, attempt)
observe_status step_index _ s = s

unfoldable pub status_loop : ℕ → List Event → StepStatus × ℕ → StepStatus × ℕ
unfolding observe_status
status_loop step_index [] s = s
status_loop step_index (event ∷ events) s =
    status_loop step_index events (observe_status step_index event s)

unfoldable pub step_status_from_events : List Event → ℕ → StepStatus
unfolding status_loop
step_status_from_events events step_index = (status_loop step_index events (pending, 0)).0

-- One round of the loop of `resume_input`.
unfoldable pub observe_input : ℕ → Event → Option Text → Option Text
observe_input step_index (step_resumed _ si input) last =
    if si == step_index then some input else last
observe_input step_index _ last = last

unfoldable pub input_loop : ℕ → List Event → Option Text → Option Text
unfolding observe_input
input_loop step_index [] last = last
input_loop step_index (event ∷ events) last =
    input_loop step_index events (observe_input step_index event last)

-- `resume_input` behind its `load_events`.
unfoldable pub input_from_events : List Event → ℕ → Option Text
unfolding input_loop
input_from_events events step_index = input_loop step_index events none
