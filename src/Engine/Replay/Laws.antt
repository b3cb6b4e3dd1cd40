-- ===== src/Engine/Replay/Laws.antt =====
-- How the readings of a log change when an event is appended.
use agentq.Prelude.{ℕ, ◌≡◌, refl, ◌||◌, List, [], ◌∷◌, ◌++◌, Option, any-append}
use agentq.Text.{Text}
use agentq.Event.{Event}
use agentq.Workflow.{StepStatus}
use agentq.Engine.Replay.{
  is_terminal, workflow_has_terminal_event, is_cancelled, workflow_is_cancelled, attempt_loop,
  observe_attempt, observe_status, status_loop, observe_input, input_loop,
}

module _ (i : ℕ) where
  attempt_loop-append :
      (es : List Event) (e : Event) (a : ℕ)
      → attempt_loop i (es ++ e ∷ []) a ≡ observe_attempt i e (attempt_loop i es a)
  unfolding attempt_loop
  attempt_loop-append [] e a = refl
  attempt_loop-append (x ∷ es) e a = attempt_loop-append es e (observe_attempt i x a)

  pub status_loop-append :
      (es : List Event) (e : Event) (s : StepStatus × ℕ)
      → status_loop i (es ++ e ∷ []) s ≡ observe_status i e (status_loop i es s)
  unfolding status_loop
  status_loop-append [] e s = refl
  status_loop-append (x ∷ es) e s = status_loop-append es e (observe_status i x s)

  pub input_loop-append :
      (es : List Event) (e : Event) (a : Option Text)
      → input_loop i (es ++ e ∷ []) a ≡ observe_input i e (input_loop i es a)
  unfolding input_loop
  input_loop-append [] e a = refl
  input_loop-append (x ∷ es) e a = input_loop-append es e (observe_input i x a)

-- A log stays cancelled, and closed, whatever is appended.
pub workflow_is_cancelled-append :
    (es fs : List Event)
    → workflow_is_cancelled (es ++ fs) ≡ (workflow_is_cancelled es || workflow_is_cancelled fs)
unfolding workflow_is_cancelled
workflow_is_cancelled-append es fs = any-append is_cancelled es fs

pub workflow_has_terminal_event-append :
    (es fs : List Event)
    → workflow_has_terminal_event (es ++ fs)
      ≡ (workflow_has_terminal_event es || workflow_has_terminal_event fs)
unfolding workflow_has_terminal_event
workflow_has_terminal_event-append es fs = any-append is_terminal es fs
