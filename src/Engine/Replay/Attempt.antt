-- ===== src/Engine/Replay/Attempt.antt =====
-- src/engine.rs: the attempt that `current_attempt_from_events` reads off a log.
use agentq.Prelude.{
  ℕ, ◌≡◌, refl, ◌∙◌, List, [], ◌∷◌, Option, none, some, ◌==◌, if◌then◌else◌, Bool-cases, inl, inr,
}
use agentq.Event.{Event, step_started, retry_scheduled}
use agentq.Engine.Replay.{observe_attempt, attempt_loop, current_attempt_from_events}

-- The attempt of the step that an event names: `StepStarted` and `RetryScheduled` name one.
unfoldable pub attempt_named : ℕ → Event → Option ℕ
attempt_named i (step_started _ j a) = if j == i then some a else none
attempt_named i (retry_scheduled _ j a) = if j == i then some a else none
attempt_named i _ = none

-- The attempt that the last event of the log that names one gives, from the back of the log.
unfoldable pub last_named : ℕ → List Event → Option ℕ
unfolding attempt_named
last_named i [] = none
last_named i (e ∷ es) = elim (last_named i es) [ some a ↦ some a | none ↦ attempt_named i e ]

-- That attempt, or 0 if no event of the log names one.
unfoldable pub last_attempt : ℕ → List Event → ℕ
unfolding last_named
last_attempt i es = elim (last_named i es) [ some a ↦ a | none ↦ 0 ]

or_start : ℕ → Option ℕ → ℕ
or_start start none = start
or_start start (some a) = a

observe_attempt-named :
    (i : ℕ) (e : Event) (start : ℕ) → observe_attempt i e start ≡ or_start start (attempt_named i e)
unfolding observe_attempt attempt_named or_start
observe_attempt-named i (step_started w j a) start = elim (Bool-cases (j == i)) [
  | inl h ↦ rw h refl
  | inr h ↦ rw h refl
]
observe_attempt-named i (retry_scheduled w j a) start = elim (Bool-cases (j == i)) [
  | inl h ↦ rw h refl
  | inr h ↦ rw h refl
]
observe_attempt-named i _ start = refl

or_start-cons :
    (start : ℕ) (named later : Option ℕ)
    → or_start (or_start start named) later
      ≡ or_start start (elim later [ some a ↦ some a | none ↦ named ])
unfolding or_start
or_start-cons start named none = refl
or_start-cons start named (some a) = refl

attempt_loop-named :
    (i : ℕ) (es : List Event) (start : ℕ)
    → attempt_loop i es start ≡ or_start start (last_named i es)
unfolding attempt_loop last_named or_start
attempt_loop-named i [] start = refl
attempt_loop-named i (e ∷ es) start =
    rw (attempt_loop-named i es (observe_attempt i e start), observe_attempt-named i e start)
      (or_start-cons start (attempt_named i e) (last_named i es))

or_start-last : (o : Option ℕ) → or_start 0 o ≡ elim o [ some a ↦ a | none ↦ 0 ]
unfolding or_start
or_start-last none = refl
or_start-last (some a) = refl

-- The engine reads the last attempt that the log names.
pub current_attempt_from_events-last_attempt :
    (es : List Event) (i : ℕ) → current_attempt_from_events es i ≡ last_attempt i es
unfolding current_attempt_from_events last_attempt
current_attempt_from_events-last_attempt es i =
    attempt_loop-named i es 0 ∙ or_start-last (last_named i es)
