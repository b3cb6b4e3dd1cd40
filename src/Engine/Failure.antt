-- ===== src/Engine/Failure.antt =====
-- src/engine.rs: what `run_step` appends for a failed last attempt, on the SQLite store, whose calls
-- do not fail here.
use agentq.Prelude.{
  ℕ, ◌≤◌, ◌≡◌, refl, ap, ◌∙◌, false, List, [], ◌∷◌, ◌++◌, append_assoc, Option, none, some, ok, ltb,
  if◌then◌else◌,
}
use agentq.Text.{Text, text_eq_refl}
use agentq.Event.{Event, step_failed, workflow_failed}
use agentq.Job.{Job, Outcome}
use agentq.Workflow.{Duration, SystemTime, StepDef}
use agentq.Queue.{Map}
use agentq.Engine.Reasons.{parse_waiting_reason, parse_non_retryable_reason}
use agentq.Engine.State.{
  RunningWorkflow, WorkflowEngine, EngineError, StepOutcome, Turn, World, Async, returned, failed,
  continue, fail, ◌>>=◌, ◌>>◌,
}
use agentq.Engine.Step.{append, give_up, retry, on_failed, on_outcome, next_attempt}
use agentq.Engine.Cancel.{world_of}
use agentq.Sqlite.Codec.{event_workflow_id, usize_max}
use agentq.Sqlite.Codec.RoundTrip.{FitsTypes}
use agentq.Sqlite.Table.{Tables}
use agentq.Sqlite.Connection.{SqliteStore, healthy}
use agentq.Sqlite.Log.{load_events}
use agentq.Sqlite.Log.Load.{load_events-append_event}
use agentq.Sqlite.Log.Project.{appended, append_event-appended}
use agentq.Sqlite.Lease.{sqlite_durable_store}

-- The reason that the events of a failure hold, without the marker of a `NonRetryable`.
unfoldable pub stripped_reason : Text → Option Text → Text
stripped_reason reason none = reason
stripped_reason reason (some stripped) = stripped

module _ (show : Duration → Text) (engine : WorkflowEngine) (now : SystemTime) (pushed : List Job)
    (turns : List (Turn SqliteStore)) (w : Text) (i : ℕ) where
  abbrev at : Tables → Map RunningWorkflow → World SqliteStore
  at t mounted = world_of show engine now pushed turns t mounted

  append-appended :
      (e : Event) (t : Tables) (mounted : Map RunningWorkflow)
      → append sqlite_durable_store show engine w i e (at t mounted)
        ≡ (returned tt, at (appended now e t) mounted)
  unfolding append sqlite_durable_store
  append-appended e t mounted = rw (append_event-appended e t now) refl

  append-then :
      {A : Type 0} (e : Event) (t : Tables) (mounted : Map RunningWorkflow)
      (f : Unit {0} → Async SqliteStore A)
      → (append sqlite_durable_store show engine w i e >>= f) (at t mounted)
        ≡ f tt (at (appended now e t) mounted)
  append-then e t mounted f = ap (λ p. continue p.0 f p.1) (append-appended e t mounted)

  log-appended :
      (e : Event) (t : Tables) (es : List Event)
      → FitsTypes e
      → event_workflow_id e ≡ w
      → (load_events w (healthy t now)).0 ≡ ok es
      → (load_events w (healthy (appended now e t) now)).0 ≡ ok (es ++ e ∷ [])
  log-appended e t es fits own h =
      let l = load_events-append_event e t now w es fits h in
      rw (append_event-appended, own, text_eq_refl w) at l

  -- The tables behind the two events of a failed workflow.
  failed_tables : Text → Tables → Tables
  failed_tables reason t =
      appended now (workflow_failed w reason) (appended now (step_failed w i reason) t)

  log-failed_tables :
      (reason : Text) (t : Tables) (es : List Event)
      → i ≤ usize_max
      → (load_events w (healthy t now)).0 ≡ ok es
      → (load_events w (healthy (failed_tables reason t) now)).0
        ≡ ok (es ++ step_failed w i reason ∷ workflow_failed w reason ∷ [])
  unfolding failed_tables event_workflow_id
  log-failed_tables reason t es fits h =
      log-appended (workflow_failed w reason) (appended now (step_failed w i reason) t)
        (es ++ step_failed w i reason ∷ []) tt refl
        (log-appended (step_failed w i reason) t es fits refl h)
      ∙ ap ok (append_assoc es (step_failed w i reason ∷ []) (workflow_failed w reason ∷ []))

  module _ (step : StepDef) (turn : Turn SqliteStore) (again : ℕ → Async SqliteStore StepOutcome)
      (a : ℕ) (last : ltb (next_attempt a) step.retry_policy.max_attempts ≡ false) where
    no_retry :
        (m n : Async SqliteStore StepOutcome) (v : World SqliteStore)
        → (if ltb (next_attempt a) step.retry_policy.max_attempts then m else n) v ≡ n v
    no_retry m n v = rw last refl

    on_failed-last :
        (reason : Text) (non : Option Text) (t : Tables) (mounted : Map RunningWorkflow)
        → on_failed sqlite_durable_store show engine w i step turn again a reason none non
            (at t mounted)
          ≡ (
            failed (EngineError.workflow_failed (stripped_reason reason non)),
            at (failed_tables (stripped_reason reason non) t) mounted,
          )
    unfolding on_failed give_up stripped_reason failed_tables
    on_failed-last reason none t mounted =
        let t1 = appended now (step_failed w i reason) t in
        append-then (step_failed w i reason) t mounted (λ u.
          if ltb (next_attempt a) step.retry_policy.max_attempts
          then retry sqlite_durable_store show engine w i step turn again a
          else give_up sqlite_durable_store show engine w i reason)
        ∙ no_retry (retry sqlite_durable_store show engine w i step turn again a)
            (give_up sqlite_durable_store show engine w i reason) (at t1 mounted)
        ∙ append-then (workflow_failed w reason) t1 mounted
            (λ u. fail (EngineError.workflow_failed reason))
    on_failed-last reason (some stripped) t mounted =
        let t1 = appended now (step_failed w i stripped) t in
        append-then (step_failed w i stripped) t mounted (λ u.
          append sqlite_durable_store show engine w i (workflow_failed w stripped)
          >> fail (EngineError.workflow_failed stripped))
        ∙ append-then (workflow_failed w stripped) t1 mounted
            (λ u. fail (EngineError.workflow_failed stripped))

    -- When the last attempt of a step fails, and the step does not ask to wait, `run_step` fails the
    -- workflow: whatever the log holds, it gets a `StepFailed` and a `WorkflowFailed` with the reason
    -- without its marker, and the error holds the same reason. This is so also for a log that has a
    -- terminal event, as that of a workflow that was cancelled while the attempt ran. No call of the
    -- store fails, and the step index fits `usize`.
    pub on_outcome-last :
        (reason : Text) (t : Tables) (mounted : Map RunningWorkflow) (es : List Event)
        → i ≤ usize_max
        → parse_waiting_reason reason ≡ none
        → (load_events w (healthy t now)).0 ≡ ok es
        → (r : Text) × (w' : World SqliteStore) × (r
            ≡ stripped_reason reason (parse_non_retryable_reason reason))
          × (on_outcome sqlite_durable_store show engine w i step turn again a
                (Outcome.failed reason)
                (world_of show engine now pushed turns t mounted)
              ≡ (failed (EngineError.workflow_failed r), w'))
          × ((load_events w w'.shared.db).0
              ≡ ok (es ++ step_failed w i r ∷ workflow_failed w r ∷ []))
    unfolding on_outcome
    on_outcome-last reason t mounted es fits plain h =
        let r = stripped_reason reason (parse_non_retryable_reason reason) in
        (
          r,
          at (failed_tables r t) mounted,
          refl,
          rw plain (on_failed-last reason (parse_non_retryable_reason reason) t mounted),
          log-failed_tables r t es fits h,
        )
