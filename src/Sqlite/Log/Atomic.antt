-- ===== src/Sqlite/Log/Atomic.antt =====
-- `append_event` writes both tables or neither.
use agentq.Prelude.{ℕ, Option, none, some}
use agentq.Text.{Text}
use agentq.Event.{
  Event, step_completed, step_failed, retry_scheduled, step_waiting, step_resumed, worker_recovered,
}
use agentq.Workflow.{SystemTime}
use agentq.Sqlite.Table.{Tables, insert_event, upsert_step, select_step}
use agentq.Sqlite.Connection.{SqliteStore, ◌>>=◌}
use agentq.Sqlite.Connection.Atomic.{
  Runs, Runs-pure, Runs-execute, Runs-query, Runs-bind, AllOrNothing, with_conn-AllOrNothing,
}
use agentq.Sqlite.Log.{
  append_event, append_event_tx, unwrap_or, row_attempt, apply_event_projection, current_attempt,
  upsert_step_status,
}
use agentq.Sqlite.Log.Project.{appended, project, event_record, status_row, stored_attempt}

module _ (w : Text) (i : ℕ) (status : Text) (output reason : Option Text) where
  abbrev write_status : ℕ → Tables → Tables
  write_status a t = record t {
    steps = upsert_step (status_row w i status output reason a) t.steps;
  }

  -- The attempt is given, or read from the row first.
  upsert_given-Runs :
      (a : ℕ)
      → Runs
          (upsert_step_status w i status none none none output reason (some a))
          (λ t. (tt, write_status a t))
  unfolding upsert_step_status status_row
  upsert_given-Runs a =
      Runs-bind (λ t. (a, t)) (λ b t. (tt, write_status b t)) (Runs-pure a)
        (λ b. Runs-execute (write_status b))

  upsert_kept-Runs :
      Runs
        (upsert_step_status w i status none none none output reason none)
        (λ t. (tt, write_status (stored_attempt w i t.steps) t))
  unfolding upsert_step_status status_row stored_attempt current_attempt
  upsert_kept-Runs =
      Runs-bind (λ t. (stored_attempt w i t.steps, t)) (λ b t. (tt, write_status b t))
        (Runs-bind (λ t. (row_attempt (select_step w i t.steps), t)) (λ a t. (unwrap_or 0 a, t))
          (Runs-query (λ t. row_attempt (select_step w i t.steps)))
          (λ a. Runs-pure (unwrap_or 0 a)))
        (λ b. Runs-execute (write_status b))

  -- `current_attempt` first, and then the upsert with it.
  upsert_current-Runs :
      Runs
        (do
          attempt ← current_attempt w i
          upsert_step_status w i status none none none output reason (some (unwrap_or 0 attempt)))
        (λ t. (tt, write_status (stored_attempt w i t.steps) t))
  unfolding stored_attempt current_attempt
  upsert_current-Runs =
      Runs-bind (λ t. (row_attempt (select_step w i t.steps), t))
        (λ a t. (tt, write_status (unwrap_or 0 a) t))
        (Runs-query (λ t. row_attempt (select_step w i t.steps)))
        (λ a. upsert_given-Runs (unwrap_or 0 a))

projection-Runs :
    (event : Event)
    → Runs (apply_event_projection event) (λ t. (tt, record t { steps = project event t.steps }))
unfolding apply_event_projection project current_attempt
projection-Runs (step_completed w i output) = upsert_kept-Runs w i _ _ _
projection-Runs (step_failed w i reason) = upsert_current-Runs w i _ _ _
projection-Runs (retry_scheduled w i attempt) = upsert_given-Runs w i _ _ _ attempt
projection-Runs (step_waiting w i reason) = upsert_kept-Runs w i _ _ _
projection-Runs (step_resumed w i _) = upsert_current-Runs w i _ _ _
projection-Runs (worker_recovered w i) = upsert_current-Runs w i _ _ _
projection-Runs _ = Runs-pure tt

append_event_tx-Runs :
    (event : Event) (now : SystemTime)
    → Runs (append_event_tx now event) (λ t. (tt, appended now event t))
unfolding append_event_tx appended event_record insert_event
append_event_tx-Runs event now =
    Runs-bind (λ t. (tt, insert_event (event_record now event) t))
      (λ _ t. (tt, record t { steps = project event t.steps }))
      (Runs-execute (insert_event (event_record now event))) (λ _. projection-Runs event)

-- Whatever rusqlite answers and whether the lock is poisoned, `append_event` either succeeds with
-- the event in the log and its projection in `steps`, or fails and leaves both tables as they were.
pub append_event-AllOrNothing :
    (event : Event) (s : SqliteStore)
    → AllOrNothing
        (λ t. (tt, appended s.clock event t))
        s.conn.tables
        (append_event event s).0
        (append_event event s).1.conn.tables
unfolding append_event
append_event-AllOrNothing event s = with_conn-AllOrNothing _ s (append_event_tx-Runs event s.clock)
