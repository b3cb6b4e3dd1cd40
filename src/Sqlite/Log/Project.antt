-- ===== src/Sqlite/Log/Project.antt =====
-- `append_event` as one function on the two tables, when no call fails.
use agentq.Prelude.{ℕ, ◌≡◌, refl, List, [], ◌∷◌, ◌++◌, Option, none, some, ok}
use agentq.Text.{Text}
use agentq.Event.{
  Event, workflow_started, step_completed, step_failed, retry_scheduled, step_waiting, step_resumed,
  worker_recovered,
}
use agentq.Workflow.{SystemTime}
use agentq.Sqlite.Codec.{encode_event, event_workflow_id}
use agentq.Sqlite.Time.{timestamp_millis}
use agentq.Sqlite.Table.{
  EventRecord, StepRecord, Tables, pending_status, completed_status, failed_status, waiting_status,
  insert_event, select_step, upsert_step,
}
use agentq.Sqlite.Connection.{healthy}
use agentq.Sqlite.Log.{append_event, unwrap_or, row_attempt}

-- The row that `append_event` inserts into the log.
unfoldable pub event_record : SystemTime → Event → EventRecord
event_record now event = record {
  workflow_id = event_workflow_id event;
  payload = encode_event event;
  ts_millis = timestamp_millis now;
}

-- A row without a lease.
unfoldable pub status_row : Text → ℕ → Text → Option Text → Option Text → ℕ → StepRecord
status_row workflow_id step_index status output reason attempt = record {
  workflow_id = workflow_id;
  step_index = step_index;
  status = status;
  worker_id = none;
  expires_at_secs = none;
  expires_at_nanos = none;
  output = output;
  reason = reason;
  attempt = attempt;
}

-- The attempt that the step's row holds, or 0.
unfoldable pub stored_attempt : Text → ℕ → List StepRecord → ℕ
unfolding unwrap_or row_attempt
stored_attempt w i steps = unwrap_or 0 (row_attempt (select_step w i steps))

unfoldable pub project : Event → List StepRecord → List StepRecord
unfolding status_row stored_attempt
project (step_completed w i output) steps =
    upsert_step (status_row w i completed_status (some output) none (stored_attempt w i steps))
      steps
project (step_failed w i reason) steps =
    upsert_step (status_row w i failed_status none (some reason) (stored_attempt w i steps)) steps
project (retry_scheduled w i attempt) steps =
    upsert_step (status_row w i pending_status none none attempt) steps
project (step_waiting w i reason) steps =
    upsert_step (status_row w i waiting_status none (some reason) (stored_attempt w i steps)) steps
project (step_resumed w i _) steps =
    upsert_step (status_row w i pending_status none none (stored_attempt w i steps)) steps
project (worker_recovered w i) steps =
    upsert_step (status_row w i pending_status none none (stored_attempt w i steps)) steps
project _ steps = steps

unfoldable pub appended : SystemTime → Event → Tables → Tables
appended now event t = record {
  events = t.events ++ event_record now event ∷ [];
  steps = project event t.steps;
}

pub append_event-appended :
    (event : Event) (t : Tables) (now : SystemTime)
    → append_event event (healthy t now) ≡ (ok tt, healthy (appended now event t) now)
unfolding append_event appended event_record project insert_event
append_event-appended (workflow_started w) t now = refl
append_event-appended event t now = refl
