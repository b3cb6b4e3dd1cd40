-- ===== src/Sqlite/Log.antt =====
-- src/store/sqlite.rs: the event log, `append_event` with its projection into `steps`, and
-- `load_events`.
pub mod Project
pub mod Load
pub mod Atomic
use agentq.Prelude.{ℕ, List, [], ◌∷◌, Option, none, some, Result, ok, err}
use agentq.Text.{Text}
use agentq.Event.{
  Event, workflow_started, step_started, step_completed, step_failed, retry_scheduled, step_waiting,
  step_resumed, workflow_completed, workflow_failed, workflow_cancelled, worker_recovered,
}
use agentq.Workflow.{SystemTime}
use agentq.Store.{StoreError, StoreM}
use agentq.Sqlite.Codec.{encode_event, decode_event, event_workflow_id}
use agentq.Sqlite.Time.{timestamp_millis}
use agentq.Sqlite.Table.{
  EventRecord, StepRecord, pending_status, completed_status, failed_status, waiting_status,
  insert_event, select_events, select_step, upsert_step,
}
use agentq.Sqlite.Connection.{
  SqliteStore, Sql, pure, fail, ◌>>=◌, ◌>>◌, query, execute, transaction, with_conn,
}

unwrap_or {ℓ} : {A : Type ℓ} → A → Option A → A
unwrap_or d none = d
unwrap_or d (some a) = a

row_attempt : Option StepRecord → Option ℕ
row_attempt none = none
row_attempt (some r) = some r.attempt

unfoldable pub current_attempt : Text → ℕ → Sql (Option ℕ)
unfolding query row_attempt
current_attempt workflow_id step_index =
    query (λ t. row_attempt (select_step workflow_id step_index t.steps))

unfoldable pub load_step_row : Text → ℕ → Sql (Option StepRecord)
unfolding query
load_step_row workflow_id step_index = query (λ t. select_step workflow_id step_index t.steps)

attempt_value : Text → ℕ → Option ℕ → Sql ℕ
unfolding current_attempt unwrap_or
attempt_value workflow_id step_index (some a) = pure a
attempt_value workflow_id step_index none = do
  a ← current_attempt workflow_id step_index
  pure (unwrap_or 0 a)

-- All its callers pass no worker and no expiry, so those columns are set to NULL.
unfoldable pub upsert_step_status :
    Text
    → ℕ
    → Text
    → Option Text
    → Option ℕ
    → Option ℕ
    → Option Text
    → Option Text
    → Option ℕ
    → Sql (Unit {0})
unfolding attempt_value execute
upsert_step_status workflow_id step_index status worker_id secs nanos output reason attempt = do
  attempt_val ← attempt_value workflow_id step_index attempt
  execute (λ t. record t {
    steps =
        upsert_step
          (record {
            workflow_id = workflow_id;
            step_index = step_index;
            status = status;
            worker_id = worker_id;
            expires_at_secs = secs;
            expires_at_nanos = nanos;
            output = output;
            reason = reason;
            attempt = attempt_val;
          })
          t.steps;
  })

unfoldable pub apply_event_projection : Event → Sql (Unit {0})
unfolding upsert_step_status current_attempt unwrap_or
apply_event_projection (workflow_started _) = pure tt
apply_event_projection (step_started _ _ _) = pure tt
apply_event_projection (step_completed workflow_id step_index output) =
    upsert_step_status workflow_id step_index completed_status none none none (some output) none
      none
apply_event_projection (step_failed workflow_id step_index reason) = do
  attempt ← current_attempt workflow_id step_index
  upsert_step_status workflow_id step_index failed_status none none none none (some reason)
      (some (unwrap_or 0 attempt))
apply_event_projection (retry_scheduled workflow_id step_index attempt) =
    upsert_step_status workflow_id step_index pending_status none none none none none (some attempt)
apply_event_projection (step_waiting workflow_id step_index reason) =
    upsert_step_status workflow_id step_index waiting_status none none none none (some reason) none
apply_event_projection (step_resumed workflow_id step_index _) = do
  attempt ← current_attempt workflow_id step_index
  upsert_step_status workflow_id step_index pending_status none none none none none
      (some (unwrap_or 0 attempt))
apply_event_projection (worker_recovered workflow_id step_index) = do
  attempt ← current_attempt workflow_id step_index
  upsert_step_status workflow_id step_index pending_status none none none none none
      (some (unwrap_or 0 attempt))
apply_event_projection (workflow_completed _) = pure tt
apply_event_projection (workflow_failed _ _) = pure tt
apply_event_projection (workflow_cancelled _ _) = pure tt

-- The body of the transaction of `append_event`.
unfoldable pub append_event_tx : SystemTime → Event → Sql (Unit {0})
unfolding execute apply_event_projection
append_event_tx now event = do
  execute (
      insert_event (record {
        workflow_id = event_workflow_id event;
        payload = encode_event event;
        ts_millis = timestamp_millis now;
      }))
  apply_event_projection event

unfoldable pub append_event : Event → StoreM SqliteStore (Unit {0})
unfolding with_conn transaction append_event_tx
append_event event s = with_conn (transaction (append_event_tx s.clock event)) s

decoded : Result StoreError Event → Sql Event
decoded (ok e) = pure e
decoded (err e) = fail e

-- The loop over the rows of a query: each row is fetched by a call and then decoded.
unfoldable pub fetch_events : List EventRecord → Sql (List (Event × ℕ))
unfolding query decoded
fetch_events [] = pure []
fetch_events (row ∷ rows) = do
  query (λ _. tt)
  event ← decoded (decode_event row.payload)
  rest ← fetch_events rows
  pure ((event, row.ts_millis) ∷ rest)

-- `prepare` and `query_map`, then the loop.
unfoldable pub load_events_with_timestamps : Text → StoreM SqliteStore (List (Event × ℕ))
unfolding with_conn fetch_events query
load_events_with_timestamps workflow_id =
    with_conn (do
      query (λ _. tt)
      rows ← query (λ t. select_events workflow_id t.events)
      fetch_events rows)

-- The loop of `load_events`.
unfoldable pub fetch_payloads : List EventRecord → Sql (List Event)
unfolding query decoded
fetch_payloads [] = pure []
fetch_payloads (row ∷ rows) = do
  query (λ _. tt)
  event ← decoded (decode_event row.payload)
  rest ← fetch_payloads rows
  pure (event ∷ rest)

unfoldable pub load_events : Text → StoreM SqliteStore (List Event)
unfolding with_conn fetch_payloads query
load_events workflow_id = with_conn (do
  query (λ _. tt)
  rows ← query (λ t. select_events workflow_id t.events)
  fetch_payloads rows)
