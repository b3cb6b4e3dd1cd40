-- ===== src/Sqlite/Lease.antt =====
-- src/store/sqlite.rs: claiming a step, renewing its lease, and the leases that have expired.
pub mod Claim
pub mod Exclusive
pub mod Renew
pub mod Expiry
use agentq.Prelude.{
  ℕ, ◌%◌, ◌^◌, Bool, false, not, ◌&&◌, List, [], ◌∷◌, Option, none, some, ltb_ℤ, ◌==◌,
  if◌then◌else◌,
}
use agentq.Text.{Text, codes, text_eq}
use agentq.Event.{ClaimResult, claimed, already_completed, held_by_other, already_waiting}
use agentq.Workflow.{Execution, Duration, SystemTime}
use agentq.Store.{not_found, backend, DurableStore, StoreM}
use agentq.Sqlite.Time.{lease_expiry, system_time_parts, system_time_from_parts}
use agentq.Sqlite.Table.{
  StepRecord, leased_status, completed_status, waiting_status, upsert_step, opt_text_eq,
  update_leases, select_expired,
}
use agentq.Sqlite.Connection.{
  SqliteStore, Sql, pure, fail, ◌>>=◌, ◌>>◌, call, query, execute, transaction, with_conn,
}
use agentq.Sqlite.Log.{load_step_row, append_event, load_events}

-- `row.output.clone().unwrap_or_default()`
unfoldable pub text_or_empty : Option Text → Text
text_or_empty none = []
text_or_empty (some t) = t

-- The row has a holder and an expiry, the holder is another worker, and the expiry is to come.
unfoldable pub is_held_by_other : Text → SystemTime → Option Text → Option ℕ → Option ℕ → Bool
is_held_by_other worker_id now (some holder) (some secs) (some nanos) =
    not (text_eq holder worker_id) && ltb_ℤ now (system_time_from_parts (some secs) (some nanos))
is_held_by_other worker_id now _ _ _ = false

-- The row that a claim writes.
unfoldable pub lease_row : Text → ℕ → Text → SystemTime → ℕ → StepRecord
lease_row workflow_id step_index worker_id expires_at attempt = record {
  workflow_id = workflow_id;
  step_index = step_index;
  status = leased_status;
  worker_id = some worker_id;
  expires_at_secs = some (system_time_parts expires_at).0;
  expires_at_nanos = some (system_time_parts expires_at).1;
  output = none;
  reason = none;
  attempt = attempt;
}

write_lease : Text → ℕ → Text → SystemTime → ℕ → Sql ClaimResult
unfolding execute lease_row
write_lease workflow_id step_index worker_id expires_at attempt = do
  execute (λ t. record t {
    steps = upsert_step (lease_row workflow_id step_index worker_id expires_at attempt) t.steps;
  })
  pure claimed

-- The decision of `claim_step_tx` on the row that it has loaded.
claim_row : Text → ℕ → Text → Duration → SystemTime → Option StepRecord → Sql ClaimResult
unfolding write_lease is_held_by_other text_or_empty
claim_row workflow_id step_index worker_id lease_ttl now none =
    write_lease workflow_id step_index worker_id (lease_expiry now lease_ttl) 0
claim_row workflow_id step_index worker_id lease_ttl now (some row) =
    if text_eq row.status completed_status
    then pure (already_completed (text_or_empty row.output))
    else if text_eq row.status waiting_status
    then pure already_waiting
    else if text_eq row.status leased_status
        && is_held_by_other worker_id now row.worker_id row.expires_at_secs row.expires_at_nanos
    then pure held_by_other
    else write_lease workflow_id step_index worker_id (lease_expiry now lease_ttl) row.attempt

unfoldable pub claim_step_tx : Text → ℕ → Text → Duration → SystemTime → Sql ClaimResult
unfolding load_step_row claim_row
claim_step_tx workflow_id step_index worker_id lease_ttl now = do
  row ← load_step_row workflow_id step_index
  claim_row workflow_id step_index worker_id lease_ttl now row

unfoldable pub claim_step : Text → ℕ → Text → Duration → StoreM SqliteStore ClaimResult
unfolding with_conn transaction claim_step_tx
claim_step workflow_id step_index worker_id lease_ttl s =
    with_conn (transaction (claim_step_tx workflow_id step_index worker_id lease_ttl s.clock)) s

-- The `UPDATE` of `renew_lease`, and the check of the number of rows that it changed.
renew_update : Text → ℕ → Text → ℕ × ℕ → Sql (Unit {0})
unfolding call update_leases
renew_update workflow_id step_index worker_id parts = do
  updated ← call (λ t.
      let r = update_leases workflow_id step_index worker_id parts.0 parts.1 t.steps in
      (r.1, record t { steps = r.0 }))
  if updated == 0 then fail (backend (codes "lease not held by worker")) else pure tt

renew_row : Text → ℕ → Text → SystemTime → Option StepRecord → Sql (Unit {0})
unfolding renew_update opt_text_eq
renew_row workflow_id step_index worker_id expires_at none = fail not_found
renew_row workflow_id step_index worker_id expires_at (some row) =
    if text_eq row.status leased_status && opt_text_eq row.worker_id worker_id
    then renew_update workflow_id step_index worker_id (system_time_parts expires_at)
    else fail (backend (codes "lease not held by worker"))

unfoldable pub renew_lease : Text → ℕ → Text → Duration → StoreM SqliteStore (Unit {0})
unfolding with_conn transaction load_step_row renew_row
renew_lease workflow_id step_index worker_id lease_ttl s =
    with_conn
      (transaction (do
        row ← load_step_row workflow_id step_index
        renew_row workflow_id step_index worker_id (lease_expiry s.clock lease_ttl) row))
      s

-- A row of `expired_leases` as an `Execution`.
unfoldable pub row_execution : StepRecord → Execution
unfolding text_or_empty
row_execution r = record {
  workflow_id = r.workflow_id;
  step_index = r.step_index;
  attempt = r.attempt % 2 ^ 32;
  worker_id = text_or_empty r.worker_id;
  lease_expires_at = system_time_from_parts r.expires_at_secs r.expires_at_nanos;
}

unfoldable pub fetch_executions : List StepRecord → Sql (List Execution)
unfolding query
fetch_executions [] = pure []
fetch_executions (row ∷ rows) = do
  query (λ _. tt)
  rest ← fetch_executions rows
  pure (row_execution row ∷ rest)

unfoldable pub expired_leases : StoreM SqliteStore (List Execution)
unfolding with_conn query fetch_executions
expired_leases s =
    let (now_secs, now_nanos) = system_time_parts s.clock in
    with_conn
      (do
        query (λ _. tt)
        rows ← query (λ t. select_expired now_secs now_nanos t.steps)
        fetch_executions rows)
      s

-- `impl DurableStore for SqliteStore`
unfoldable pub sqlite_durable_store : DurableStore SqliteStore
sqlite_durable_store = record {
  append_event = append_event;
  load_events = load_events;
  claim_step = claim_step;
  renew_lease = renew_lease;
  expired_leases = expired_leases;
}
