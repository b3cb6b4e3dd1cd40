-- ===== src/Sqlite/Lease/Claim.antt =====
-- What `claim_step` answers and writes, when no call fails.
use agentq.Prelude.{
  ℕ, ◌≡◌, refl, not, ◌&&◌, Option, none, some, ok, arith, ltb_ℤ, if◌then◌else◌, pos,
}
use agentq.Text.{Text, text_eq}
use agentq.Event.{ClaimResult, claimed, already_completed, held_by_other, already_waiting}
use agentq.Workflow.{Duration, SystemTime}
use agentq.Sqlite.Time.{
  lease_expiry, checked_add, expiry_nanos, system_time_from_parts-system_time_parts,
}
use agentq.Sqlite.Table.{
  StepRecord, Tables, leased_status, completed_status, waiting_status, select_step, upsert_step,
}
use agentq.Sqlite.Table.Laws.{select_step-upsert_step_self}
use agentq.Sqlite.Connection.{healthy}
use agentq.Sqlite.Log.Project.{stored_attempt}
use agentq.Sqlite.Lease.{claim_step, lease_row, is_held_by_other, text_or_empty}

-- The answer to a claim by the step's row, in the order of the tests.
unfoldable pub answer : Text → SystemTime → Option StepRecord → ClaimResult
answer worker_id now none = claimed
answer worker_id now (some r) =
    if text_eq r.status completed_status
    then already_completed (text_or_empty r.output)
    else if text_eq r.status waiting_status
    then already_waiting
    else if text_eq r.status leased_status
        && is_held_by_other worker_id now r.worker_id r.expires_at_secs r.expires_at_nanos
    then held_by_other
    else claimed

module _ (w : Text) (i : ℕ) (worker_id : Text) (ttl : Duration) (t : Tables)
    (now : SystemTime) where
  -- The tables after a claim that was granted.
  unfoldable pub granted : Tables
  granted = record t {
    steps =
        upsert_step (lease_row w i worker_id (lease_expiry now ttl) (stored_attempt w i t.steps))
          t.steps;
  }

  unfoldable pub tables_after : ClaimResult → Tables
  tables_after claimed = granted
  tables_after (already_completed _) = t
  tables_after held_by_other = t
  tables_after already_waiting = t

  claim_step_row :
      (row : Option StepRecord)
      → select_step w i t.steps ≡ row
      → claim_step w i worker_id ttl (healthy t now)
        ≡ (ok (answer worker_id now row), healthy (tables_after (answer worker_id now row)) now)
  unfolding claim_step answer tables_after granted stored_attempt
  claim_step_row none e = ground (arith, e)
  claim_step_row (some r) e = ground (arith, e)

  -- A claim that is not granted writes nothing.
  pub claim_step_lem : claim_step w i worker_id ttl (healthy t now) ≡ (
    ok (answer worker_id now (select_step w i t.steps)),
    healthy (tables_after (answer worker_id now (select_step w i t.steps))) now,
  )
  claim_step_lem = claim_step_row (select_step w i t.steps) refl

  pub select_step-granted :
      select_step w i granted.steps
      ≡ some (lease_row w i worker_id (lease_expiry now ttl) (stored_attempt w i t.steps))
  unfolding granted lease_row
  select_step-granted =
      select_step-upsert_step_self
        (lease_row w i worker_id (lease_expiry now ttl) (stored_attempt w i t.steps)) t.steps

-- The answer on a row that a claim wrote, at any later clock.
pub answer-lease_row :
    (w : Text) (i : ℕ) (a b : Text) (expiry attempt : ℕ) (later : SystemTime)
    → answer b later (some (lease_row w i a (pos expiry) attempt))
      ≡ (if not (text_eq a b) && ltb_ℤ later (pos expiry) then held_by_other else claimed)
unfolding answer lease_row is_held_by_other text_eq
answer-lease_row w i a b expiry attempt later = rw (system_time_from_parts-system_time_parts expiry)

-- A lease time behind a clock at or after the epoch is at or after the epoch.
pub lease_expiry-pos :
    (n : ℕ) (ttl : Duration) → lease_expiry (pos n) ttl ≡ pos (expiry_nanos n ttl)
unfolding lease_expiry checked_add expiry_nanos
lease_expiry-pos n ttl = ground arith
