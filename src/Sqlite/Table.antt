-- ===== src/Sqlite/Table.antt =====
-- src/store/sqlite.rs: the tables `events` and `steps`, and what each SQL statement does to them.
-- The rows of `events` stand in the order of their ids. An `i64` column holds its bit pattern.
pub mod Laws
pub mod Keys
use agentq.Prelude.{
  ℕ, zero, suc, Bool, true, false, ◌&&◌, ◌||◌, List, [], ◌∷◌, ◌++◌, Option, none, some, ltb, leb,
  ◌==◌, if◌then◌else◌, map,
}
use agentq.Text.{Text, codes, text_eq}

pub record EventRecord : Type 0 where
  pub workflow_id : Text
  pub payload : Text
  pub ts_millis : ℕ

pub record StepRecord : Type 0 where
  pub workflow_id : Text
  pub step_index : ℕ
  pub status : Text
  pub worker_id : Option Text
  pub expires_at_secs : Option ℕ
  pub expires_at_nanos : Option ℕ
  pub output : Option Text
  pub reason : Option Text
  pub attempt : ℕ

pub record Tables : Type 0 where
  pub events : List EventRecord
  pub steps : List StepRecord

abbrev pub leased_status : Text
leased_status = codes "leased"

abbrev pub pending_status : Text
pending_status = codes "pending"

abbrev pub completed_status : Text
completed_status = codes "completed"

abbrev pub failed_status : Text
failed_status = codes "failed"

abbrev pub waiting_status : Text
waiting_status = codes "waiting"

-- `INSERT INTO events (workflow_id, payload, ts_millis) VALUES …`
unfoldable pub insert_event : EventRecord → Tables → Tables
insert_event r t = record t { events = t.events ++ r ∷ [] }

-- `SELECT … FROM events WHERE workflow_id = ?1 ORDER BY id ASC`
unfoldable pub select_events : Text → List EventRecord → List EventRecord
select_events workflow_id [] = []
select_events workflow_id (r ∷ rs) =
    let rest = select_events workflow_id rs in
    if text_eq r.workflow_id workflow_id then r ∷ rest else rest

-- `WHERE workflow_id = ?1 AND step_index = ?2`
unfoldable pub is_step : Text → ℕ → StepRecord → Bool
is_step workflow_id step_index r = text_eq r.workflow_id workflow_id && r.step_index == step_index

-- `SELECT … FROM steps WHERE workflow_id = ?1 AND step_index = ?2`, at most one row by the key
unfoldable pub select_step : Text → ℕ → List StepRecord → Option StepRecord
unfolding is_step
select_step workflow_id step_index [] = none
select_step workflow_id step_index (r ∷ rs) =
    if is_step workflow_id step_index r then some r else select_step workflow_id step_index rs

-- `INSERT INTO steps … ON CONFLICT(workflow_id, step_index) DO UPDATE SET` every other column
unfoldable pub upsert_step : StepRecord → List StepRecord → List StepRecord
unfolding is_step
upsert_step new [] = new ∷ []
upsert_step new (r ∷ rs) =
    if is_step new.workflow_id new.step_index r then new ∷ rs else r ∷ upsert_step new rs

unfoldable pub opt_text_eq : Option Text → Text → Bool
opt_text_eq none t = false
opt_text_eq (some s) t = text_eq s t

-- `… AND status = 'leased' AND worker_id = ?5`
unfoldable pub is_lease_of : Text → ℕ → Text → StepRecord → Bool
unfolding is_step opt_text_eq
is_lease_of workflow_id step_index worker_id r =
    is_step workflow_id step_index r
    && text_eq r.status leased_status
    && opt_text_eq r.worker_id worker_id

-- The row under `UPDATE steps SET expires_at_secs = ?1, expires_at_nanos = ?2`.
unfoldable pub extend_lease : ℕ → ℕ → StepRecord → StepRecord
extend_lease secs nanos r = record r { expires_at_secs = some secs; expires_at_nanos = some nanos }

-- The rows after the `UPDATE` of `renew_lease`, and how many it changed.
unfoldable pub update_leases : Text → ℕ → Text → ℕ → ℕ → List StepRecord → List StepRecord × ℕ
unfolding is_lease_of extend_lease
update_leases workflow_id step_index worker_id secs nanos [] = ([], 0)
update_leases workflow_id step_index worker_id secs nanos (r ∷ rs) =
    let rest = update_leases workflow_id step_index worker_id secs nanos rs in
    if is_lease_of workflow_id step_index worker_id r
    then (extend_lease secs nanos r ∷ rest.0, suc rest.1)
    else (r ∷ rest.0, rest.1)

opt_before : ℕ → ℕ → Option ℕ → Option ℕ → Bool
opt_before now_secs now_nanos (some secs) (some nanos) =
    ltb secs now_secs || (secs == now_secs && leb nanos now_nanos)
opt_before now_secs now_nanos (some secs) none = ltb secs now_secs
opt_before now_secs now_nanos none nanos = false

is_some : Option Text → Bool
is_some none = false
is_some (some t) = true

-- The `WHERE` of `expired_leases`: a comparison with NULL holds for no row.
unfoldable pub is_expired : ℕ → ℕ → StepRecord → Bool
unfolding opt_before is_some
is_expired now_secs now_nanos r =
    text_eq r.status leased_status
    && is_some r.worker_id
    && opt_before now_secs now_nanos r.expires_at_secs r.expires_at_nanos

unfoldable pub select_expired : ℕ → ℕ → List StepRecord → List StepRecord
unfolding is_expired
select_expired now_secs now_nanos [] = []
select_expired now_secs now_nanos (r ∷ rs) =
    let rest = select_expired now_secs now_nanos rs in
    if is_expired now_secs now_nanos r then r ∷ rest else rest
