-- ===== src/Mem.antt =====
-- src/recovery.rs: the in-memory store of the tests, a second implementation of `DurableStore`. Its
-- hash map is an association list, since `expired_leases` goes through it.
pub mod EventsOnly
pub mod Spec
use agentq.Prelude.{
  ℕ, Bool, not, ◌&&◌, List, [], ◌∷◌, ◌++◌, Option, none, some, Result, ok, if◌then◌else◌, ◌==◌,
  ltb_ℤ,
}
use agentq.Text.{Text, text_eq}
use agentq.Event.{
  Event, ClaimResult, claimed, already_completed, held_by_other, already_waiting, step_completed,
  worker_recovered,
}
use agentq.Workflow.{
  Duration, SystemTime, Execution, StepStatus, pending, leased, completed, failed, waiting,
}
use agentq.Store.{StoreError, StoreM, DurableStore}
use agentq.Sqlite.Codec.{event_workflow_id}
use agentq.Sqlite.Time.{lease_expiry}

pub record StepProjection : Type 0 where
  pub status : StepStatus
  pub attempt : ℕ

pub record StepEntry : Type 0 where
  pub workflow_id : Text
  pub step_index : ℕ
  pub projection : StepProjection

pub record MemStore : Type 0 where
  pub events : List Event
  pub steps : List StepEntry
  pub clock : SystemTime

unfoldable pub new : SystemTime → MemStore
new now = record { events = []; steps = []; clock = now }

unfoldable pub is_entry : Text → ℕ → StepEntry → Bool
is_entry w i r = text_eq r.workflow_id w && r.step_index == i

-- `steps.get(&key)` and `steps.insert(key, projection)`
unfoldable pub get : Text → ℕ → List StepEntry → Option StepProjection
unfolding is_entry
get w i [] = none
get w i (r ∷ rs) = let rest = get w i rs in if is_entry w i r then some r.projection else rest

unfoldable pub step_status : Text → ℕ → MemStore → Option StepStatus
unfolding get
step_status w i s = elim (get w i s.steps) [ none ↦ none | some row ↦ some row.status ]

unfoldable pub put : Text → ℕ → StepProjection → List StepEntry → List StepEntry
unfolding is_entry
put w i p [] = record { workflow_id = w; step_index = i; projection = p } ∷ []
put w i p (r ∷ rs) =
    let rest = put w i p rs in if is_entry w i r then record r { projection = p } ∷ rs else r ∷ rest

unfoldable pub set_pending : Text → ℕ → Option StepProjection → List StepEntry → List StepEntry
unfolding put
set_pending w i none steps = steps
set_pending w i (some row) steps = put w i (record row { status = StepStatus.pending }) steps

unfoldable pub project : Event → List StepEntry → List StepEntry
unfolding get put set_pending
project (worker_recovered w i) steps = set_pending w i (get w i steps) steps
project (step_completed w i output) steps =
    put w i (record { status = StepStatus.completed output; attempt = 0 }) steps
project _ steps = steps

unfoldable pub append_event : Event → StoreM MemStore (Unit {0})
unfolding project
append_event event s =
    (ok tt, record s { events = s.events ++ event ∷ []; steps = project event s.steps })

-- `filter(|e| event_workflow_id(e) == workflow_id)`
unfoldable pub events_of : Text → List Event → List Event
unfolding event_workflow_id
events_of w [] = []
events_of w (e ∷ es) =
    let rest = events_of w es in if text_eq (event_workflow_id e) w then e ∷ rest else rest

unfoldable pub load_events : Text → StoreM MemStore (List Event)
unfolding events_of
load_events w s = (ok (events_of w s.events), s)

-- The answer to a claim by the status of the step's row.
unfoldable pub claim_answer : Text → SystemTime → Option StepProjection → ClaimResult
claim_answer a now none = claimed
claim_answer a now (some row) = elim row.status [
  | StepStatus.completed output ↦ already_completed []
  | StepStatus.waiting reason ↦ already_waiting
  | leased holder expires_at ↦
      if not (text_eq holder a) && ltb_ℤ now expires_at then held_by_other else claimed
  | _ ↦ claimed
]

unfoldable pub attempt_of : Option StepProjection → ℕ
attempt_of none = 0
attempt_of (some row) = row.attempt

unfoldable pub after_answer : Text → ℕ → Text → Duration → ClaimResult → MemStore → MemStore
unfolding get put attempt_of
after_answer w i a ttl claimed s = record s {
  steps =
      put w i
        (record {
          status = leased a (lease_expiry s.clock ttl);
          attempt = attempt_of (get w i s.steps);
        })
        s.steps;
}
after_answer w i a ttl _ s = s

unfoldable pub claim_step : Text → ℕ → Text → Duration → StoreM MemStore ClaimResult
unfolding claim_answer get after_answer
claim_step w i a ttl s =
    let r = claim_answer a s.clock (get w i s.steps) in (ok r, after_answer w i a ttl r s)

unfoldable pub renew_lease : Text → ℕ → Text → Duration → StoreM MemStore (Unit {0})
renew_lease w i a ttl s = (ok tt, s)

unfoldable pub expired_entry : SystemTime → StepEntry → List Execution
expired_entry now r = elim r.projection.status [
  | leased a expires_at ↦
      if ltb_ℤ now expires_at
      then []
      else record {
        workflow_id = r.workflow_id;
        step_index = r.step_index;
        attempt = r.projection.attempt;
        worker_id = a;
        lease_expires_at = expires_at;
      }
        ∷ []
  | _ ↦ []
]

unfoldable pub expired_entries : SystemTime → List StepEntry → List Execution
unfolding expired_entry
expired_entries now [] = []
expired_entries now (r ∷ rs) = expired_entry now r ++ expired_entries now rs

unfoldable pub expired_leases : StoreM MemStore (List Execution)
unfolding expired_entries
expired_leases s = (ok (expired_entries s.clock s.steps), s)

-- `impl DurableStore for MemStore`
unfoldable pub mem_durable_store : DurableStore MemStore
mem_durable_store = record {
  append_event = append_event;
  load_events = load_events;
  claim_step = claim_step;
  renew_lease = renew_lease;
  expired_leases = expired_leases;
}
