-- ===== src/Sqlite/Spec.antt =====
-- src/store/sqlite.rs: the SQLite store gives what the engine relies on, while its lock is not
-- poisoned, no call of rusqlite fails, and every payload of the log decodes.
mod Grants
use agentq.Prelude.{
  ==_refl, ◌==◌, ◌&&◌, ℕ, ◌≡◌, refl, sym, ap, subst, true, false, List, [], ◌∷◌, ◌++◌, Option, none,
  some, Result, ok, err, if◌then◌else◌, arith, Bool-cases, inl, inr,
}
use agentq.Text.{Text, text_eq, text_eq_refl}
use agentq.Event.{
  Event, step_completed, step_failed, retry_scheduled, step_waiting, step_resumed, worker_recovered,
  ClaimResult, claimed, already_completed, held_by_other, already_waiting,
}
use agentq.Workflow.{Duration, SystemTime}
use agentq.Store.{StoreError}
use agentq.Store.Spec.{StoreSpec, StoreView, Reopens, closes}
use agentq.Sqlite.Codec.{event_workflow_id}
use agentq.Sqlite.Codec.RoundTrip.{FitsTypes}
use agentq.Sqlite.Time.{lease_expiry}
use agentq.Sqlite.Table.{
  Tables, StepRecord, is_lease_of, is_step, select_events, select_step, upsert_step, update_leases,
  extend_lease,
}
use agentq.Sqlite.Table.Laws.{select_step-upsert_step}
use agentq.Sqlite.Connection.{SqliteStore, healthy}
use agentq.Sqlite.Log.{append_event, load_events}
use agentq.Sqlite.Log.Load.{decode_all, load_events-decode_all, decode_all-appended}
use agentq.Sqlite.Log.Project.{appended, append_event-appended, stored_attempt}
use agentq.Sqlite.Lease.{claim_step, renew_lease, lease_row, is_held_by_other, sqlite_durable_store}
use agentq.Sqlite.Lease.Claim.{answer, claim_step_lem, tables_after, granted}
use agentq.Sqlite.Lease.Renew.{renew_lease_row, renewal, renewed, holds, holds-leased}
use agentq.Sqlite.Lease.Exclusive.{concerns, answer_behind, answer-appended}
use agentq.Sqlite.Spec.Grants.{
  answer-closes, tables_after-events, answer-tables_after, renewal-events, answer-renewal,
  answer-opened, own_step, claim_step-after, renew_lease-after,
}

abbrev log_of : Result StoreError (List Event) → List Event
log_of (ok es) = es
log_of (err e) = []

-- Every workflow's rows decode.
abbrev Readable : Tables → Type 0
Readable t = (w : Text) → (es : List Event) × (decode_all (select_events w t.events) ≡ ok es)

abbrev log : SqliteStore → Text → List Event
log s w = log_of (decode_all (select_events w s.conn.tables.events))

-- A claim of the step by the worker is granted at the clock of the store.
abbrev IsOpen : SqliteStore → Text → ℕ → Text → Type 0
IsOpen s w i a = answer a s.clock (select_step w i s.conn.tables.steps) ≡ claimed

abbrev Good : SqliteStore → Type 0
Good s = (s ≡ healthy s.conn.tables s.clock) × Readable s.conn.tables

-- A law holds on every good store if it holds on the stores without failures.
on_good :
    (L : SqliteStore → Type 0)
    → ((t : Tables) (now : SystemTime) → Readable t → L (healthy t now))
    → (s : SqliteStore) → Good s
    → L s
on_good L h s g = subst L (sym g.0) (h s.conn.tables s.clock g.1)

load_events-log :
    (w : Text) (t : Tables) (now : SystemTime)
    → Readable t
    → load_events w (healthy t now) ≡ (ok (log (healthy t now) w), healthy t now)
load_events-log w t now g = rw (load_events-decode_all t w now, (g w).1)

Readable-appended :
    (e : Event) (t : Tables) (now : SystemTime)
    → FitsTypes e
    → Readable t
    → Readable (appended now e t)
Readable-appended e t now fits g w = (
  if text_eq (event_workflow_id e) w then (g w).0 ++ e ∷ [] else (g w).0,
  decode_all-appended e t now w (g w).0 fits (g w).1,
)

log-appended :
    (e : Event) (t : Tables) (now : SystemTime) (w : Text)
    → FitsTypes e
    → Readable t
    → log (healthy (appended now e t) now) w ≡ (
        if text_eq (event_workflow_id e) w
        then log (healthy t now) w ++ e ∷ []
        else log (healthy t now) w)
log-appended e t now w fits g = rw (decode_all-appended e t now w (g w).0 fits (g w).1, (g w).1)

Readable-events : (t t' : Tables) → t'.events ≡ t.events → Readable t → Readable t'
Readable-events t t' e g w = ((g w).0, rw e ((g w).1))

-- What is read of a store whose log is that of another.
Good-events :
    (t t' : Tables) (now : SystemTime) (s' : SqliteStore)
    → t'.events ≡ t.events
    → Readable t
    → s' ≡ healthy t' now
    → Good s'
Good-events t t' now s' e g h = subst Good (sym h) (refl, Readable-events t t' e g)

log-events :
    (t t' : Tables) (now : SystemTime) (s' : SqliteStore) (v : Text)
    → t'.events ≡ t.events
    → s' ≡ healthy t' now
    → log s' v ≡ log (healthy t now) v
log-events t t' now s' v e h = rw (h, e)

abbrev pub sqlite_view : StoreView SqliteStore
sqlite_view = record { Good = Good; log = log; IsOpen = IsOpen }

-- The SQLite store keeps `StoreSpec`, in the states where its lock is not poisoned, no call of
-- rusqlite fails and every payload decodes: `append_event`, whose event's numbers fit their types,
-- `load_events`, and a granted `claim_step` return without an error and no call leaves these states;
-- the log of a workflow is what was appended for it, whatever else is called; and a claim that is
-- granted to a worker at the clock of the store stays granted to it at that clock until the step
-- completes or waits, through its own claims and renewals and every other append.
pub sqlite_durable_store-StoreSpec : StoreSpec sqlite_durable_store sqlite_view
unfolding sqlite_durable_store concerns answer_behind
sqlite_durable_store-StoreSpec = record {
  load_events_lem = λ w s g.
      on_good (λ s. load_events w s ≡ (ok (log s w), s)) (λ t now. load_events-log w t now) s g;
  append_event-ok = λ e s g fits.
      on_good (λ s. (append_event e s).0 ≡ ok tt)
        (λ t now r. ap (λ p. p.0) (append_event-appended e t now)) s g;
  append_event-Good = λ e s g fits.
      on_good (λ s. Good (append_event e s).1)
        (λ t now r.
          subst (λ p. Good p.1) (sym (append_event-appended e t now))
            (refl, Readable-appended e t now fits r))
        s g;
  log-append_event = λ e s w g fits.
      on_good
        (λ s.
          log (append_event e s).1 w
          ≡ (if text_eq (event_workflow_id e) w then log s w ++ e ∷ [] else log s w))
        (λ t now r. rw (append_event-appended e t now) (log-appended e t now w fits r)) s g;
  append_event-IsOpen = λ e s w i a g h.
      on_good (λ s. IsOpen s w i a → IsOpen (append_event e s).1 w i a)
        (λ t now r o. rw (append_event-appended e t now) (
          rw (answer-appended w i a 0 t now now e)
            (answer-closes w i e (answer a now (select_step w i t.steps)) h o)))
        s g;
  worker_recovered-IsOpen = λ s w i a g.
      on_good (λ s. IsOpen (append_event (worker_recovered w i) s).1 w i a)
        (λ t now r.
          rw (append_event-appended (worker_recovered w i) t now)
            (answer-opened w i a t now (worker_recovered w i) (own_step w i) refl))
        s g;
  claim_step-ok = λ w i a ttl s g.
      on_good (λ s. IsOpen s w i a → (claim_step w i a ttl s).0 ≡ ok claimed)
        (λ t now r o. rw (claim_step_lem w i a ttl t now, o)) s g;
  claim_step-Good = λ w i a ttl s g.
      on_good (λ s. Good (claim_step w i a ttl s).1)
        (λ t now r.
          Good-events t _ now _ (tables_after-events w i a ttl t now _) r
            (claim_step-after w i a ttl t now))
        s g;
  log-claim_step = λ w i a ttl s v g.
      on_good (λ s. log (claim_step w i a ttl s).1 v ≡ log s v)
        (λ t now r.
          log-events t _ now _ v (tables_after-events w i a ttl t now _)
            (claim_step-after w i a ttl t now))
        s g;
  claim_step-IsOpen = λ w i a ttl s v j g.
      on_good (λ s. IsOpen s v j a → IsOpen (claim_step w i a ttl s).1 v j a)
        (λ t now r o.
          subst (λ s. IsOpen s v j a) (sym (claim_step-after w i a ttl t now))
            (answer-tables_after w i a ttl t now v j (answer a now (select_step w i t.steps)) o))
        s g;
  renew_lease-Good = λ w i a ttl s g.
      on_good (λ s. Good (renew_lease w i a ttl s).1)
        (λ t now r.
          Good-events t _ now _ (renewal-events w i a ttl t now _) r
            (renew_lease-after w i a ttl t now))
        s g;
  log-renew_lease = λ w i a ttl s v g.
      on_good (λ s. log (renew_lease w i a ttl s).1 v ≡ log s v)
        (λ t now r.
          log-events t _ now _ v (renewal-events w i a ttl t now _)
            (renew_lease-after w i a ttl t now))
        s g;
  renew_lease-IsOpen = λ w i a ttl s v j g.
      on_good (λ s. IsOpen s v j a → IsOpen (renew_lease w i a ttl s).1 v j a)
        (λ t now r o.
          subst (λ s. IsOpen s v j a) (sym (renew_lease-after w i a ttl t now))
            (answer-renewal w i a ttl t now v j (select_step w i t.steps) o))
        s g;
}

-- On the SQLite store a step that is resumed may be claimed by any worker.
pub sqlite_durable_store-Reopens : Reopens sqlite_durable_store sqlite_view
unfolding sqlite_durable_store concerns answer_behind
sqlite_durable_store-Reopens = record {
  step_resumed-IsOpen = λ s w i input a g.
      on_good (λ s. IsOpen (append_event (step_resumed w i input) s).1 w i a)
        (λ t now r.
          rw (append_event-appended (step_resumed w i input) t now)
            (answer-opened w i a t now (step_resumed w i input) (own_step w i) refl))
        s g;
}
