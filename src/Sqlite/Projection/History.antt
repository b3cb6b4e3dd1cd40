-- ===== src/Sqlite/Projection/History.antt =====
-- The same through any history of the store's methods.
use agentq.Prelude.{ℕ, subst, ◌≡◌, refl, sym, ap, ◌∙◌, inr, List, [], ◌∷◌, none, ok}
use agentq.Text.{Text}
use agentq.Event.{Event}
use agentq.Workflow.{SystemTime, Duration}
use agentq.Engine.Replay.{step_status_from_events}
use agentq.Sqlite.Codec.RoundTrip.{FitsTypes}
use agentq.Sqlite.Table.{Tables, select_events, select_step}
use agentq.Sqlite.Connection.{SqliteStore, healthy}
use agentq.Sqlite.Log.{append_event, load_events}
use agentq.Sqlite.Log.Project.{appended, append_event-appended}
use agentq.Sqlite.Log.Load.{decode_all, load_events-decode_all}
use agentq.Sqlite.Lease.{claim_step, renew_lease}
use agentq.Sqlite.Lease.Claim.{answer, tables_after, claim_step_lem}
use agentq.Sqlite.Lease.Renew.{renewal, renew_lease_row}
use agentq.Sqlite.Projection.{Agrees, StartsUnderLease}
use agentq.Sqlite.Projection.Faithful.{
  Faithful, Faithful-appended, Faithful-after, Faithful-renewal,
}

-- A call of a method that may write, or the passing of time.
pub data Op : Type 0 where
  append : Event → Op
  claim : Text → ℕ → Text → Duration → Op
  renew : Text → ℕ → Text → Duration → Op
  wait_until : SystemTime → Op

unfoldable pub apply_op : Op → SqliteStore → SqliteStore
apply_op (append e) s = (append_event e s).1
apply_op (claim w i a ttl) s = (claim_step w i a ttl s).1
apply_op (renew w i a ttl) s = (renew_lease w i a ttl s).1
apply_op (wait_until now) s = record s { clock = now }

unfoldable pub run_ops : List Op → SqliteStore → SqliteStore
run_ops [] s = s
run_ops (op ∷ ops) s = run_ops ops (apply_op op s)

-- Each event fits its types, and a step is started only under a lease.
abbrev pub IsAllowed : Op → SqliteStore → Type 0
IsAllowed (append e) s = FitsTypes e × StartsUnderLease e s.conn.tables.steps
IsAllowed _ s = Unit

abbrev pub AllAllowed : List Op → SqliteStore → Type 0
AllAllowed [] s = Unit
AllAllowed (op ∷ ops) s = IsAllowed op s × AllAllowed ops (apply_op op s)

apply_op-Faithful :
    (op : Op) (t : Tables) (now : SystemTime)
    → IsAllowed op (healthy t now)
    → Faithful t
    → (t' : Tables) × (now' : SystemTime) × (apply_op op (healthy t now) ≡ healthy t' now')
      × Faithful t'
unfolding apply_op
apply_op-Faithful (append e) t now ok_to f = (
  appended now e t,
  now,
  ap (λ r. r.1) (append_event-appended e t now),
  Faithful-appended e t now ok_to.0 ok_to.1 f,
)
apply_op-Faithful (claim w i a ttl) t now ok_to f = (
  tables_after w i a ttl t now (answer a now (select_step w i t.steps)),
  now,
  ap (λ r. r.1) (claim_step_lem w i a ttl t now),
  Faithful-after w i a ttl t now _ f,
)
apply_op-Faithful (renew w i a ttl) t now ok_to f = (
  (renewal w i a ttl t now (select_step w i t.steps)).1,
  now,
  ap (λ r. r.1) (renew_lease_row w i a ttl t now (select_step w i t.steps) refl),
  Faithful-renewal w i a ttl t now (select_step w i t.steps) f,
)
apply_op-Faithful (wait_until later) t now ok_to f = (t, later, refl, f)

run_ops-Faithful :
    (ops : List Op) (s : SqliteStore) (t : Tables) (now : SystemTime)
    → s ≡ healthy t now
    → AllAllowed ops s
    → Faithful t
    → (t' : Tables) × (now' : SystemTime) × (run_ops ops s ≡ healthy t' now') × Faithful t'
unfolding run_ops
run_ops-Faithful [] s t now e allowed f = (t, now, e, f)
run_ops-Faithful (op ∷ ops) s t now e allowed f =
    let (t', now', e', f') = apply_op-Faithful op t now (subst (IsAllowed op) e allowed.0) f in
    run_ops-Faithful ops (apply_op op s) t' now' (ap (apply_op op) e ∙ e') allowed.1 f'

abbrev pub no_tables : Tables
no_tables = record { events = []; steps = [] }

no_tables-Faithful : Faithful no_tables
unfolding decode_all select_events select_step step_status_from_events
no_tables-Faithful = record {
  at = λ w i es h.
      let none_left : ◌≡◌ {A = List Event} [] es = cc h in
      subst (λ l. Agrees none (step_status_from_events l i)) none_left (inr refl);
}

-- From an empty store, behind any calls of `append_event`, `claim_step` and `renew_lease` at any
-- times, where the appended numbers fit their types, a `StepStarted` is appended only under a
-- lease and no call fails: the row of every step of every workflow is a lease, or holds the status
-- that replaying the workflow's stored events gives, with its output or reason.
pub run_ops-Agrees :
    (ops : List Op) (now : SystemTime) (w : Text) (i : ℕ) (es : List Event)
    → AllAllowed ops (healthy no_tables now)
    → (load_events w (run_ops ops (healthy no_tables now))).0 ≡ ok es
    → Agrees
        (select_step w i (run_ops ops (healthy no_tables now)).conn.tables.steps)
        (step_status_from_events es i)
run_ops-Agrees ops now w i es allowed h =
    let (t, later, e, f) = run_ops-Faithful ops _ no_tables now refl allowed no_tables-Faithful in
    rw e (
      f.at w i es (
        sym (ap (λ r. r.0) (load_events-decode_all t w later))
        ∙ ap (λ s. (load_events w s).0) (sym e)
        ∙ h))
