-- ===== src/Sqlite/Tests.antt =====
-- src/store/sqlite.rs: the theorems on the store at concrete inputs, and tests of its methods.
use agentq.Prelude.{
  true, ◌≡◌, refl, not, List, [], ◌∷◌, none, some, ok, err, ◌↔◌, arith, pos, ltb, if◌then◌else◌,
}
use agentq.Text.{Text, codes, text_eq}
use agentq.Event.{
  Event, workflow_started, step_started, step_completed, step_failed, retry_scheduled, claimed,
  held_by_other, already_completed,
}
use agentq.Workflow.{Execution}
use agentq.Store.{backend}
use agentq.Engine.Replay.{step_status_from_events}
use agentq.Sqlite.Codec.{
  encode_event, decode_event, event_workflow_id, escape_field, unescape_field,
}
use agentq.Sqlite.Codec.RoundTrip.{decode_event-encode_event}
use agentq.Sqlite.Table.{Tables, StepRecord, select_step}
use agentq.Sqlite.Connection.{ConnectionTo, SqliteStore, healthy}
use agentq.Sqlite.Connection.Atomic.{AllOrNothing}
use agentq.Sqlite.Log.{append_event, load_events}
use agentq.Sqlite.Log.Load.{load_events-append_event}
use agentq.Sqlite.Log.Project.{appended}
use agentq.Sqlite.Log.Atomic.{append_event-AllOrNothing}
use agentq.Sqlite.Time.{expiry_nanos}
use agentq.Sqlite.Lease.{claim_step, renew_lease, expired_leases}
use agentq.Sqlite.Lease.Exclusive.{
  at_time, claim_step-claim_step, claim_step-append_event, concerns, answer_behind,
}
use agentq.Sqlite.Lease.Renew.{claim_step-renew_lease, renew_lease_iff, HeldBy}
use agentq.Sqlite.Open.{Database, new}
use agentq.Sqlite.Open.Migrated.{new-new}
use agentq.Sqlite.Open.Expected.{migrated_events, migrated, has_ts_millis}
use agentq.Sqlite.Lease.Expiry.{expired_leases-claim_step, names}
use agentq.Sqlite.Projection.{Agrees}
use agentq.Sqlite.Projection.History.{
  Op, append, claim, renew, wait_until, run_ops, run_ops-Agrees, no_tables, AllAllowed,
}

abbrev wf : Text
wf = codes "wf\\1"

abbrev worker_a : Text
worker_a = codes "worker-a"

abbrev worker_b : Text
worker_b = codes "worker-b"

abbrev start : SqliteStore
start = healthy no_tables (pos 1000)

abbrev first_event : Event
first_event = step_completed wf 0 (codes "a\nb")

encode_event_lines : encode_event first_event ≡ codes "StepCompleted\nwf\\\\1\n0\na\\nb"
unfolding encode_event agentq.Text.Lines.join agentq.Sqlite.Codec.event_lines escape_field
    agentq.Text.Lines.replace agentq.Text.Decimal.decimal
encode_event_lines = refl

decode_event_unknown :
    decode_event (codes "Nope\nx") ≡ err (backend (codes "unknown event kind: Nope"))
unfolding decode_event text_eq agentq.Text.Lines.split
decode_event_unknown = refl

decode_event-encode_event_example : decode_event (encode_event first_event) ≡ ok first_event
decode_event-encode_event_example = decode_event-encode_event first_event (omega arith)

load_empty : (load_events wf start).0 ≡ ok []
unfolding load_events agentq.Sqlite.Table.select_events
load_empty = refl

load_events-append_event_example :
    (load_events wf (append_event first_event start).1).0
    ≡ ok (if text_eq (event_workflow_id first_event) wf then first_event ∷ [] else [])
load_events-append_event_example =
    load_events-append_event first_event no_tables (pos 1000) wf [] (omega arith) load_empty

-- rusqlite answers the second call, the insert, with an error.
abbrev failing : SqliteStore
failing = record start {
  conn = record { tables = no_tables; answers = none ∷ some (codes "disk I/O error") ∷ [] };
}

append_fails : (append_event first_event failing).0 ≡ err (backend (codes "disk I/O error"))
unfolding append_event
append_fails = refl

append_event-AllOrNothing_example :
    AllOrNothing
      (λ t. (tt, appended failing.clock first_event t))
      failing.conn.tables
      (append_event first_event failing).0
      (append_event first_event failing).1.conn.tables
append_event-AllOrNothing_example = append_event-AllOrNothing first_event failing

claim_granted : (claim_step wf 0 worker_a 300 start).0 ≡ ok claimed
unfolding claim_step select_step
claim_granted = refl

claim_step-claim_step_example :
    (claim_step wf 0 worker_b 300 (at_time (pos 1299) (claim_step wf 0 worker_a 300 start).1)).0
    ≡ ok held_by_other
unfolding expiry_nanos text_eq
claim_step-claim_step_example =
    claim_step-claim_step wf 0 worker_a worker_b 300 300 no_tables 1000 (pos 1299) claim_granted

claim_step-append_event_example :
    (claim_step wf 0 worker_b 300 (at_time (pos 2000) (append_event first_event start).1)).0
    ≡ ok (already_completed (codes "a\nb"))
unfolding concerns answer_behind text_eq
claim_step-append_event_example =
    claim_step-append_event wf 0 worker_b 300 no_tables (pos 1000) (pos 2000) first_event

abbrev leased_tables : Tables
leased_tables = record {
  events = [];
  steps =
      record {
        workflow_id = wf;
        step_index = 0;
        status = codes "leased";
        worker_id = some worker_a;
        expires_at_secs = some 0;
        expires_at_nanos = some 1300;
        output = none;
        reason = none;
        attempt = 0;
      }
      ∷ [];
}

renewal_granted : (renew_lease wf 0 worker_a 300 (healthy leased_tables (pos 1200))).0 ≡ ok tt
unfolding renew_lease text_eq select_step
renewal_granted = refl

claim_step-renew_lease_example :
    (claim_step wf 0 worker_b 300
      (at_time (pos 1400) (renew_lease wf 0 worker_a 300 (healthy leased_tables (pos 1200))).1)).0
    ≡ ok held_by_other
unfolding expiry_nanos text_eq
claim_step-renew_lease_example =
    claim_step-renew_lease wf 0 worker_a worker_b 300 300 leased_tables 1200 (pos 1400)
      renewal_granted

renew_lease_iff_example :
    ((renew_lease wf 0 worker_b 300 (healthy leased_tables (pos 1200))).0 ≡ ok tt)
    ↔ HeldBy worker_b (select_step wf 0 leased_tables.steps)
renew_lease_iff_example = renew_lease_iff wf 0 worker_b 300 leased_tables (pos 1200)

expired_leases-claim_step_example :
    (es : List Execution) × ((expired_leases
        (at_time (pos 1300) (claim_step wf 0 worker_a 300 start).1)).0
      ≡ ok es)
    × (names wf 0 es ≡ not (ltb 1300 (expiry_nanos 1000 300)))
expired_leases-claim_step_example =
    expired_leases-claim_step wf 0 worker_a 300 no_tables 1000 1300 tt claim_granted

abbrev history : List Op
history =
    append (workflow_started wf)
    ∷ claim wf 0 worker_a 300
    ∷ append (step_started wf 0 0)
    ∷ wait_until (pos 1100)
    ∷ renew wf 0 worker_a 300
    ∷ append (step_failed wf 0 (codes "boom"))
    ∷ append (retry_scheduled wf 0 1)
    ∷ []

abbrev history_events : List Event
history_events =
    workflow_started wf
    ∷ step_started wf 0 0
    ∷ step_failed wf 0 (codes "boom")
    ∷ retry_scheduled wf 0 1
    ∷ []

history_loaded : (load_events wf (run_ops history start)).0 ≡ ok history_events
unfolding run_ops load_events append_event claim_step renew_lease text_eq
    agentq.Sqlite.Projection.History.apply_op select_step agentq.Sqlite.Table.insert_event
    agentq.Sqlite.Table.upsert_step agentq.Sqlite.Table.select_events event_workflow_id decode_event
    agentq.Text.Lines.split encode_event agentq.Text.Lines.join agentq.Sqlite.Codec.event_lines
    escape_field agentq.Text.Lines.replace agentq.Text.Decimal.decimal
    agentq.Text.Decimal.parse_uint unescape_field
history_loaded = refl

history_allowed : AllAllowed history start
unfolding select_step agentq.Sqlite.Projection.History.apply_op claim_step append_event
    agentq.Sqlite.Table.insert_event agentq.Sqlite.Table.upsert_step text_eq
history_allowed = (
  (tt, tt),
  (tt, ((omega arith, refl), (tt, (tt, ((omega arith, tt), ((omega arith, tt), tt)))))),
)

run_ops-Agrees_example :
    Agrees
      (select_step wf 0 (run_ops history start).conn.tables.steps)
      (step_status_from_events history_events 0)
run_ops-Agrees_example =
    run_ops-Agrees history (pos 1000) wf 0 history_events history_allowed history_loaded

-- A file with a table that has no `ts_millis` yet, and no `steps`.
abbrev old_file : ConnectionTo Database
old_file = record {
  tables = record {
    events = some (record {
      columns = codes "id" ∷ codes "workflow_id" ∷ codes "payload" ∷ [];
      rows = record { workflow_id = wf; payload = codes "x"; ts_millis = 7 } ∷ [];
    });
    steps = none;
  };
  answers = [];
}

abbrev migrated_store : SqliteStore
migrated_store =
    healthy
      (record {
        events = record { workflow_id = wf; payload = codes "x"; ts_millis = 0 } ∷ [];
        steps = [];
      })
      (pos 5)

old_file_opens : (new (pos 5) old_file).0 ≡ ok migrated_store
unfolding new text_eq
old_file_opens = refl

new-new_example :
    ((new (pos 5) old_file).1.tables ≡ record {
      events = some (record {
        columns = codes "id" ∷ codes "workflow_id" ∷ codes "payload" ∷ codes "ts_millis" ∷ [];
        rows = record { workflow_id = wf; payload = codes "x"; ts_millis = 0 } ∷ [];
      });
      steps = some [];
    })
    × (has_ts_millis (migrated_events old_file.tables.events).columns ≡ true)
    × (migrated_store.conn.tables ≡ record {
      events = record { workflow_id = wf; payload = codes "x"; ts_millis = 0 } ∷ [];
      steps = [];
    })
    × (new (pos 9) (record { tables = migrated old_file.tables; answers = [] }) ≡ (
      ok (healthy migrated_store.conn.tables (pos 9)),
      record { tables = migrated old_file.tables; answers = [] },
    ))
unfolding migrated text_eq
new-new_example = new-new (pos 5) (pos 9) old_file migrated_store old_file_opens
