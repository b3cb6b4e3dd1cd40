-- ===== src/Engine/LogTests.antt =====
-- src/engine.rs and src/recovery.rs: the theorems on the log at concrete inputs.
use agentq.Prelude.{◌==◌, ◌≡◌, refl, List, [], ◌∷◌, ◌++◌, none, some, ok, arith, pos, if◌then◌else◌}
use agentq.Text.{Text, codes}
use agentq.Event.{
  Event, step_resumed, step_failed, workflow_failed, workflow_started, workflow_cancelled,
}
use agentq.Job.{Outcome}
use agentq.Workflow.{fixed, StepDef}
use agentq.Sqlite.Connection.{SqliteStore, healthy}
use agentq.Sqlite.Table.{Tables}
use agentq.Sqlite.Log.{load_events, append_event}
use agentq.Sqlite.Log.Project.{appended}
use agentq.Sqlite.Lease.{sqlite_durable_store}
use agentq.Sqlite.Lease.Claim.{granted}
use agentq.Sqlite.Projection.History.{no_tables}
use agentq.Engine.Replay.{workflow_has_terminal_event}
use agentq.Engine.Reasons.{parse_waiting_reason, parse_non_retryable_reason}
use agentq.Engine.State.{
  pure, StepOutcome, WorkflowEngine, RunningWorkflow, Turn, World, handle, renewal, queued,
  returned,
}
use agentq.Engine.Step.{on_outcome}
use agentq.Engine.Drive.{resume_input, cancel, recover}
use agentq.Engine.Closing.{cancelling, completing, close_all, closed_by, close_all-closed_by}
use agentq.Engine.Failure.{stripped_reason, on_outcome-last}
use agentq.Engine.Input.{resume_input-append_event}
use agentq.Engine.Cancel.{world_of, cancel-cancel}
use agentq.Engine.Recover.{unmounted, expired_rows, recoveries, recover-recover}
use agentq.Engine.Tests.{wf, engine, show, step, failing, mounted}

abbrev started_tables : Tables
started_tables = appended (pos 900) (workflow_started wf) no_tables

started_loaded :
    (load_events wf (healthy started_tables (pos 1000))).0 ≡ ok (workflow_started wf ∷ [])
unfolding load_events agentq.Sqlite.Table.select_events appended agentq.Text.text_eq
    agentq.Sqlite.Log.Project.event_record agentq.Sqlite.Codec.event_workflow_id
    agentq.Sqlite.Codec.decode_event agentq.Text.Lines.split agentq.Sqlite.Codec.encode_event
    agentq.Text.Lines.join agentq.Sqlite.Codec.event_lines agentq.Sqlite.Codec.escape_field
    agentq.Text.Lines.replace agentq.Sqlite.Codec.unescape_field
started_loaded = refl

cancel-cancel_example :
    (w' : World SqliteStore) × (cancel sqlite_durable_store show engine wf
        (codes "user")
        (world_of show engine (pos 1000) [] [] started_tables mounted)
      ≡ (returned tt, w'))
    × ((load_events wf w'.shared.db).0
        ≡ ok (
            if workflow_has_terminal_event (workflow_started wf ∷ [])
            then workflow_started wf ∷ []
            else workflow_started wf ∷ workflow_cancelled wf (codes "user") ∷ []))
    × (cancel sqlite_durable_store show engine wf (codes "again") w' ≡ (returned tt, w'))
cancel-cancel_example =
    cancel-cancel show engine (pos 1000) [] [] wf (codes "user") (codes "again") started_tables
      mounted (workflow_started wf ∷ []) started_loaded

close_all-closed_by_example :
    (load_events wf
      (close_all show engine
        (pos 1000)
        []
        []
        wf
        (cancelling (codes "user") ∷ completing ∷ cancelling (codes "again") ∷ [])
        (world_of show engine (pos 1000) [] [] started_tables mounted)).shared.db).0
    ≡ ok (
        closed_by wf
          (cancelling (codes "user") ∷ completing ∷ cancelling (codes "again") ∷ [])
          (workflow_started wf ∷ []))
close_all-closed_by_example =
    close_all-closed_by show engine (pos 1000) [] [] wf
      (cancelling (codes "user") ∷ completing ∷ cancelling (codes "again") ∷ []) started_tables
      mounted (workflow_started wf ∷ []) started_loaded

-- A step that may run once, of a workflow that was cancelled while it ran.
abbrev once : StepDef
once = record step { retry_policy = record { max_attempts = 1; backoff = fixed 10 } }

abbrev cancelled_tables : Tables
cancelled_tables = appended (pos 900) (workflow_cancelled wf (codes "user")) no_tables

cancelled_loaded :
    (load_events wf (healthy cancelled_tables (pos 1000))).0
    ≡ ok (workflow_cancelled wf (codes "user") ∷ [])
unfolding load_events agentq.Sqlite.Table.select_events appended agentq.Text.text_eq
    agentq.Sqlite.Log.Project.event_record agentq.Sqlite.Codec.event_workflow_id
    agentq.Sqlite.Codec.decode_event agentq.Text.Lines.split agentq.Sqlite.Codec.encode_event
    agentq.Text.Lines.join agentq.Sqlite.Codec.event_lines agentq.Sqlite.Codec.escape_field
    agentq.Text.Lines.replace agentq.Sqlite.Codec.unescape_field
cancelled_loaded = refl

boom_plain : parse_waiting_reason (codes "boom") ≡ none
unfolding parse_waiting_reason
boom_plain = refl

on_outcome-last_example :
    (r : Text) × (w' : World SqliteStore) × (r
      ≡ stripped_reason (codes "boom") (parse_non_retryable_reason (codes "boom")))
    × (on_outcome sqlite_durable_store show engine wf 0 once failing
          (λ a. pure StepOutcome.waiting)
          0
          (Outcome.failed (codes "boom"))
          (world_of show engine (pos 1000) [] [] cancelled_tables mounted)
        ≡ (agentq.Engine.State.failed (agentq.Engine.State.workflow_failed r), w'))
    × ((load_events wf w'.shared.db).0
        ≡ ok
            (workflow_cancelled wf (codes "user") ∷ step_failed wf 0 r ∷ workflow_failed wf r ∷ []))
on_outcome-last_example =
    on_outcome-last show engine (pos 1000) [] [] wf 0 once failing (λ a. pure StepOutcome.waiting) 0
      refl (codes "boom") cancelled_tables mounted (workflow_cancelled wf (codes "user") ∷ [])
      (omega arith) boom_plain cancelled_loaded

resume_input-append_event_example :
    resume_input sqlite_durable_store show engine wf 2
      (record (world_of show engine (pos 1000) [] [] started_tables mounted) {
        shared = record {
          db =
              (append_event
                (step_resumed wf 2 (codes "yes"))
                (healthy started_tables (pos 1000))).1;
          mounted = mounted;
        };
      })
    ≡ (if 2 == 2
        then some (codes "yes")
        else resume_input sqlite_durable_store show engine wf 2
            (world_of show engine (pos 1000) [] [] started_tables mounted))
resume_input-append_event_example =
    resume_input-append_event show engine (pos 1000) [] [] wf 2 2 (codes "yes") started_tables
      mounted (workflow_started wf ∷ []) (omega arith) started_loaded

abbrev two_claims : Tables
two_claims =
    granted (codes "wf") 1 (codes "worker-b") 300
      (granted (codes "wf") 0 (codes "worker-b") 300 no_tables (pos 1000)) (pos 1000)

recover-recover_example :
    (w' : World SqliteStore) × (recover sqlite_durable_store show engine
        (unmounted show engine (pos 2000) [] [] two_claims)
      ≡ (returned 2, w'))
    × ((w : Text) (es : List Event)
        → (load_events w (healthy two_claims (pos 2000))).0 ≡ ok es
        → (load_events w w'.shared.db).0
          ≡ ok (es ++ recoveries w (expired_rows (pos 2000) two_claims)))
    × (recover sqlite_durable_store show engine w' ≡ (returned 0, w'))
unfolding granted agentq.Sqlite.Table.upsert_step agentq.Text.text_eq agentq.Sqlite.Lease.lease_row
    agentq.Sqlite.Table.select_expired agentq.Sqlite.Time.system_time_parts
    agentq.Sqlite.Time.lease_expiry
recover-recover_example =
    recover-recover show engine (pos 2000) [] [] two_claims ((refl, tt), (tt, tt))
      (omega arith, (omega arith, tt))
