-- ===== src/Engine/Trace/RestTests.antt =====
-- src/engine.rs: a resumed and a re-admitted run, at concrete inputs.
use agentq.Prelude.{◌≤◌, ℕ, ◌≡◌, refl, [], ◌∷◌, ◌++◌, none, some, arith, pos, false}
use agentq.Text.{codes}
use agentq.Event.{Event, retry_scheduled, step_waiting, step_resumed, worker_recovered}
use agentq.Workflow.{StepStatus}
use agentq.Sqlite.Connection.{SqliteStore, healthy}
use agentq.Sqlite.Lease.{sqlite_durable_store}
use agentq.Sqlite.Projection.History.{no_tables}
use agentq.Sqlite.Spec.{sqlite_view, sqlite_durable_store-StoreSpec, sqlite_durable_store-Reopens}
use agentq.Engine.Replay.{workflow_has_terminal_event, step_status_from_events}
use agentq.Engine.Replay.Attempt.{last_attempt}
use agentq.Engine.State.{RunningWorkflow, World, returned}
use agentq.Engine.Drive.{resume, readmit_after_worker_recovery}
use agentq.Sqlite.Codec.{u32_max}
use agentq.Store.Spec.{closes}
use agentq.Engine.Trace.Rest.{rest_run}
use agentq.Engine.Trace.Readmit.{readmit-rest_run}
use agentq.Engine.Trace.Resume.{resume-rest_run}
use agentq.Engine.Trace.Stands.{Kept, Kept-append}
use agentq.Engine.Trace.Run.{running_of}
use agentq.Engine.Trace.Succeeds.{Succeeds, AllSucceed, done, again, no_step, step_then}
use agentq.Engine.Trace.Success.{EndsOnce}
use agentq.Engine.Trace.Recovered.{readmit-AllSucceed}
use agentq.Engine.Trace.Tests.{
  failing, completing, known, engine, show, step, workflow, bodies, turns, world, turns_alone,
}

abbrev running : RunningWorkflow
running = running_of workflow bodies

-- The workflow is mounted, and its first step waits.
abbrev idle : World SqliteStore
idle = record world {
  shared = record { db = healthy no_tables (pos 1000); mounted = λ key. some running };
}

idle-Kept : Kept sqlite_view (codes "wf") (codes "worker-a") 0 (some running) [] idle.shared
unfolding agentq.Sqlite.Log.Load.decode_all agentq.Sqlite.Table.select_events
    agentq.Sqlite.Lease.Claim.answer agentq.Sqlite.Table.select_step
idle-Kept = record {
  good = (refl, λ w. ([], refl));
  logged = refl;
  opened = λ j q. refl;
  mounted = refl;
}

abbrev waits : Event
waits = step_waiting (codes "wf") 0 (codes "approval")

abbrev waiting_world : World SqliteStore
waiting_world = record idle {
  shared = record idle.shared { db = (sqlite_durable_store.append_event waits idle.shared.db).1 };
}

waits_apart : (j : ℕ) → 1 ≤ j → closes (codes "wf") j waits ≡ false
unfolding closes
waits_apart j le = ground arith

waiting_world-Kept :
    Kept sqlite_view
      (codes "wf")
      (codes "worker-a")
      1
      (some running)
      (waits ∷ [])
      waiting_world.shared
unfolding agentq.Sqlite.Codec.event_workflow_id
waiting_world-Kept =
    Kept-append sqlite_durable_store-StoreSpec (codes "wf") (codes "worker-a") 0 1 (some running) []
      waits idle.shared (omega arith) refl (omega arith) waits_apart idle-Kept

waits_unended : workflow_has_terminal_event (waits ∷ []) ≡ false
unfolding workflow_has_terminal_event
waits_unended = refl

-- The step waits in its second attempt.
abbrev retried : Event
retried = retry_scheduled (codes "wf") 0 1

abbrev retried_world : World SqliteStore
retried_world = record idle {
  shared = record idle.shared { db = (sqlite_durable_store.append_event retried idle.shared.db).1 };
}

abbrev paused_world : World SqliteStore
paused_world = record idle {
  shared = record idle.shared {
    db = (sqlite_durable_store.append_event waits retried_world.shared.db).1;
  };
}

retried_apart : (j : ℕ) → 0 ≤ j → closes (codes "wf") j retried ≡ false
unfolding closes
retried_apart j le = refl

retried_world-Kept :
    Kept sqlite_view
      (codes "wf")
      (codes "worker-a")
      0
      (some running)
      (retried ∷ [])
      retried_world.shared
unfolding agentq.Sqlite.Codec.event_workflow_id
retried_world-Kept =
    Kept-append sqlite_durable_store-StoreSpec (codes "wf") (codes "worker-a") 0 0 (some running) []
      retried idle.shared (omega arith, omega arith) refl (omega arith) retried_apart idle-Kept

paused_world-Kept :
    Kept sqlite_view
      (codes "wf")
      (codes "worker-a")
      1
      (some running)
      (retried ∷ waits ∷ [])
      paused_world.shared
unfolding agentq.Sqlite.Codec.event_workflow_id
paused_world-Kept =
    Kept-append sqlite_durable_store-StoreSpec (codes "wf") (codes "worker-a") 0 1 (some running)
      (retried ∷ []) waits retried_world.shared (omega arith) refl (omega arith) waits_apart
      retried_world-Kept

paused_unended : workflow_has_terminal_event (retried ∷ waits ∷ []) ≡ false
unfolding workflow_has_terminal_event
paused_unended = refl

paused_status :
    step_status_from_events (retried ∷ waits ∷ []) 0 ≡ StepStatus.waiting (codes "approval")
unfolding step_status_from_events
paused_status = refl

paused_attempt : last_attempt 0 (retried ∷ waits ∷ []) ≤ u32_max
unfolding last_attempt
paused_attempt = omega arith

resume-rest_run_example :
    (let tr = rest_run show engine (codes "wf") running 0 step 7 1 turns in
      let (reply, v') =
        resume sqlite_durable_store show engine (codes "wf") 0 (codes "yes") paused_world in
      (reply ≡ tr.reply)
      × (sqlite_view.log v'.shared.db (codes "wf")
          ≡ (retried ∷ waits ∷ []) ++ step_resumed (codes "wf") 0 (codes "yes") ∷ tr.events)
      × (v'.pushed ≡ [] ++ tr.jobs)
      × (v'.turns ≡ tr.left)
      × (v'.shared.mounted (codes "wf") ≡ tr.found))
unfolding last_attempt
resume-rest_run_example =
    resume-rest_run sqlite_durable_store-StoreSpec show engine (codes "wf") running (omega arith) 0
      step 7 refl refl sqlite_durable_store-Reopens (codes "yes") (codes "approval")
      (retried ∷ waits ∷ []) paused_world paused_status paused_attempt paused_unended turns_alone
      paused_world-Kept

readmit-rest_run_example :
    (let tr = rest_run show engine (codes "wf") running 0 step 7 1 turns in
      let (reply, v') =
        readmit_after_worker_recovery sqlite_durable_store show engine
          (codes "wf")
          0
          1
          waiting_world in
      (reply ≡ tr.reply)
      × (sqlite_view.log v'.shared.db (codes "wf")
          ≡ (waits ∷ []) ++ worker_recovered (codes "wf") 0 ∷ tr.events)
      × (v'.pushed ≡ [] ++ tr.jobs)
      × (v'.turns ≡ tr.left)
      × (v'.shared.mounted (codes "wf") ≡ tr.found))
readmit-rest_run_example =
    readmit-rest_run sqlite_durable_store-StoreSpec show engine (codes "wf") running (omega arith) 0
      step 7 refl refl 1 (waits ∷ []) waiting_world (omega arith) waits_unended turns_alone
      waiting_world-Kept

step-Succeeds : Succeeds show step 1 turns (codes "out") (known ∷ [])
unfolding agentq.Engine.Trace.attempt_reply agentq.Engine.Reasons.parse_waiting_reason
    agentq.Engine.Reasons.parse_non_retryable_reason
step-Succeeds =
    again 1 failing (completing ∷ known ∷ []) (known ∷ []) (codes "boom") (codes "out") refl refl
      refl refl (done 2 completing (known ∷ []) (codes "out") refl)

rest-AllSucceed : AllSucceed show (step ∷ []) (known ∷ []) (codes "known" ∷ []) []
unfolding agentq.Engine.Trace.attempt_reply
rest-AllSucceed =
    step_then step [] (known ∷ []) [] [] (codes "known") [] (done 0 known [] (codes "known") refl)
      (no_step [])

readmit-AllSucceed_example :
    (let (reply, v') =
        readmit_after_worker_recovery sqlite_durable_store show engine
          (codes "wf")
          0
          1
          waiting_world in
      (reply ≡ returned tt)
      × (v'.shared.mounted (codes "wf") ≡ none)
      × (v'.turns ≡ [])
      × EndsOnce
          (codes "wf")
          0
          (codes "out" ∷ codes "known" ∷ [])
          (waits ∷ [])
          (sqlite_view.log v'.shared.db (codes "wf")))
readmit-AllSucceed_example =
    readmit-AllSucceed sqlite_durable_store-StoreSpec show engine (codes "wf") running (omega arith)
      (omega arith) 0 step 7 refl refl 1 (waits ∷ []) waiting_world (known ∷ []) [] (codes "out")
      (codes "known" ∷ []) (omega arith) waits_unended turns_alone waiting_world-Kept step-Succeeds
      rest-AllSucceed
