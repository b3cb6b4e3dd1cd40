-- ===== src/Engine/Input.antt =====
-- src/engine.rs: `resume_input` on the SQLite store, whose calls do not fail here.
use agentq.Prelude.{
  ℕ, ◌≤◌, ◌≡◌, refl, ◌∙◌, List, [], ◌∷◌, ◌++◌, none, some, ok, ◌==◌, if◌then◌else◌,
}
use agentq.Text.{Text, text_eq_refl}
use agentq.Event.{Event, step_resumed}
use agentq.Job.{Job}
use agentq.Workflow.{Duration, SystemTime}
use agentq.Queue.{Map}
use agentq.Engine.Replay.{input_from_events, observe_input}
use agentq.Engine.Replay.Laws.{input_loop-append}
use agentq.Engine.State.{RunningWorkflow, WorkflowEngine, Turn}
use agentq.Engine.Drive.{resume_input}
use agentq.Engine.Cancel.{world_of}
use agentq.Sqlite.Codec.{event_workflow_id, usize_max}
use agentq.Sqlite.Table.{Tables}
use agentq.Sqlite.Connection.{SqliteStore, healthy}
use agentq.Sqlite.Log.{append_event, load_events}
use agentq.Sqlite.Log.Load.{load_events-append_event}
use agentq.Sqlite.Log.Project.{appended, append_event-appended}
use agentq.Sqlite.Lease.{sqlite_durable_store}

module _ (show : Duration → Text) (engine : WorkflowEngine) (now : SystemTime) (pushed : List Job)
    (turns : List (Turn SqliteStore)) (w : Text) where
  resume_input-loaded :
      (i : ℕ) (t : Tables) (mounted : Map RunningWorkflow) (es : List Event)
      → (load_events w (healthy t now)).0 ≡ ok es
      → resume_input sqlite_durable_store show engine w i
          (world_of show engine now pushed turns t mounted)
        ≡ input_from_events es i
  unfolding resume_input sqlite_durable_store
  resume_input-loaded i t mounted es h = rw h refl

  log-resumed :
      (i : ℕ) (input : Text) (t : Tables) (es : List Event)
      → i ≤ usize_max
      → (load_events w (healthy t now)).0 ≡ ok es
      → (load_events w (healthy (appended now (step_resumed w i input) t) now)).0
        ≡ ok (es ++ step_resumed w i input ∷ [])
  unfolding event_workflow_id
  log-resumed i input t es fits h =
      let l = load_events-append_event (step_resumed w i input) t now w es fits h in
      rw (append_event-appended, text_eq_refl w) at l

  input-resumed :
      (i j : ℕ) (input : Text) (es : List Event)
      → input_from_events (es ++ step_resumed w i input ∷ []) j
        ≡ (if i == j then some input else input_from_events es j)
  unfolding input_from_events observe_input
  input-resumed i j input es = input_loop-append j es (step_resumed w i input) none

  -- Behind a `StepResumed` of a step, `resume_input` of that step gives its input, and that of each
  -- other step of the workflow gives what it gave before. No call of the store fails, and the step
  -- index fits `usize`.
  pub resume_input-append_event :
      (i j : ℕ) (input : Text) (t : Tables) (mounted : Map RunningWorkflow) (es : List Event)
      → i ≤ usize_max
      → (load_events w (healthy t now)).0 ≡ ok es
      → resume_input sqlite_durable_store show engine w j
          (record (world_of show engine now pushed turns t mounted) {
            shared = record {
              db = (append_event (step_resumed w i input) (healthy t now)).1;
              mounted = mounted;
            };
          })
        ≡ (if i == j
            then some input
            else resume_input sqlite_durable_store show engine w j
                (world_of show engine now pushed turns t mounted))
  resume_input-append_event i j input t mounted es fits h =
      rw
        (append_event-appended (step_resumed w i input) t now, resume_input-loaded j t mounted es h)
        (resume_input-loaded j (appended now (step_resumed w i input) t) mounted
            (es ++ step_resumed w i input ∷ []) (log-resumed i input t es fits h)
          ∙ input-resumed i j input es)
