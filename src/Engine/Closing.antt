-- ===== src/Engine/Closing.antt =====
-- src/engine.rs: the two blocks under the lock `terminal_write`, on the SQLite store, whose calls do
-- not fail here: `cancel`, and the end of `drive_from`.
use agentq.Prelude.{
  ◌≡◌, refl, ap, ◌∙◌, sym, true, false, List, [], ◌∷◌, ◌++◌, ok, arith, if◌then◌else◌, Bool-cases,
  inl, inr,
}
use agentq.Text.{Text, text_eq_refl}
use agentq.Event.{Event, workflow_cancelled, workflow_completed}
use agentq.Job.{Job}
use agentq.Workflow.{Duration, SystemTime}
use agentq.Queue.{Map, remove}
use agentq.Engine.Replay.{workflow_has_terminal_event, is_terminal}
use agentq.Engine.Replay.Laws.{workflow_has_terminal_event-append}
use agentq.Engine.State.{RunningWorkflow, WorkflowEngine, Turn, World, Async, Reply, returned}
use agentq.Engine.Drive.{cancel, complete}
use agentq.Engine.Cancel.{world_of, load_events-pair, cancel-closed, cancel-open}
use agentq.Sqlite.Codec.{event_workflow_id}
use agentq.Sqlite.Table.{Tables}
use agentq.Sqlite.Connection.{SqliteStore, healthy}
use agentq.Sqlite.Log.{load_events}
use agentq.Sqlite.Log.Load.{load_events-append_event}
use agentq.Sqlite.Log.Project.{appended, append_event-appended}
use agentq.Sqlite.Lease.{sqlite_durable_store}

-- A task that closes a workflow: a caller of `cancel`, or a `drive_from` whose steps are done.
pub data Close : Type 0 where
  cancelling : Text → Close
  completing : Close

-- The event that it appends.
unfoldable pub closing_event : Text → Close → Event
closing_event w (cancelling reason) = workflow_cancelled w reason
closing_event w completing = workflow_completed w

-- The log behind closings one after the other: the first counts, if the log is open.
unfoldable pub closed_by : Text → List Close → List Event → List Event
unfolding closing_event
closed_by w [] es = es
closed_by w (c ∷ cs) es =
    if workflow_has_terminal_event es then es else es ++ closing_event w c ∷ []

closed_by-closed :
    (w : Text) (cs : List Close) (es : List Event)
    → workflow_has_terminal_event es ≡ true
    → closed_by w cs es ≡ es
unfolding closed_by
closed_by-closed w [] es h = refl
closed_by-closed w (c ∷ cs) es h = rw h refl

closed_by-open :
    (w : Text) (c : Close) (cs : List Close) (es : List Event)
    → workflow_has_terminal_event es ≡ false
    → closed_by w (c ∷ cs) es ≡ es ++ closing_event w c ∷ []
unfolding closed_by
closed_by-open w c cs es h = rw h refl

closing_event-closes :
    (w : Text) (c : Close) (es : List Event)
    → workflow_has_terminal_event (es ++ closing_event w c ∷ []) ≡ true
unfolding closing_event workflow_has_terminal_event
closing_event-closes w (cancelling reason) es =
    workflow_has_terminal_event-append es (workflow_cancelled w reason ∷ [])
    ∙ (unfold is_terminal in ground arith)
closing_event-closes w completing es =
    workflow_has_terminal_event-append es (workflow_completed w ∷ [])
    ∙ (unfold is_terminal in ground arith)

module _ (show : Duration → Text) (engine : WorkflowEngine) (now : SystemTime) (pushed : List Job)
    (turns : List (Turn SqliteStore)) (w : Text) where
  unfoldable pub close : Close → Async SqliteStore (Unit {0})
  close (cancelling reason) = cancel sqlite_durable_store show engine w reason
  close completing = complete sqlite_durable_store show engine w

  unfoldable pub close_all : List Close → World SqliteStore → World SqliteStore
  unfolding close
  close_all [] world = world
  close_all (c ∷ cs) world = close_all cs (close c world).1

  abbrev at : Tables → Map RunningWorkflow → World SqliteStore
  at t mounted = world_of show engine now pushed turns t mounted

  abbrev Log : Tables → List Event → Type 0
  Log t es = (load_events w (healthy t now)).0 ≡ ok es

  -- The mounted workflows behind a closing that appends.
  mounted_behind : Close → Map RunningWorkflow → Map RunningWorkflow
  mounted_behind (cancelling reason) mounted = remove w mounted
  mounted_behind completing mounted = mounted

  close-closed :
      (c : Close) (t : Tables) (mounted : Map RunningWorkflow) (es : List Event)
      → Log t es
      → workflow_has_terminal_event es ≡ true
      → close c (at t mounted) ≡ (returned tt, at t mounted)
  unfolding close complete sqlite_durable_store
  close-closed (cancelling reason) t mounted es h closed =
      cancel-closed show engine now pushed turns w reason t mounted es h closed
  close-closed completing t mounted es h closed =
      rw (load_events-pair show engine now pushed turns w t es h, closed) refl

  close-open :
      (c : Close) (t : Tables) (mounted : Map RunningWorkflow) (es : List Event)
      → Log t es
      → workflow_has_terminal_event es ≡ false
      → close c (at t mounted)
        ≡ (returned tt, at (appended now (closing_event w c) t) (mounted_behind c mounted))
  unfolding close complete sqlite_durable_store mounted_behind closing_event
  close-open (cancelling reason) t mounted es h opened =
      cancel-open show engine now pushed turns w reason t mounted es h opened
  close-open completing t mounted es h opened =
      rw
        (
          load_events-pair show engine now pushed turns w t es h,
          opened,
          append_event-appended (workflow_completed w) t now,
        )
        refl

  Log-appended :
      (c : Close) (t : Tables) (es : List Event)
      → Log t es
      → Log (appended now (closing_event w c) t) (es ++ closing_event w c ∷ [])
  unfolding closing_event event_workflow_id
  Log-appended (cancelling reason) t es h =
      let e = load_events-append_event (workflow_cancelled w reason) t now w es tt h in
      rw (append_event-appended, text_eq_refl w) at e
  Log-appended completing t es h =
      let e = load_events-append_event (workflow_completed w) t now w es tt h in
      rw (append_event-appended, text_eq_refl w) at e

  behind :
      (cs : List Close) {r r' : Reply (Unit {0}) × World SqliteStore}
      → r ≡ r'
      → (load_events w (close_all cs r.1).shared.db).0
        ≡ (load_events w (close_all cs r'.1).shared.db).0
  behind cs e = ap (λ p. (load_events w (close_all cs p.1).shared.db).0) e

  -- Whatever tasks cancel a workflow or complete it, in whatever order: if its log has a terminal
  -- event, the log stays as it is, and otherwise it gets the event of the first of them and no
  -- other. No call of the store fails.
  pub close_all-closed_by :
      (cs : List Close) (t : Tables) (mounted : Map RunningWorkflow) (es : List Event)
      → (load_events w (healthy t now)).0 ≡ ok es
      → (load_events w (close_all cs (world_of show engine now pushed turns t mounted)).shared.db).0
        ≡ ok (closed_by w cs es)
  unfolding close_all closed_by
  close_all-closed_by [] t mounted es h = h
  close_all-closed_by (c ∷ cs) t mounted es h = elim (Bool-cases (workflow_has_terminal_event es)) [
    | inl closed ↦
        behind cs (close-closed c t mounted es h closed)
        ∙ close_all-closed_by cs t mounted es h
        ∙ ap ok (closed_by-closed w cs es closed ∙ sym (closed_by-closed w (c ∷ cs) es closed))
    | inr opened ↦
        let es' = es ++ closing_event w c ∷ [] in
        behind cs (close-open c t mounted es h opened)
        ∙ close_all-closed_by cs (appended now (closing_event w c) t) (mounted_behind c mounted) es'
            (Log-appended c t es h)
        ∙ ap ok (
            closed_by-closed w cs es' (closing_event-closes w c es)
            ∙ sym (closed_by-open w c cs es opened))
  ]
