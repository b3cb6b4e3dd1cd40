-- ===== src/Engine/Cancel.antt =====
-- src/engine.rs: `cancel` on the SQLite store, whose calls do not fail here.
use agentq.Prelude.{
  ◌≡◌, refl, ◌∙◌, ap, true, false, List, [], ◌∷◌, ◌++◌, ok, arith, if◌then◌else◌, Bool-cases, inl,
  inr, sym,
}
use agentq.Text.{Text, text_eq, text_eq_refl}
use agentq.Event.{Event, workflow_cancelled}
use agentq.Job.{Job}
use agentq.Workflow.{Duration, SystemTime}
use agentq.Queue.{Map, remove}
use agentq.Engine.Replay.{workflow_has_terminal_event}
use agentq.Engine.Replay.Laws.{workflow_has_terminal_event-append}
use agentq.Engine.State.{RunningWorkflow, WorkflowEngine, Turn, World, Reply, returned}
use agentq.Engine.Drive.{cancel}
use agentq.Sqlite.Table.{Tables}
use agentq.Sqlite.Connection.{SqliteStore, healthy}
use agentq.Sqlite.Log.{load_events}
use agentq.Sqlite.Log.Load.{load_events-decode_all, load_events-append_event}
use agentq.Sqlite.Log.Project.{appended, append_event-appended}
use agentq.Sqlite.Lease.{sqlite_durable_store}

module _ (show : Duration → Text) (engine : WorkflowEngine) (now : SystemTime) (pushed : List Job)
    (turns : List (Turn SqliteStore)) where
  abbrev pub world_of : Tables → Map RunningWorkflow → World SqliteStore
  world_of t mounted = record {
    shared = record { db = healthy t now; mounted = mounted };
    pushed = pushed;
    turns = turns;
  }

  pub load_events-pair :
      (w : Text) (t : Tables) (es : List Event)
      → (load_events w (healthy t now)).0 ≡ ok es
      → load_events w (healthy t now) ≡ (ok es, healthy t now)
  load_events-pair w t es h =
      load_events-decode_all t w now
      ∙ ap (λ r. (r, healthy t now)) (sym (ap (λ p. p.0) (load_events-decode_all t w now)) ∙ h)

  pub cancel-closed :
      (w reason : Text) (t : Tables) (mounted : Map RunningWorkflow) (es : List Event)
      → (load_events w (healthy t now)).0 ≡ ok es
      → workflow_has_terminal_event es ≡ true
      → cancel sqlite_durable_store show engine w reason (world_of t mounted)
        ≡ (returned tt, world_of t mounted)
  unfolding cancel sqlite_durable_store
  cancel-closed w reason t mounted es h closed =
      rw (load_events-pair w t es h, agentq.Engine.State.store_reply, closed) refl

  pub cancel-open :
      (w reason : Text) (t : Tables) (mounted : Map RunningWorkflow) (es : List Event)
      → (load_events w (healthy t now)).0 ≡ ok es
      → workflow_has_terminal_event es ≡ false
      → cancel sqlite_durable_store show engine w reason (world_of t mounted)
        ≡ (returned tt, world_of (appended now (workflow_cancelled w reason) t) (remove w mounted))
  unfolding cancel sqlite_durable_store appended text_eq
  cancel-open w reason t mounted es h opened =
      rw
        (
          load_events-pair w t es h,
          opened,
          append_event-appended (workflow_cancelled w reason) t now,
        )
        refl

  log_behind :
      (w reason : Text) (t : Tables) (es : List Event)
      → (load_events w (healthy t now)).0 ≡ ok es
      → (load_events w (healthy (appended now (workflow_cancelled w reason) t) now)).0
        ≡ ok (es ++ workflow_cancelled w reason ∷ [])
  unfolding agentq.Sqlite.Codec.event_workflow_id
  log_behind w reason t es h =
      let e = load_events-append_event (workflow_cancelled w reason) t now w es tt h in
      rw (append_event-appended, text_eq_refl w) at e

  closed_behind :
      (w reason : Text) (es : List Event)
      → workflow_has_terminal_event (es ++ workflow_cancelled w reason ∷ []) ≡ true
  closed_behind w reason es =
      rw (workflow_has_terminal_event-append es (workflow_cancelled w reason ∷ []))
        (unfold workflow_has_terminal_event agentq.Engine.Replay.is_terminal in ground arith)

  -- `cancel` returns without an error; a log without a terminal event then ends in one
  -- `WorkflowCancelled`, and any other log is as it was; and a second `cancel`, with whatever reason,
  -- returns and changes nothing, neither the store nor the mounted workflows. No call of the store
  -- fails.
  pub cancel-cancel :
      (w reason reason' : Text) (t : Tables) (mounted : Map RunningWorkflow) (es : List Event)
      → (load_events w (healthy t now)).0 ≡ ok es
      → (w' : World SqliteStore) × (cancel sqlite_durable_store show engine w reason
            (world_of t mounted)
          ≡ (returned tt, w'))
        × ((load_events w w'.shared.db).0
            ≡ ok (
                if workflow_has_terminal_event es
                then es
                else es ++ workflow_cancelled w reason ∷ []))
        × (cancel sqlite_durable_store show engine w reason' w' ≡ (returned tt, w'))
  cancel-cancel w reason reason' t mounted es h =
      elim (Bool-cases (workflow_has_terminal_event es)) [
        | inl e ↦ (
          world_of t mounted,
          cancel-closed w reason t mounted es h e,
          rw e h,
          cancel-closed w reason' t mounted es h e,
        )
        | inr e ↦
            let t' = appended now (workflow_cancelled w reason) t in
            (
              world_of t' (remove w mounted),
              cancel-open w reason t mounted es h e,
              rw e (log_behind w reason t es h),
              cancel-closed w reason' t' (remove w mounted) (es ++ workflow_cancelled w reason ∷ [])
                  (log_behind w reason t es h) (closed_behind w reason es),
            )
      ]
