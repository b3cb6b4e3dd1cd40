-- ===== src/Engine/Trace/Follows.antt =====
-- src/engine.rs: methods that do what a trace tells, and how such methods are put together.
use agentq.Prelude.{
  ℕ, suc, ◌≤◌, ◌≡◌, refl, subst, ◌&&◌, ◌==◌, Bool, false, List, [], ◌∷◌, ◌++◌, append-nil,
  append_assoc, Option, some, All, arith,
}
use agentq.Text.{Text}
use agentq.Event.{Event}
use agentq.Job.{Job}
use agentq.Workflow.{Duration}
use agentq.Store.{DurableStore}
use agentq.Store.Spec.{StoreSpec, StoreView, closes}
use agentq.Sqlite.Codec.{event_workflow_id}
use agentq.Sqlite.Codec.RoundTrip.{FitsTypes}
use agentq.Engine.Replay.{workflow_is_cancelled, is_cancelled}
use agentq.Engine.Replay.Laws.{workflow_is_cancelled-append}
use agentq.Engine.State.{
  WorkflowEngine, RunningWorkflow, Turn, World, Reply, Async, ◌>>=◌, call_store,
}
use agentq.Engine.Gives.{Gives, bind-Gives, stop-Gives}
use agentq.Engine.Trace.{Trace, logs, stopped}
use agentq.Engine.Trace.Stands.{Stands, LeavesAlone, Stands-later}
use agentq.Engine.Trace.Stands.Calls.{append_event-Gives}

module _ {S : Type 0} (view : StoreView S) (engine : WorkflowEngine) (w : Text) where
  -- The trace has happened behind the log `es` and the pushes `jobs`.
  abbrev pub Ends : {A : Type 0} → ℕ → List Event → List Job → Trace S A → World S → Type 0
  Ends k es jobs tr =
      Stands view w engine.worker_id k tr.found (es ++ tr.events) (jobs ++ tr.jobs) tr.left

  -- From a log and pushes, the method does what the trace tells.
  abbrev pub Follows :
      {A : Type 0}
      → ℕ
      → ℕ
      → Option RunningWorkflow
      → List Event
      → List Job
      → List (Turn S)
      → Async S A
      → Trace S A
      → Type 0
  Follows k k' found es jobs turns m tr =
      Gives (Stands view w engine.worker_id k found es jobs turns) m tr.reply (Ends k' es jobs tr)

  -- The tasks that run while an attempt awaits leave the workflow alone.
  abbrev pub TurnAlone : Turn S → Type 0
  TurnAlone turn =
      LeavesAlone view w engine.worker_id turn.during_push
      × All (λ wake. LeavesAlone view w engine.worker_id wake.others) turn.wakes
      × ((d : Duration) → LeavesAlone view w engine.worker_id (turn.during_sleep d))

  pub stop-Follows :
      {A : Type 0} (k k' : ℕ) (found : Option RunningWorkflow) (es : List Event) (jobs : List Job)
      (turns : List (Turn S)) (r : Reply A)
      → k ≤ k'
      → Follows k k' found es jobs turns (λ v. (r, v)) (stopped r found turns)
  unfolding stopped
  stop-Follows k k' found es jobs turns r le = stop-Gives r (λ v h.
      rw (append-nil es, append-nil jobs)
        (Stands-later view w engine.worker_id k k' found es jobs turns v le h))

module _ {S : Type 0} {ds : DurableStore S} {view : StoreView S} (spec : StoreSpec ds view)
    (engine : WorkflowEngine) (w : Text) where
  module _ {A : Type 0} (k k' k'' : ℕ) (found : Option RunningWorkflow) (es : List Event)
      (jobs : List Job) (turns : List (Turn S)) (tr : Trace S A) where
    -- An append, and what follows it.
    pub log-Follows :
        (e : Event) (f : Unit {0} → Async S A)
        → FitsTypes e
        → event_workflow_id e ≡ w
        → k ≤ k'
        → ((j : ℕ) → k' ≤ j → closes w j e ≡ false)
        → Follows view engine w k' k'' found (es ++ e ∷ []) jobs turns (f tt) tr
        → Follows view engine w k k'' found es jobs turns
            (call_store (ds.append_event e) >>= f)
            (logs e tr)
    unfolding logs
    log-Follows e f fits own le apart rest =
        bind-Gives f (append_event-Gives spec engine w found jobs turns k k' es e fits own le apart)
          (subst
            (λ x.
              Gives (Stands view w engine.worker_id k' found (es ++ e ∷ []) jobs turns) (f tt)
                tr.reply (Stands view w engine.worker_id k'' tr.found x (jobs ++ tr.jobs) tr.left))
            (append_assoc es (e ∷ []) tr.events) rest)

-- An event that does not cancel leaves the log open.
pub stays_open :
    (es : List Event) (e : Event)
    → workflow_is_cancelled es ≡ false
    → is_cancelled e ≡ false
    → workflow_is_cancelled (es ++ e ∷ []) ≡ false
stays_open es e h c =
    rw (workflow_is_cancelled-append es (e ∷ []), h) (unfold workflow_is_cancelled in rw c refl)

-- A later step is another one.
pub no_later : (b : Bool) (i j : ℕ) → suc i ≤ j → (b && i == j) ≡ false
no_later b i j q = ground arith

module _ {S : Type 0} (view : StoreView S) (engine : WorkflowEngine) (w : Text)
    (running : RunningWorkflow) (i : ℕ) where
  abbrev pub Here : List Event → List Job → List (Turn S) → World S → Type 0
  Here es jobs turns = Stands view w engine.worker_id i (some running) es jobs turns

  -- The method, at this step, does what the trace tells.
  abbrev pub Does :
      {A : Type 0} → List Event → List Job → List (Turn S) → Async S A → Trace S A → Type 0
  Does es jobs turns m tr = Follows view engine w i (suc i) (some running) es jobs turns m tr
