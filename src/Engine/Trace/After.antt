-- ===== src/Engine/Trace/After.antt =====
-- src/engine.rs: how a drive ends, and what follows a step of it.
use agentq.Prelude.{
  ℕ, ◌≤◌, ◌≡◌, refl, sym, subst, false, List, [], ◌∷◌, ◌++◌, append-nil, append_assoc, none, some,
  arith, if◌then◌else◌,
}
use agentq.Text.{Text}
use agentq.Event.{Event, workflow_completed}
use agentq.Job.{Job}
use agentq.Workflow.{Duration}
use agentq.Store.{DurableStore}
use agentq.Store.Spec.{StoreSpec, StoreView, closes}
use agentq.Sqlite.Codec.{event_workflow_id}
use agentq.Engine.Replay.{workflow_has_terminal_event}
use agentq.Engine.State.{
  WorkflowEngine, RunningWorkflow, EngineError, StepOutcome, Turn, Reply, returned, failed,
  panicked, blocked, Async, ◌>>◌, call_store, drop_from_in_flight,
}
use agentq.Engine.Drive.{append, load, complete, by_reply, or_wait}
use agentq.Engine.Gives.{Gives, bind-Gives}
use agentq.Engine.Trace.{Trace, logs, stopped, behind, after_step}
use agentq.Engine.Trace.Stands.{Stands}
use agentq.Engine.Trace.Stands.Calls.{
  append_event-Gives, load_events-Gives, drop_from_in_flight-Gives,
}
use agentq.Engine.Trace.Follows.{Ends, Follows, stop-Follows}

module _ {S : Type 0} (view : StoreView S) (engine : WorkflowEngine) (w : Text) where
  -- A trace goes on where another has ended.
  behind-Follows :
      {A B : Type 0} (k k' : ℕ) (es : List Event) (jobs : List Job) (first : Trace S A)
      (m : Async S B) (tr : Trace S B)
      → Follows view engine w k k' first.found
          (es ++ first.events)
          (jobs ++ first.jobs)
          first.left
          m
          tr
      → Gives
          (Ends view engine w k es jobs first)
          m
          (behind first tr).reply
          (Ends view engine w k' es jobs (behind first tr))
  unfolding behind
  behind-Follows k k' es jobs first m tr g =
      subst
        (λ x.
          Gives (Ends view engine w k es jobs first) m tr.reply (
            Stands view w engine.worker_id k' tr.found x (jobs ++ (first.jobs ++ tr.jobs)) tr.left))
        (append_assoc es first.events tr.events)
        (subst
          (λ y. Gives (Ends view engine w k es jobs first) m tr.reply (
            Stands view w engine.worker_id k' tr.found ((es ++ first.events) ++ tr.events) y
              tr.left))
          (append_assoc jobs first.jobs tr.jobs) g)

module _ {S : Type 0} {ds : DurableStore S} {view : StoreView S} (spec : StoreSpec ds view)
    (show : Duration → Text) (engine : WorkflowEngine) (w : Text) (running : RunningWorkflow) where
  closing-Gives :
      (k : ℕ) (es : List Event) (jobs : List Job) (turns : List (Turn S))
      → workflow_has_terminal_event es ≡ false
      → Gives
          (Stands view w engine.worker_id k (some running) es jobs turns)
          (if workflow_has_terminal_event es
            then (λ v. (returned tt, v))
            else call_store (ds.append_event (workflow_completed w)))
          (returned tt)
          (Stands view w engine.worker_id k
            (some running)
            (es ++ workflow_completed w ∷ [])
            jobs
            turns)
  unfolding event_workflow_id closes
  closing-Gives k es jobs turns h = rw h (
      append_event-Gives spec engine w (some running) jobs turns k k es (workflow_completed w) tt
        refl (omega arith) (λ j q. refl))

  -- The end of a drive that nothing has ended before: one `WorkflowCompleted`.
  complete-Gives :
      (k : ℕ) (es : List Event) (jobs : List Job) (turns : List (Turn S))
      → workflow_has_terminal_event es ≡ false
      → Gives
          (Stands view w engine.worker_id k (some running) es jobs turns)
          (complete ds show engine w)
          (returned tt)
          (Stands view w engine.worker_id k
            (some running)
            (es ++ workflow_completed w ∷ [])
            jobs
            turns)
  unfolding complete load append
  complete-Gives k es jobs turns h =
      bind-Gives
        (λ events.
          if workflow_has_terminal_event events
          then (λ v. (returned tt, v))
          else call_store (ds.append_event (workflow_completed w)))
        (load_events-Gives spec engine w (some running) jobs turns k es)
        (closing-Gives k es jobs turns h)

  pub finish-Follows :
      (k : ℕ) (es : List Event) (jobs : List Job) (turns : List (Turn S))
      → workflow_has_terminal_event es ≡ false
      → Follows view engine w k k
          (some running)
          es
          jobs
          turns
          (complete ds show engine w >> drop_from_in_flight w)
          (logs (workflow_completed w) (stopped (returned tt) none turns))
  unfolding logs stopped
  finish-Follows k es jobs turns h =
      bind-Gives (λ u. drop_from_in_flight w) (complete-Gives k es jobs turns h)
        (rw (append-nil jobs) (
          drop_from_in_flight-Gives spec engine w (some running) jobs turns k
            (es ++ workflow_completed w ∷ [])))

  -- A step that failed un-registers its workflow.
  unmount-Follows :
      (k k' : ℕ) (es : List Event) (jobs : List Job) (turns : List (Turn S)) (e : EngineError)
      → k ≤ k'
      → Follows view engine w {A = Unit {0}} k k'
          (some running)
          es
          jobs
          turns
          (drop_from_in_flight w >> λ v. (failed e, v))
          (stopped (failed e) none turns)
  unmount-Follows k k' es jobs turns e le =
      bind-Gives (λ u v. (failed e, v))
        (drop_from_in_flight-Gives spec engine w (some running) jobs turns k es)
        (stop-Follows view engine w k k' none es jobs turns (failed e) le)

  module _ (k : ℕ) (es : List Event) (jobs : List Job) (tr : Trace S StepOutcome)
      (still : tr.found ≡ some running) where
    -- From where the step has ended, with the workflow mounted.
    goes_on :
        {A : Type 0} (k' : ℕ) (m : Async S A) (rest : Trace S A)
        → Follows view engine w k k'
            (some running)
            (es ++ tr.events)
            (jobs ++ tr.jobs)
            tr.left
            m
            rest
        → Gives
            (Ends view engine w k es jobs tr)
            m
            (behind tr rest).reply
            (Ends view engine w k' es jobs (behind tr rest))
    goes_on k' m rest g = behind-Follows view engine w k k' es jobs tr m rest (
        subst (λ f. Follows view engine w k k' f (es ++ tr.events) (jobs ++ tr.jobs) tr.left m rest)
          (sym still) g)

    stops :
        (k' : ℕ) (r : Reply (Unit {0}))
        → k ≤ k'
        → Gives
            (Ends view engine w k es jobs tr)
            (λ v. (r, v))
            r
            (Ends view engine w k' es jobs (behind tr (stopped r (some running) tr.left)))
    unfolding behind stopped
    stops k' r le = goes_on k' _ (stopped r (some running) tr.left) (
        stop-Follows view engine w k k' (some running) (es ++ tr.events) (jobs ++ tr.jobs) tr.left r
          le)

    -- By the step's reply: the steps behind it, or the end.
    pub after_step-Follows :
        (k' : ℕ) (r : Reply StepOutcome) (m : Async S (Unit {0})) (rest : Trace S (Unit {0}))
        → k ≤ k'
        → (r ≡ returned StepOutcome.completed
            → Follows view engine w k k'
                (some running)
                (es ++ tr.events)
                (jobs ++ tr.jobs)
                tr.left
                m
                rest)
        → Gives
            (Ends view engine w k es jobs tr)
            (by_reply ds show engine w (or_wait ds show engine m) r)
            (after_step show engine w running tr r rest).reply
            (Ends view engine w k' es jobs (after_step show engine w running tr r rest))
    unfolding by_reply or_wait after_step
    after_step-Follows k' (returned StepOutcome.completed) m rest le g = goes_on k' m rest (g refl)
    after_step-Follows k' (returned StepOutcome.waiting) m rest le g = stops k' (returned tt) le
    after_step-Follows k' (failed e) m rest le g =
        goes_on k' _ (stopped (failed e) none tr.left)
          (unmount-Follows k k' (es ++ tr.events) (jobs ++ tr.jobs) tr.left e le)
    after_step-Follows k' panicked m rest le g = stops k' panicked le
    after_step-Follows k' blocked m rest le g = stops k' blocked le
