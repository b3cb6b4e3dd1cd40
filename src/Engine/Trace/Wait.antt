-- ===== src/Engine/Trace/Wait.antt =====
-- src/engine.rs: the wait for a job ends as the first wake that decides it.
use agentq.Prelude.{ℕ, List, [], ◌∷◌, Option, none, some, ok, err, All}
use agentq.Text.{Text}
use agentq.Event.{Event}
use agentq.Job.{Job, Outcome}
use agentq.Workflow.{Duration}
use agentq.Store.{DurableStore}
use agentq.Store.Spec.{StoreSpec, StoreView}
use agentq.Engine.State.{
  WorkflowEngine, RunningWorkflow, EngineError, StepOutcome, Accepted, queued, in_flight, cached,
  Ready, handle, deadline, renewal, Wake, Turn, World, Reply, returned, failed, panicked, blocked,
  Async, continue, ◌>>=◌, ◌>>◌, call_store, yield_to,
}
use agentq.Engine.Step.{on_ready, await_job_renewing_lease}
use agentq.Engine.Gives.{Gives, bind-Gives, stop-Gives}
use agentq.Engine.Trace.{
  Trace, logs, pushes, stopped, wait_reply, decided, step_trace, failure_trace, outcome_trace,
  attempt_reply, job_of, step_run,
}
use agentq.Engine.Trace.Stands.{LeavesAlone}
use agentq.Engine.Trace.Stands.Calls.{renew-Gives, yield_to-Gives}
use agentq.Engine.Trace.Follows.{Here}

module _ {S : Type 0} {ds : DurableStore S} {view : StoreView S} (spec : StoreSpec ds view)
    (show : Duration → Text) (engine : WorkflowEngine) (w : Text) (running : RunningWorkflow)
    (i : ℕ) where
  module _ (es : List Event) (jobs : List Job) (turns : List (Turn S)) where
    on_ready-Gives :
        (timeout : Option Duration) (ready : Ready) (wakes : List (Wake S))
        (again : Async S Outcome)
        → Gives
            (Here view engine w running i es jobs turns)
            again
            (wait_reply show timeout wakes)
            (Here view engine w running i es jobs turns)
        → (others : agentq.Engine.State.Shared S → agentq.Engine.State.Shared S)
        → Gives
            (Here view engine w running i es jobs turns)
            (on_ready ds show engine w i timeout ready again)
            (wait_reply show timeout (record { others = others; ready = ready } ∷ wakes))
            (Here view engine w running i es jobs turns)
    unfolding on_ready wait_reply decided agentq.Engine.Trace.or_later
    on_ready-Gives timeout (handle (ok o)) wakes again g others = stop-Gives _ (λ v h. h)
    on_ready-Gives timeout (handle (err e)) wakes again g others = stop-Gives _ (λ v h. h)
    on_ready-Gives (some limit) deadline wakes again g others = stop-Gives _ (λ v h. h)
    on_ready-Gives none deadline wakes again g others = g
    on_ready-Gives timeout renewal wakes again g others =
        bind-Gives (λ u. again) (renew-Gives spec engine w (some running) jobs turns show i i es) g

    pub await-Gives :
        (timeout : Option Duration) (wakes : List (Wake S))
        → All (λ wake. LeavesAlone view w engine.worker_id wake.others) wakes
        → Gives
            (Here view engine w running i es jobs turns)
            (await_job_renewing_lease ds show engine w i timeout wakes)
            (wait_reply show timeout wakes)
            (Here view engine w running i es jobs turns)
    unfolding await_job_renewing_lease
    await-Gives timeout [] alone = unfold wait_reply in stop-Gives blocked (λ v h. h)
    await-Gives timeout (wake ∷ wakes) alone =
        bind-Gives
          (λ u.
            on_ready ds show engine w i timeout wake.ready
              (await_job_renewing_lease ds show engine w i timeout wakes))
          (yield_to-Gives spec engine w (some running) jobs turns i es wake.others alone.0)
          (on_ready-Gives timeout wake.ready wakes _ (await-Gives timeout wakes alone.1)
            wake.others)
