-- ===== src/Engine/Trace/Run.antt =====
-- src/engine.rs: `run` does what its trace tells.
use agentq.Prelude.{
  ℕ, ◌+◌, ◌-◌, ◌≤◌, ◌≡◌, refl, ap, subst, false, List, [], ◌∷◌, ◌++◌, Option, some, All, arith,
  length, get_elem?, ==_refl,
}
use agentq.Text.{Text}
use agentq.Event.{Event, workflow_started}
use agentq.Job.{Job, Func}
use agentq.Workflow.{Duration, Workflow}
use agentq.Store.{DurableStore}
use agentq.Store.Spec.{StoreSpec, StoreView, closes}
use agentq.Sqlite.Codec.{event_workflow_id, usize_max}
use agentq.Engine.Replay.{workflow_has_terminal_event, is_terminal}
use agentq.Engine.Replay.Laws.{workflow_has_terminal_event-append}
use agentq.Engine.State.{WorkflowEngine, RunningWorkflow, Turn, World, returned, Async, ◌>>=◌, ◌>>◌}
use agentq.Engine.Drive.{
  append, register_workflow, running_or_not_found, mounted, drive_loop, drive_from, run,
}
use agentq.Engine.Gives.{Gives, bind-Gives, stop-Gives}
use agentq.Engine.Trace.{drive_run, whole_run}
use agentq.Engine.Trace.Stands.{Kept, Stands}
use agentq.Engine.Trace.Stands.Calls.{get_mounted-Gives, mount-Gives}
use agentq.Engine.Trace.Follows.{Ends, Follows, TurnAlone, log-Follows}
use agentq.Engine.Trace.Drive.{drive_loop-Follows}

-- The workflow as it is mounted.
abbrev pub running_of : Workflow → List Func → RunningWorkflow
running_of workflow bodies = record { steps = workflow.steps; bodies = bodies }

From-start : {A : Type 0} (xs : List A) (j : ℕ) → get_elem? xs (0 + j) ≡ get_elem? xs j
From-start xs j = let e : 0 + j ≡ j = omega arith in ap (get_elem? xs) e

still_unended :
    (w : Text) (es : List Event)
    → workflow_has_terminal_event es ≡ false
    → workflow_has_terminal_event (es ++ workflow_started w ∷ []) ≡ false
still_unended w es h =
    rw (workflow_has_terminal_event-append es (workflow_started w ∷ []), h)
      (unfold workflow_has_terminal_event is_terminal in refl)

module _ {S : Type 0} {ds : DurableStore S} {view : StoreView S} (spec : StoreSpec ds view)
    (show : Duration → Text) (engine : WorkflowEngine) (workflow : Workflow) (bodies : List Func)
    (one_each : length bodies ≡ length workflow.steps)
    (few : length workflow.steps ≤ usize_max) where
  abbrev W : Text
  W = workflow.id

  abbrev R : RunningWorkflow
  R = running_of workflow bodies

  module _ (es : List Event) (jobs : List Job) (turns : List (Turn S))
      (alone : All (TurnAlone view engine W) turns)
      (unended : workflow_has_terminal_event es ≡ false) where
    drive_from-Follows :
        Follows view engine W 0
          (length workflow.steps)
          (some R)
          es
          jobs
          turns
          (drive_from ds show engine W R 0)
          (drive_run show engine W R 0 workflow.steps bodies turns)
    unfolding drive_from
    drive_from-Follows =
        let e : length workflow.steps ≡ length workflow.steps - 0 = omega arith in
        subst
          (λ n.
            Follows view engine W 0 (length workflow.steps) (some R) es jobs turns
              (drive_loop ds show engine n W R 0)
              (drive_run show engine W R 0 workflow.steps bodies turns))
          e
          (drive_loop-Follows spec show engine W R workflow.steps bodies 0 (length workflow.steps)
            es jobs turns (From-start workflow.steps) (From-start bodies) (omega (arith, few))
            (omega arith) alone unended)

    mounted-Gives :
        Gives
          (Stands view W engine.worker_id 0 (some R) es jobs turns)
          (mounted ds show engine W)
          (returned R)
          (Stands view W engine.worker_id 0 (some R) es jobs turns)
    unfolding mounted running_or_not_found
    mounted-Gives =
        bind-Gives (running_or_not_found ds show engine)
          (get_mounted-Gives spec engine W (some R) jobs turns 0 es) (stop-Gives _ (λ v h. h))

    driven-Follows :
        Follows view engine W 0
          (length workflow.steps)
          (some R)
          es
          jobs
          turns
          (mounted ds show engine W >>= λ running. drive_from ds show engine W running 0)
          (drive_run show engine W R 0 workflow.steps bodies turns)
    driven-Follows =
        bind-Gives (λ running. drive_from ds show engine W running 0) mounted-Gives
          drive_from-Follows

  -- What `run` does behind the registration.
  abbrev begin : Async S (Unit {0})
  begin =
      append ds show engine (workflow_started W)
      >> (mounted ds show engine W >>= λ running. drive_from ds show engine W running 0)

  module _ (es : List Event) (jobs : List Job) (turns : List (Turn S))
      (alone : All (TurnAlone view engine W) turns)
      (unended : workflow_has_terminal_event es ≡ false) where
    begin-Follows :
        Follows view engine W 0
          (length workflow.steps)
          (some R)
          es
          jobs
          turns
          begin
          (whole_run show engine W R turns)
    unfolding append whole_run event_workflow_id closes
    begin-Follows =
        log-Follows spec engine W 0 0 (length workflow.steps) (some R) es jobs turns
          (drive_run show engine W R 0 workflow.steps bodies turns) (workflow_started W) _ tt refl
          (omega arith) (λ j q. refl)
          (driven-Follows (es ++ workflow_started W ∷ []) jobs turns alone
            (still_unended W es unended))

    register_workflow-Gives :
        (found : Option RunningWorkflow)
        → Gives
            (Stands view W engine.worker_id 0 found es jobs turns)
            (register_workflow ds show engine workflow bodies)
            (returned tt)
            (Stands view W engine.worker_id 0 (some R) es jobs turns)
    unfolding register_workflow
    register_workflow-Gives found =
        rw (one_each, ==_refl (length workflow.steps))
          (mount-Gives spec engine W found jobs turns 0 es R)

    run-Follows :
        (found : Option RunningWorkflow)
        → Gives
            (Stands view W engine.worker_id 0 found es jobs turns)
            (run ds show engine workflow bodies)
            (whole_run show engine W R turns).reply
            (Ends view engine W (length workflow.steps) es jobs (whole_run show engine W R turns))
    unfolding run
    run-Follows found = bind-Gives (λ u. begin) (register_workflow-Gives found) begin-Follows

  -- On any store that keeps `StoreSpec`, beside tasks that leave the workflow alone, `run` does what
  -- its trace tells: it replies as the trace, appends exactly the events of the trace to the
  -- workflow's log, pushes exactly the jobs of the trace, uses up the same turns, and leaves the
  -- workflow mounted exactly if the trace does. There is a body for each step, the number of steps
  -- fits `usize`, the log has no terminal event before, and the worker may claim every step.
  pub run-whole_run :
      (es : List Event) (found : Option RunningWorkflow) (v : World S)
      → workflow_has_terminal_event es ≡ false
      → All (TurnAlone view engine workflow.id) v.turns
      → Kept view workflow.id engine.worker_id 0 found es v.shared
      → (let tr = whole_run show engine workflow.id (running_of workflow bodies) v.turns in
          let (reply, v') = run ds show engine workflow bodies v in
          (reply ≡ tr.reply)
          × (view.log v'.shared.db workflow.id ≡ es ++ tr.events)
          × (v'.pushed ≡ v.pushed ++ tr.jobs)
          × (v'.turns ≡ tr.left)
          × (v'.shared.mounted workflow.id ≡ tr.found))
  run-whole_run es found v unended alone kept =
      let g = run-Follows es v.pushed v.turns alone unended found in
      let (e, h) = g.at v (record { shared = kept; pushed = refl; left = refl }) in
      (e, h.shared.logged, h.pushed, h.left, h.shared.mounted)
