-- ===== src/Engine/Drive.antt =====
-- src/engine.rs and src/recovery.rs: the methods of `WorkflowEngine` and `recover`.
use agentq.Prelude.{
  ℕ, zero, suc, ◌+◌, ◌-◌, List, [], ◌∷◌, Option, none, some, Result, ok, err, if◌then◌else◌, ◌==◌,
  length, get_elem?,
}
use agentq.Text.{Text, codes}
use agentq.Event.{
  Event, workflow_started, step_resumed, workflow_completed, workflow_cancelled, worker_recovered,
}
use agentq.Job.{Func}
use agentq.Workflow.{StepDef, Duration, Workflow, StepStatus, Execution}
use agentq.Store.{DurableStore, StoreError, not_found, backend}
use agentq.Engine.Replay.{
  workflow_is_cancelled, workflow_has_terminal_event, step_status_from_events,
  current_attempt_from_events, input_from_events,
}
use agentq.Engine.State.{
  WorkflowEngine, EngineError, StepOutcome, RunningWorkflow, World, Reply, returned, failed,
  panicked, blocked, Async, pure, fail, ◌>>=◌, ◌>>◌, call_store, get_mounted, mount,
  drop_from_in_flight,
}
use agentq.Engine.Step.{run_step}

abbrev pub backend_error : Text → EngineError
backend_error msg = EngineError.store (backend msg)

module _ {S : Type 0} (ds : DurableStore S) (show : Duration → Text) (engine : WorkflowEngine) where
  unfoldable pub append : Event → Async S (Unit {0})
  unfolding call_store
  append event = call_store (ds.append_event event)

  unfoldable pub load : Text → Async S (List Event)
  unfolding call_store
  load workflow_id = call_store (ds.load_events workflow_id)

  unfoldable pub register_workflow : Workflow → List Func → Async S (Unit {0})
  unfolding mount
  register_workflow workflow bodies =
      if length bodies == length workflow.steps
      then mount workflow.id (record { steps = workflow.steps; bodies = bodies })
      else fail (backend_error (codes "step body count does not match workflow definition"))

  unfoldable pub running_or_not_found : Option RunningWorkflow → Async S RunningWorkflow
  running_or_not_found none = fail (EngineError.store not_found)
  running_or_not_found (some running) = pure running

  -- `mounted_steps_and_bodies`
  unfoldable pub mounted : Text → Async S RunningWorkflow
  unfolding get_mounted running_or_not_found
  mounted workflow_id = do found ← get_mounted workflow_id; running_or_not_found found

  -- The last block of `drive_from`, under the lock `terminal_write`.
  unfoldable pub complete : Text → Async S (Unit {0})
  unfolding append load workflow_has_terminal_event
  complete workflow_id = do
    events ← load workflow_id
    if workflow_has_terminal_event events then pure tt else append (workflow_completed workflow_id)

  -- `match self.run_step(..).await`: a step that failed un-registers its workflow.
  unfoldable pub by_reply :
      Text → (StepOutcome → Async S (Unit {0})) → Reply StepOutcome → Async S (Unit {0})
  unfolding drop_from_in_flight
  by_reply workflow_id next (returned outcome) = next outcome
  by_reply workflow_id next (failed e) = do drop_from_in_flight workflow_id; fail e
  by_reply workflow_id next panicked = λ w. (panicked, w)
  by_reply workflow_id next blocked = λ w. (blocked, w)

  unfoldable pub run_then :
      Text → ℕ → StepDef → Func → ℕ → (StepOutcome → Async S (Unit {0})) → Async S (Unit {0})
  unfolding run_step by_reply
  run_then workflow_id step_index step body attempt next w =
      let r = run_step ds show engine workflow_id step_index step body attempt w in
      by_reply workflow_id next r.0 r.1

  unfoldable pub or_wait : Async S (Unit {0}) → StepOutcome → Async S (Unit {0})
  or_wait next StepOutcome.completed = next
  or_wait next StepOutcome.waiting = pure tt

  -- `&steps[step_index]` and `bodies[step_index]`
  unfoldable pub indexed :
      Option StepDef → Option Func → (StepDef → Func → Async S (Unit {0})) → Async S (Unit {0})
  indexed (some step) (some body) run = run step body
  indexed _ _ run = λ w. (panicked, w)

  -- The rounds left of `for step_index in start_index..steps.len()`, and what follows the loop.
  unfoldable pub drive_loop : ℕ → Text → RunningWorkflow → ℕ → Async S (Unit {0})
  unfolding load workflow_is_cancelled complete drop_from_in_flight run_then or_wait indexed
  drive_loop zero workflow_id running step_index = do
    complete workflow_id
    drop_from_in_flight workflow_id
  drive_loop (suc rounds) workflow_id running step_index =
      let rest = drive_loop rounds workflow_id running (suc step_index) in
      do
        events ← load workflow_id
        if workflow_is_cancelled events
            then pure tt
            else indexed (get_elem? running.steps step_index) (get_elem? running.bodies step_index)
                (λ step body. run_then workflow_id step_index step body 0 (or_wait rest))

  unfoldable pub drive_from : Text → RunningWorkflow → ℕ → Async S (Unit {0})
  unfolding drive_loop
  drive_from workflow_id running start_index =
      drive_loop (length running.steps - start_index) workflow_id running start_index

  unfoldable pub run : Workflow → List Func → Async S (Unit {0})
  unfolding register_workflow append mounted drive_from
  run workflow bodies = do
    register_workflow workflow bodies
    append (workflow_started workflow.id)
    running ← mounted workflow.id
    drive_from workflow.id running 0

  unfoldable pub cancel : Text → Text → Async S (Unit {0})
  unfolding load append workflow_has_terminal_event drop_from_in_flight
  cancel workflow_id reason = do
    events ← load workflow_id
    if workflow_has_terminal_event events
        then pure tt
        else append (workflow_cancelled workflow_id reason) >> drop_from_in_flight workflow_id

  -- What `resume` and the re-admission do behind a completed step.
  unfoldable pub drive_rest : Text → ℕ → Async S (Unit {0})
  unfolding mounted drive_from
  drive_rest workflow_id step_index = do
    running ← mounted workflow_id
    drive_from workflow_id running (step_index + 1)

  -- `resume` behind its checks of the log, with the step and its body, if there is such a step.
  unfoldable pub resume_at :
      Text → ℕ → Text → List Event → Option StepDef → Option Func → Async S (Unit {0})
  unfolding append run_then or_wait drive_rest current_attempt_from_events
  resume_at workflow_id step_index input events (some step) (some body) = do
    append (step_resumed workflow_id step_index input)
    run_then workflow_id step_index step body (current_attempt_from_events events step_index)
        (or_wait (drive_rest workflow_id step_index))
  resume_at workflow_id step_index input events (some step) none = λ w. (panicked, w)
  resume_at workflow_id step_index input events none _ = fail (EngineError.store not_found)

  unfoldable pub resume_waiting : Text → ℕ → Text → List Event → StepStatus → Async S (Unit {0})
  unfolding mounted resume_at
  resume_waiting workflow_id step_index input events (StepStatus.waiting _) = do
    running ← mounted workflow_id
    resume_at workflow_id step_index input events (get_elem? running.steps step_index)
        (get_elem? running.bodies step_index)
  resume_waiting workflow_id step_index input events _ =
      fail (backend_error (codes "step is not waiting"))

  unfoldable pub resume : Text → ℕ → Text → Async S (Unit {0})
  unfolding load workflow_is_cancelled step_status_from_events resume_waiting
  resume workflow_id step_index input = do
    events ← load workflow_id
    if workflow_is_cancelled events
        then fail (backend_error (codes "workflow is cancelled"))
        else resume_waiting workflow_id step_index input events
            (step_status_from_events events step_index)

  input_of : ℕ → Result StoreError (List Event) → Option Text
  unfolding input_from_events
  input_of step_index (ok events) = input_from_events events step_index
  input_of step_index (err e) = none

  unfoldable pub resume_input : Text → ℕ → World S → Option Text
  unfolding input_of
  resume_input workflow_id step_index w =
      input_of step_index (ds.load_events workflow_id w.shared.db).0

  unfoldable pub readmit_at : Text → ℕ → ℕ → Option StepDef → Option Func → Async S (Unit {0})
  unfolding run_then or_wait drive_rest
  readmit_at workflow_id step_index attempt (some step) (some body) =
      run_then workflow_id step_index step body attempt
        (or_wait (drive_rest workflow_id step_index))
  readmit_at workflow_id step_index attempt (some step) none = λ w. (panicked, w)
  readmit_at workflow_id step_index attempt none _ = pure tt

  unfoldable pub readmit_mounted : Text → ℕ → ℕ → Option RunningWorkflow → Async S (Unit {0})
  unfolding readmit_at
  readmit_mounted workflow_id step_index attempt none = pure tt
  readmit_mounted workflow_id step_index attempt (some running) =
      readmit_at workflow_id step_index attempt (get_elem? running.steps step_index)
        (get_elem? running.bodies step_index)

  unfoldable pub readmit_after_worker_recovery : Text → ℕ → ℕ → Async S (Unit {0})
  unfolding append get_mounted readmit_mounted
  readmit_after_worker_recovery workflow_id step_index attempt = do
    append (worker_recovered workflow_id step_index)
    found ← get_mounted workflow_id
    readmit_mounted workflow_id step_index attempt found

  unfoldable pub recover_all : List Execution → ℕ → Async S ℕ
  unfolding readmit_after_worker_recovery
  recover_all [] recovered = pure recovered
  recover_all (exec ∷ execs) recovered = do
    readmit_after_worker_recovery exec.workflow_id exec.step_index exec.attempt
    recover_all execs (recovered + 1)

  unfoldable pub recover : Async S ℕ
  unfolding call_store recover_all
  recover = do expired ← call_store ds.expired_leases; recover_all expired 0
