-- ===== src/Engine/Trace/Distinct.antt =====
-- src/engine.rs: no two jobs that a run pushes have the same key.
use agentq.Prelude.{
  ℕ, suc, ◌+◌, ◌^◌, ◌<◌, ◌≤◌, ◌≡◌, subst, true, false, List, [], ◌∷◌, ◌++◌, Option, none, some, All,
  length, arith, ltb, Bool-cases, inl, inr,
}
use agentq.Text.{Text}
use agentq.Event.{Event}
use agentq.Job.{Job, Func, Outcome}
use agentq.Workflow.{Duration, StepDef, Workflow}
use agentq.Store.{DurableStore}
use agentq.Store.Spec.{StoreSpec, StoreView}
use agentq.Sqlite.Codec.{usize_max}
use agentq.Engine.Reasons.{parse_waiting_reason, parse_non_retryable_reason}
use agentq.Engine.Replay.{workflow_has_terminal_event}
use agentq.Engine.State.{
  WorkflowEngine, RunningWorkflow, Turn, World, Reply, returned, failed, panicked, blocked,
  StepOutcome,
}
use agentq.Engine.Step.{next_attempt}
use agentq.Engine.Drive.{run}
use agentq.Engine.Trace.{
  Trace, attempt_reply, failure_trace, outcome_trace, step_run, after_step, drive_run, whole_run,
}
use agentq.Engine.Trace.Stands.{Kept}
use agentq.Engine.Trace.Follows.{TurnAlone}
use agentq.Engine.Trace.Run.{running_of, run-whole_run}
use agentq.Engine.Trace.Keys.{
  KeysDiffer, Fits, OfStepsFrom, StepJobs, DriveJobs, DriveJobs-append, StepJobs-next,
}

module _ {S : Type 0} (show : Duration → Text) (engine : WorkflowEngine) (w : Text)
    (running : RunningWorkflow) where
  module _ (i : ℕ) (step : StepDef) (body : Func) where
    -- Behind an attempt are the jobs of the next ones, if the policy allows one, or none.
    failure_trace-jobs :
        (P : List Job → Type 0) (a : ℕ) (reason : Text) (waits strips : Option Text)
        (rest : Trace S StepOutcome) (left : List (Turn S))
        → P []
        → (ltb (next_attempt a) step.retry_policy.max_attempts ≡ true → P rest.jobs)
        → P (failure_trace show engine w running i step body a reason waits strips rest left).jobs
    unfolding failure_trace
    failure_trace-jobs P a reason (some waits) strips rest left n r = n
    failure_trace-jobs P a reason none (some stripped) rest left n r = n
    failure_trace-jobs P a reason none none rest left n r =
        elim (Bool-cases (ltb (next_attempt a) step.retry_policy.max_attempts)) [
          | inl e ↦ rw e (r e)
          | inr e ↦ rw e n
        ]

    outcome_trace-jobs :
        (P : List Job → Type 0) (a : ℕ) (reply : Reply Outcome) (rest : Trace S StepOutcome)
        (left : List (Turn S))
        → P []
        → (ltb (next_attempt a) step.retry_policy.max_attempts ≡ true → P rest.jobs)
        → P (outcome_trace show engine w running i step body a reply rest left).jobs
    unfolding outcome_trace
    outcome_trace-jobs P a (returned (Outcome.completed output)) rest left n r = n
    outcome_trace-jobs P a (returned (Outcome.failed reason)) rest left n r =
        failure_trace-jobs P a reason (parse_waiting_reason reason)
          (parse_non_retryable_reason reason) rest left n r
    outcome_trace-jobs P a (failed e) rest left n r = n
    outcome_trace-jobs P a panicked rest left n r = n
    outcome_trace-jobs P a blocked rest left n r = n

    step_run-StepJobs :
        (a : ℕ) (turns : List (Turn S))
        → Fits step
        → a + 1 < 2 ^ 32
        → StepJobs w i a (step_run show engine w running i step body a turns).jobs
    unfolding step_run
    step_run-StepJobs a [] fits small = StepJobs-next engine w i body a [] (tt, tt)
    step_run-StepJobs a (turn ∷ turns) fits small =
        let next_eq : next_attempt a ≡ suc a = omega arith in
        StepJobs-next engine w i body a _ (
          outcome_trace-jobs (StepJobs w i (suc a)) a
            (attempt_reply show step.timeout turn.wakes turn.answer)
            (step_run show engine w running i step body (next_attempt a) turns) turns (tt, tt)
            (λ more.
              subst
                (λ b.
                  StepJobs w i b
                    (step_run show engine w running i step body (next_attempt a) turns).jobs)
                next_eq
                (step_run-StepJobs (next_attempt a) turns fits (ground (arith, more, next_eq)))))

  after_step-DriveJobs :
      (i : ℕ) (tr : Trace S StepOutcome) (reply : Reply StepOutcome) (rest : Trace S (Unit {0}))
      → StepJobs w i 0 tr.jobs
      → DriveJobs w (suc i) rest.jobs
      → DriveJobs w i (after_step show engine w running tr reply rest).jobs
  unfolding after_step
  after_step-DriveJobs i own (returned StepOutcome.completed) rest h g =
      DriveJobs-append w i own.jobs rest.jobs h g
  after_step-DriveJobs i own (returned StepOutcome.waiting) rest h g =
      DriveJobs-append w i own.jobs [] h (tt, tt)
  after_step-DriveJobs i own (failed e) rest h g = DriveJobs-append w i own.jobs [] h (tt, tt)
  after_step-DriveJobs i own panicked rest h g = DriveJobs-append w i own.jobs [] h (tt, tt)
  after_step-DriveJobs i own blocked rest h g = DriveJobs-append w i own.jobs [] h (tt, tt)

  drive_run-DriveJobs :
      (i : ℕ) (steps : List StepDef) (bodies : List Func) (turns : List (Turn S))
      → All Fits steps
      → DriveJobs w i (drive_run show engine w running i steps bodies turns).jobs
  unfolding drive_run
  drive_run-DriveJobs i [] bodies turns fits = (tt, tt)
  drive_run-DriveJobs i (step ∷ steps) [] turns fits = (tt, tt)
  drive_run-DriveJobs i (step ∷ steps) (body ∷ bodies) turns fits =
      let tr = step_run show engine w running i step body 0 turns in
      after_step-DriveJobs i tr tr.reply
        (drive_run show engine w running (suc i) steps bodies tr.left)
        (step_run-StepJobs i step body 0 turns fits.0 (omega arith))
        (drive_run-DriveJobs (suc i) steps bodies tr.left fits.1)

module _ {S : Type 0} {ds : DurableStore S} {view : StoreView S} (spec : StoreSpec ds view)
    (show : Duration → Text) (engine : WorkflowEngine) (workflow : Workflow) (bodies : List Func)
    (one_each : length bodies ≡ length workflow.steps)
    (few : length workflow.steps ≤ usize_max) where
  -- On any store that keeps `StoreSpec`, beside tasks that leave the workflow alone, the jobs that a
  -- run adds to the queue have the keys of attempts of the workflow's steps, and no two of them have
  -- the same key, whatever the queue answers. There is a body for each step, the number of steps
  -- fits `usize` and the attempts of each policy a `u32`, the log has no terminal event before, and
  -- the worker may claim every step.
  pub run-KeysDiffer :
      (es : List Event) (found : Option RunningWorkflow) (v : World S)
      → All Fits workflow.steps
      → workflow_has_terminal_event es ≡ false
      → All (TurnAlone view engine workflow.id) v.turns
      → Kept view workflow.id engine.worker_id 0 found es v.shared
      → (jobs : List Job) × ((run ds show engine workflow bodies v).1.pushed ≡ v.pushed ++ jobs)
        × All (OfStepsFrom workflow.id 0) jobs
        × KeysDiffer jobs
  unfolding whole_run
  run-KeysDiffer es found v fits unended alone kept =
      let running = running_of workflow bodies in
      let (_, _, pushed, _, _) =
        run-whole_run spec show engine workflow bodies one_each few es found v unended alone kept in
      let (own, differ) =
        drive_run-DriveJobs show engine workflow.id running 0 workflow.steps bodies v.turns fits in
      ((whole_run show engine workflow.id running v.turns).jobs, pushed, own, differ)
