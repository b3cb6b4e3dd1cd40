-- ===== src/Engine/Mounted/Methods.antt =====
-- src/engine.rs and src/recovery.rs: no method of the engine panics at an index.
use agentq.Prelude.{
  ℕ, ◌+◌, ◌≡◌, refl, List, [], ◌∷◌, Option, none, some, arith, length, get_elem?, Bool-cases, inl,
  inr, ◌==◌,
}
use agentq.Text.{Text}
use agentq.Event.{Event}
use agentq.Job.{Func}
use agentq.Workflow.{StepDef, Duration, Workflow, Execution, StepStatus, leased}
use agentq.Store.{DurableStore}
use agentq.Engine.Replay.{
  workflow_is_cancelled, workflow_has_terminal_event, step_status_from_events,
  current_attempt_from_events,
}
use agentq.Engine.State.{RunningWorkflow, WorkflowEngine, World}
use agentq.Engine.Ensures.{Ensures, bind-Ensures}
use agentq.Engine.Mounted.{
  InOrder, Safe, pure-Safe, fail-Safe, bind-Safe, call_store-Safe, drop_from_in_flight-Safe,
  mount-Safe,
}
use agentq.Engine.Drive.{
  register_workflow, run, cancel, resume_at, resume_waiting, resume, readmit_at, readmit_mounted,
  readmit_after_worker_recovery, recover_all, recover,
}
use agentq.Engine.Mounted.Drive.{
  Paired, get_elem?-same_length, append-Safe, load-Safe, if-Safe, with_running-Safe, run_then-Safe,
  or_wait-Safe, drive_from-Safe, drive_rest-Safe, get_mounted-AllFound, AllFound,
}

module _ {S : Type 0} (ds : DurableStore S) (show : Duration → Text) (engine : WorkflowEngine) where
  resume_at-Safe :
      (workflow_id : Text) (i : ℕ) (input : Text) (es : List Event) (s : Option StepDef)
      (b : Option Func)
      → (b ≡ none → s ≡ none)
      → Ensures InOrder (resume_at ds show engine workflow_id i input es s b) Safe
  unfolding resume_at
  resume_at-Safe workflow_id i input es (some step) (some body) h =
      bind-Safe (append-Safe ds show engine _) (λ u.
        run_then-Safe ds show engine workflow_id i step body (current_attempt_from_events es i) _
          (or_wait-Safe ds show engine _ (drive_rest-Safe ds show engine workflow_id i)))
  resume_at-Safe workflow_id i input es (some step) none h =
      let e : some step ≡ none = h refl in absurd (ground arith)
  resume_at-Safe workflow_id i input es none b h = fail-Safe _

  -- Where there is no body there is no step.
  no_step :
      (running : RunningWorkflow) (i : ℕ)
      → Paired running
      → get_elem? running.bodies i ≡ none
      → get_elem? running.steps i ≡ none
  no_step running i p = get_elem?-same_length running.bodies running.steps i p

  resume_waiting-Safe :
      (workflow_id : Text) (i : ℕ) (input : Text) (es : List Event) (status : StepStatus)
      → Ensures InOrder (resume_waiting ds show engine workflow_id i input es status) Safe
  unfolding resume_waiting
  resume_waiting-Safe workflow_id i input es (StepStatus.waiting reason) =
      with_running-Safe ds show engine workflow_id _
        (λ running p. resume_at-Safe workflow_id i input es _ _ (no_step running i p))
  resume_waiting-Safe workflow_id i input es StepStatus.pending = fail-Safe _
  resume_waiting-Safe workflow_id i input es (leased _ _) = fail-Safe _
  resume_waiting-Safe workflow_id i input es (StepStatus.completed _) = fail-Safe _
  resume_waiting-Safe workflow_id i input es (StepStatus.failed _ _) = fail-Safe _

  readmit_at-Safe :
      (workflow_id : Text) (i a : ℕ) (s : Option StepDef) (b : Option Func)
      → (b ≡ none → s ≡ none)
      → Ensures InOrder (readmit_at ds show engine workflow_id i a s b) Safe
  unfolding readmit_at
  readmit_at-Safe workflow_id i a (some step) (some body) h =
      run_then-Safe ds show engine workflow_id i step body a _
        (or_wait-Safe ds show engine _ (drive_rest-Safe ds show engine workflow_id i))
  readmit_at-Safe workflow_id i a (some step) none h =
      let e : some step ≡ none = h refl in absurd (ground arith)
  readmit_at-Safe workflow_id i a none b h = pure-Safe tt

  readmit_mounted-Safe :
      (workflow_id : Text) (i a : ℕ) (found : Option RunningWorkflow)
      → ((running : RunningWorkflow) → found ≡ some running → Paired running)
      → Ensures InOrder (readmit_mounted ds show engine workflow_id i a found) Safe
  unfolding readmit_mounted
  readmit_mounted-Safe workflow_id i a none h = pure-Safe tt
  readmit_mounted-Safe workflow_id i a (some running) h =
      readmit_at-Safe workflow_id i a _ _ (no_step running i (h running refl))

  readmit-Safe :
      (workflow_id : Text) (i a : ℕ)
      → Ensures InOrder (readmit_after_worker_recovery ds show engine workflow_id i a) Safe
  unfolding readmit_after_worker_recovery AllFound Safe
  readmit-Safe workflow_id i a = bind-Safe (append-Safe ds show engine _) (λ u.
      bind-Ensures (AllFound ds show engine) Safe (λ w. (λ e h. h, λ h. h, λ h. h)) _
        (λ found. record { at = λ w h. (readmit_mounted-Safe workflow_id i a found h.1).at w h.0 })
        (get_mounted-AllFound ds show engine workflow_id))

  recover_all-Safe :
      (execs : List Execution) (n : ℕ) → Ensures InOrder (recover_all ds show engine execs n) Safe
  unfolding recover_all
  recover_all-Safe [] n = pure-Safe n
  recover_all-Safe (exec ∷ execs) n =
      bind-Safe (readmit-Safe exec.workflow_id exec.step_index exec.attempt)
        (λ u. recover_all-Safe execs (n + 1))

  register_workflow-Safe :
      (workflow : Workflow) (bodies : List Func)
      → Ensures InOrder (register_workflow ds show engine workflow bodies) Safe
  unfolding register_workflow
  register_workflow-Safe workflow bodies =
      elim (Bool-cases (length bodies == length workflow.steps)) [
        | inl e ↦
            let same : length bodies ≡ length workflow.steps = ground arith in
            rw e (mount-Safe workflow.id (record { steps = workflow.steps; bodies = bodies }) same)
        | inr e ↦ rw e (fail-Safe _)
      ]

  run-Safe :
      (workflow : Workflow) (bodies : List Func)
      → Ensures InOrder (run ds show engine workflow bodies) Safe
  unfolding run
  run-Safe workflow bodies = bind-Safe (register_workflow-Safe workflow bodies) (λ u.
      bind-Safe (append-Safe ds show engine _) (λ u.
        with_running-Safe ds show engine workflow.id _
          (λ running p. drive_from-Safe ds show engine workflow.id running 0 p)))

  resume-Safe :
      (workflow_id : Text) (i : ℕ) (input : Text)
      → Ensures InOrder (resume ds show engine workflow_id i input) Safe
  unfolding resume
  resume-Safe workflow_id i input = bind-Safe (load-Safe ds show engine workflow_id) (λ es.
      if-Safe ds show engine (workflow_is_cancelled es) _ _ (fail-Safe _)
        (resume_waiting-Safe workflow_id i input es (step_status_from_events es i)))

  recover-Safe : Ensures InOrder (recover ds show engine) Safe
  unfolding recover
  recover-Safe = bind-Safe (call_store-Safe ds.expired_leases) (λ execs. recover_all-Safe execs 0)

  cancel-Safe :
      (workflow_id reason : Text) → Ensures InOrder (cancel ds show engine workflow_id reason) Safe
  unfolding cancel
  cancel-Safe workflow_id reason = bind-Safe (load-Safe ds show engine workflow_id) (λ es.
      if-Safe ds show engine (workflow_has_terminal_event es) _ _ (pure-Safe tt)
        (bind-Safe (append-Safe ds show engine _) (λ u. drop_from_in_flight-Safe workflow_id)))

  -- If every mounted workflow has a body for each of its steps, and the other tasks keep it so, then
  -- none of `run`, `resume`, `cancel` and `recover` panics at an index, whatever the store, the
  -- queue and the other tasks answer, and each leaves every mounted workflow with a body for each of
  -- its steps, also when it fails or still waits.
  pub engine-Safe :
      (w : World S)
      → InOrder w
      → ((workflow : Workflow) (bodies : List Func)
          → Safe (run ds show engine workflow bodies w).0 (run ds show engine workflow bodies w).1)
        × ((workflow_id : Text) (i : ℕ) (input : Text)
            → Safe
                (resume ds show engine workflow_id i input w).0
                (resume ds show engine workflow_id i input w).1)
        × ((workflow_id reason : Text)
            → Safe
                (cancel ds show engine workflow_id reason w).0
                (cancel ds show engine workflow_id reason w).1)
        × Safe (recover ds show engine w).0 (recover ds show engine w).1
  engine-Safe w h = (
    λ workflow bodies. (run-Safe workflow bodies).at w h,
    λ workflow_id i input. (resume-Safe workflow_id i input).at w h,
    λ workflow_id reason. (cancel-Safe workflow_id reason).at w h,
    recover-Safe.at w h,
  )
