-- ===== src/Engine/Trace/Step.antt =====
-- src/engine.rs: `run_step` does what its trace tells.
use agentq.Prelude.{
  ℕ, suc, ◌≤◌, ◌≡◌, refl, sym, ap, subst, false, List, [], ◌∷◌, ◌++◌, append-nil, some, All, arith,
}
use agentq.Text.{Text}
use agentq.Event.{Event, step_started}
use agentq.Job.{Job, Func}
use agentq.Workflow.{StepDef, Duration}
use agentq.Store.{DurableStore}
use agentq.Store.Spec.{StoreSpec, StoreView, closes}
use agentq.Sqlite.Codec.{event_workflow_id, usize_max, u32_max}
use agentq.Engine.Replay.{workflow_is_cancelled, is_cancelled}
use agentq.Engine.State.{WorkflowEngine, RunningWorkflow, StepOutcome, Turn, blocked, Async, ◌>>◌}
use agentq.Engine.Step.{
  append, attempt_job, from_push, on_claim, run_round, run_loop, run_step, next_attempt,
}
use agentq.Engine.Gives.{bind-Gives}
use agentq.Engine.Trace.{Trace, logs, pushes, stopped, step_trace, job_of, step_run}
use agentq.Engine.Trace.Stands.{Stands-later}
use agentq.Engine.Trace.Stands.Calls.{claim_step-Gives}
use agentq.Engine.Trace.Follows.{Ends, TurnAlone, log-Follows, stays_open, Does}
use agentq.Engine.Trace.Attempt.{from_push-Does}

module _ {S : Type 0} {ds : DurableStore S} {view : StoreView S} (spec : StoreSpec ds view)
    (show : Duration → Text) (engine : WorkflowEngine) (w : Text) (running : RunningWorkflow)
    (i : ℕ) (fits : i ≤ usize_max) where
  module _ (step : StepDef) (body : Func) where
    -- A claim that is granted, and the start of the attempt.
    run_round-Does :
        (es : List Event) (jobs : List Job) (turns turns' : List (Turn S))
        (again : ℕ → Async S StepOutcome) (a : ℕ) (tr : Trace S StepOutcome)
        → a ≤ u32_max
        → Does view engine w running i
            (es ++ step_started w i a ∷ [])
            jobs
            turns
            (from_push ds show engine w i step body turns' again a)
            tr
        → Does view engine w running i es jobs turns
            (run_round ds show engine w i step body turns' again a)
            (logs (step_started w i a) tr)
    unfolding run_round append on_claim event_workflow_id closes
    run_round-Does es jobs turns turns' again a tr le g =
        bind-Gives
          (λ claim. on_claim ds show engine w i claim (
            append ds show engine w i (step_started w i a)
            >> from_push ds show engine w i step body turns' again a))
          (claim_step-Gives spec engine w (some running) jobs turns i i es (omega arith))
          (log-Follows spec engine w i i (suc i) (some running) es jobs turns tr
            (step_started w i a) (λ u. from_push ds show engine w i step body turns' again a)
            (fits, le) refl (omega arith) (λ j q. refl) g)

    unanswered-Does :
        (es : List Event) (jobs : List Job) (again : ℕ → Async S StepOutcome) (a : ℕ)
        → Does view engine w running i es jobs []
            (from_push ds show engine w i step body [] again a)
            (pushes
              (job_of engine w i body a)
              (step_trace show engine w running i step body blocked []))
    unfolding from_push attempt_job job_of pushes step_trace stopped
    unanswered-Does es jobs again a = record {
      at = λ v h. (
        refl,
        rw (append-nil es) (
            Stands-later view w engine.worker_id i (suc i) (some running) es
              (jobs ++ job_of engine w i body a ∷ []) [] _ (omega arith)
              (record {
                shared = h.shared;
                pushed = ap (λ js. js ++ job_of engine w i body a ∷ []) h.pushed;
                left = h.left;
              })),
      );
    }

    run_loop-Does :
        (es : List Event) (jobs : List Job) (turns : List (Turn S)) (a : ℕ)
        → a ≤ u32_max
        → All (TurnAlone view engine w) turns
        → workflow_is_cancelled es ≡ false
        → Does view engine w running i es jobs turns
            (run_loop ds show engine w i step body turns a)
            (step_run show engine w running i step body a turns)
    unfolding run_loop step_run is_cancelled
    run_loop-Does es jobs [] a le alone h =
        run_round-Does es jobs [] [] (λ b v. (blocked, v)) a _ le
          (unanswered-Does (es ++ step_started w i a ∷ []) jobs (λ b v. (blocked, v)) a)
    run_loop-Does es jobs (turn ∷ turns) a le alone h =
        run_round-Does es jobs (turn ∷ turns) (turn ∷ turns)
          (run_loop ds show engine w i step body turns) a _ le
          (from_push-Does spec show engine w running i fits step body turn turns alone.0
            (run_loop ds show engine w i step body turns) a
            (step_run show engine w running i step body (next_attempt a) turns)
            (λ es' jobs' h'.
              run_loop-Does es' jobs' turns (next_attempt a) (omega arith) alone.1 h')
            (es ++ step_started w i a ∷ []) jobs (turn ∷ turns)
            (stays_open es (step_started w i a) h refl))

    pub run_step-Does :
        (es : List Event) (jobs : List Job) (turns : List (Turn S)) (a : ℕ)
        → a ≤ u32_max
        → All (TurnAlone view engine w) turns
        → workflow_is_cancelled es ≡ false
        → Does view engine w running i es jobs turns
            (run_step ds show engine w i step body a)
            (step_run show engine w running i step body a turns)
    unfolding run_step
    run_step-Does es jobs turns a le alone h = record {
      at = λ v p.
          subst
            (λ ts.
              ((run_loop ds show engine w i step body ts a v).0
                ≡ (step_run show engine w running i step body a turns).reply)
              × Ends view engine w (suc i) es jobs
                  (step_run show engine w running i step body a turns)
                  (run_loop ds show engine w i step body ts a v).1)
            (sym p.left) ((run_loop-Does es jobs turns a le alone h).at v p);
    }
