-- ===== src/Engine/Trace/Attempt.antt =====
-- src/engine.rs: an attempt of `run_step`, from its push on, does what its trace tells.
use agentq.Prelude.{
  ℕ, suc, ◌≤◌, ◌≡◌, refl, subst, false, List, [], ◌∷◌, ◌++◌, append_assoc, Option, none, some,
  Result, ok, err, ltb, arith, Bool-cases, inl, inr,
}
use agentq.Text.{Text, text_eq}
use agentq.Event.{
  Event, step_completed, step_failed, retry_scheduled, step_waiting, workflow_failed,
}
use agentq.Job.{Job, Func, Outcome, PushError}
use agentq.Workflow.{StepDef, Duration}
use agentq.Store.{DurableStore}
use agentq.Store.Spec.{StoreSpec, StoreView, closes}
use agentq.Sqlite.Codec.{event_workflow_id, usize_max}
use agentq.Sqlite.Codec.RoundTrip.{FitsTypes}
use agentq.Engine.Replay.{workflow_is_cancelled, is_cancelled}
use agentq.Engine.Backoff.{backoff_duration}
use agentq.Engine.State.{
  WorkflowEngine, RunningWorkflow, EngineError, StepOutcome, Accepted, queued, in_flight, cached,
  Turn, Reply, returned, failed, panicked, blocked, Async, continue, ◌>>=◌, ◌>>◌, call_store,
  yield_to,
}
use agentq.Engine.Step.{
  append, after_sleep, retry, give_up, on_failed, on_outcome, wait_for, on_pushed, push,
  attempt_job, from_push, next_attempt,
}
use agentq.Engine.Gives.{Gives, bind-Gives}
use agentq.Engine.Trace.{
  Trace, logs, pushes, wait_reply, step_trace, failure_trace, outcome_trace, attempt_reply, job_of,
}
use agentq.Engine.Trace.Stands.{Stands}
use agentq.Engine.Trace.Stands.Calls.{load_events-Gives, yield_to-Gives, push-Gives}
use agentq.Engine.Trace.Follows.{
  TurnAlone, stop-Follows, log-Follows, stays_open, no_later, Here, Does,
}
use agentq.Engine.Trace.Wait.{await-Gives}

module _ {S : Type 0} {ds : DurableStore S} {view : StoreView S} (spec : StoreSpec ds view)
    (show : Duration → Text) (engine : WorkflowEngine) (w : Text) (running : RunningWorkflow)
    (i : ℕ) (fits : i ≤ usize_max) where
  module _ (step : StepDef) (body : Func) (turn : Turn S) (left : List (Turn S))
      (alone : TurnAlone view engine w turn) (again : ℕ → Async S StepOutcome) (a : ℕ)
      (rest : Trace S StepOutcome)
      (next : (es : List Event) (jobs : List Job)
        → workflow_is_cancelled es ≡ false
        → Does view engine w running i es jobs left (again (next_attempt a)) rest) where
    after_sleep-Does :
        (es : List Event) (jobs : List Job)
        → workflow_is_cancelled es ≡ false
        → Does view engine w running i es jobs left
            (after_sleep ds show engine w i again (next_attempt a) es)
            rest
    unfolding after_sleep
    after_sleep-Does es jobs h = rw h (next es jobs h)

    loaded-Does :
        (es : List Event) (jobs : List Job)
        → workflow_is_cancelled es ≡ false
        → Does view engine w running i es jobs left
            (call_store (ds.load_events w)
              >>= after_sleep ds show engine w i again (next_attempt a))
            rest
    loaded-Does es jobs h =
        bind-Gives (after_sleep ds show engine w i again (next_attempt a))
          (load_events-Gives spec engine w (some running) jobs left i es)
          (after_sleep-Does es jobs h)

    slept-Does :
        (es : List Event) (jobs : List Job) (d : Duration)
        → workflow_is_cancelled es ≡ false
        → Does view engine w running i es jobs left
            (yield_to (turn.during_sleep d)
              >> (call_store (ds.load_events w)
                  >>= after_sleep ds show engine w i again (next_attempt a)))
            rest
    slept-Does es jobs d h =
        bind-Gives
          (λ u.
            call_store (ds.load_events w) >>= after_sleep ds show engine w i again (next_attempt a))
          (yield_to-Gives spec engine w (some running) jobs left i es (turn.during_sleep d)
            (alone.2 d))
          (loaded-Does es jobs h)

    -- An event of the workflow that ends no claim, and what follows it.
    log-Does :
        (es : List Event) (jobs : List Job) (e : Event) (f : Unit {0} → Async S StepOutcome)
        (tr : Trace S StepOutcome)
        → FitsTypes e
        → event_workflow_id e ≡ w
        → ((j : ℕ) → closes w j e ≡ false)
        → Does view engine w running i (es ++ e ∷ []) jobs left (f tt) tr
        → Does view engine w running i es jobs left (append ds show engine w i e >>= f) (logs e tr)
    unfolding append
    log-Does es jobs e f tr ok_types own apart g =
        log-Follows spec engine w i i (suc i) (some running) es jobs left tr e f ok_types own
          (omega arith) (λ j q. apart j) g

    stop-Does :
        (es : List Event) (jobs : List Job) (r : Reply StepOutcome)
        → Does view engine w running i es jobs left
            (λ v. (r, v))
            (step_trace show engine w running i step body r left)
    unfolding step_trace
    stop-Does es jobs r =
        stop-Follows view engine w i (suc i) (some running) es jobs left r (omega arith)

    -- The event that ends the step, which claims no other step.
    last-Does :
        (es : List Event) (jobs : List Job) (e : Event) (r : Reply StepOutcome)
        → FitsTypes e
        → event_workflow_id e ≡ w
        → ((j : ℕ) → suc i ≤ j → closes w j e ≡ false)
        → Does view engine w running i es jobs left
            (append ds show engine w i e >>= λ u v. (r, v))
            (logs e (step_trace show engine w running i step body r left))
    unfolding append step_trace
    last-Does es jobs e r ok_types own apart =
        log-Follows spec engine w i (suc i) (suc i) (some running) es jobs left _ e _ ok_types own
          (omega arith) apart
          (stop-Follows view engine w (suc i) (suc i) (some running) (es ++ e ∷ []) jobs left r
            (omega arith))

    retry-Does :
        (es : List Event) (jobs : List Job)
        → workflow_is_cancelled es ≡ false
        → Does view engine w running i es jobs left
            (retry ds show engine w i step turn again a)
            (logs (retry_scheduled w i (next_attempt a)) rest)
    unfolding retry event_workflow_id closes is_cancelled
    retry-Does es jobs h =
        let e = retry_scheduled w i (next_attempt a) in
        log-Does es jobs e _ rest (fits, omega arith) refl (λ j. refl)
          (slept-Does (es ++ e ∷ []) jobs (backoff_duration step.retry_policy a)
            (stays_open es e h refl))

    give_up-Does :
        (es : List Event) (jobs : List Job) (reason : Text)
        → Does view engine w running i es jobs left (give_up ds show engine w i reason) (
            logs (workflow_failed w reason) (
              step_trace show engine w running i step body
                (failed (EngineError.workflow_failed reason))
                left))
    unfolding give_up event_workflow_id closes
    give_up-Does es jobs reason =
        last-Does es jobs (workflow_failed w reason) _ tt refl (λ j q. refl)

    on_failed-Does :
        (es : List Event) (jobs : List Job) (reason : Text) (wait non : Option Text)
        → workflow_is_cancelled es ≡ false
        → Does view engine w running i es jobs left
            (on_failed ds show engine w i step turn again a reason wait non)
            (failure_trace show engine w running i step body a reason wait non rest left)
    unfolding on_failed failure_trace event_workflow_id closes is_cancelled
    on_failed-Does es jobs reason (some r) non h =
        last-Does es jobs (step_waiting w i r) _ fits refl (λ j q. no_later (text_eq w w) i j q)
    on_failed-Does es jobs reason none (some r) h =
        log-Does es jobs (step_failed w i r) _ _ fits refl (λ j. refl)
          (last-Does (es ++ step_failed w i r ∷ []) jobs (workflow_failed w r) _ tt refl
            (λ j q. refl))
    on_failed-Does es jobs reason none none h =
        let es' = es ++ step_failed w i reason ∷ [] in
        log-Does es jobs (step_failed w i reason) _ _ fits refl (λ j. refl)
          (elim (Bool-cases (ltb (next_attempt a) step.retry_policy.max_attempts)) [
            | inl e ↦ rw e (retry-Does es' jobs (stays_open es (step_failed w i reason) h refl))
            | inr e ↦ rw e (give_up-Does es' jobs reason)
          ])

    on_outcome-Does :
        (es : List Event) (jobs : List Job) (r : Reply Outcome)
        → workflow_is_cancelled es ≡ false
        → Does view engine w running i es jobs left
            (continue r (on_outcome ds show engine w i step turn again a))
            (outcome_trace show engine w running i step body a r rest left)
    unfolding on_outcome outcome_trace event_workflow_id closes
    on_outcome-Does es jobs (returned (Outcome.completed output)) h =
        last-Does es jobs (step_completed w i output) _ fits refl
          (λ j q. no_later (text_eq w w) i j q)
    on_outcome-Does es jobs (returned (Outcome.failed reason)) h =
        on_failed-Does es jobs reason _ _ h
    on_outcome-Does es jobs (failed e) h = stop-Does es jobs (failed e)
    on_outcome-Does es jobs panicked h = stop-Does es jobs panicked
    on_outcome-Does es jobs blocked h = stop-Does es jobs blocked

    wait_for-Does :
        (es : List Event) (jobs : List Job)
        → workflow_is_cancelled es ≡ false
        → Does view engine w running i es jobs left
            (wait_for ds show engine w i step turn again a)
            (outcome_trace show engine w running i step body a
              (wait_reply show step.timeout turn.wakes)
              rest
              left)
    unfolding wait_for
    wait_for-Does es jobs h =
        bind-Gives _
          (await-Gives spec show engine w running i es jobs left step.timeout turn.wakes alone.1)
          (on_outcome-Does es jobs (wait_reply show step.timeout turn.wakes) h)

    on_pushed-Does :
        (es : List Event) (jobs : List Job) (answer : Result PushError Accepted)
        → workflow_is_cancelled es ≡ false
        → Does view engine w running i es jobs left
            (on_pushed ds show engine w i step turn again a answer)
            (outcome_trace show engine w running i step body a
              (attempt_reply show step.timeout turn.wakes answer)
              rest
              left)
    unfolding on_pushed attempt_reply on_outcome
    on_pushed-Does es jobs (ok queued) h = wait_for-Does es jobs h
    on_pushed-Does es jobs (ok in_flight) h = wait_for-Does es jobs h
    on_pushed-Does es jobs (ok (cached output)) h =
        on_outcome-Does es jobs (returned (Outcome.completed output)) h
    on_pushed-Does es jobs (err e) h = on_outcome-Does es jobs (failed (EngineError.push e)) h

    push-Does :
        (es : List Event) (jobs : List Job) (turns : List (Turn S)) (job : Job)
        (f : Result PushError Accepted → Async S StepOutcome) (tr : Trace S StepOutcome)
        → Does view engine w running i es (jobs ++ job ∷ []) left (f turn.answer) tr
        → Does view engine w running i es jobs turns
            (push ds show engine w i job turn left >>= f)
            (pushes job tr)
    unfolding pushes
    push-Does es jobs turns job f tr g =
        bind-Gives f
          (push-Gives spec engine w (some running) jobs turns show i i es job turn left alone.0)
          (subst
            (λ x.
              Gives (Here view engine w running i es (jobs ++ job ∷ []) left) (f turn.answer)
                tr.reply
                (Stands view w engine.worker_id (suc i) tr.found (es ++ tr.events) x tr.left))
            (append_assoc jobs (job ∷ []) tr.jobs) g)

    pub from_push-Does :
        (es : List Event) (jobs : List Job) (turns : List (Turn S))
        → workflow_is_cancelled es ≡ false
        → Does view engine w running i es jobs turns
            (from_push ds show engine w i step body (turn ∷ left) again a)
            (pushes (job_of engine w i body a) (
              outcome_trace show engine w running i step body a
                (attempt_reply show step.timeout turn.wakes turn.answer)
                rest
                left))
    unfolding from_push attempt_job job_of
    from_push-Does es jobs turns h =
        push-Does es jobs turns _ (on_pushed ds show engine w i step turn again a) _
          (on_pushed-Does es (jobs ++ job_of engine w i body a ∷ []) turn.answer h)
