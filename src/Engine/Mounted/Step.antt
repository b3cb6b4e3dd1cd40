-- ===== src/Engine/Mounted/Step.antt =====
-- src/engine.rs: `run_step` keeps the mounted workflows in order.
use agentq.Prelude.{
  ℕ, List, [], ◌∷◌, Option, none, some, Result, ok, err, All, ltb, Bool-cases, inl, inr,
}
use agentq.Text.{Text}
use agentq.Event.{Event, ClaimResult, claimed, already_completed, held_by_other, already_waiting}
use agentq.Job.{Job, Func, Outcome, PushError}
use agentq.Workflow.{StepDef, Duration}
use agentq.Store.{DurableStore}
use agentq.Engine.Replay.{workflow_is_cancelled}
use agentq.Engine.Backoff.{backoff_duration}
use agentq.Engine.State.{
  WorkflowEngine, EngineError, StepOutcome, Ready, handle, deadline, renewal, Accepted, queued,
  in_flight, cached, Wake, Turn, Async,
}
use agentq.Engine.Ensures.{Ensures}
use agentq.Engine.Mounted.{
  InOrder, Safe, KeepsTurn, KeepsWake, pure-Safe, fail-Safe, blocked-Safe, bind-Safe,
  call_store-Safe, yield_to-Safe,
}
use agentq.Engine.Step.{
  append, renew, on_ready, await_job_renewing_lease, after_sleep, retry, give_up, on_failed,
  on_outcome, wait_for, on_pushed, push, from_push, on_claim, run_round, run_loop, run_step,
  next_attempt,
}

module _ {S : Type 0} (ds : DurableStore S) (show : Duration → Text) (engine : WorkflowEngine)
    (workflow_id : Text) (i : ℕ) where
  append-Safe : (e : Event) → Ensures {S = S} InOrder (append ds show engine workflow_id i e) Safe
  unfolding append
  append-Safe e = call_store-Safe (ds.append_event e)

  renew-Safe : Ensures {S = S} InOrder (renew ds show engine workflow_id i) Safe
  unfolding renew InOrder Safe
  renew-Safe = record { at = λ w h. h }

  module _ (again : Async S Outcome) (again-Safe : Ensures InOrder again Safe) where
    on_ready-Safe :
        (timeout : Option Duration) (ready : Ready)
        → Ensures InOrder (on_ready ds show engine workflow_id i timeout ready again) Safe
    unfolding on_ready
    on_ready-Safe timeout (handle (ok o)) = pure-Safe o
    on_ready-Safe timeout (handle (err e)) = fail-Safe (EngineError.job_lost e)
    on_ready-Safe (some d) deadline = pure-Safe _
    on_ready-Safe none deadline = again-Safe
    on_ready-Safe timeout renewal = bind-Safe renew-Safe (λ u. again-Safe)

  await-Safe :
      (timeout : Option Duration) (wakes : List (Wake S))
      → All KeepsWake wakes
      → Ensures InOrder (await_job_renewing_lease ds show engine workflow_id i timeout wakes) Safe
  unfolding await_job_renewing_lease
  await-Safe timeout [] k = blocked-Safe
  await-Safe timeout (wake ∷ wakes) k = bind-Safe (yield_to-Safe wake.others k.0) (λ u.
      on_ready-Safe (await_job_renewing_lease ds show engine workflow_id i timeout wakes)
        (await-Safe timeout wakes k.1) timeout wake.ready)

  module _ (step : StepDef) (turn : Turn S) (again : ℕ → Async S StepOutcome)
      (keeps : KeepsTurn turn) (again-Safe : (a : ℕ) → Ensures InOrder (again a) Safe) where
    after_sleep-Safe :
        (a : ℕ) (es : List Event)
        → Ensures InOrder (after_sleep ds show engine workflow_id i again a es) Safe
    unfolding after_sleep
    after_sleep-Safe a es = elim (Bool-cases (workflow_is_cancelled es)) [
      | inl e ↦ rw e (pure-Safe StepOutcome.waiting)
      | inr e ↦ rw e (again-Safe a)
    ]

    retry-Safe :
        (a : ℕ) → Ensures InOrder (retry ds show engine workflow_id i step turn again a) Safe
    unfolding retry
    retry-Safe a = bind-Safe (append-Safe _) (λ u.
        bind-Safe
          (yield_to-Safe (turn.during_sleep (backoff_duration step.retry_policy a))
            (keeps.1 (backoff_duration step.retry_policy a)))
          (λ u.
            bind-Safe (call_store-Safe (ds.load_events workflow_id))
              (after_sleep-Safe (next_attempt a))))

    give_up-Safe :
        (reason : Text) → Ensures InOrder (give_up ds show engine workflow_id i reason) Safe
    unfolding give_up
    give_up-Safe reason = bind-Safe (append-Safe _) (λ u. fail-Safe _)

    on_failed-Safe :
        (a : ℕ) (reason : Text) (wait stop : Option Text)
        → Ensures InOrder
            (on_failed ds show engine workflow_id i step turn again a reason wait stop)
            Safe
    unfolding on_failed
    on_failed-Safe a reason (some r) stop = bind-Safe (append-Safe _) (λ u. pure-Safe _)
    on_failed-Safe a reason none (some r) =
        bind-Safe (append-Safe _) (λ u. bind-Safe (append-Safe _) (λ u. fail-Safe _))
    on_failed-Safe a reason none none = bind-Safe (append-Safe _) (λ u.
        elim (Bool-cases (ltb (next_attempt a) step.retry_policy.max_attempts)) [
          | inl e ↦ rw e (retry-Safe a)
          | inr e ↦ rw e (give_up-Safe reason)
        ])

    on_outcome-Safe :
        (a : ℕ) (o : Outcome)
        → Ensures InOrder (on_outcome ds show engine workflow_id i step turn again a o) Safe
    unfolding on_outcome
    on_outcome-Safe a (Outcome.completed output) = bind-Safe (append-Safe _) (λ u. pure-Safe _)
    on_outcome-Safe a (Outcome.failed reason) = on_failed-Safe a reason _ _

    wait_for-Safe :
        (a : ℕ) → Ensures InOrder (wait_for ds show engine workflow_id i step turn again a) Safe
    unfolding wait_for
    wait_for-Safe a = bind-Safe (await-Safe step.timeout turn.wakes keeps.2) (on_outcome-Safe a)

    on_pushed-Safe :
        (a : ℕ) (answer : Result PushError Accepted)
        → Ensures InOrder (on_pushed ds show engine workflow_id i step turn again a answer) Safe
    unfolding on_pushed
    on_pushed-Safe a (ok queued) = wait_for-Safe a
    on_pushed-Safe a (ok in_flight) = wait_for-Safe a
    on_pushed-Safe a (ok (cached output)) = bind-Safe (append-Safe _) (λ u. pure-Safe _)
    on_pushed-Safe a (err e) = fail-Safe _

  push-Safe :
      (job : Job) (turn : Turn S) (turns : List (Turn S))
      → All KeepsTurn (turn ∷ turns)
      → Ensures InOrder (push ds show engine workflow_id i job turn turns) Safe
  unfolding push Safe InOrder
  push-Safe job turn turns k = record { at = λ w h. (k.0.0 w.shared h.0, k.1) }

  from_push-Safe :
      (step : StepDef) (body : Func) (turns : List (Turn S)) (again : ℕ → Async S StepOutcome)
      (a : ℕ)
      → All KeepsTurn turns
      → ((a : ℕ) → Ensures InOrder (again a) Safe)
      → Ensures InOrder (from_push ds show engine workflow_id i step body turns again a) Safe
  unfolding from_push
  from_push-Safe step body [] again a k g = record { at = λ w h. unfold Safe InOrder in h }
  from_push-Safe step body (turn ∷ turns) again a k g =
      bind-Safe (push-Safe _ turn turns k) (on_pushed-Safe step turn again k.0 g a)

  on_claim-Safe :
      (claim : ClaimResult) (started : Async S StepOutcome)
      → Ensures InOrder started Safe
      → Ensures InOrder (on_claim ds show engine workflow_id i claim started) Safe
  unfolding on_claim
  on_claim-Safe (already_completed output) started g = pure-Safe _
  on_claim-Safe held_by_other started g = fail-Safe _
  on_claim-Safe already_waiting started g = pure-Safe _
  on_claim-Safe claimed started g = g

  run_round-Safe :
      (step : StepDef) (body : Func) (turns : List (Turn S)) (again : ℕ → Async S StepOutcome)
      (a : ℕ)
      → All KeepsTurn turns
      → ((a : ℕ) → Ensures InOrder (again a) Safe)
      → Ensures InOrder (run_round ds show engine workflow_id i step body turns again a) Safe
  unfolding run_round
  run_round-Safe step body turns again a k g =
      bind-Safe (call_store-Safe (ds.claim_step workflow_id i engine.worker_id engine.lease_ttl))
        (λ claim.
          on_claim-Safe claim _
            (bind-Safe (append-Safe _) (λ u. from_push-Safe step body turns again a k g)))

  run_loop-Safe :
      (step : StepDef) (body : Func) (turns : List (Turn S)) (a : ℕ)
      → All KeepsTurn turns
      → Ensures InOrder (run_loop ds show engine workflow_id i step body turns a) Safe
  unfolding run_loop
  run_loop-Safe step body [] a k = run_round-Safe step body [] _ a k (λ a. blocked-Safe)
  run_loop-Safe step body (turn ∷ turns) a k =
      run_round-Safe step body (turn ∷ turns) _ a k (λ a. run_loop-Safe step body turns a k.1)

  pub run_step-Safe :
      (step : StepDef) (body : Func) (start_attempt : ℕ)
      → Ensures InOrder (run_step ds show engine workflow_id i step body start_attempt) Safe
  unfolding run_step
  run_step-Safe step body start_attempt = record {
    at = λ w h. (run_loop-Safe step body w.turns start_attempt (unfold InOrder in h.1)).at w h;
  }
