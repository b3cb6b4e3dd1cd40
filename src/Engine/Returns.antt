-- ===== src/Engine/Returns.antt =====
-- src/engine.rs: `run_step` returns when the queue answers.
use agentq.Prelude.{
  ℕ, suc, ◌+◌, ◌-◌, ◌^◌, ◌<◌, ◌≤◌, ◌≡◌, refl, Bool, true, false, List, [], ◌∷◌, Option, none, some,
  Result, ok, err, All, any, ltb, Bool-cases, inl, inr, arith, length,
}
use agentq.Text.{Text}
use agentq.Event.{Event, ClaimResult, claimed, already_completed, held_by_other, already_waiting}
use agentq.Job.{Job, Func, Outcome, PushError}
use agentq.Workflow.{StepDef, Duration}
use agentq.Store.{DurableStore, StoreM, StoreError}
use agentq.Engine.Replay.{workflow_is_cancelled}
use agentq.Engine.Backoff.{backoff_duration}
use agentq.Engine.State.{
  WorkflowEngine, EngineError, StepOutcome, Shared, Ready, handle, deadline, renewal, Accepted,
  queued, in_flight, cached, Wake, Turn, World, Reply, returned, failed, panicked, blocked, Async,
  ◌>>=◌, store_reply, call_store, yield_to,
}
use agentq.Engine.Ensures.{Ensures, bind-Ensures}
use agentq.Engine.Step.{
  append, renew, on_ready, await_job_renewing_lease, after_sleep, retry, give_up, on_failed,
  on_outcome, wait_for, on_pushed, push, from_push, on_claim, run_round, run_loop, run_step,
  next_attempt,
}

unfoldable pub is_handle : Ready → Bool
is_handle (handle r) = true
is_handle deadline = false
is_handle renewal = false

-- The handle of the turn's job is ready at some wake.
unfoldable pub is_answered : {S : Type 0} → Turn S → Bool
unfolding is_handle
is_answered turn = any (λ wake. is_handle wake.ready) turn.wakes

-- A method returns a value or an error.
unfoldable pub IsSettled : {A : Type 0} → Reply A → Type 0
IsSettled (returned a) = Unit {0}
IsSettled (failed e) = Unit {0}
IsSettled panicked = ⊥
IsSettled blocked = ⊥

abbrev Settles : {S A : Type 0} → Async S A → Type 0
Settles {S} m = Ensures (λ w. Unit {0}) m (λ r w. IsSettled r)

store_reply-Settles : {A : Type 0} (r : Result StoreError A) → IsSettled (store_reply r)
unfolding store_reply IsSettled
store_reply-Settles (ok a) = tt
store_reply-Settles (err e) = tt

module _ {S : Type 0} where
  value : {A : Type 0} (a : A) → Settles {S = S} (λ w. (returned a, w))
  unfolding IsSettled
  value a = record { at = λ w h. tt }

  error : {A : Type 0} (e : EngineError) → Settles {S = S} {A = A} (λ w. (failed e, w))
  unfolding IsSettled
  error e = record { at = λ w h. tt }

  bind-Settles :
      {A B : Type 0} {m : Async S A} {f : A → Async S B}
      → Settles m
      → ((a : A) → Settles (f a))
      → Settles (m >>= f)
  unfolding IsSettled
  bind-Settles {f = f} first after =
      bind-Ensures (λ r w. IsSettled r) (λ r w. IsSettled r) (λ w. (λ e h. tt, λ h. h, λ h. h)) f
        (λ a. record { at = λ w h. (after a).at w tt }) first

  call_store-Settles : {A : Type 0} (m : StoreM S A) → Settles (call_store m)
  unfolding call_store
  call_store-Settles m = record { at = λ w h. store_reply-Settles (m w.shared.db).0 }

  yield_to-Settles : (others : Shared S → Shared S) → Settles (yield_to others)
  unfolding yield_to IsSettled
  yield_to-Settles others = record { at = λ w h. tt }

module _ {S : Type 0} (ds : DurableStore S) (show : Duration → Text) (engine : WorkflowEngine)
    (workflow_id : Text) (i : ℕ) where
  append-Settles : (e : Event) → Settles (append ds show engine workflow_id i e)
  unfolding append
  append-Settles e = call_store-Settles (ds.append_event e)

  renew-Settles : Settles (renew ds show engine workflow_id i)
  unfolding renew IsSettled
  renew-Settles = record { at = λ w h. tt }

  on_ready-Settles :
      (timeout : Option Duration) (ready : Ready) (again : Async S Outcome)
      → (is_handle ready ≡ false → Settles again)
      → Settles (on_ready ds show engine workflow_id i timeout ready again)
  unfolding on_ready is_handle
  on_ready-Settles timeout (handle (ok o)) again g = value o
  on_ready-Settles timeout (handle (err e)) again g = error _
  on_ready-Settles (some d) deadline again g = value _
  on_ready-Settles none deadline again g = g refl
  on_ready-Settles timeout renewal again g = bind-Settles renew-Settles (λ u. g refl)

  await-Settles :
      (timeout : Option Duration) (wakes : List (Wake S))
      → any (λ wake. is_handle wake.ready) wakes ≡ true
      → Settles (await_job_renewing_lease ds show engine workflow_id i timeout wakes)
  unfolding await_job_renewing_lease
  await-Settles timeout [] h = cc
  await-Settles timeout (wake ∷ wakes) h =
      bind-Settles (yield_to-Settles wake.others) (λ u.
        on_ready-Settles timeout wake.ready _ (λ e. await-Settles timeout wakes (ground arith)))

  module _ (step : StepDef) (turn : Turn S) (again : ℕ → Async S StepOutcome) (a : ℕ)
      (answered : is_answered turn ≡ true)
      (next : ltb (next_attempt a) step.retry_policy.max_attempts ≡ true
        → Settles (again (next_attempt a))) where
    after_sleep-Settles :
        (es : List Event)
        → ltb (next_attempt a) step.retry_policy.max_attempts ≡ true
        → Settles (after_sleep ds show engine workflow_id i again (next_attempt a) es)
    unfolding after_sleep
    after_sleep-Settles es t = elim (Bool-cases (workflow_is_cancelled es)) [
      | inl e ↦ rw e (value _)
      | inr e ↦ rw e (next t)
    ]

    retry-Settles :
        ltb (next_attempt a) step.retry_policy.max_attempts ≡ true
        → Settles (retry ds show engine workflow_id i step turn again a)
    unfolding retry
    retry-Settles t = bind-Settles (append-Settles _) (λ u.
        bind-Settles (yield_to-Settles (turn.during_sleep (backoff_duration step.retry_policy a)))
          (λ u.
            bind-Settles (call_store-Settles (ds.load_events workflow_id))
              (λ es. after_sleep-Settles es t)))

    give_up-Settles : (reason : Text) → Settles (give_up ds show engine workflow_id i reason)
    unfolding give_up
    give_up-Settles reason = bind-Settles (append-Settles _) (λ u. error _)

    on_failed-Settles :
        (reason : Text) (wait non : Option Text)
        → Settles (on_failed ds show engine workflow_id i step turn again a reason wait non)
    unfolding on_failed
    on_failed-Settles reason (some r) non = bind-Settles (append-Settles _) (λ u. value _)
    on_failed-Settles reason none (some r) =
        bind-Settles (append-Settles _) (λ u. bind-Settles (append-Settles _) (λ u. error _))
    on_failed-Settles reason none none = bind-Settles (append-Settles _) (λ u.
        elim (Bool-cases (ltb (next_attempt a) step.retry_policy.max_attempts)) [
          | inl e ↦ rw e (retry-Settles e)
          | inr e ↦ rw e (give_up-Settles reason)
        ])

    on_outcome-Settles :
        (o : Outcome) → Settles (on_outcome ds show engine workflow_id i step turn again a o)
    unfolding on_outcome
    on_outcome-Settles (Outcome.completed output) = bind-Settles (append-Settles _) (λ u. value _)
    on_outcome-Settles (Outcome.failed reason) = on_failed-Settles reason _ _

    wait_for-Settles : Settles (wait_for ds show engine workflow_id i step turn again a)
    unfolding wait_for is_answered
    wait_for-Settles =
        bind-Settles (await-Settles step.timeout turn.wakes answered) on_outcome-Settles

    on_pushed-Settles :
        (answer : Result PushError Accepted)
        → Settles (on_pushed ds show engine workflow_id i step turn again a answer)
    unfolding on_pushed
    on_pushed-Settles (ok queued) = wait_for-Settles
    on_pushed-Settles (ok in_flight) = wait_for-Settles
    on_pushed-Settles (ok (cached output)) = bind-Settles (append-Settles _) (λ u. value _)
    on_pushed-Settles (err e) = error _

  push-Settles :
      (job : Job) (turn : Turn S) (turns : List (Turn S))
      → Settles (push ds show engine workflow_id i job turn turns)
  unfolding push IsSettled
  push-Settles job turn turns = record { at = λ w h. tt }

  on_claim-Settles :
      (claim : ClaimResult) (started : Async S StepOutcome)
      → Settles started
      → Settles (on_claim ds show engine workflow_id i claim started)
  unfolding on_claim
  on_claim-Settles (already_completed output) started g = value _
  on_claim-Settles held_by_other started g = error _
  on_claim-Settles already_waiting started g = value _
  on_claim-Settles claimed started g = g

  run_round-Settles :
      (step : StepDef) (body : Func) (turn : Turn S) (turns : List (Turn S))
      (again : ℕ → Async S StepOutcome) (a : ℕ)
      → is_answered turn ≡ true
      → (ltb (next_attempt a) step.retry_policy.max_attempts ≡ true
          → Settles (again (next_attempt a)))
      → Settles (run_round ds show engine workflow_id i step body (turn ∷ turns) again a)
  unfolding run_round from_push
  run_round-Settles step body turn turns again a answered next =
      bind-Settles
        (call_store-Settles (ds.claim_step workflow_id i engine.worker_id engine.lease_ttl))
        (λ claim. on_claim-Settles claim _ (
          bind-Settles (append-Settles _) (λ u.
            bind-Settles (push-Settles _ turn turns)
              (on_pushed-Settles step turn again a answered next))))

  run_loop-Settles :
      (step : StepDef) (body : Func) (turns : List (Turn S)) (a : ℕ)
      → a + 1 < 2 ^ 32
      → step.retry_policy.max_attempts < 2 ^ 32
      → All (λ turn. is_answered turn ≡ true) turns
      → suc (step.retry_policy.max_attempts - suc a) ≤ length turns
      → Settles (run_loop ds show engine workflow_id i step body turns a)
  unfolding run_loop
  run_loop-Settles step body [] a h u answered enough = absurd (omega arith)
  run_loop-Settles step body (turn ∷ turns) a h u answered enough =
      run_round-Settles step body turn turns (run_loop ds show engine workflow_id i step body turns)
        a answered.0
        (λ t.
          let next_eq : next_attempt a ≡ suc a = omega arith in
          let below : suc a < step.retry_policy.max_attempts = ground arith in
          rw next_eq
            (run_loop-Settles step body turns (suc a) (omega arith) u answered.1 (omega arith)))

  -- If the handle of each attempt's job becomes ready at some wake, and there are turns for the
  -- attempts that the policy leaves, `run_step` returns a value or an error, whatever the store
  -- answers and the other tasks do, and however often leases are renewed on the way. The attempts
  -- are `u32`.
  pub run_step-IsSettled :
      (step : StepDef) (body : Func) (a : ℕ) (w : World S)
      → a + 1 < 2 ^ 32
      → step.retry_policy.max_attempts < 2 ^ 32
      → All (λ turn. is_answered turn ≡ true) w.turns
      → suc (step.retry_policy.max_attempts - suc a) ≤ length w.turns
      → IsSettled (run_step ds show engine workflow_id i step body a w).0
  unfolding run_step
  run_step-IsSettled step body a w h u answered enough =
      (run_loop-Settles step body w.turns a h u answered enough).at w tt
