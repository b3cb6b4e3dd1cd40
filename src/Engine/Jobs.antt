-- ===== src/Engine/Jobs.antt =====
-- src/engine.rs: the jobs that `run_step` pushes.
pub mod Bounded
use native.Mathlib.Nat.{zero-add}
use agentq.Prelude.{
  ℕ, zero, suc, ◌+◌, ◌-◌, ◌%◌, ◌^◌, ◌<◌, ◌≤◌, ◌≡◌, refl, sym, ◌∙◌, subst, Bool, true, false, List,
  [], ◌∷◌, ◌++◌, Option, none, some, Result, ok, err, if◌then◌else◌, All, ltb, Bool-cases, inl, inr,
  arith, append-nil, append_assoc,
}
use agentq.Text.{Text}
use agentq.Event.{
  Event, step_started, step_completed, step_failed, step_waiting, workflow_failed, retry_scheduled,
  ClaimResult, claimed, already_completed, held_by_other, already_waiting,
}
use agentq.Job.{Job, Func, Outcome, PushError, JobLost}
use agentq.Workflow.{StepDef, Duration}
use agentq.Store.{DurableStore, StoreM, StoreError}
use agentq.Engine.Replay.{workflow_is_cancelled}
use agentq.Engine.Backoff.{backoff_duration}
use agentq.Engine.State.{
  WorkflowEngine, EngineError, StepOutcome, Shared, Ready, handle, deadline, renewal, Accepted,
  queued, in_flight, cached, Wake, Turn, World, Reply, Async, pure, fail, ◌>>=◌, ◌>>◌, call_store,
  yield_to,
}
use agentq.Engine.Ensures.{Ensures, bind-Ensures}
use agentq.Engine.Step.{
  append, renew, on_ready, await_job_renewing_lease, after_sleep, retry, give_up, on_failed,
  on_outcome, wait_for, on_pushed, push, attempt_job, from_push, on_claim, run_round, run_loop,
  run_step, next_attempt,
}

abbrev pub Has : {S : Type 0} → List Job → World S → Type 0
Has F w = w.pushed ≡ F

abbrev pub Leaves : {S A : Type 0} → (List Job → Type 0) → Reply A → World S → Type 0
Leaves G r w = G w.pushed

-- The method does not push.
abbrev pub Quiet : {S A : Type 0} → List Job → Async S A → Type 0
Quiet F m = Ensures (Has F) m (Leaves (λ l. l ≡ F))

module _ {S : Type 0} (F : List Job) where
  pub call_store-Quiet : {A : Type 0} (m : StoreM S A) → Quiet F (call_store m)
  unfolding call_store
  call_store-Quiet m = record { at = λ w h. h }

  pub yield_to-Quiet : (others : Shared S → Shared S) → Quiet F (yield_to others)
  unfolding yield_to
  yield_to-Quiet others = record { at = λ w h. h }

  module _ (G : List Job → Type 0) (stop : G F) where
    pub done : {A : Type 0} (r : Reply A) → Ensures (Has {S = S} F) (λ w. (r, w)) (Leaves G)
    done r = record { at = λ w h. subst G (sym h) stop }

    pub bind-Leaves :
        {A B : Type 0} {m : Async S A} {f : A → Async S B}
        → Quiet F m
        → ((a : A) → Ensures (Has F) (f a) (Leaves G))
        → Ensures (Has F) (m >>= f) (Leaves G)
    bind-Leaves {f = f} first after =
        let back : (w : World S) → w.pushed ≡ F → G w.pushed = λ w h. subst G (sym h) stop in
        bind-Ensures (Leaves (λ l. l ≡ F)) (Leaves G)
          (λ w. (λ e h. back w h, λ h. back w h, λ h. back w h)) f after first

module _ {S : Type 0} (ds : DurableStore S) (show : Duration → Text) (engine : WorkflowEngine)
    (workflow_id : Text) (i : ℕ) where
  module _ (F : List Job) where
    pub append-Quiet : (e : Event) → Quiet F (append ds show engine workflow_id i e)
    unfolding append
    append-Quiet e = call_store-Quiet F (ds.append_event e)

    pub renew-Quiet : Quiet F (renew ds show engine workflow_id i)
    unfolding renew
    renew-Quiet = record { at = λ w h. h }

    on_ready-Quiet :
        (timeout : Option Duration) (ready : Ready) (again : Async S Outcome)
        → Quiet F again
        → Quiet F (on_ready ds show engine workflow_id i timeout ready again)
    unfolding on_ready
    on_ready-Quiet timeout (handle (ok o)) again g = done F _ refl _
    on_ready-Quiet timeout (handle (err e)) again g = done F _ refl _
    on_ready-Quiet (some d) deadline again g = done F _ refl _
    on_ready-Quiet none deadline again g = g
    on_ready-Quiet timeout renewal again g = bind-Leaves F _ refl renew-Quiet (λ u. g)

    pub await-Quiet :
        (timeout : Option Duration) (wakes : List (Wake S))
        → Quiet F (await_job_renewing_lease ds show engine workflow_id i timeout wakes)
    unfolding await_job_renewing_lease
    await-Quiet timeout [] = done F _ refl _
    await-Quiet timeout (wake ∷ wakes) =
        bind-Leaves F _ refl (yield_to-Quiet F wake.others)
          (λ u. on_ready-Quiet timeout wake.ready _ (await-Quiet timeout wakes))

  -- Behind a push, only the next attempt pushes.
  module _ (F : List Job) (G : List Job → Type 0) (stop : G F) (step : StepDef) (turn : Turn S)
      (again : ℕ → Async S StepOutcome) (a : ℕ)
      (next : ltb (next_attempt a) step.retry_policy.max_attempts ≡ true
        → Ensures (Has F) (again (next_attempt a)) (Leaves G)) where
    after_sleep-Leaves :
        (es : List Event)
        → ltb (next_attempt a) step.retry_policy.max_attempts ≡ true
        → Ensures
            (Has F)
            (after_sleep ds show engine workflow_id i again (next_attempt a) es)
            (Leaves G)
    unfolding after_sleep
    after_sleep-Leaves es t = elim (Bool-cases (workflow_is_cancelled es)) [
      | inl e ↦ rw e (done F G stop _)
      | inr e ↦ rw e (next t)
    ]

    retry-Leaves :
        ltb (next_attempt a) step.retry_policy.max_attempts ≡ true
        → Ensures (Has F) (retry ds show engine workflow_id i step turn again a) (Leaves G)
    unfolding retry
    retry-Leaves t = bind-Leaves F G stop (append-Quiet F _) (λ u.
        bind-Leaves F G stop
          (yield_to-Quiet F (turn.during_sleep (backoff_duration step.retry_policy a)))
          (λ u.
            bind-Leaves F G stop (call_store-Quiet F (ds.load_events workflow_id))
              (λ es. after_sleep-Leaves es t)))

    give_up-Leaves :
        (reason : Text) → Ensures (Has F) (give_up ds show engine workflow_id i reason) (Leaves G)
    unfolding give_up
    give_up-Leaves reason = bind-Leaves F G stop (append-Quiet F _) (λ u. done F G stop _)

    on_failed-Leaves :
        (reason : Text) (wait non : Option Text)
        → Ensures
            (Has F)
            (on_failed ds show engine workflow_id i step turn again a reason wait non)
            (Leaves G)
    unfolding on_failed
    on_failed-Leaves reason (some r) non =
        bind-Leaves F G stop (append-Quiet F _) (λ u. done F G stop _)
    on_failed-Leaves reason none (some r) =
        bind-Leaves F G stop (append-Quiet F _)
          (λ u. bind-Leaves F G stop (append-Quiet F _) (λ u. done F G stop _))
    on_failed-Leaves reason none none = bind-Leaves F G stop (append-Quiet F _) (λ u.
        elim (Bool-cases (ltb (next_attempt a) step.retry_policy.max_attempts)) [
          | inl e ↦ rw e (retry-Leaves e)
          | inr e ↦ rw e (give_up-Leaves reason)
        ])

    on_outcome-Leaves :
        (o : Outcome)
        → Ensures (Has F) (on_outcome ds show engine workflow_id i step turn again a o) (Leaves G)
    unfolding on_outcome
    on_outcome-Leaves (Outcome.completed output) =
        bind-Leaves F G stop (append-Quiet F _) (λ u. done F G stop _)
    on_outcome-Leaves (Outcome.failed reason) = on_failed-Leaves reason _ _

    wait_for-Leaves :
        Ensures (Has F) (wait_for ds show engine workflow_id i step turn again a) (Leaves G)
    unfolding wait_for
    wait_for-Leaves = bind-Leaves F G stop (await-Quiet F step.timeout turn.wakes) on_outcome-Leaves

    pub on_pushed-Leaves :
        (answer : Result PushError Accepted)
        → Ensures
            (Has F)
            (on_pushed ds show engine workflow_id i step turn again a answer)
            (Leaves G)
    unfolding on_pushed
    on_pushed-Leaves (ok queued) = wait_for-Leaves
    on_pushed-Leaves (ok in_flight) = wait_for-Leaves
    on_pushed-Leaves (ok (cached output)) =
        bind-Leaves F G stop (append-Quiet F _) (λ u. done F G stop _)
    on_pushed-Leaves (err e) = done F G stop _
