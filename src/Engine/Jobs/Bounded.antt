-- ===== src/Engine/Jobs/Bounded.antt =====
-- src/engine.rs: `run_step` pushes one job for each attempt, and no more than the policy allows.
use agentq.Prelude.{
  ℕ, zero, suc, ◌+◌, ◌-◌, ◌^◌, ◌<◌, ◌≤◌, ◌≡◌, refl, sym, ◌∙◌, subst, ap, true, List, [], ◌∷◌, ◌++◌,
  ltb, arith, append-nil, append_assoc,
}
use agentq.Text.{Text}
use agentq.Event.{ClaimResult, claimed, already_completed, held_by_other, already_waiting}
use agentq.Job.{Job, Func}
use agentq.Workflow.{StepDef, Duration}
use agentq.Store.{DurableStore}
use agentq.Engine.State.{WorkflowEngine, StepOutcome, Turn, World, Async, blocked}
use agentq.Engine.Ensures.{Ensures, bind-Ensures}
use agentq.Engine.Step.{
  push, attempt_job, from_push, on_claim, run_round, run_loop, run_step, next_attempt,
}
use agentq.Engine.Jobs.{
  Has, Leaves, call_store-Quiet, append-Quiet, bind-Leaves, done, on_pushed-Leaves,
}

module _ {S : Type 0} (ds : DurableStore S) (show : Duration → Text) (engine : WorkflowEngine)
    (workflow_id : Text) (i : ℕ) (step : StepDef) (body : Func) where
  -- The jobs of consecutive attempts.
  unfoldable pub attempt_jobs : ℕ → ℕ → List Job
  attempt_jobs a zero = []
  attempt_jobs a (suc k) = attempt_job ds show engine workflow_id i body a ∷ attempt_jobs (suc a) k

  -- The attempts that the policy leaves from attempt `a` on, and one in any case.
  abbrev pub attempts_left : ℕ → ℕ
  attempts_left a = suc (step.retry_policy.max_attempts - suc a)

  unfoldable JobsFrom : List Job → ℕ → List Job → Type 0
  JobsFrom F a l = (k : ℕ) × (k ≤ attempts_left a) × (l ≡ F ++ attempt_jobs a k)

  no_job : (F : List Job) (a : ℕ) → JobsFrom F a F
  unfolding JobsFrom attempt_jobs
  no_job F a = (0, omega arith, sym (append-nil F))

  one_job :
      (F : List Job) (a : ℕ)
      → JobsFrom F a (F ++ attempt_job ds show engine workflow_id i body a ∷ [])
  unfolding JobsFrom attempt_jobs
  one_job F a = (1, omega arith, refl)

  more_jobs :
      (F : List Job) (a : ℕ) (l : List Job)
      → suc a < step.retry_policy.max_attempts
      → JobsFrom (F ++ attempt_job ds show engine workflow_id i body a ∷ []) (suc a) l
      → JobsFrom F a l
  unfolding JobsFrom attempt_jobs
  more_jobs F a l t (k, bound, e) = (
    suc k,
    omega arith,
    e
        ∙ append_assoc F (attempt_job ds show engine workflow_id i body a ∷ [])
            (attempt_jobs (suc a) k),
  )

  push-Leaves :
      (F : List Job) (job : Job) (turn : Turn S) (turns : List (Turn S))
      → Ensures
          (Has F)
          (push ds show engine workflow_id i job turn turns)
          (Leaves (λ l. l ≡ F ++ job ∷ []))
  unfolding push
  push-Leaves F job turn turns = record { at = λ w h. ap (λ l. l ++ job ∷ []) h }

  abbrev Goes : List Job → ℕ → Async S StepOutcome → Type 0
  Goes F a m = Ensures (Has F) m (Leaves (JobsFrom F a))

  from_push-Goes :
      (turns : List (Turn S)) (again : ℕ → Async S StepOutcome) (F : List Job) (a : ℕ)
      → (ltb (next_attempt a) step.retry_policy.max_attempts ≡ true
          → Ensures
              (Has (F ++ attempt_job ds show engine workflow_id i body a ∷ []))
              (again (next_attempt a))
              (Leaves (JobsFrom F a)))
      → Goes F a (from_push ds show engine workflow_id i step body turns again a)
  unfolding from_push
  from_push-Goes [] again F a next = record {
    at = λ w h.
        subst (λ l. JobsFrom F a (l ++ attempt_job ds show engine workflow_id i body a ∷ []))
          (sym h) (one_job F a);
  }
  from_push-Goes (turn ∷ turns) again F a next =
      let job = attempt_job ds show engine workflow_id i body a in
      let back : (w : World S) → w.pushed ≡ F ++ job ∷ [] → JobsFrom F a w.pushed =
        λ w h. subst (JobsFrom F a) (sym h) (one_job F a) in
      bind-Ensures (Leaves (λ l. l ≡ F ++ job ∷ [])) (Leaves (JobsFrom F a))
        (λ w. (λ e h. back w h, λ h. back w h, λ h. back w h)) _
        (on_pushed-Leaves ds show engine workflow_id i (F ++ job ∷ []) (JobsFrom F a) (one_job F a)
          step turn again a next)
        (push-Leaves F job turn turns)

  on_claim-Goes :
      (F : List Job) (a : ℕ) (claim : ClaimResult) (started : Async S StepOutcome)
      → Goes F a started
      → Goes F a (on_claim ds show engine workflow_id i claim started)
  unfolding on_claim
  on_claim-Goes F a (already_completed output) started g = done F (JobsFrom F a) (no_job F a) _
  on_claim-Goes F a held_by_other started g = done F (JobsFrom F a) (no_job F a) _
  on_claim-Goes F a already_waiting started g = done F (JobsFrom F a) (no_job F a) _
  on_claim-Goes F a claimed started g = g

  run_round-Goes :
      (turns : List (Turn S)) (again : ℕ → Async S StepOutcome) (F : List Job) (a : ℕ)
      → (ltb (next_attempt a) step.retry_policy.max_attempts ≡ true
          → Ensures
              (Has (F ++ attempt_job ds show engine workflow_id i body a ∷ []))
              (again (next_attempt a))
              (Leaves (JobsFrom F a)))
      → Goes F a (run_round ds show engine workflow_id i step body turns again a)
  unfolding run_round
  run_round-Goes turns again F a next =
      bind-Leaves F (JobsFrom F a) (no_job F a)
        (call_store-Quiet F (ds.claim_step workflow_id i engine.worker_id engine.lease_ttl))
        (λ claim. on_claim-Goes F a claim _ (
          bind-Leaves F (JobsFrom F a) (no_job F a) (append-Quiet ds show engine workflow_id i F _)
            (λ u. from_push-Goes turns again F a next)))

  run_loop-Goes :
      (turns : List (Turn S)) (F : List Job) (a : ℕ)
      → a + 1 < 2 ^ 32
      → step.retry_policy.max_attempts < 2 ^ 32
      → Goes F a (run_loop ds show engine workflow_id i step body turns a)
  unfolding run_loop
  run_loop-Goes [] F a h u =
      run_round-Goes [] (λ x w. (blocked, w)) F a (λ t. done _ (JobsFrom F a) (one_job F a) blocked)
  run_loop-Goes (turn ∷ turns) F a h u =
      run_round-Goes (turn ∷ turns) (run_loop ds show engine workflow_id i step body turns) F a
        (λ t.
          let next_eq : next_attempt a ≡ suc a = omega arith in
          let below : suc a < step.retry_policy.max_attempts = ground arith in
          rw next_eq (record {
            at = λ w e.
                more_jobs F a _ below ((run_loop-Goes turns _ (suc a) (omega arith) u).at w e);
          }))

  -- The jobs that `run_step` pushes from an attempt `a` on are those of the consecutive attempts
  -- `a`, `a + 1`, ..., each pushed once, and they are at most `max_attempts - a`, or one if that is
  -- less than one; whatever the store, the queue and the other tasks do. The attempts are `u32`.
  pub run_step-jobs :
      (a : ℕ) (w : World S)
      → a + 1 < 2 ^ 32
      → step.retry_policy.max_attempts < 2 ^ 32
      → (k : ℕ) × (k ≤ suc (step.retry_policy.max_attempts - suc a))
        × ((run_step ds show engine workflow_id i step body a w).1.pushed
            ≡ w.pushed ++ attempt_jobs a k)
  unfolding run_step
  run_step-jobs a w h u = unfold JobsFrom in (run_loop-Goes w.turns w.pushed a h u).at w refl
