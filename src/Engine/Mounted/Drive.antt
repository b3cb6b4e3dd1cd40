-- ===== src/Engine/Mounted/Drive.antt =====
-- src/engine.rs and src/recovery.rs: `drive_from` does not panic at an index.
use agentq.Prelude.{
  ℕ, zero, suc, ◌+◌, ◌-◌, ◌<◌, ◌≤◌, ◌≡◌, refl, Bool, true, false, List, [], ◌∷◌, Option, none, some,
  if◌then◌else◌, arith, length, get_elem?,
}
use agentq.Text.{Text}
use agentq.Event.{Event}
use agentq.Job.{Func}
use agentq.Workflow.{StepDef, Duration, failed}
use agentq.Store.{DurableStore}
use agentq.Engine.Replay.{workflow_is_cancelled}
use agentq.Engine.State.{
  RunningWorkflow, WorkflowEngine, StepOutcome, World, Reply, returned, failed, panicked, blocked,
  Async, pure, get_mounted, ◌>>=◌,
}
use agentq.Engine.Ensures.{Ensures, bind-Ensures}
use agentq.Engine.Mounted.{
  WellMounted, InOrder, Safe, pure-Safe, fail-Safe, bind-Safe, call_store-Safe,
  drop_from_in_flight-Safe,
}
use agentq.Engine.Mounted.Step.{run_step-Safe}
use agentq.Engine.Drive.{
  append, load, running_or_not_found, mounted, complete, by_reply, run_then, or_wait, indexed,
  drive_loop, drive_from, drive_rest,
}

abbrev pub Paired : RunningWorkflow → Type 0
Paired running = length running.bodies ≡ length running.steps

get_elem?-in_range :
    {A : Type 0} (xs : List A) (i : ℕ) → i < length xs → (x : A) × (get_elem? xs i ≡ some x)
get_elem?-in_range [] i h = absurd (omega arith)
get_elem?-in_range (x ∷ xs) zero h = (x, refl)
get_elem?-in_range (x ∷ xs) (suc i) h = get_elem?-in_range xs i (omega arith)

pub get_elem?-same_length :
    {A B : Type 0} (xs : List A) (ys : List B) (i : ℕ)
    → length xs ≡ length ys
    → get_elem? xs i ≡ none
    → get_elem? ys i ≡ none
get_elem?-same_length [] [] i h e = refl
get_elem?-same_length [] (y ∷ ys) i h e = absurd (omega arith)
get_elem?-same_length (x ∷ xs) [] i h e = refl
get_elem?-same_length (x ∷ xs) (y ∷ ys) zero h e = cc
get_elem?-same_length (x ∷ xs) (y ∷ ys) (suc i) h e = get_elem?-same_length xs ys i (omega arith) e

module _ {S : Type 0} (ds : DurableStore S) (show : Duration → Text) (engine : WorkflowEngine) where
  -- A method that is safe, and whose value is a workflow with a body for every step.
  Found : Reply RunningWorkflow → World S → Type 0
  Found (returned running) w = InOrder w × Paired running
  Found panicked w = ⊥
  Found _ w = InOrder w

  unfoldable pub AllFound : Reply (Option RunningWorkflow) → World S → Type 0
  AllFound (returned found) w =
      InOrder w × ((running : RunningWorkflow) → found ≡ some running → Paired running)
  AllFound panicked w = ⊥
  AllFound _ w = InOrder w

  pub get_mounted-AllFound :
      (workflow_id : Text) → Ensures InOrder (get_mounted workflow_id) AllFound
  unfolding get_mounted AllFound InOrder WellMounted
  get_mounted-AllFound workflow_id = record { at = λ w h. (h, h.0 workflow_id) }

  running_or_not_found-Found :
      (found : Option RunningWorkflow)
      → Ensures (AllFound (returned found)) (running_or_not_found ds show engine found) Found
  unfolding running_or_not_found AllFound Found
  running_or_not_found-Found none = record { at = λ w h. h.0 }
  running_or_not_found-Found (some running) = record { at = λ w h. (h.0, h.1 running refl) }

  mounted-Found : (workflow_id : Text) → Ensures InOrder (mounted ds show engine workflow_id) Found
  unfolding mounted AllFound Found
  mounted-Found workflow_id =
      bind-Ensures AllFound Found (λ w. (λ e h. h, λ h. h, λ h. h))
        (running_or_not_found ds show engine) running_or_not_found-Found
        (get_mounted-AllFound workflow_id)

  -- What is done with a mounted workflow may use that it has a body for every step.
  pub with_running-Safe :
      (workflow_id : Text) (f : RunningWorkflow → Async S (Unit {0}))
      → ((running : RunningWorkflow) → Paired running → Ensures InOrder (f running) Safe)
      → Ensures InOrder (mounted ds show engine workflow_id >>= f) Safe
  unfolding Found Safe
  with_running-Safe workflow_id f after =
      bind-Ensures Found Safe (λ w. (λ e h. h, λ h. h, λ h. h)) f
        (λ running. record { at = λ w h. (after running h.1).at w h.0 }) (mounted-Found workflow_id)

  pub if-Safe :
      {A : Type 0} (b : Bool) (m n : Async S A)
      → Ensures InOrder m Safe
      → Ensures InOrder n Safe
      → Ensures InOrder (if b then m else n) Safe
  if-Safe true m n hm hn = hm
  if-Safe false m n hm hn = hn

  pub append-Safe : (e : Event) → Ensures {S = S} InOrder (append ds show engine e) Safe
  unfolding append
  append-Safe e = call_store-Safe (ds.append_event e)

  pub load-Safe :
      (workflow_id : Text) → Ensures {S = S} InOrder (load ds show engine workflow_id) Safe
  unfolding load
  load-Safe workflow_id = call_store-Safe (ds.load_events workflow_id)

  complete-Safe :
      (workflow_id : Text) → Ensures {S = S} InOrder (complete ds show engine workflow_id) Safe
  unfolding complete
  complete-Safe workflow_id =
      bind-Safe (load-Safe workflow_id) (λ es. if-Safe _ _ _ (pure-Safe tt) (append-Safe _))

  by_reply-Safe :
      (workflow_id : Text) (next : StepOutcome → Async S (Unit {0}))
      → ((o : StepOutcome) → Ensures InOrder (next o) Safe)
      → (r : Reply StepOutcome) (w : World S) → Safe r w
      → Safe
          (by_reply ds show engine workflow_id next r w).0
          (by_reply ds show engine workflow_id next r w).1
  unfolding by_reply Safe
  by_reply-Safe workflow_id next g (returned o) w h = (g o).at w h
  by_reply-Safe workflow_id next g (failed e) w h =
      (bind-Safe {B = Unit {0}} (drop_from_in_flight-Safe workflow_id) (λ u. fail-Safe e)).at w h
  by_reply-Safe workflow_id next g panicked w h = h
  by_reply-Safe workflow_id next g blocked w h = h

  pub run_then-Safe :
      (workflow_id : Text) (i : ℕ) (step : StepDef) (body : Func) (a : ℕ)
      (next : StepOutcome → Async S (Unit {0}))
      → ((o : StepOutcome) → Ensures InOrder (next o) Safe)
      → Ensures InOrder (run_then ds show engine workflow_id i step body a next) Safe
  unfolding run_then
  run_then-Safe workflow_id i step body a next g = record {
    at = λ w h.
        by_reply-Safe workflow_id next g _ _
          ((run_step-Safe ds show engine workflow_id i step body a).at w h);
  }

  pub or_wait-Safe :
      (next : Async S (Unit {0}))
      → Ensures InOrder next Safe
      → (o : StepOutcome) → Ensures InOrder (or_wait ds show engine next o) Safe
  unfolding or_wait
  or_wait-Safe next g StepOutcome.completed = g
  or_wait-Safe next g StepOutcome.waiting = pure-Safe tt

  indexed-Safe :
      (s : Option StepDef) (b : Option Func) (step : StepDef) (body : Func)
      (f : StepDef → Func → Async S (Unit {0}))
      → s ≡ some step
      → b ≡ some body
      → Ensures InOrder (f step body) Safe
      → Ensures InOrder (indexed ds show engine s b f) Safe
  unfolding indexed
  indexed-Safe s b step body f e e' g = rw (e, e') g

  drive_loop-Safe :
      (rounds : ℕ) (workflow_id : Text) (running : RunningWorkflow) (i : ℕ)
      → Paired running
      → rounds ≤ length running.steps - i
      → Ensures InOrder (drive_loop ds show engine rounds workflow_id running i) Safe
  unfolding drive_loop
  drive_loop-Safe zero workflow_id running i p h =
      bind-Safe (complete-Safe workflow_id) (λ u. drop_from_in_flight-Safe workflow_id)
  drive_loop-Safe (suc rounds) workflow_id running i p h =
      let (step, step_eq) = get_elem?-in_range running.steps i (omega arith) in
      let (body, body_eq) = get_elem?-in_range running.bodies i (omega arith) in
      bind-Safe (load-Safe workflow_id) (λ es.
        if-Safe (workflow_is_cancelled es) (pure tt) _ (pure-Safe tt) (
          indexed-Safe _ _ step body _ step_eq body_eq (
            run_then-Safe workflow_id i step body 0 _ (
              or_wait-Safe _
                (drive_loop-Safe rounds workflow_id running (suc i) p (omega arith))))))

  pub drive_from-Safe :
      (workflow_id : Text) (running : RunningWorkflow) (i : ℕ)
      → Paired running
      → Ensures InOrder (drive_from ds show engine workflow_id running i) Safe
  unfolding drive_from
  drive_from-Safe workflow_id running i p =
      drive_loop-Safe (length running.steps - i) workflow_id running i p (omega arith)

  pub drive_rest-Safe :
      (workflow_id : Text) (i : ℕ) → Ensures InOrder (drive_rest ds show engine workflow_id i) Safe
  unfolding drive_rest
  drive_rest-Safe workflow_id i =
      with_running-Safe workflow_id _ (λ running p. drive_from-Safe workflow_id running (i + 1) p)
