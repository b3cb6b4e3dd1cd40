-- ===== src/Engine/Trace/Drive.antt =====
-- src/engine.rs: `drive_from` and `run` do what their trace tells.
use agentq.Prelude.{
  ℕ, suc, ◌+◌, ◌≤◌, ◌≡◌, refl, sym, subst, false, List, [], ◌∷◌, ◌++◌, Option, none, some, All,
  arith, length, get_elem?, if◌then◌else◌,
}
use agentq.Text.{Text}
use agentq.Event.{Event, workflow_completed, workflow_cancelled}
use agentq.Job.{Job, Func}
use agentq.Workflow.{StepDef, Duration}
use agentq.Store.{DurableStore}
use agentq.Store.Spec.{StoreSpec, StoreView}
use agentq.Sqlite.Codec.{usize_max, u32_max}
use agentq.Engine.Replay.{
  workflow_is_cancelled, workflow_has_terminal_event, is_terminal, is_cancelled,
}
use agentq.Engine.Replay.Laws.{workflow_has_terminal_event-append}
use agentq.Engine.State.{
  WorkflowEngine, RunningWorkflow, StepOutcome, Turn, World, Reply, returned, panicked, Async,
  ◌>>=◌,
}
use agentq.Engine.Step.{run_step}
use agentq.Engine.Drive.{load, by_reply, run_then, or_wait, indexed, drive_loop}
use agentq.Engine.Gives.{Gives, bind-Gives, then-Gives}
use agentq.Engine.Trace.{Trace, logs, stopped, step_run, after_step, drive_run}
use agentq.Engine.Trace.Stands.{Stands-later}
use agentq.Engine.Trace.Stands.Calls.{load_events-Gives}
use agentq.Engine.Trace.Follows.{Follows, TurnAlone, stop-Follows}
use agentq.Engine.Trace.Step.{run_step-Does}
use agentq.Engine.Trace.Sound.{IsUnended, step_run-Sound}
use agentq.Engine.Trace.After.{finish-Follows, after_step-Follows}
use agentq.Engine.Trace.Suffix.{From, From-here, From-next}

is_cancelled-is_terminal : (e : Event) → is_terminal e ≡ false → is_cancelled e ≡ false
unfolding is_terminal is_cancelled
is_cancelled-is_terminal (workflow_cancelled _ _) h = h
is_cancelled-is_terminal _ h = refl

-- A log that no event ends is not cancelled.
pub uncancelled :
    (es : List Event) → workflow_has_terminal_event es ≡ false → workflow_is_cancelled es ≡ false
unfolding workflow_has_terminal_event workflow_is_cancelled
uncancelled [] h = refl
uncancelled (e ∷ es) h = ground (arith, uncancelled es, is_cancelled-is_terminal e)

module _ {S : Type 0} {ds : DurableStore S} {view : StoreView S} (spec : StoreSpec ds view)
    (show : Duration → Text) (engine : WorkflowEngine) (w : Text) (running : RunningWorkflow) where
  run_then-Gives :
      {P Q T : World S → Type 0} {R : Reply StepOutcome} {R' : Reply (Unit {0})} (i : ℕ)
      (step : StepDef) (body : Func) (a : ℕ) (next : StepOutcome → Async S (Unit {0}))
      → Gives P (run_step ds show engine w i step body a) R Q
      → Gives Q (by_reply ds show engine w next R) R' T
      → Gives P (run_then ds show engine w i step body a next) R' T
  unfolding run_then
  run_then-Gives {T = T} {R' = R'} i step body a next first after = record {
    at = λ v h.
        let (e, q) = first.at v h in
        let m = (run_step ds show engine w i step body a v).1 in
        subst
          (λ x.
            ((by_reply ds show engine w next x m).0 ≡ R')
            × T (by_reply ds show engine w next x m).1)
          (sym e) (after.at m q);
  }

  unended :
      (es fs : List Event) (r : Reply StepOutcome)
      → workflow_has_terminal_event es ≡ false
      → IsUnended r fs
      → r ≡ returned StepOutcome.completed
      → workflow_has_terminal_event (es ++ fs) ≡ false
  unfolding IsUnended
  unended es fs r h u e =
      let u' = subst (λ x. IsUnended x fs) e u in
      rw (workflow_has_terminal_event-append es fs, h) u'

  -- A step of the drive, and the drive behind it.
  pub round-Follows :
      (i k' a : ℕ) (step : StepDef) (body : Func) (es : List Event) (jobs : List Job)
      (turns : List (Turn S)) (m : Async S (Unit {0})) (rest : Trace S (Unit {0}))
      → i ≤ usize_max
      → suc i ≤ k'
      → a ≤ u32_max
      → All (TurnAlone view engine w) turns
      → workflow_has_terminal_event es ≡ false
      → (let tr = step_run show engine w running i step body a turns in
          All (TurnAlone view engine w) tr.left
          → workflow_has_terminal_event (es ++ tr.events) ≡ false
          → Follows view engine w
              (suc i)
              k'
              (some running)
              (es ++ tr.events)
              (jobs ++ tr.jobs)
              tr.left
              m
              rest)
      → Follows view engine w i k'
          (some running)
          es
          jobs
          turns
          (run_then ds show engine w i step body a (or_wait ds show engine m))
          (let tr = step_run show engine w running i step body a turns in
            after_step show engine w running tr tr.reply rest)
  round-Follows i k' a step body es jobs turns m rest fits le small alone h g =
      let tr = step_run show engine w running i step body a turns in
      let sound =
        step_run-Sound (TurnAlone view engine w) show engine w running i step body turns a alone in
      run_then-Gives i step body a (or_wait ds show engine m)
        (run_step-Does spec show engine w running i fits step body es jobs turns a small alone
          (uncancelled es h))
        (after_step-Follows spec show engine w running (suc i) es jobs tr sound.0 k' tr.reply m rest
          le (λ e. g sound.1 (unended es tr.events tr.reply h sound.2 e)))

  -- The check at the head of a round, and the step and body of the round.
  head-Follows :
      (i k' : ℕ) (es : List Event) (jobs : List Job) (turns : List (Turn S)) (os : Option StepDef)
      (ob : Option Func) (enter : StepDef → Func → Async S (Unit {0})) (tr : Trace S (Unit {0}))
      → workflow_has_terminal_event es ≡ false
      → get_elem? running.steps i ≡ os
      → get_elem? running.bodies i ≡ ob
      → Follows view engine w i k'
          (some running)
          es
          jobs
          turns
          (indexed ds show engine os ob enter)
          tr
      → Follows view engine w i k'
          (some running)
          es
          jobs
          turns
          (if workflow_is_cancelled es
            then (λ v. (returned tt, v))
            else indexed ds show engine
                (get_elem? running.steps i)
                (get_elem? running.bodies i)
                enter)
          tr
  head-Follows i k' es jobs turns os ob enter tr h hs hb g = rw (uncancelled es h, hs, hb) g

  round_head-Follows :
      (i k' : ℕ) (es : List Event) (jobs : List Job) (turns : List (Turn S)) (os : Option StepDef)
      (ob : Option Func) (enter : StepDef → Func → Async S (Unit {0})) (tr : Trace S (Unit {0}))
      → workflow_has_terminal_event es ≡ false
      → get_elem? running.steps i ≡ os
      → get_elem? running.bodies i ≡ ob
      → Follows view engine w i k'
          (some running)
          es
          jobs
          turns
          (indexed ds show engine os ob enter)
          tr
      → Follows view engine w i k'
          (some running)
          es
          jobs
          turns
          (load ds show engine w >>= λ events.
            if workflow_is_cancelled events
            then (λ v. (returned tt, v))
            else indexed ds show engine
                (get_elem? running.steps i)
                (get_elem? running.bodies i)
                enter)
          tr
  unfolding load
  round_head-Follows i k' es jobs turns os ob enter tr h hs hb g =
      bind-Gives
        (λ events.
          if workflow_is_cancelled events
          then (λ v. (returned tt, v))
          else indexed ds show engine (get_elem? running.steps i) (get_elem? running.bodies i)
              enter)
        (load_events-Gives spec engine w (some running) jobs turns i es)
        (head-Follows i k' es jobs turns os ob enter tr h hs hb g)

  pub drive_loop-Follows :
      (steps : List StepDef) (bodies : List Func) (i k' : ℕ) (es : List Event) (jobs : List Job)
      (turns : List (Turn S))
      → From i running.steps steps
      → From i running.bodies bodies
      → i + length steps ≤ usize_max
      → i + length steps ≤ k'
      → All (TurnAlone view engine w) turns
      → workflow_has_terminal_event es ≡ false
      → Follows view engine w i k'
          (some running)
          es
          jobs
          turns
          (drive_loop ds show engine (length steps) w running i)
          (drive_run show engine w running i steps bodies turns)
  unfolding drive_loop drive_run indexed logs stopped
  drive_loop-Follows [] bodies i k' es jobs turns hs hb fits le alone h =
      then-Gives
        (λ v q.
          Stands-later view w engine.worker_id i k' none (es ++ workflow_completed w ∷ [])
            (jobs ++ []) turns v (omega arith) q)
        (finish-Follows spec show engine w running i es jobs turns h)
  drive_loop-Follows (step ∷ steps) [] i k' es jobs turns hs hb fits le alone h =
      round_head-Follows i k' es jobs turns (some step) none _ _ h
        (From-here i running.steps (step ∷ steps) hs) (From-here i running.bodies [] hb)
        (stop-Follows view engine w i k' (some running) es jobs turns panicked (omega arith))
  drive_loop-Follows (step ∷ steps) (body ∷ bodies) i k' es jobs turns hs hb fits le alone h =
      let tr = step_run show engine w running i step body 0 turns in
      round_head-Follows i k' es jobs turns (some step) (some body) _ _ h
        (From-here i running.steps (step ∷ steps) hs)
        (From-here i running.bodies (body ∷ bodies) hb)
        (round-Follows i k' 0 step body es jobs turns
          (drive_loop ds show engine (length steps) w running (suc i))
          (drive_run show engine w running (suc i) steps bodies tr.left) (omega arith) (omega arith)
          (omega arith) alone h
          (λ alone' h'.
            drive_loop-Follows steps bodies (suc i) k' (es ++ tr.events) (jobs ++ tr.jobs) tr.left
              (From-next i step running.steps steps hs) (From-next i body running.bodies bodies hb)
              (omega arith) (omega arith) alone' h'))
