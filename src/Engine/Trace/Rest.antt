-- ===== src/Engine/Trace/Rest.antt =====
-- src/engine.rs: a step that is taken up again, and the steps behind it.
use agentq.Prelude.{
  ℕ, suc, ◌+◌, ◌-◌, ◌≤◌, ◌≡◌, refl, sym, subst, ◌∙◌, ◌==◌, false, List, [], ◌∷◌, ◌++◌, append_assoc,
  some, All, arith, length, get_elem?, Bool-cases, inl, inr, ==_iff,
}
use agentq.Text.{Text}
use agentq.Event.{Event}
use agentq.Job.{Job, Func}
use agentq.Workflow.{StepDef, Duration}
use agentq.Store.{DurableStore}
use agentq.Store.Spec.{StoreSpec, StoreView, closes}
use agentq.Sqlite.Codec.{event_workflow_id, usize_max, u32_max}
use agentq.Sqlite.Codec.RoundTrip.{FitsTypes}
use agentq.Engine.Replay.{workflow_has_terminal_event, is_terminal}
use agentq.Engine.Replay.Laws.{workflow_has_terminal_event-append}
use agentq.Engine.State.{WorkflowEngine, RunningWorkflow, Turn, returned, Async, ◌>>=◌, call_store}
use agentq.Engine.Drive.{
  running_or_not_found, mounted, drive_loop, drive_from, drive_rest, run_then, or_wait,
}
use agentq.Engine.Gives.{Gives, bind-Gives, stop-Gives}
use agentq.Engine.Trace.{Trace, logs, step_run, after_step, drive_run}
use agentq.Engine.Trace.Stands.{Stands}
use agentq.Engine.Trace.Stands.Calls.{append_event-Gives, get_mounted-Gives}
use agentq.Engine.Trace.Follows.{Follows, TurnAlone}
use agentq.Engine.Trace.Suffix.{drop, From-drop, length-drop, get_elem?-within}
use agentq.Engine.Trace.Drive.{round-Follows, drive_loop-Follows}

-- A step from its attempt `a` on, and the steps behind it.
unfoldable pub rest_run :
    {S : Type 0}
    → (Duration → Text)
    → WorkflowEngine
    → Text
    → RunningWorkflow
    → ℕ
    → StepDef
    → Func
    → ℕ
    → List (Turn S)
    → Trace S (Unit {0})
unfolding step_run after_step drive_run
rest_run show engine w running i step body a turns =
    let tr = step_run show engine w running i step body a turns in
    after_step show engine w running tr tr.reply (
      drive_run show engine w running (suc i) (drop (suc i) running.steps)
        (drop (suc i) running.bodies) tr.left)

module _ {S : Type 0} {ds : DurableStore S} {view : StoreView S} (spec : StoreSpec ds view)
    (show : Duration → Text) (engine : WorkflowEngine) (w : Text) (running : RunningWorkflow)
    (few : length running.steps ≤ usize_max) (i : ℕ) (step : StepDef) (body : Func)
    (has_step : get_elem? running.steps i ≡ some step)
    (has_body : get_elem? running.bodies i ≡ some body) where
  abbrev pub end : ℕ
  end = length running.steps

  pub mounted-Gives :
      (k : ℕ) (es : List Event) (jobs : List Job) (turns : List (Turn S))
      → Gives
          (Stands view w engine.worker_id k (some running) es jobs turns)
          (mounted ds show engine w)
          (returned running)
          (Stands view w engine.worker_id k (some running) es jobs turns)
  unfolding mounted running_or_not_found
  mounted-Gives k es jobs turns =
      bind-Gives (running_or_not_found ds show engine)
        (get_mounted-Gives spec engine w (some running) jobs turns k es) (stop-Gives _ (λ v h. h))

  drive_rest-Follows :
      (es : List Event) (jobs : List Job) (turns : List (Turn S))
      → All (TurnAlone view engine w) turns
      → workflow_has_terminal_event es ≡ false
      → Follows view engine w
          (suc i)
          end
          (some running)
          es
          jobs
          turns
          (drive_rest ds show engine w i)
          (drive_run show engine w running
            (suc i)
            (drop (suc i) running.steps)
            (drop (suc i) running.bodies)
            turns)
  unfolding drive_rest drive_from
  drive_rest-Follows es jobs turns alone unended =
      let within = get_elem?-within i running.steps step has_step in
      let steps = drop (suc i) running.steps in
      let bodies = drop (suc i) running.bodies in
      let e : i + 1 ≡ suc i = omega arith in
      let l : length steps ≡ length running.steps - (i + 1) =
        length-drop (suc i) running.steps ∙ omega arith in
      bind-Gives (λ running. drive_from ds show engine w running (i + 1))
        (mounted-Gives (suc i) es jobs turns)
        (subst
          (λ n.
            Follows view engine w (suc i) end (some running) es jobs turns
              (drive_loop ds show engine n w running (i + 1))
              (drive_run show engine w running (suc i) steps bodies turns))
          l
          (subst
            (λ n.
              Follows view engine w (suc i) end (some running) es jobs turns
                (drive_loop ds show engine (length steps) w running n)
                (drive_run show engine w running (suc i) steps bodies turns))
            (sym e)
            (drive_loop-Follows spec show engine w running steps bodies (suc i) end es jobs turns
              (From-drop (suc i) running.steps) (From-drop (suc i) running.bodies)
              (omega (arith, l, within, few)) (omega (arith, l, within)) alone unended)))

  pub rest-Follows :
      (es : List Event) (jobs : List Job) (turns : List (Turn S)) (a : ℕ)
      → a ≤ u32_max
      → All (TurnAlone view engine w) turns
      → workflow_has_terminal_event es ≡ false
      → Follows view engine w i end
          (some running)
          es
          jobs
          turns
          (run_then ds show engine w i step body a
            (or_wait ds show engine (drive_rest ds show engine w i)))
          (rest_run show engine w running i step body a turns)
  unfolding rest_run
  rest-Follows es jobs turns a small alone unended =
      let within = get_elem?-within i running.steps step has_step in
      let tr = step_run show engine w running i step body a turns in
      round-Follows spec show engine w running i end a step body es jobs turns
        (drive_rest ds show engine w i)
        (drive_run show engine w running (suc i) (drop (suc i) running.steps)
          (drop (suc i) running.bodies) tr.left)
        (omega (arith, within, few)) (omega (arith, within)) small alone unended
        (λ alone' unended'.
          drive_rest-Follows (es ++ tr.events) (jobs ++ tr.jobs) tr.left alone' unended')

  -- An event that frees the step for the worker.
  module _ (e : Event) (fits : FitsTypes e) (own : event_workflow_id e ≡ w)
      (apart : (j : ℕ) → closes w j e ≡ false)
      (frees : (s : S)
        → view.Good s
        → view.IsOpen (ds.append_event e s).1 w i engine.worker_id) where
    freed-Gives :
        (es : List Event) (jobs : List Job) (turns : List (Turn S))
        → Gives
            (Stands view w engine.worker_id (suc i) (some running) es jobs turns)
            (call_store (ds.append_event e))
            (returned tt)
            (Stands view w engine.worker_id i (some running) (es ++ e ∷ []) jobs turns)
    unfolding call_store
    freed-Gives es jobs turns = record {
      at = λ v h.
          let (reply, q) =
            (append_event-Gives spec engine w (some running) jobs turns (suc i) (suc i) es e fits
                own (omega arith) (λ j le. apart j)).at
              v h in
          (
            reply,
            record {
              shared = record {
                good = q.shared.good;
                logged = q.shared.logged;
                opened = λ j le. elim (Bool-cases (j == i)) [
                  | inl same ↦
                      let ij : i ≡ j = ground (arith, ==_iff j i) in
                      subst
                        (λ x. view.IsOpen (ds.append_event e v.shared.db).1 w x engine.worker_id) ij
                        (frees v.shared.db h.shared.good)
                  | inr ne ↦ q.shared.opened j (ground (arith, ==_iff j i))
                ];
                mounted = q.shared.mounted;
              };
              pushed = q.pushed;
              left = q.left;
            },
          );
    }

    pub freed-Follows :
        (es : List Event) (jobs : List Job) (turns : List (Turn S))
        (f : Unit {0} → Async S (Unit {0})) (tr : Trace S (Unit {0}))
        → Follows view engine w i end (some running) (es ++ e ∷ []) jobs turns (f tt) tr
        → Follows view engine w
            (suc i)
            end
            (some running)
            es
            jobs
            turns
            (call_store (ds.append_event e) >>= f)
            (logs e tr)
    unfolding logs
    freed-Follows es jobs turns f tr rest = bind-Gives f (freed-Gives es jobs turns) (
        subst
          (λ x.
            Gives (Stands view w engine.worker_id i (some running) (es ++ e ∷ []) jobs turns) (f tt)
              tr.reply (Stands view w engine.worker_id end tr.found x (jobs ++ tr.jobs) tr.left))
          (append_assoc es (e ∷ []) tr.events) rest)

    pub still_unended :
        (es : List Event)
        → is_terminal e ≡ false
        → workflow_has_terminal_event es ≡ false
        → workflow_has_terminal_event (es ++ e ∷ []) ≡ false
    still_unended es n h =
        rw (workflow_has_terminal_event-append es (e ∷ []), h)
          (unfold workflow_has_terminal_event in rw n refl)
