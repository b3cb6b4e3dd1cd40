-- ===== src/Engine/Trace/Success.antt =====
-- src/engine.rs: a run whose steps succeed within the attempts that their policies allow.
use agentq.Prelude.{
  ℕ, suc, ◌≤◌, ◌≡◌, refl, sym, ap, subst, ◌∙◌, true, false, List, [], ◌∷◌, ◌++◌, append_assoc,
  Option, none, All, arith, length, ltb,
}
use agentq.Text.{Text}
use agentq.Event.{Event, workflow_started, step_completed, workflow_completed}
use agentq.Job.{Func, Outcome}
use agentq.Workflow.{StepDef, Duration, Workflow}
use agentq.Store.{DurableStore}
use agentq.Store.Spec.{StoreSpec, StoreView}
use agentq.Sqlite.Codec.{usize_max}
use agentq.Engine.Reasons.{parse_waiting_reason, parse_non_retryable_reason}
use agentq.Engine.Replay.{workflow_has_terminal_event, is_terminal}
use agentq.Engine.Replay.Laws.{workflow_has_terminal_event-append}
use agentq.Engine.State.{WorkflowEngine, RunningWorkflow, StepOutcome, Turn, World, Reply, returned}
use agentq.Engine.Step.{next_attempt}
use agentq.Engine.Drive.{run}
use agentq.Engine.Trace.{
  Trace, logs, pushes, stopped, behind, step_trace, failure_trace, outcome_trace, step_run,
  after_step, drive_run, whole_run,
}
use agentq.Engine.Trace.Stands.{Kept}
use agentq.Engine.Trace.Follows.{TurnAlone}
use agentq.Engine.Trace.Run.{running_of, run-whole_run}
use agentq.Engine.Trace.Succeeds.{
  done, again, no_step, step_then, Succeeds, AllSucceed, outputs_of, numbered,
}

outputs_of-append : (es fs : List Event) → outputs_of (es ++ fs) ≡ outputs_of es ++ outputs_of fs
unfolding outputs_of
outputs_of-append [] fs = refl
outputs_of-append (step_completed w i o ∷ es) fs = ap (λ r. (i, o) ∷ r) (outputs_of-append es fs)
outputs_of-append (_ ∷ es) fs = outputs_of-append es fs

module _ {S : Type 0} (show : Duration → Text) (engine : WorkflowEngine) (w : Text)
    (running : RunningWorkflow) where
  -- A step that succeeds leaves its output as the only one, and no terminal event.
  abbrev Completed : ℕ → Text → List (Turn S) → Trace S StepOutcome → Type 0
  Completed i output left tr =
      (tr.reply ≡ returned StepOutcome.completed)
      × (tr.left ≡ left)
      × (outputs_of tr.events ≡ (i, output) ∷ [])
      × (workflow_has_terminal_event tr.events ≡ false)

  module _ (i : ℕ) (step : StepDef) (body : Func) where
    completed_outcome :
        (a : ℕ) (r : Reply Outcome) (output : Text) (rest : Trace S StepOutcome)
        (left : List (Turn S))
        → r ≡ returned (Outcome.completed output)
        → Completed i output left (outcome_trace show engine w running i step body a r rest left)
    unfolding outcome_trace logs step_trace stopped outputs_of workflow_has_terminal_event
        is_terminal
    completed_outcome a r output rest left e = rw e (refl, refl, refl, refl)

    failed_outcome :
        (a : ℕ) (r : Reply Outcome) (reason output : Text) (rest : Trace S StepOutcome)
        (turns left : List (Turn S))
        → r ≡ returned (Outcome.failed reason)
        → parse_waiting_reason reason ≡ none
        → parse_non_retryable_reason reason ≡ none
        → ltb (next_attempt a) step.retry_policy.max_attempts ≡ true
        → Completed i output left rest
        → Completed i output left (outcome_trace show engine w running i step body a r rest turns)
    unfolding outcome_trace failure_trace logs outputs_of workflow_has_terminal_event is_terminal
    failed_outcome a r reason output rest turns left e pw pn more h = rw (e, pw, pn, more) h

    pub step_run-Completed :
        (a : ℕ) (turns left : List (Turn S)) (output : Text)
        → Succeeds show step a turns output left
        → Completed i output left (step_run show engine w running i step body a turns)
    unfolding step_run logs pushes outputs_of workflow_has_terminal_event is_terminal
    step_run-Completed _ _ _ _ (done a turn turns output e) = completed_outcome a _ output _ turns e
    step_run-Completed _ _ _ _ (again a turn turns left reason output e pw pn more s) =
        failed_outcome a _ reason output _ turns left e pw pn more
          (step_run-Completed (next_attempt a) turns left output s)

  -- A drive whose steps all succeed returns, un-registers the workflow, and ends its log.
  abbrev pub Finished : ℕ → List Text → List (Turn S) → Trace S (Unit {0}) → Type 0
  Finished i outputs left tr =
      (tr.reply ≡ returned tt)
      × (tr.found ≡ none)
      × (tr.left ≡ left)
      × ((init : List Event) × (tr.events ≡ init ++ workflow_completed w ∷ [])
          × (workflow_has_terminal_event init ≡ false)
          × (outputs_of init ≡ numbered i outputs))

  behind-Finished :
      (i : ℕ) (output : Text) (outputs : List Text) (between left : List (Turn S))
      (tr : Trace S StepOutcome) (rest : Trace S (Unit {0}))
      → Completed i output between tr
      → Finished (suc i) outputs left rest
      → Finished i (output ∷ outputs) left (behind tr rest)
  unfolding behind numbered
  behind-Finished i output outputs between left tr rest h (er, ef, el, (init, ee, eo, en)) = (
    er,
    ef,
    el,
    (
      tr.events ++ init,
      ap (λ es. tr.events ++ es) ee ∙ sym (append_assoc tr.events init (workflow_completed w ∷ [])),
      rw (workflow_has_terminal_event-append tr.events init, h.3) eo,
      outputs_of-append tr.events init ∙ rw (h.2, en) refl,
    ),
  )

  pub after_step-Finished :
      (i : ℕ) (output : Text) (outputs : List Text) (between left : List (Turn S))
      (tr : Trace S StepOutcome) (rest : Trace S (Unit {0}))
      → Completed i output between tr
      → Finished (suc i) outputs left rest
      → Finished i (output ∷ outputs) left (after_step show engine w running tr tr.reply rest)
  unfolding after_step
  after_step-Finished i output outputs between left tr rest h g =
      subst (λ r. Finished i (output ∷ outputs) left (after_step show engine w running tr r rest))
        (sym h.0) (behind-Finished i output outputs between left tr rest h g)

  pub drive_run-Finished :
      (i : ℕ) (steps : List StepDef) (bodies : List Func) (turns left : List (Turn S))
      (outputs : List Text)
      → AllSucceed show steps turns outputs left
      → length bodies ≡ length steps
      → Finished i outputs left (drive_run show engine w running i steps bodies turns)
  unfolding drive_run
  drive_run-Finished i _ bodies _ _ _ (no_step turns) e =
      unfold logs stopped workflow_has_terminal_event outputs_of numbered in
      (refl, refl, refl, ([], refl, refl, refl))
  drive_run-Finished i _ [] _ _ _ (step_then step steps turns between left output outputs h hs) e =
      absurd (omega (arith, e))
  drive_run-Finished i _ (body ∷ bodies) _ _ _
        (step_then step steps turns between left output outputs h hs) e =
      let c = step_run-Completed i step body 0 turns between output h in
      let tr = step_run show engine w running i step body 0 turns in
      after_step-Finished i output outputs between left tr _ c (
        subst
          (λ ts.
            Finished (suc i) outputs left (drive_run show engine w running (suc i) steps bodies ts))
          (sym c.1)
          (drive_run-Finished (suc i) steps bodies between left outputs hs (omega (arith, e))))

-- The log ends once, with the outputs of the steps from `i` on behind those that it had.
abbrev pub EndsOnce : Text → ℕ → List Text → List Event → List Event → Type 0
EndsOnce w i outputs es log =
    (before : List Event) × (log ≡ before ++ workflow_completed w ∷ [])
    × (workflow_has_terminal_event before ≡ false)
    × (outputs_of before ≡ outputs_of es ++ numbered i outputs)

pub ended_once :
    (w : Text) (i : ℕ) (outputs : List Text) (es log events init : List Event) (e : Event)
    → log ≡ es ++ e ∷ events
    → events ≡ init ++ workflow_completed w ∷ []
    → workflow_has_terminal_event es ≡ false
    → workflow_has_terminal_event (e ∷ init) ≡ false
    → outputs_of (e ∷ init) ≡ numbered i outputs
    → EndsOnce w i outputs es log
ended_once w i outputs es log events init e el ee unended eo en = (
  es ++ e ∷ init,
  el ∙ ap (λ x. es ++ e ∷ x) ee ∙ sym (append_assoc es (e ∷ init) (workflow_completed w ∷ [])),
  rw (workflow_has_terminal_event-append es (e ∷ init), unended) eo,
  outputs_of-append es (e ∷ init) ∙ ap (λ x. outputs_of es ++ x) en,
)

-- On any store that keeps `StoreSpec`, beside tasks that leave the workflow alone: if every step
-- succeeds within the attempts of its policy, however often it fails before, `run` returns without
-- an error and the workflow is no longer mounted; its log has got the output of each step once, in
-- the order of the steps, and behind them one `WorkflowCompleted` as the only terminal event. There
-- is a body for each step, the number of steps fits `usize`, the log has no terminal event before,
-- and the worker may claim every step.
pub run-AllSucceed :
    {S : Type 0} {ds : DurableStore S} {view : StoreView S} (spec : StoreSpec ds view)
    (show : Duration → Text) (engine : WorkflowEngine) (workflow : Workflow) (bodies : List Func)
    (es : List Event) (found : Option RunningWorkflow) (v : World S) (outputs : List Text)
    (left : List (Turn S))
    → length bodies ≡ length workflow.steps
    → length workflow.steps ≤ usize_max
    → workflow_has_terminal_event es ≡ false
    → All (TurnAlone view engine workflow.id) v.turns
    → Kept view workflow.id engine.worker_id 0 found es v.shared
    → AllSucceed show workflow.steps v.turns outputs left
    → (let (reply, v') = run ds show engine workflow bodies v in
        (reply ≡ returned tt)
        × (v'.shared.mounted workflow.id ≡ none)
        × (v'.turns ≡ left)
        × EndsOnce workflow.id 0 outputs es (view.log v'.shared.db workflow.id))
unfolding whole_run logs
run-AllSucceed spec show engine workflow bodies es found v outputs left one_each few unended alone
      kept all_succeed =
    let running = running_of workflow bodies in
    let (er, el, ep, et, ef) =
      run-whole_run spec show engine workflow bodies one_each few es found v unended alone kept in
    let (fr, ff, fl, (init, ee, eo, en)) =
      drive_run-Finished show engine workflow.id running 0 workflow.steps bodies v.turns left
        outputs all_succeed one_each in
    (
      er ∙ fr,
      ef ∙ ff,
      et ∙ fl,
      ended_once workflow.id 0 outputs es _ _ init (workflow_started workflow.id) el ee unended
          (unfold workflow_has_terminal_event is_terminal in eo) (unfold outputs_of in en),
    )
