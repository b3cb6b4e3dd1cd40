-- ===== src/Engine/Trace/Recovered.antt =====
-- src/engine.rs: a workflow that is re-admitted and whose remaining steps succeed.
use agentq.Prelude.{
  ℕ, suc, ◌-◌, ◌≤◌, ◌≡◌, sym, subst, ◌∙◌, ap, false, List, ◌∷◌, none, some, All, length, get_elem?,
}
use agentq.Text.{Text}
use agentq.Event.{Event, worker_recovered}
use agentq.Job.{Func}
use agentq.Workflow.{StepDef, Duration}
use agentq.Store.{DurableStore}
use agentq.Store.Spec.{StoreSpec, StoreView}
use agentq.Sqlite.Codec.{usize_max, u32_max}
use agentq.Engine.Replay.{workflow_has_terminal_event, is_terminal}
use agentq.Engine.State.{WorkflowEngine, RunningWorkflow, Turn, World, returned}
use agentq.Engine.Drive.{readmit_after_worker_recovery}
use agentq.Engine.Trace.{step_run, drive_run}
use agentq.Engine.Trace.Stands.{Kept}
use agentq.Engine.Trace.Follows.{TurnAlone}
use agentq.Engine.Trace.Suffix.{drop, length-drop}
use agentq.Engine.Trace.Rest.{rest_run}
use agentq.Engine.Trace.Readmit.{readmit-rest_run}
use agentq.Engine.Trace.Succeeds.{Succeeds, AllSucceed, outputs_of}
use agentq.Engine.Trace.Success.{
  Finished, step_run-Completed, after_step-Finished, drive_run-Finished, EndsOnce, ended_once,
}

module _ (running : RunningWorkflow) (one_each : length running.bodies ≡ length running.steps) where
  as_many : (i : ℕ) → length (drop i running.bodies) ≡ length (drop i running.steps)
  as_many i =
      length-drop i running.bodies ∙ ap (λ n. n - i) one_each ∙ sym (length-drop i running.steps)

module _ {S : Type 0} (show : Duration → Text) (engine : WorkflowEngine) (w : Text)
    (running : RunningWorkflow) (one_each : length running.bodies ≡ length running.steps) where
  rest_run-Finished :
      (i : ℕ) (step : StepDef) (body : Func) (a : ℕ) (turns between left : List (Turn S))
      (output : Text) (outputs : List Text)
      → Succeeds show step a turns output between
      → AllSucceed show (drop (suc i) running.steps) between outputs left
      → Finished show engine w running i
          (output ∷ outputs)
          left
          (rest_run show engine w running i step body a turns)
  unfolding rest_run
  rest_run-Finished i step body a turns between left output outputs h hs =
      let c = step_run-Completed show engine w running i step body a turns between output h in
      let tr = step_run show engine w running i step body a turns in
      let steps = drop (suc i) running.steps in
      let bodies = drop (suc i) running.bodies in
      after_step-Finished show engine w running i output outputs between left tr _ c (
        subst
          (λ ts.
            Finished show engine w running (suc i) outputs left
              (drive_run show engine w running (suc i) steps bodies ts))
          (sym c.1)
          (drive_run-Finished show engine w running (suc i) steps bodies between left outputs hs
            (as_many running one_each (suc i))))

module _ {S : Type 0} {ds : DurableStore S} {view : StoreView S} (spec : StoreSpec ds view)
    (show : Duration → Text) (engine : WorkflowEngine) (w : Text) (running : RunningWorkflow)
    (few : length running.steps ≤ usize_max)
    (one_each : length running.bodies ≡ length running.steps) (i : ℕ) (step : StepDef) (body : Func)
    (has_step : get_elem? running.steps i ≡ some step)
    (has_body : get_elem? running.bodies i ≡ some body) where
  -- On any store that keeps `StoreSpec`, beside tasks that leave the workflow alone: if a step of a
  -- mounted workflow whose log has no terminal event is re-admitted at an attempt, and from there on
  -- it and each step behind it succeeds within the attempts of its policy, then the re-admission
  -- returns without an error and the workflow is no longer mounted; its log has got the outputs of
  -- these steps once, in their order, behind the outputs that it had, and then one
  -- `WorkflowCompleted` as the only terminal event. The worker may claim the steps behind this one,
  -- whoever held this one. There is a body for each step, the number of steps fits `usize`, and the
  -- attempt `u32`.
  pub readmit-AllSucceed :
      (a : ℕ) (es : List Event) (v : World S) (between left : List (Turn S)) (output : Text)
      (outputs : List Text)
      → a ≤ u32_max
      → workflow_has_terminal_event es ≡ false
      → All (TurnAlone view engine w) v.turns
      → Kept view w engine.worker_id (suc i) (some running) es v.shared
      → Succeeds show step a v.turns output between
      → AllSucceed show (drop (suc i) running.steps) between outputs left
      → (let (reply, v') = readmit_after_worker_recovery ds show engine w i a v in
          (reply ≡ returned tt)
          × (v'.shared.mounted w ≡ none)
          × (v'.turns ≡ left)
          × EndsOnce w i (output ∷ outputs) es (view.log v'.shared.db w))
  readmit-AllSucceed a es v between left output outputs small unended alone kept h hs =
      let (er, el, ep, et, ef) =
        readmit-rest_run spec show engine w running few i step body has_step has_body a es v small
          unended alone kept in
      let (fr, ff, fl, (init, ee, eo, en)) =
        rest_run-Finished show engine w running one_each i step body a v.turns between left output
          outputs h hs in
      (
        er ∙ fr,
        ef ∙ ff,
        et ∙ fl,
        ended_once w i (output ∷ outputs) es _ _ init (worker_recovered w i) el ee unended
            (unfold workflow_has_terminal_event is_terminal in eo) (unfold outputs_of in en),
      )
