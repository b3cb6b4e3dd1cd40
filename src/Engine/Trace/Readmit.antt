-- ===== src/Engine/Trace/Readmit.antt =====
-- src/engine.rs and src/recovery.rs: the re-admission of a step does what its trace tells.
use agentq.Prelude.{
  ℕ, suc, ◌≤◌, ◌≡◌, refl, false, List, [], ◌∷◌, ◌++◌, some, All, arith, length, get_elem?,
}
use agentq.Text.{Text}
use agentq.Event.{Event, worker_recovered}
use agentq.Job.{Job, Func}
use agentq.Workflow.{StepDef, Duration}
use agentq.Store.{DurableStore}
use agentq.Store.Spec.{StoreSpec, StoreView, closes}
use agentq.Sqlite.Codec.{event_workflow_id, usize_max, u32_max}
use agentq.Engine.Replay.{workflow_has_terminal_event, is_terminal}
use agentq.Engine.State.{WorkflowEngine, RunningWorkflow, Turn, World, ◌>>=◌, get_mounted}
use agentq.Engine.Drive.{append, readmit_at, readmit_mounted, readmit_after_worker_recovery}
use agentq.Engine.Gives.{bind-Gives}
use agentq.Engine.Trace.{logs}
use agentq.Engine.Trace.Stands.{Kept}
use agentq.Engine.Trace.Stands.Calls.{get_mounted-Gives}
use agentq.Engine.Trace.Follows.{Follows, TurnAlone}
use agentq.Engine.Trace.Suffix.{get_elem?-within}
use agentq.Engine.Trace.Rest.{rest_run, rest-Follows, freed-Follows, still_unended}

module _ {S : Type 0} {ds : DurableStore S} {view : StoreView S} (spec : StoreSpec ds view)
    (show : Duration → Text) (engine : WorkflowEngine) (w : Text) (running : RunningWorkflow)
    (few : length running.steps ≤ usize_max) (i : ℕ) (step : StepDef) (body : Func)
    (has_step : get_elem? running.steps i ≡ some step)
    (has_body : get_elem? running.bodies i ≡ some body) where
  abbrev end : ℕ
  end = length running.steps

  module _ (es : List Event) (jobs : List Job) (turns : List (Turn S)) (a : ℕ) (small : a ≤ u32_max)
      (alone : All (TurnAlone view engine w) turns)
      (unended : workflow_has_terminal_event es ≡ false) where
    readmit_at-Follows :
        Follows view engine w i end
          (some running)
          es
          jobs
          turns
          (readmit_mounted ds show engine w i a (some running))
          (rest_run show engine w running i step body a turns)
    unfolding readmit_mounted readmit_at
    readmit_at-Follows =
        rw (has_step, has_body)
          (rest-Follows spec show engine w running few i step body has_step has_body es jobs turns a
            small alone unended)

    readmit_found-Follows :
        Follows view engine w i end
          (some running)
          es
          jobs
          turns
          (get_mounted w >>= readmit_mounted ds show engine w i a)
          (rest_run show engine w running i step body a turns)
    readmit_found-Follows =
        bind-Gives (readmit_mounted ds show engine w i a)
          (get_mounted-Gives spec engine w (some running) jobs turns i es) readmit_at-Follows

  readmit-Follows :
      (es : List Event) (jobs : List Job) (turns : List (Turn S)) (a : ℕ)
      → a ≤ u32_max
      → All (TurnAlone view engine w) turns
      → workflow_has_terminal_event es ≡ false
      → Follows view engine w
          (suc i)
          end
          (some running)
          es
          jobs
          turns
          (readmit_after_worker_recovery ds show engine w i a)
          (logs (worker_recovered w i) (rest_run show engine w running i step body a turns))
  unfolding readmit_after_worker_recovery append event_workflow_id closes is_terminal
  readmit-Follows es jobs turns a small alone unended =
      let e = worker_recovered w i in
      let within = get_elem?-within i running.steps step has_step in
      let fits : i ≤ usize_max = omega (arith, within, few) in
      let frees =
        λ (s : S) (g : view.Good s). spec.worker_recovered-IsOpen s w i engine.worker_id g in
      freed-Follows spec show engine w running few i step body has_step has_body e fits refl
        (λ j. refl) frees es jobs turns
        (λ u. get_mounted w >>= readmit_mounted ds show engine w i a)
        (rest_run show engine w running i step body a turns)
        (readmit_found-Follows (es ++ e ∷ []) jobs turns a small alone (
          still_unended spec show engine w running few i step body has_step has_body e fits refl
            (λ j. refl) frees es refl unended))

  -- On any store that keeps `StoreSpec`, beside tasks that leave the workflow alone: to re-admit a
  -- step of a mounted workflow whose log has no terminal event appends a `WorkerRecovered`, and does
  -- what the trace of the step from the given attempt on, and of the steps behind it, tells: its
  -- events, jobs and reply, the turns used up, and whether the workflow stays mounted. The worker
  -- may claim the steps behind this one; whoever held this one, the event frees it. The number of
  -- steps fits `usize`, and the attempt `u32`.
  pub readmit-rest_run :
      (a : ℕ) (es : List Event) (v : World S)
      → a ≤ u32_max
      → workflow_has_terminal_event es ≡ false
      → All (TurnAlone view engine w) v.turns
      → Kept view w engine.worker_id (suc i) (some running) es v.shared
      → (let tr = rest_run show engine w running i step body a v.turns in
          let (reply, v') = readmit_after_worker_recovery ds show engine w i a v in
          (reply ≡ tr.reply)
          × (view.log v'.shared.db w ≡ es ++ worker_recovered w i ∷ tr.events)
          × (v'.pushed ≡ v.pushed ++ tr.jobs)
          × (v'.turns ≡ tr.left)
          × (v'.shared.mounted w ≡ tr.found))
  unfolding logs
  readmit-rest_run a es v small unended alone kept =
      let g = readmit-Follows es v.pushed v.turns a small alone unended in
      let (e, h) = g.at v (record { shared = kept; pushed = refl; left = refl }) in
      (e, h.shared.logged, h.pushed, h.left, h.shared.mounted)
