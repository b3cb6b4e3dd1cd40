-- ===== src/Engine/Trace/Alike.antt =====
-- src/engine.rs: the same run on two stores.
use agentq.Prelude.{◌≤◌, ◌≡◌, sym, ap, ◌∙◌, false, List, ◌++◌, map, Option, All, length}
use agentq.Text.{Text}
use agentq.Event.{Event}
use agentq.Job.{Job, Func}
use agentq.Workflow.{Duration, Workflow}
use agentq.Store.{DurableStore}
use agentq.Store.Spec.{StoreSpec, StoreView}
use agentq.Sqlite.Codec.{usize_max}
use agentq.Engine.Replay.{workflow_has_terminal_event}
use agentq.Engine.State.{WorkflowEngine, RunningWorkflow, Turn, World}
use agentq.Engine.Drive.{run}
use agentq.Engine.Trace.{whole_run}
use agentq.Engine.Trace.Stands.{Kept}
use agentq.Engine.Trace.Follows.{TurnAlone}
use agentq.Engine.Trace.Run.{running_of, run-whole_run}
use agentq.Engine.Trace.Forget.{forget_turn, forget, whole_run-forget}

-- The turns of two worlds give the same answers and the same wakes.
abbrev pub AnswersAlike : {S S' : Type 0} → List (Turn S) → List (Turn S') → Type 0
AnswersAlike turns turns' = map forget_turn turns ≡ map forget_turn turns'

module _ {S S' : Type 0} (show : Duration → Text) (engine : WorkflowEngine) (w : Text)
    (running : RunningWorkflow) where
  whole_run-alike :
      (turns : List (Turn S)) (turns' : List (Turn S'))
      → AnswersAlike turns turns'
      → forget (whole_run show engine w running turns)
        ≡ forget (whole_run show engine w running turns')
  whole_run-alike turns turns' same =
      sym (whole_run-forget show engine w running turns)
      ∙ ap (whole_run show engine w running) same
      ∙ whole_run-forget show engine w running turns'

module _ {S S' : Type 0} {ds : DurableStore S} {ds' : DurableStore S'} {view : StoreView S}
    {view' : StoreView S'} (spec : StoreSpec ds view) (spec' : StoreSpec ds' view')
    (show : Duration → Text) (engine : WorkflowEngine) (workflow : Workflow) (bodies : List Func)
    (one_each : length bodies ≡ length workflow.steps)
    (few : length workflow.steps ≤ usize_max) where
  -- On two stores that keep `StoreSpec`, beside tasks that leave the workflow alone, a run of the
  -- same workflow does the same if the queue gives the same answers and the waits the same wakes,
  -- whatever the two logs of the workflow held before, as long as neither is ended: the replies are
  -- equal, the same events are appended to the two logs and the same jobs pushed to the two queues,
  -- the same turns are left, and the workflow stays mounted on both sides or on neither. There is a
  -- body for each step, the number of steps fits `usize`, and the worker may claim every step.
  pub run-run :
      (es es' : List Event) (found found' : Option RunningWorkflow) (v : World S) (u : World S')
      → workflow_has_terminal_event es ≡ false
      → workflow_has_terminal_event es' ≡ false
      → All (TurnAlone view engine workflow.id) v.turns
      → All (TurnAlone view' engine workflow.id) u.turns
      → Kept view workflow.id engine.worker_id 0 found es v.shared
      → Kept view' workflow.id engine.worker_id 0 found' es' u.shared
      → AnswersAlike v.turns u.turns
      → (added : List Event) × (jobs : List Job) × (let (reply, v') =
            run ds show engine workflow bodies v in
          let (reply', u') = run ds' show engine workflow bodies u in
          (reply ≡ reply')
          × (view.log v'.shared.db workflow.id ≡ es ++ added)
          × (view'.log u'.shared.db workflow.id ≡ es' ++ added)
          × (v'.pushed ≡ v.pushed ++ jobs)
          × (u'.pushed ≡ u.pushed ++ jobs)
          × AnswersAlike v'.turns u'.turns
          × (v'.shared.mounted workflow.id ≡ u'.shared.mounted workflow.id))
  run-run es es' found found' v u open_ open_' alone alone' kept kept' same =
      let running = running_of workflow bodies in
      let tr = whole_run show engine workflow.id running v.turns in
      let (r, l, p, t, m) =
        run-whole_run spec show engine workflow bodies one_each few es found v open_ alone kept in
      let (r', l', p', t', m') =
        run-whole_run spec' show engine workflow bodies one_each few es' found' u open_' alone'
          kept' in
      let e = whole_run-alike show engine workflow.id running v.turns u.turns same in
      (
        tr.events,
        tr.jobs,
        (
          r ∙ ap (λ x. x.reply) e ∙ sym r',
          l,
          l' ∙ ap (λ x. es' ++ x.events) (sym e),
          p,
          p' ∙ ap (λ x. u.pushed ++ x.jobs) (sym e),
          ap (map forget_turn) t ∙ ap (λ x. x.left) e ∙ sym (ap (map forget_turn) t'),
          m ∙ ap (λ x. x.found) e ∙ sym m',
        ),
      )
