-- ===== src/Engine/Trace/Resume.antt =====
-- src/engine.rs: `resume` does what its trace tells.
use agentq.Prelude.{
  ℕ, suc, ◌≤◌, ◌≡◌, refl, subst, false, List, [], ◌∷◌, ◌++◌, some, All, arith, length, get_elem?,
  if◌then◌else◌,
}
use agentq.Text.{codes, Text}
use agentq.Event.{Event, step_resumed}
use agentq.Job.{Job, Func}
use agentq.Workflow.{StepDef, StepStatus, Duration}
use agentq.Store.{DurableStore}
use agentq.Store.Spec.{StoreSpec, StoreView, Reopens, closes}
use agentq.Sqlite.Codec.{event_workflow_id, usize_max, u32_max}
use agentq.Engine.Replay.{
  workflow_is_cancelled, workflow_has_terminal_event, is_terminal, step_status_from_events,
  current_attempt_from_events,
}
use agentq.Engine.Replay.Attempt.{last_attempt, current_attempt_from_events-last_attempt}
use agentq.Engine.State.{WorkflowEngine, RunningWorkflow, Turn, World, failed, ◌>>=◌}
use agentq.Engine.Drive.{
  backend_error, append, load, mounted, drive_rest, run_then, or_wait, resume_at, resume_waiting,
  resume,
}
use agentq.Engine.Gives.{bind-Gives}
use agentq.Engine.Trace.{logs}
use agentq.Engine.Trace.Stands.{Kept}
use agentq.Engine.Trace.Stands.Calls.{load_events-Gives}
use agentq.Engine.Trace.Follows.{Follows, TurnAlone}
use agentq.Engine.Trace.Suffix.{get_elem?-within}
use agentq.Engine.Trace.Drive.{uncancelled}
use agentq.Engine.Trace.Rest.{rest_run, rest-Follows, mounted-Gives, freed-Follows, still_unended}

module _ {S : Type 0} {ds : DurableStore S} {view : StoreView S} (spec : StoreSpec ds view)
    (show : Duration → Text) (engine : WorkflowEngine) (w : Text) (running : RunningWorkflow)
    (few : length running.steps ≤ usize_max) (i : ℕ) (step : StepDef) (body : Func)
    (has_step : get_elem? running.steps i ≡ some step)
    (has_body : get_elem? running.bodies i ≡ some body) (reopens : Reopens ds view) where
  abbrev end : ℕ
  end = length running.steps

  module _ (input : Text) (es : List Event) (jobs : List Job) (turns : List (Turn S))
      (small : current_attempt_from_events es i ≤ u32_max)
      (alone : All (TurnAlone view engine w) turns)
      (unended : workflow_has_terminal_event es ≡ false) where
    resume_at-Follows :
        Follows view engine w
          (suc i)
          end
          (some running)
          es
          jobs
          turns
          (resume_at ds show engine w i input es
            (get_elem? running.steps i)
            (get_elem? running.bodies i))
          (logs
            (step_resumed w i input)
            (rest_run show engine w running i step body (current_attempt_from_events es i) turns))
    unfolding resume_at append event_workflow_id closes is_terminal
    resume_at-Follows =
        let e = step_resumed w i input in
        let a = current_attempt_from_events es i in
        let within = get_elem?-within i running.steps step has_step in
        let fits : i ≤ usize_max = omega (arith, within, few) in
        let frees =
          λ (s : S) (g : view.Good s). reopens.step_resumed-IsOpen s w i input engine.worker_id g in
        rw (has_step, has_body)
          (freed-Follows spec show engine w running few i step body has_step has_body e fits refl
            (λ j. refl) frees es jobs turns
            (λ u.
              run_then ds show engine w i step body a
                (or_wait ds show engine (drive_rest ds show engine w i)))
            (rest_run show engine w running i step body a turns)
            (rest-Follows spec show engine w running few i step body has_step has_body
              (es ++ e ∷ []) jobs turns a small alone
              (still_unended spec show engine w running few i step body has_step has_body e fits
                refl (λ j. refl) frees es refl unended)))

    resume_mounted-Follows :
        Follows view engine w
          (suc i)
          end
          (some running)
          es
          jobs
          turns
          (mounted ds show engine w >>= λ running.
            resume_at ds show engine w i input es
              (get_elem? running.steps i)
              (get_elem? running.bodies i))
          (logs
            (step_resumed w i input)
            (rest_run show engine w running i step body (current_attempt_from_events es i) turns))
    resume_mounted-Follows =
        bind-Gives
          (λ running.
            resume_at ds show engine w i input es (get_elem? running.steps i)
              (get_elem? running.bodies i))
          (mounted-Gives spec show engine w running few i step body has_step has_body (suc i) es
            jobs turns)
          resume_at-Follows

    module _ (reason : Text)
        (waits : step_status_from_events es i ≡ StepStatus.waiting reason) where
      resume_waiting-Follows :
          Follows view engine w
            (suc i)
            end
            (some running)
            es
            jobs
            turns
            (if workflow_is_cancelled es
              then (λ v. (failed (backend_error (codes "workflow is cancelled")), v))
              else resume_waiting ds show engine w i input es (step_status_from_events es i))
            (logs
              (step_resumed w i input)
              (rest_run show engine w running i step body (current_attempt_from_events es i) turns))
      unfolding resume_waiting
      resume_waiting-Follows = rw (uncancelled es unended, waits) resume_mounted-Follows

      resume-Follows :
          Follows view engine w
            (suc i)
            end
            (some running)
            es
            jobs
            turns
            (resume ds show engine w i input)
            (logs
              (step_resumed w i input)
              (rest_run show engine w running i step body (current_attempt_from_events es i) turns))
      unfolding resume load
      resume-Follows =
          bind-Gives
            (λ events.
              if workflow_is_cancelled events
              then (λ v. (failed (backend_error (codes "workflow is cancelled")), v))
              else resume_waiting ds show engine w i input events
                  (step_status_from_events events i))
            (load_events-Gives spec engine w (some running) jobs turns (suc i) es)
            resume_waiting-Follows

  -- On a store that keeps `StoreSpec` and on which a resumed step may be claimed, beside tasks that
  -- leave the workflow alone: to resume a step that waits, of a mounted workflow whose log has no
  -- terminal event, appends a `StepResumed` with the input, and does what the trace of the step from
  -- its last attempt on, and of the steps behind it, tells: its events, jobs and reply, the turns
  -- used up, and whether the workflow stays mounted. The last attempt is the one that the last
  -- `StepStarted` or `RetryScheduled` of the step in the log gives, or 0 if the log has none. The
  -- worker may claim the steps behind this one, the number of steps fits `usize`, and the attempt
  -- `u32`.
  pub resume-rest_run :
      (input reason : Text) (es : List Event) (v : World S)
      → step_status_from_events es i ≡ StepStatus.waiting reason
      → last_attempt i es ≤ u32_max
      → workflow_has_terminal_event es ≡ false
      → All (TurnAlone view engine w) v.turns
      → Kept view w engine.worker_id (suc i) (some running) es v.shared
      → (let tr = rest_run show engine w running i step body (last_attempt i es) v.turns in
          let (reply, v') = resume ds show engine w i input v in
          (reply ≡ tr.reply)
          × (view.log v'.shared.db w ≡ es ++ step_resumed w i input ∷ tr.events)
          × (v'.pushed ≡ v.pushed ++ tr.jobs)
          × (v'.turns ≡ tr.left)
          × (v'.shared.mounted w ≡ tr.found))
  unfolding logs
  resume-rest_run input reason es v waits small unended alone kept =
      let same = current_attempt_from_events-last_attempt es i in
      let small' : current_attempt_from_events es i ≤ u32_max = rw same small in
      let g = resume-Follows input es v.pushed v.turns small' alone unended reason waits in
      let g' =
        subst
          (λ a.
            Follows view engine w (suc i) end (some running) es v.pushed v.turns
              (resume ds show engine w i input)
              (logs (step_resumed w i input)
                (rest_run show engine w running i step body a v.turns)))
          same g in
      let (e, h) = g'.at v (record { shared = kept; pushed = refl; left = refl }) in
      (e, h.shared.logged, h.pushed, h.left, h.shared.mounted)
