-- ===== src/Engine/Trace/Claimed.antt =====
-- src/engine.rs and src/queue.rs: the jobs of a run on a queue that no one else pushes to.
use agentq.Prelude.{
  ℕ, zero, suc, ◌≤◌, ◌≡◌, ◌≢◌, sym, subst, ap, ◌∙◌, false, List, [], ◌∷◌, ◌++◌, Option, some, All,
  All-weaker, length, get_elem?,
}
use agentq.Text.{Text}
use agentq.Event.{Event}
use agentq.Job.{Job, Func}
use agentq.Workflow.{Duration, Workflow}
use agentq.Store.{DurableStore}
use agentq.Store.Spec.{StoreSpec, StoreView}
use agentq.Sqlite.Codec.{usize_max}
use agentq.Tokio.{Tokio}
use agentq.Queue.{Queue, QueueBuilder}
use agentq.Queue.Steps.{push_claim, claimed}
use agentq.Queue.Run.{Reachable}
use agentq.Queue.Fresh.{jobs_of, Reachable-claimed}
use agentq.Engine.Replay.{workflow_has_terminal_event}
use agentq.Engine.State.{WorkflowEngine, RunningWorkflow, World}
use agentq.Engine.Drive.{run}
use agentq.Engine.Trace.Stands.{Kept}
use agentq.Engine.Trace.Follows.{TurnAlone}
use agentq.Engine.Trace.Keys.{KeysDiffer, Fits}
use agentq.Engine.Trace.Distinct.{run-KeysDiffer}

-- The job is in the list.
abbrev pub Occurs : List Job → Job → Type 0
Occurs jobs job = (n : ℕ) × (get_elem? jobs n ≡ some job)

append-cancel : (front xs ys : List Job) → front ++ xs ≡ front ++ ys → xs ≡ ys
append-cancel [] xs ys e = e
append-cancel (job ∷ front) xs ys e = append-cancel front xs ys (cc e)

All-Occurs :
    (P : Job → Type 0) (before : List Job) (job : Job) (after : List Job)
    → All P (before ++ job ∷ after)
    → P job
All-Occurs P [] job after h = h.0
All-Occurs P (first ∷ before) job after h = All-Occurs P before job after h.1

-- Behind jobs whose keys differ from its own.
KeysDiffer-before :
    (before : List Job) (job : Job) (after : List Job)
    → KeysDiffer (before ++ job ∷ after)
    → (other : Job) → Occurs before other
    → other.key ≢ job.key
KeysDiffer-before [] job after h other (n, e) = absurd (cc e)
KeysDiffer-before (first ∷ before) job after h other (zero, e) =
    let same : first ≡ other = cc e in
    λ k.
      All-Occurs (λ x. x.key ≢ first.key) before job after h.0 (sym k ∙ ap (λ x. x.key) (sym same))
KeysDiffer-before (first ∷ before) job after h other (suc n, e) =
    KeysDiffer-before before job after h.1 other (n, e)

module _ {S C M H : Type 0} {ds : DurableStore S} {view : StoreView S} (spec : StoreSpec ds view)
    (show : Duration → Text) (engine : WorkflowEngine) (workflow : Workflow) (bodies : List Func)
    (one_each : length bodies ≡ length workflow.steps) (few : length workflow.steps ≤ usize_max)
    (k : Tokio C M H) (b : QueueBuilder) where
  -- If the queue was given no other jobs than the earlier ones of the run, then each job of the run
  -- is claimed at its push, however the steps of the queue have interleaved: it is not answered from
  -- the cache or with a job in flight. The store keeps `StoreSpec`, the other tasks leave the
  -- workflow alone, there is a body for each step, the number of steps fits `usize` and the attempts
  -- of each policy a `u32`, the log has no terminal event before, and the worker may claim every
  -- step.
  pub run-claimed :
      (es : List Event) (found : Option RunningWorkflow) (v : World S) (before after : List Job)
      (job : Job) {q : Queue C M H} (r : Reachable k b q)
      → All Fits workflow.steps
      → workflow_has_terminal_event es ≡ false
      → All (TurnAlone view engine workflow.id) v.turns
      → Kept view workflow.id engine.worker_id 0 found es v.shared
      → (run ds show engine workflow bodies v).1.pushed ≡ v.pushed ++ (before ++ job ∷ after)
      → All (Occurs before) (jobs_of r)
      → (push_claim k job q).0 ≡ claimed (k.oneshot q.oneshots).0
  run-claimed es found v before after job r fits unended alone kept all own =
      let (jobs, pushed, _, differ) =
        run-KeysDiffer spec show engine workflow bodies one_each few es found v fits unended alone
          kept in
      let same : jobs ≡ before ++ job ∷ after = append-cancel v.pushed _ _ (sym pushed ∙ all) in
      (Reachable-claimed k b job r (
        All-weaker (KeysDiffer-before before job after (subst KeysDiffer same differ)) (jobs_of r)
          own)).1
