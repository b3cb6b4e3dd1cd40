-- ===== src/Engine/Trace/Tests.antt =====
-- src/engine.rs: the theorems on the traces at concrete inputs.
use agentq.Prelude.{
  ◌≤◌, ℕ, ◌≡◌, refl, List, [], ◌∷◌, ◌++◌, Option, none, some, ok, arith, pos, false,
}
use agentq.Text.{Text, codes}
use agentq.Event.{
  Event, workflow_started, step_started, step_completed, step_failed, retry_scheduled,
  workflow_completed,
}
use agentq.Job.{Job, Func, Outcome, medium}
use agentq.Workflow.{StepDef, Duration, Workflow, fixed}
use agentq.Sqlite.Connection.{SqliteStore, healthy}
use agentq.Sqlite.Lease.{sqlite_durable_store}
use agentq.Sqlite.Projection.History.{no_tables}
use agentq.Sqlite.Spec.{sqlite_view, sqlite_durable_store-StoreSpec}
use agentq.Engine.Replay.{workflow_has_terminal_event}
use agentq.Engine.State.{WorkflowEngine, Turn, World, handle, renewal, queued, cached, returned}
use agentq.Engine.Drive.{run}
use agentq.Engine.Trace.{whole_run}
use agentq.Engine.Trace.Stands.{Kept}
use agentq.Engine.Trace.Keys.{KeysDiffer, OfStepsFrom}
use agentq.Engine.Trace.Distinct.{run-KeysDiffer}
use agentq.Engine.Trace.Run.{running_of, run-whole_run}
use agentq.Engine.Trace.Success.{run-AllSucceed}
use agentq.Engine.Trace.Succeeds.{done, again, AllSucceed, no_step, step_then, outputs_of, numbered}

abbrev pub engine : WorkflowEngine
engine = record { worker_id = codes "worker-a"; lease_ttl = 300; priority = medium }

abbrev pub show : Duration → Text
show d = codes "1s"

abbrev pub step : StepDef
step = record {
  name = codes "fetch";
  retry_policy = record { max_attempts = 3; backoff = fixed 10 };
  timeout = none;
}

abbrev pub workflow : Workflow
workflow = record { id = codes "wf"; steps = step ∷ step ∷ [] }

abbrev pub bodies : List Func
bodies = 7 ∷ 8 ∷ []

-- The first step fails once, behind a renewal of its lease, and the queue has the second's output.
abbrev pub failing : Turn SqliteStore
failing = record {
  during_push = λ sh. sh;
  answer = ok queued;
  wakes =
      record { others = λ sh. sh; ready = renewal }
      ∷ record { others = λ sh. sh; ready = handle (ok (Outcome.failed (codes "boom"))) }
      ∷ [];
  during_sleep = λ d sh. sh;
}

abbrev pub completing : Turn SqliteStore
completing = record {
  during_push = λ sh. sh;
  answer = ok queued;
  wakes = record { others = λ sh. sh; ready = handle (ok (Outcome.completed (codes "out"))) } ∷ [];
  during_sleep = λ d sh. sh;
}

abbrev pub known : Turn SqliteStore
known = record {
  during_push = λ sh. sh;
  answer = ok (cached (codes "known"));
  wakes = [];
  during_sleep = λ d sh. sh;
}

abbrev pub turns : List (Turn SqliteStore)
turns = failing ∷ completing ∷ known ∷ []

abbrev pub world : World SqliteStore
world = record {
  shared = record { db = healthy no_tables (pos 1000); mounted = λ key. none };
  pushed = [];
  turns = turns;
}

whole_run_events :
    (whole_run show engine (codes "wf") (running_of workflow bodies) turns).events
    ≡ workflow_started (codes "wf")
      ∷ step_started (codes "wf") 0 0
      ∷ step_failed (codes "wf") 0 (codes "boom")
      ∷ retry_scheduled (codes "wf") 0 1
      ∷ step_started (codes "wf") 0 1
      ∷ step_completed (codes "wf") 0 (codes "out")
      ∷ step_started (codes "wf") 1 0
      ∷ step_completed (codes "wf") 1 (codes "known")
      ∷ workflow_completed (codes "wf")
      ∷ []
unfolding whole_run agentq.Engine.Reasons.parse_waiting_reason
    agentq.Engine.Reasons.parse_non_retryable_reason
whole_run_events = refl

pub empty_unended : workflow_has_terminal_event [] ≡ false
unfolding workflow_has_terminal_event
empty_unended = refl

pub world-Kept : Kept sqlite_view (codes "wf") (codes "worker-a") 0 none [] world.shared
unfolding agentq.Sqlite.Log.Load.decode_all agentq.Sqlite.Table.select_events
    agentq.Sqlite.Lease.Claim.answer agentq.Sqlite.Table.select_step
world-Kept = record {
  good = (refl, λ w. ([], refl));
  logged = refl;
  opened = λ j q. refl;
  mounted = refl;
}

turns_succeed : AllSucceed show workflow.steps turns (codes "out" ∷ codes "known" ∷ []) []
unfolding agentq.Engine.Trace.attempt_reply agentq.Engine.Reasons.parse_waiting_reason
    agentq.Engine.Reasons.parse_non_retryable_reason
turns_succeed =
    step_then step (step ∷ []) turns (known ∷ []) [] (codes "out") (codes "known" ∷ [])
      (again 0 failing (completing ∷ known ∷ []) (known ∷ []) (codes "boom") (codes "out") refl refl
        refl refl (done 1 completing (known ∷ []) (codes "out") refl))
      (step_then step [] (known ∷ []) [] [] (codes "known") []
        (done 0 known [] (codes "known") refl) (no_step []))

-- Each turn's tasks do nothing.
pub turns_alone :
    agentq.Prelude.All (agentq.Engine.Trace.Follows.TurnAlone sqlite_view engine (codes "wf")) turns
turns_alone = (
  (λ k f es v h. h, (λ k f es v h. h, (λ k f es v h. h, tt)), λ d k f es v h. h),
  (
    (λ k f es v h. h, (λ k f es v h. h, tt), λ d k f es v h. h),
    ((λ k f es v h. h, tt, λ d k f es v h. h), tt),
  ),
)

run-whole_run_example :
    (let tr = whole_run show engine (codes "wf") (running_of workflow bodies) turns in
      let (reply, v') = run sqlite_durable_store show engine workflow bodies world in
      (reply ≡ tr.reply)
      × (sqlite_view.log v'.shared.db (codes "wf") ≡ [] ++ tr.events)
      × (v'.pushed ≡ [] ++ tr.jobs)
      × (v'.turns ≡ tr.left)
      × (v'.shared.mounted (codes "wf") ≡ tr.found))
run-whole_run_example =
    run-whole_run sqlite_durable_store-StoreSpec show engine workflow bodies (omega arith)
      (omega arith) [] none world empty_unended turns_alone world-Kept

run-AllSucceed_example :
    (let (reply, v') = run sqlite_durable_store show engine workflow bodies world in
      (reply ≡ returned tt)
      × (v'.shared.mounted (codes "wf") ≡ none)
      × (v'.turns ≡ [])
      × ((before : List Event) × (sqlite_view.log v'.shared.db (codes "wf")
            ≡ before ++ workflow_completed (codes "wf") ∷ [])
          × (workflow_has_terminal_event before ≡ false)
          × (outputs_of before ≡ outputs_of [] ++ numbered 0 (codes "out" ∷ codes "known" ∷ []))))
run-AllSucceed_example =
    run-AllSucceed sqlite_durable_store-StoreSpec show engine workflow bodies [] none world
      (codes "out" ∷ codes "known" ∷ []) [] (omega arith) (omega arith) empty_unended turns_alone
      world-Kept turns_succeed

run-KeysDiffer_example :
    (jobs : List Job) × ((run sqlite_durable_store show engine workflow bodies world).1.pushed
      ≡ [] ++ jobs)
    × agentq.Prelude.All (OfStepsFrom (codes "wf") 0) jobs
    × KeysDiffer jobs
run-KeysDiffer_example =
    run-KeysDiffer sqlite_durable_store-StoreSpec show engine workflow bodies (omega arith)
      (omega arith) [] none world (omega arith, (omega arith, tt)) empty_unended turns_alone
      world-Kept
