-- ===== src/Engine/Trace/QueueTests.antt =====
-- src/engine.rs and src/queue.rs: a run on a queue of its own, at a concrete input.
use agentq.Prelude.{ℕ, ◌≡◌, refl, ◌∙◌, [], ◌∷◌, ◌++◌, none, All, arith}
use agentq.Text.{codes}
use agentq.Job.{Job, medium}
use agentq.Sqlite.Lease.{sqlite_durable_store}
use agentq.Sqlite.Spec.{sqlite_durable_store-StoreSpec}
use agentq.Tokio.Lists.{ListChannel, Slots, list_tokio}
use agentq.Queue.{Queue, builder, start}
use agentq.Queue.Steps.{push_claim, claimed}
use agentq.Queue.Run.{claim, take_step, Reachable, started, stepped}
use agentq.Queue.Fresh.{jobs_of, given}
use agentq.Engine.Drive.{run}
use agentq.Engine.Trace.{whole_run}
use agentq.Engine.Trace.Run.{running_of, run-whole_run}
use agentq.Engine.Trace.Claimed.{Occurs, run-claimed}
use agentq.Engine.Trace.Tests.{
  engine, show, workflow, bodies, world, turns, turns_alone, empty_unended, world-Kept,
}

abbrev first : Job
first = record { key = codes "wf:0:0"; priority = medium; func = 7 }

abbrev second : Job
second = record { key = codes "wf:0:1"; priority = medium; func = 7 }

abbrev third : Job
third = record { key = codes "wf:1:0"; priority = medium; func = 8 }

trace_jobs :
    (whole_run show engine (codes "wf") (running_of workflow bodies) turns).jobs
    ≡ first ∷ second ∷ third ∷ []
unfolding whole_run agentq.Engine.Reasons.parse_waiting_reason
    agentq.Engine.Reasons.parse_non_retryable_reason
trace_jobs = refl

world_pushed :
    (run sqlite_durable_store show engine workflow bodies world).1.pushed
    ≡ [] ++ (first ∷ []) ++ second ∷ third ∷ []
world_pushed =
    (run-whole_run sqlite_durable_store-StoreSpec show engine workflow bodies (omega arith)
      (omega arith) [] none world empty_unended turns_alone world-Kept).2
    ∙ trace_jobs

abbrev q1 : Queue ListChannel ℕ Slots
q1 = (push_claim list_tokio first (start list_tokio builder)).1

abbrev q1-Reachable : Reachable list_tokio builder q1
q1-Reachable = stepped {q' = q1} (claim first) started (unfold take_step in refl)

q1-earlier : All (Occurs (first ∷ [])) (jobs_of q1-Reachable)
unfolding jobs_of given
q1-earlier = ((0, refl), tt)

run-claimed_example :
    (push_claim list_tokio second q1).0 ≡ claimed (list_tokio.oneshot q1.oneshots).0
run-claimed_example =
    run-claimed sqlite_durable_store-StoreSpec show engine workflow bodies (omega arith)
      (omega arith) list_tokio builder [] none world (first ∷ []) (third ∷ []) second q1-Reachable
      (omega arith, (omega arith, tt)) empty_unended turns_alone world-Kept world_pushed q1-earlier
