-- ===== src/Engine/Trace/StoreTests.antt =====
-- src/engine.rs: the same run on two stores, at a concrete input.
use agentq.Prelude.{◌≡◌, refl, List, [], ◌∷◌, ◌++◌, none, ok, arith, pos, All}
use agentq.Text.{codes}
use agentq.Event.{Event}
use agentq.Job.{Job, Outcome}
use agentq.Sqlite.Lease.{sqlite_durable_store}
use agentq.Sqlite.Spec.{sqlite_view, sqlite_durable_store-StoreSpec}
use agentq.Mem.{MemStore, mem_durable_store}
use agentq.Mem.Spec.{mem_view, mem_durable_store-StoreSpec}
use agentq.Engine.State.{Turn, World, handle, renewal, queued, cached}
use agentq.Engine.Drive.{run}
use agentq.Engine.Trace.Stands.{Kept}
use agentq.Engine.Trace.Follows.{TurnAlone}
use agentq.Engine.Trace.Alike.{AnswersAlike, run-run}
use agentq.Engine.Trace.Tests.{
  engine, show, workflow, bodies, world, turns_alone, empty_unended, world-Kept,
}

abbrev failing : Turn MemStore
failing = record {
  during_push = λ sh. sh;
  answer = ok queued;
  wakes =
      record { others = λ sh. sh; ready = renewal }
      ∷ record { others = λ sh. sh; ready = handle (ok (Outcome.failed (codes "boom"))) }
      ∷ [];
  during_sleep = λ d sh. sh;
}

abbrev completing : Turn MemStore
completing = record {
  during_push = λ sh. sh;
  answer = ok queued;
  wakes = record { others = λ sh. sh; ready = handle (ok (Outcome.completed (codes "out"))) } ∷ [];
  during_sleep = λ d sh. sh;
}

abbrev known : Turn MemStore
known = record {
  during_push = λ sh. sh;
  answer = ok (cached (codes "known"));
  wakes = [];
  during_sleep = λ d sh. sh;
}

abbrev mem_world : World MemStore
mem_world = record {
  shared = record { db = record { events = []; steps = []; clock = pos 7 }; mounted = λ key. none };
  pushed = [];
  turns = failing ∷ completing ∷ known ∷ [];
}

mem_world-Kept : Kept mem_view (codes "wf") (codes "worker-a") 0 none [] mem_world.shared
unfolding agentq.Mem.events_of agentq.Mem.claim_answer agentq.Mem.get
mem_world-Kept = record { good = tt; logged = refl; opened = λ j q. refl; mounted = refl }

mem_turns_alone : All (TurnAlone mem_view engine (codes "wf")) mem_world.turns
mem_turns_alone = (
  (λ k f es v h. h, (λ k f es v h. h, (λ k f es v h. h, tt)), λ d k f es v h. h),
  (
    (λ k f es v h. h, (λ k f es v h. h, tt), λ d k f es v h. h),
    ((λ k f es v h. h, tt, λ d k f es v h. h), tt),
  ),
)

run-run_example :
    (added : List Event) × (jobs : List Job) × (let (reply, v') =
        run sqlite_durable_store show engine workflow bodies world in
      let (reply', u') = run mem_durable_store show engine workflow bodies mem_world in
      (reply ≡ reply')
      × (sqlite_view.log v'.shared.db (codes "wf") ≡ [] ++ added)
      × (mem_view.log u'.shared.db (codes "wf") ≡ [] ++ added)
      × (v'.pushed ≡ [] ++ jobs)
      × (u'.pushed ≡ [] ++ jobs)
      × AnswersAlike v'.turns u'.turns
      × (v'.shared.mounted (codes "wf") ≡ u'.shared.mounted (codes "wf")))
run-run_example =
    run-run sqlite_durable_store-StoreSpec mem_durable_store-StoreSpec show engine workflow bodies
      (omega arith) (omega arith) [] [] none none world mem_world empty_unended empty_unended
      turns_alone mem_turns_alone world-Kept mem_world-Kept refl
