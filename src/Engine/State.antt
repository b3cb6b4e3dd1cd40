-- ===== src/Engine/State.antt =====
-- src/engine.rs: the engine's data, and its methods as programs over a world.
-- A method is `async`: where it awaits, the other tasks run. What they do to the store and to the
-- mounted workflows, and how the queue answers, is written on the turns of the world; between two
-- awaits nothing else runs, as on a current-thread runtime. Which futures are ready when is an
-- argument, so a theorem holds for every schedule of this kind.
use agentq.Prelude.{List, ◌++◌, Option, Result, ok, err}
use agentq.Text.{Text, codes}
use agentq.Job.{
  Job, Func, Priority, Outcome, PushError, push_error_to_string, JobLost, job_lost_to_string,
}
use agentq.Workflow.{Duration, StepDef}
use agentq.Store.{StoreError, store_error_to_string, StoreM}
use agentq.Queue.{Map, insert, remove}

pub record RunningWorkflow : Type 0 where
  pub steps : List StepDef
  pub bodies : List Func

pub data StepOutcome : Type 0 where
  completed waiting : StepOutcome

pub data EngineError : Type 0 where
  store : StoreError → EngineError
  push : PushError → EngineError
  job_lost : JobLost → EngineError
  workflow_failed : Text → EngineError

-- `Display`
unfoldable pub engine_error_to_string : EngineError → Text
engine_error_to_string (store e) = store_error_to_string e
engine_error_to_string (push e) = push_error_to_string e
engine_error_to_string (EngineError.job_lost e) = job_lost_to_string e
engine_error_to_string (workflow_failed reason) = codes "workflow failed: " ++ reason

-- The fields of `WorkflowEngine` that do not change; the queue is behind the turns of the world.
pub record WorkflowEngine : Type 0 where
  pub worker_id : Text
  pub lease_ttl : Duration
  pub priority : Priority

-- What the tasks of the process share: the store and `in_flight`.
pub record Shared (S : Type 0) : Type 0 where
  pub db : S
  pub mounted : Map RunningWorkflow

-- The futures of a `select!` of which one is ready: the job's handle, the deadline, the renewal.
pub data Ready : Type 0 where
  handle : Result JobLost Outcome → Ready
  deadline : Ready
  renewal : Ready

pub data Accepted : Type 0 where
  queued in_flight : Accepted
  cached : Text → Accepted

-- A wake of the wait for a job: what the other tasks did meanwhile, and what is ready.
pub record Wake (S : Type 0) : Type 0 where
  pub others : Shared S → Shared S
  pub ready : Ready

-- An attempt's awaits: its push, the wakes of its wait, and its sleep before the next attempt.
pub record Turn (S : Type 0) : Type 0 where
  pub during_push : Shared S → Shared S
  pub answer : Result PushError Accepted
  pub wakes : List (Wake S)
  pub during_sleep : Duration → Shared S → Shared S

-- The jobs that were pushed, oldest first, and the turns to come.
pub record World (S : Type 0) : Type 0 where
  pub shared : Shared S
  pub pushed : List Job
  pub turns : List (Turn S)

-- A method returns, fails, panics at an index out of bounds, or awaits something that no turn of
-- the world answers.
pub data Reply (A : Type 0) : Type 0 where
  returned : A → Reply A
  failed : EngineError → Reply A
  panicked : Reply A
  blocked : Reply A

abbrev pub Async : Type 0 → Type 0 → Type 0
Async S A = World S → Reply A × World S

unfoldable pub store_reply : {A : Type 0} → Result StoreError A → Reply A
store_reply (ok a) = returned a
store_reply (err e) = failed (store e)

module _ {S : Type 0} where
  abbrev pub pure : {A : Type 0} → A → Async S A
  pure a w = (returned a, w)

  abbrev pub fail : {A : Type 0} → EngineError → Async S A
  fail e w = (failed e, w)

  abbrev pub continue : {A B : Type 0} → Reply A → (A → Async S B) → Async S B
  continue (returned a) f w = f a w
  continue (failed e) f w = (failed e, w)
  continue panicked f w = (panicked, w)
  continue blocked f w = (blocked, w)

  infixl 5 ◌>>=◌ ◌>>◌
  abbrev pub ◌>>=◌ : {A B : Type 0} → Async S A → (A → Async S B) → Async S B
  ◌>>=◌ m f w = continue (m w).0 f (m w).1

  abbrev pub ◌>>◌ : {A B : Type 0} → Async S A → Async S B → Async S B
  m >> k = m >>= λ _. k

  -- `self.store.method(..)?`
  unfoldable pub call_store : {A : Type 0} → StoreM S A → Async S A
  unfolding store_reply
  call_store m w =
      let r = m w.shared.db in (store_reply r.0, record w { shared = record w.shared { db = r.1 } })

  -- The other tasks run.
  unfoldable pub yield_to : (Shared S → Shared S) → Async S (Unit {0})
  yield_to others w = (returned tt, record w { shared = others w.shared })

  -- `self.in_flight.lock()` and `get`, `insert` and `remove` of the workflow
  unfoldable pub get_mounted : Text → Async S (Option RunningWorkflow)
  get_mounted workflow_id w = (returned (w.shared.mounted workflow_id), w)

  unfoldable pub mount : Text → RunningWorkflow → Async S (Unit {0})
  unfolding insert
  mount workflow_id running w = (
    returned tt,
    record w { shared = record w.shared { mounted = insert workflow_id running w.shared.mounted } },
  )

  unfoldable pub drop_from_in_flight : Text → Async S (Unit {0})
  unfolding remove
  drop_from_in_flight workflow_id w = (
    returned tt,
    record w { shared = record w.shared { mounted = remove workflow_id w.shared.mounted } },
  )
