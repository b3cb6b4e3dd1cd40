-- ===== src/Engine/Tests.antt =====
-- src/engine.rs and src/recovery.rs: the theorems on the engine at concrete inputs.
use agentq.Prelude.{
  ℕ, ◌*◌, ◌^◌, ◌-◌, ◌≤◌, ◌≡◌, refl, min, true, List, [], ◌∷◌, ◌++◌, none, some, ok, ◌↔◌, arith, pos,
  suc,
}
use agentq.Text.{Text, codes}
use agentq.Job.{Func, Outcome, medium}
use agentq.Workflow.{exponential, fixed, StepDef, Workflow, Duration}
use agentq.Queue.{Map}
use agentq.Sqlite.Connection.{SqliteStore}
use agentq.Sqlite.Lease.{sqlite_durable_store}
use agentq.Sqlite.Projection.History.{no_tables}
use agentq.Engine.Backoff.{backoff_duration, backoff_duration-exponential}
use agentq.Engine.Reasons.{
  parse_waiting_reason, parse_non_retryable_reason, wait_for_input_to_string,
  non_retryable_to_string, parse_waiting_reason_iff,
}
use agentq.Engine.Key.{job_key, job_key-injective}
use agentq.Engine.State.{WorkflowEngine, RunningWorkflow, Turn, World, handle, renewal, queued}
use agentq.Engine.Step.{run_step}
use agentq.Engine.Drive.{run, resume, cancel, recover}
use agentq.Engine.Mounted.{InOrder, Safe, WellMounted}
use agentq.Engine.Mounted.Methods.{engine-Safe}
use agentq.Engine.Jobs.Bounded.{attempt_jobs, run_step-jobs}
use agentq.Engine.Returns.{IsSettled, is_answered, run_step-IsSettled}
use agentq.Engine.Cancel.{world_of}

backoff_duration-exponential_example :
    backoff_duration (record { max_attempts = 5; backoff = exponential 100 1000 }) 2
    ≡ min (100 * 2 ^ 2) 1000
backoff_duration-exponential_example = backoff_duration-exponential 5 2 100 1000 (omega arith)

abbrev approval : Text
approval = codes "agentq:wait:approval"

parse_waiting_reason_iff_example :
    ((parse_waiting_reason approval ≡ some (codes "approval"))
      ↔ (approval ≡ wait_for_input_to_string (codes "approval")))
    × ((parse_non_retryable_reason approval ≡ some (codes "approval"))
        ↔ (approval ≡ non_retryable_to_string (codes "approval")))
    × (parse_waiting_reason (non_retryable_to_string (codes "approval")) ≡ none)
parse_waiting_reason_iff_example = parse_waiting_reason_iff approval (codes "approval")

job_key_colon : job_key (codes "a:1") 2 3 ≡ codes "a:1:2:3"
unfolding job_key agentq.Text.Decimal.decimal
job_key_colon = refl

job_key-injective_example : (codes "a:1" ≡ codes "a:1") × ◌≡◌ {A = ℕ} 2 2 × ◌≡◌ {A = ℕ} 3 3
job_key-injective_example = job_key-injective (codes "a:1") (codes "a:1") 2 2 3 3 refl

abbrev pub wf : Text
wf = codes "wf"

abbrev pub engine : WorkflowEngine
engine = record { worker_id = codes "worker-a"; lease_ttl = 300; priority = medium }

abbrev pub show : Duration → Text
show d = codes "1s"

abbrev pub step : StepDef
step = record {
  name = codes "fetch";
  retry_policy = record { max_attempts = 3; backoff = fixed 10 };
  timeout = none;
}

-- A turn whose job fails behind one renewal of the lease.
abbrev pub failing : Turn SqliteStore
failing = record {
  during_push = λ sh. sh;
  answer = ok queued;
  wakes =
      record { others = λ sh. sh; ready = renewal }
      ∷ record { others = λ sh. sh; ready = handle (ok (Outcome.failed (codes "boom"))) }
      ∷ [];
  during_sleep = λ d sh. sh;
}

abbrev pub mounted : Map RunningWorkflow
mounted key = none

abbrev world : World SqliteStore
world = world_of show engine (pos 1000) [] (failing ∷ failing ∷ failing ∷ []) no_tables mounted

run_step-jobs_example :
    (k : ℕ) × (k ≤ suc (3 - 1))
    × ((run_step sqlite_durable_store show engine wf 0 step 7 0 world).1.pushed
        ≡ [] ++ attempt_jobs sqlite_durable_store show engine wf 0 step 7 0 k)
run_step-jobs_example =
    run_step-jobs sqlite_durable_store show engine wf 0 step 7 0 world (omega arith) (omega arith)

failing_answered : is_answered failing ≡ true
unfolding is_answered
failing_answered = refl

run_step-IsSettled_example :
    IsSettled (run_step sqlite_durable_store show engine wf 0 step 7 0 world).0
run_step-IsSettled_example =
    run_step-IsSettled sqlite_durable_store show engine wf 0 step 7 0 world (omega arith)
      (omega arith) (failing_answered, (failing_answered, (failing_answered, tt))) (omega arith)

world-InOrder : InOrder world
unfolding InOrder WellMounted
world-InOrder = (
  λ key running e. cc,
  (
    (λ sh h. h, λ d sh h. h, (λ sh h. h, (λ sh h. h, tt))),
    (
      (λ sh h. h, λ d sh h. h, (λ sh h. h, (λ sh h. h, tt))),
      ((λ sh h. h, λ d sh h. h, (λ sh h. h, (λ sh h. h, tt))), tt),
    ),
  ),
)

engine-Safe_example :
    ((workflow : Workflow) (bodies : List Func)
      → Safe
          (run sqlite_durable_store show engine workflow bodies world).0
          (run sqlite_durable_store show engine workflow bodies world).1)
    × ((workflow_id : Text) (i : ℕ) (input : Text)
        → Safe
            (resume sqlite_durable_store show engine workflow_id i input world).0
            (resume sqlite_durable_store show engine workflow_id i input world).1)
    × ((workflow_id reason : Text)
        → Safe
            (cancel sqlite_durable_store show engine workflow_id reason world).0
            (cancel sqlite_durable_store show engine workflow_id reason world).1)
    × Safe
        (recover sqlite_durable_store show engine world).0
        (recover sqlite_durable_store show engine world).1
engine-Safe_example = engine-Safe sqlite_durable_store show engine world world-InOrder
