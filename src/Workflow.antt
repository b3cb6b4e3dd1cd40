-- ===== src/Workflow.antt =====
-- src/workflow.rs: the definition of a workflow and the state of its steps.
-- `Duration` is a number of nanoseconds, `SystemTime` one of nanoseconds since the Unix epoch.
use agentq.Prelude.{ℕ, List, Option, ◌*◌, ◌-◌, ◌^◌, ℤ}
use agentq.Text.{Text}

abbrev pub Duration : Type 0
Duration = ℕ

-- `Duration::MAX`: 2^64 - 1 seconds and 999,999,999 nanoseconds.
abbrev pub duration_max : ℕ
duration_max = 2 ^ 64 * 1_000_000_000 - 1

abbrev pub SystemTime : Type 0
SystemTime = ℤ

pub data Backoff : Type 0 where
  fixed : Duration → Backoff
  exponential : Duration → Duration → Backoff

pub record RetryPolicy : Type 0 where
  pub max_attempts : ℕ
  pub backoff : Backoff

pub record StepDef : Type 0 where
  pub name : Text
  pub retry_policy : RetryPolicy
  pub timeout : Option Duration

pub data StepStatus : Type 0 where
  pending : StepStatus
  leased : Text → SystemTime → StepStatus
  completed : Text → StepStatus
  failed : Text → ℕ → StepStatus
  waiting : Text → StepStatus

pub record Workflow : Type 0 where
  pub id : Text
  pub steps : List StepDef

pub record Execution : Type 0 where
  pub workflow_id : Text
  pub step_index : ℕ
  pub attempt : ℕ
  pub worker_id : Text
  pub lease_expires_at : SystemTime
