-- ===== src/Job.antt =====
-- src/job.rs, src/handle.rs, src/error.rs and `State` of src/state.rs: jobs, outcomes and errors.
use agentq.Prelude.{ℕ, ◌++◌, Result, ok, err}
use agentq.Text.{Text, codes}

pub data Priority : Type 0 where
  low medium high : Priority

-- A closure is known by a number; what it returns is said by the step that runs it.
abbrev pub Func : Type 0
Func = ℕ

pub record Job : Type 0 where
  pub key : Text
  pub priority : Priority
  pub func : Func

pub data Outcome : Type 0 where
  completed : Text → Outcome
  failed : Text → Outcome

pub data State : Type 0 where
  pending : State
  processing : State
  completed : Text → State
  failed : Text → State

-- `impl From<&Outcome> for State`
unfoldable pub state_from : Outcome → State
state_from (Outcome.completed output) = State.completed output
state_from (Outcome.failed reason) = State.failed reason

pub data PushError : Type 0 where
  lane_closed : PushError

pub data JobLost : Type 0 where
  job_lost : JobLost

pub data WaitError : Type 0 where
  push : PushError → WaitError
  lost : JobLost → WaitError
  failed : Text → WaitError

unfoldable pub push_error_to_string : PushError → Text
push_error_to_string lane_closed = codes "lane is closed; no worker is running"

unfoldable pub job_lost_to_string : JobLost → Text
job_lost_to_string job_lost = codes "job outcome was lost; the worker ended without reporting"

unfoldable pub wait_error_to_string : WaitError → Text
wait_error_to_string (push e) = codes "could not queue the job: " ++ push_error_to_string e
wait_error_to_string (lost e) = job_lost_to_string e
wait_error_to_string (WaitError.failed reason) = codes "the job failed: " ++ reason

-- How the future of a job ends: its `JobResult`, with the error as its text, or a panic.
pub data JobEnd : Type 0 where
  returned : Result Text Text → JobEnd
  panicked : JobEnd

-- The outcome that the guard holds when it is dropped, with the default of `JobGuard::drop`.
unfoldable pub outcome_of : JobEnd → Outcome
outcome_of (returned (ok output)) = Outcome.completed output
outcome_of (returned (err reason)) = Outcome.failed reason
outcome_of panicked = Outcome.failed (codes "job panicked")
