-- ===== src/Event.antt =====
-- src/event.rs: the log's events and the answer to a claim.
use agentq.Prelude.{ℕ}
use agentq.Text.{Text}

pub data Event : Type 0 where
  workflow_started : Text → Event
  step_started : Text → ℕ → ℕ → Event
  step_completed : Text → ℕ → Text → Event
  step_failed : Text → ℕ → Text → Event
  retry_scheduled : Text → ℕ → ℕ → Event
  step_waiting : Text → ℕ → Text → Event
  step_resumed : Text → ℕ → Text → Event
  workflow_completed : Text → Event
  workflow_failed : Text → Text → Event
  workflow_cancelled : Text → Text → Event
  worker_recovered : Text → ℕ → Event

pub data ClaimResult : Type 0 where
  claimed : ClaimResult
  already_completed : Text → ClaimResult
  held_by_other : ClaimResult
  already_waiting : ClaimResult
