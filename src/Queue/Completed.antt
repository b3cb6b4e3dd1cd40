-- ===== src/Queue/Completed.antt =====
-- A completed key keeps its output: no step of any task or push changes it.
use agentq.Prelude.{◌≡◌, refl, Option, none, some, arith}
use agentq.Text.{Text, text_eq_iff}
use agentq.Job.{Job, State}
use agentq.Tokio.{Tokio}
use agentq.Queue.{Queue, QueueBuilder, insert}
use agentq.Queue.Steps.{push_claim, claim_by}
use agentq.Queue.Steps.Counts.{is_pending, is_processing}
use agentq.Queue.Still.{take_step-Still}
use agentq.Queue.Run.{Step, take_step, Reachable}

module _ {C M H : Type 0} (k : Tokio C M H) (key output : Text) where
  abbrev Stored : Queue C M H → Type 0
  Stored q = q.statemap key ≡ some (State.completed output)

  claim_by-Stored :
      (job : Job) (q : Queue C M H) (st : Option State)
      → q.statemap job.key ≡ st
      → Stored q
      → Stored (claim_by k st job q).1
  unfolding claim_by insert
  claim_by-Stored job q none e v = ground (arith, text_eq_iff job.key key)
  claim_by-Stored job q (some State.pending) e v = v
  claim_by-Stored job q (some State.processing) e v = v
  claim_by-Stored job q (some (State.completed o)) e v = v
  claim_by-Stored job q (some (State.failed o)) e v = ground (arith, text_eq_iff job.key key)

  -- Once the state map of a reachable queue holds an output for a key, every step of any push, worker
  -- loop or task keeps it.
  pub take_step-Stored :
      (b : QueueBuilder) (s : Step) (q q' : Queue C M H)
      → Reachable k b q
      → take_step k s q ≡ some q'
      → q.statemap key ≡ some (State.completed output)
      → q'.statemap key ≡ some (State.completed output)
  unfolding push_claim is_pending is_processing
  take_step-Stored b s q q' r eq stored =
      take_step-Still k key (some (State.completed output)) refl refl b s q q' r eq
        (λ job _. claim_by-Stored job q (q.statemap job.key) refl stored) stored
