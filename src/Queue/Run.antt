-- ===== src/Queue/Run.antt =====
-- The steps of the queue as one alphabet, and its runs.
use agentq.Prelude.{ℕ, ◌≡◌, Option, some}
use agentq.Job.{Job, JobEnd, Priority}
use agentq.Tokio.{Tokio}
use agentq.Queue.{Queue, QueueBuilder, start}
use agentq.Queue.Steps.{
  push_claim, push_send, push_cancel, worker_recv, worker_spawn, task_start, task_record,
  task_notify,
}

pub data Step : Type 0 where
  claim : Job → Step
  send cancel : ℕ → Step
  recv spawn : Priority → Step
  begin : ℕ → Step
  finish : ℕ → JobEnd → Step
  notify : ℕ → Step

module _ {C M H : Type 0} (k : Tokio C M H) where
  unfoldable pub take_step : Step → Queue C M H → Option (Queue C M H)
  take_step (claim job) q = some (push_claim k job q).1
  take_step (send n) q = push_send k n q
  take_step (cancel n) q = push_cancel k n q
  take_step (recv p) q = worker_recv k p q
  take_step (spawn p) q = worker_spawn k p q
  take_step (begin n) q = task_start k n q
  take_step (finish n end) q = task_record k n end q
  take_step (notify n) q = task_notify k n q

-- The queues that some interleaving of the steps reaches from the start.
pub data Reachable {C M H : Type 0} (k : Tokio C M H) (b : QueueBuilder)
    : Queue C M H → Type 0 where
  started : Reachable k b (start k b)
  stepped :
      {q q' : Queue C M H} (s : Step)
      → Reachable k b q
      → take_step k s q ≡ some q'
      → Reachable k b q'
