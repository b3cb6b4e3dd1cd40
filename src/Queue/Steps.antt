-- ===== src/Queue/Steps.antt =====
-- src/queue.rs, src/state.rs and src/worker.rs: the steps.
pub mod Counts
use agentq.Prelude.{ℕ, zero, suc, List, [], ◌∷◌, ◌++◌, Option, none, some, ◌>>=◌}
use agentq.Text.{Text}
use agentq.Job.{Job, State, pending, processing, Outcome, state_from, JobEnd, outcome_of, Priority}
use agentq.Tokio.{Tokio, Sent, accepted, full, closed}
use agentq.Queue.{
  Queue, Lane, Lanes, Claim, Task, Phase, spawned, running, recorded, insert, remove, add_waiter,
  or_default, lane_at, set_lane,
}

-- The element at a position, and the others.
unfoldable pub take_at : {A : Type 0} → ℕ → List A → Option (A × List A)
take_at n [] = none
take_at zero (x ∷ xs) = some (x, xs)
take_at (suc n) (x ∷ xs) = elim (take_at n xs) [ none ↦ none | some (y, ys) ↦ some (y, x ∷ ys) ]

-- What a push is answered at its claim: the output of the cache, the receiver of a job in flight,
-- or a claim of its own.
pub data ClaimAnswer : Type 0 where
  cached : Text → ClaimAnswer
  in_flight : ℕ → ClaimAnswer
  claimed : ℕ → ClaimAnswer

module _ {C M H : Type 0} (k : Tokio C M H) where
  -- A waiter for the key, with its receiver.
  unfoldable pub register : Text → Queue C M H → ℕ × Queue C M H
  register key q =
      let (id, oneshots) = k.oneshot q.oneshots in
      (id, record q { waiters = add_waiter key id q.waiters; oneshots = oneshots })

  -- The first critical section of `Queue::push`, by the key's state.
  unfoldable pub claim_by : Option State → Job → Queue C M H → ClaimAnswer × Queue C M H
  unfolding register
  claim_by (some (State.completed output)) job q = (cached output, q)
  claim_by (some State.pending) job q = let (id, q') = register job.key q in (in_flight id, q')
  claim_by (some State.processing) job q = let (id, q') = register job.key q in (in_flight id, q')
  claim_by _ job q =
      let (id, q') =
        register job.key (record q { statemap = insert job.key State.pending q.statemap }) in
      (claimed id, record q' { claims = q'.claims ++ record { job = job; receiver = id } ∷ [] })

  unfoldable pub push_claim : Job → Queue C M H → ClaimAnswer × Queue C M H
  unfolding claim_by
  push_claim job q = claim_by (q.statemap job.key) job q

  -- Every sender of a vector of waiters is dropped.
  unfoldable pub drop_senders : List ℕ → H → H
  drop_senders [] h = h
  drop_senders (s ∷ ss) h = drop_senders ss (k.drop_sender s h)

  -- `waiters.remove(&key)`, whose result is dropped.
  unfoldable pub forget_waiters : Text → Queue C M H → Queue C M H
  unfolding drop_senders
  forget_waiters key q = record q {
    waiters = remove key q.waiters;
    oneshots = drop_senders (or_default (q.waiters key)) q.oneshots;
  }

  -- The rest of `Queue::push`, with the claim out of the list, by the answer of the channel.
  unfoldable pub sent : Sent C → Claim → Queue C M H → Option (Queue C M H)
  unfolding forget_waiters
  sent (accepted c) claim q = some (record q {
    lanes =
        set_lane claim.job.priority (record (lane_at claim.job.priority q.lanes) { channel = c })
          q.lanes;
  })
  sent full claim q = none
  sent closed claim q = some (
      forget_waiters claim.job.key
        (record q { statemap = insert claim.job.key (State.failed k.send_error) q.statemap }))

  -- `sender.send(job).await` is polled for the claim at a position; a full lane leaves it waiting.
  unfoldable pub push_send : ℕ → Queue C M H → Option (Queue C M H)
  unfolding sent
  push_send n q = elim (take_at n q.claims) [
    | none ↦ none
    | some (claim, claims) ↦
        sent (k.send claim.job (lane_at claim.job.priority q.lanes).channel) claim
          (record q { claims = claims })
  ]

  -- A push whose future is dropped while it waits: `ClaimGuard::drop` while armed.
  unfoldable pub push_cancel : ℕ → Queue C M H → Option (Queue C M H)
  unfolding forget_waiters
  push_cancel n q = elim (take_at n q.claims) [
    | none ↦ none
    | some (claim, claims) ↦ some (
        forget_waiters claim.job.key
          (record q { claims = claims; statemap = remove claim.job.key q.statemap }))
  ]

  unfoldable pub receive_into : Priority → Option Job → Queue C M H → Option (Queue C M H)
  receive_into p (some job) q = none
  receive_into p none q = elim (k.recv (lane_at p q.lanes).channel) [
    | none ↦ none
    | some (job, c) ↦ some (record q {
      lanes = set_lane p (record (lane_at p q.lanes) { channel = c; held = some job }) q.lanes;
    })
  ]

  -- The worker's `receiver.recv().await`.
  unfoldable pub worker_recv : Priority → Queue C M H → Option (Queue C M H)
  unfolding receive_into
  worker_recv p q = receive_into p (lane_at p q.lanes).held q

  unfoldable pub spawn_held : Priority → Option Job → Queue C M H → Option (Queue C M H)
  spawn_held p none q = none
  spawn_held p (some job) q = elim (k.acquire (lane_at p q.lanes).semaphore) [
    | none ↦ none
    | some m ↦ some (record q {
      lanes = set_lane p (record (lane_at p q.lanes) { semaphore = m; held = none }) q.lanes;
      tasks = q.tasks ++ record { job = job; lane = p; phase = spawned } ∷ [];
    })
  ]

  -- The worker's `acquire_owned().await` for the job that it holds, and the spawn of its task.
  unfoldable pub worker_spawn : Priority → Queue C M H → Option (Queue C M H)
  unfolding spawn_held
  worker_spawn p q = spawn_held p (lane_at p q.lanes).held q

  unfoldable pub start_task : Phase → Task → List Task → Queue C M H → Option (Queue C M H)
  start_task spawned task tasks q = some (record q {
    statemap = insert task.job.key State.processing q.statemap;
    tasks = tasks ++ record task { phase = running } ∷ [];
  })
  start_task _ task tasks q = none

  -- A task writes `Processing` and makes its guard.
  unfoldable pub task_start : ℕ → Queue C M H → Option (Queue C M H)
  unfolding start_task
  task_start n q = elim (take_at n q.tasks) [
    | none ↦ none
    | some (task, tasks) ↦ start_task task.phase task tasks q
  ]

  unfoldable pub record_task :
      Phase → Task → Outcome → List Task → Queue C M H → Option (Queue C M H)
  record_task running task outcome tasks q = some (record q {
    statemap = insert task.job.key (state_from outcome) q.statemap;
    tasks = tasks ++ record task { phase = recorded outcome } ∷ [];
  })
  record_task _ task outcome tasks q = none

  -- The job's future ends, and `JobGuard::drop` writes the state under its first lock.
  unfoldable pub task_record : ℕ → JobEnd → Queue C M H → Option (Queue C M H)
  unfolding record_task
  task_record n end q = elim (take_at n q.tasks) [
    | none ↦ none
    | some (task, tasks) ↦ record_task task.phase task (outcome_of end) tasks q
  ]

  -- `for sender in senders { let _ = sender.send(outcome.clone()); }`
  unfoldable pub resolve_all : List ℕ → Outcome → H → H
  resolve_all [] o h = h
  resolve_all (s ∷ ss) o h = resolve_all ss o (k.resolve s o h)

  unfoldable pub notify_task : Phase → Task → List Task → Queue C M H → Option (Queue C M H)
  unfolding resolve_all
  notify_task (recorded outcome) task tasks q = some (record q {
    waiters = remove task.job.key q.waiters;
    oneshots = resolve_all (or_default (q.waiters task.job.key)) outcome q.oneshots;
    tasks = tasks;
    lanes =
        set_lane task.lane
          (record (lane_at task.lane q.lanes) {
            semaphore = k.release (lane_at task.lane q.lanes).semaphore;
          })
          q.lanes;
  })
  notify_task _ task tasks q = none

  -- `JobGuard::drop` takes the waiters under its second lock and sends to each behind it; then the
  -- task ends and its permit is dropped. These are one step here: no other step has the senders that
  -- were taken.
  unfoldable pub task_notify : ℕ → Queue C M H → Option (Queue C M H)
  unfolding notify_task
  task_notify n q = elim (take_at n q.tasks) [
    | none ↦ none
    | some (task, tasks) ↦ notify_task task.phase task tasks q
  ]
