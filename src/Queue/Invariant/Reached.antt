-- ===== src/Queue/Invariant/Reached.antt =====
-- The invariant of the queue holds in every reachable queue.
use agentq.Prelude.{
  ℕ, ◌+◌, ◌≡◌, refl, List, [], ◌∷◌, ◌++◌, some, arith, Option-cases, inl, inr, subst,
}
use agentq.Text.{Text, text_eq_iff}
use agentq.Job.{Outcome, state_from, outcome_of}
use agentq.Tokio.{Tokio}
use agentq.Queue.{
  Queue, QueueBuilder, Task, Phase, spawned, running, recorded, insert, lane_at, start,
}
use agentq.Queue.Steps.{
  take_at, push_claim, task_start, task_record, task_notify, start_task, record_task, notify_task,
}
use agentq.Queue.Steps.Counts.{
  total, total-snoc, total-take_at, hit, hit_held, hit_spawned, hit_running, is_pending,
  is_processing, lane_jobs, lanes_jobs, waiting_jobs, running_jobs, lanes_jobs-set_lane,
}
use agentq.Queue.Run.{
  Step, claim, send, cancel, recv, spawn, begin, finish, notify, take_step, Reachable, started,
  stepped,
}
use agentq.Queue.Invariant.{
  push_claim-OneHolder, push_send-OneHolder, push_cancel-OneHolder, worker_recv-OneHolder,
  worker_spawn-OneHolder, OneHolder,
}

module _ {C M H : Type 0} (k : Tokio C M H) where
  module _ (n : ℕ) (q q' : Queue C M H) (key : Text) (t : Task) (ts : List Task)
      (e : take_at n q.tasks ≡ some (t, ts)) where
    task_weights :
        (total (λ (x : Task). hit_spawned key x.phase x.job) q.tasks
          ≡ hit_spawned key t.phase t.job + total (λ (x : Task). hit_spawned key x.phase x.job) ts)
        × (total (λ (x : Task). hit_running key x.phase x.job) q.tasks
            ≡ hit_running key t.phase t.job
              + total (λ (x : Task). hit_running key x.phase x.job) ts)
    task_weights = (
      total-take_at (λ (x : Task). hit_spawned key x.phase x.job) n q.tasks t ts e,
      total-take_at (λ (x : Task). hit_running key x.phase x.job) n q.tasks t ts e,
    )

    snoc_spawned :
        (ph : Phase)
        → total (λ (x : Task). hit_spawned key x.phase x.job) (ts ++ record t { phase = ph } ∷ [])
          ≡ total (λ (x : Task). hit_spawned key x.phase x.job) ts + hit_spawned key ph t.job
    snoc_spawned ph =
        total-snoc (λ (x : Task). hit_spawned key x.phase x.job) ts (record t { phase = ph })

    snoc_running :
        (ph : Phase)
        → total (λ (x : Task). hit_running key x.phase x.job) (ts ++ record t { phase = ph } ∷ [])
          ≡ total (λ (x : Task). hit_running key x.phase x.job) ts + hit_running key ph t.job
    snoc_running ph =
        total-snoc (λ (x : Task). hit_running key x.phase x.job) ts (record t { phase = ph })

    start_task-OneHolder :
        (ph : Phase)
        → t.phase ≡ ph
        → start_task k ph t ts q ≡ some q'
        → OneHolder k q key
        → OneHolder k q' key
    unfolding start_task waiting_jobs running_jobs is_pending is_processing insert hit_spawned
        hit_running hit
    start_task-OneHolder spawned ep eq v =
        ground (
          arith,
          task_weights,
          snoc_spawned running,
          snoc_running running,
          text_eq_iff t.job.key key,
        )
    start_task-OneHolder running ep eq v = cc
    start_task-OneHolder (recorded o) ep eq v = cc

    record_task-OneHolder :
        (ph : Phase) (o : Outcome)
        → t.phase ≡ ph
        → record_task k ph t o ts q ≡ some q'
        → OneHolder k q key
        → OneHolder k q' key
    unfolding record_task waiting_jobs running_jobs is_pending is_processing insert hit_spawned
        hit_running hit state_from
    record_task-OneHolder running o ep eq v = ground (
      arith,
      task_weights,
      snoc_spawned (recorded o),
      snoc_running (recorded o),
      text_eq_iff t.job.key key,
    )
    record_task-OneHolder spawned o ep eq v = cc
    record_task-OneHolder (recorded o') o ep eq v = cc

    notify_task-OneHolder :
        (ph : Phase)
        → t.phase ≡ ph
        → notify_task k ph t ts q ≡ some q'
        → OneHolder k q key
        → OneHolder k q' key
    unfolding notify_task waiting_jobs running_jobs lane_jobs hit_spawned hit_running
    notify_task-OneHolder (recorded o) ep eq v =
        let l = lane_at t.lane q.lanes in
        ground (
          arith,
          task_weights,
          lanes_jobs-set_lane k key t.lane (record l { semaphore = k.release l.semaphore }) q.lanes,
        )
    notify_task-OneHolder running ep eq v = cc
    notify_task-OneHolder spawned ep eq v = cc

  -- Every step keeps it.
  take_step-OneHolder :
      (s : Step) (q q' : Queue C M H) (key : Text)
      → take_step k s q ≡ some q'
      → OneHolder k q key
      → OneHolder k q' key
  unfolding take_step
  take_step-OneHolder (claim job) q q' key eq v =
      let e : (push_claim k job q).1 ≡ q' = cc eq in
      subst (λ x. OneHolder k x key) e (push_claim-OneHolder k job q key v)
  take_step-OneHolder (send n) q q' key eq v = push_send-OneHolder k n q q' key eq v
  take_step-OneHolder (cancel n) q q' key eq v = push_cancel-OneHolder k n q q' key eq v
  take_step-OneHolder (recv p) q q' key eq v = worker_recv-OneHolder k p q q' key eq v
  take_step-OneHolder (spawn p) q q' key eq v = worker_spawn-OneHolder k p q q' key eq v
  take_step-OneHolder (begin n) q q' key eq v = elim (Option-cases (take_at n q.tasks)) [
    | inl e ↦ absurd (unfold task_start in ground arith)
    | inr ((t, ts), e) ↦
        start_task-OneHolder n q q' key t ts e t.phase refl
          (unfold task_start in rw (e, task_start) at eq) v
  ]
  take_step-OneHolder (finish n end) q q' key eq v = elim (Option-cases (take_at n q.tasks)) [
    | inl e ↦ absurd (unfold task_record in ground arith)
    | inr ((t, ts), e) ↦
        record_task-OneHolder n q q' key t ts e t.phase (outcome_of end) refl
          (unfold task_record in rw (e, task_record) at eq) v
  ]
  take_step-OneHolder (notify n) q q' key eq v = elim (Option-cases (take_at n q.tasks)) [
    | inl e ↦ absurd (unfold task_notify in ground arith)
    | inr ((t, ts), e) ↦
        notify_task-OneHolder n q q' key t ts e t.phase refl
          (unfold task_notify in rw (e, task_notify) at eq) v
  ]

  start-OneHolder : (b : QueueBuilder) (key : Text) → OneHolder k (start k b) key
  unfolding start waiting_jobs running_jobs is_pending is_processing lanes_jobs lane_jobs hit_held
      total
  start-OneHolder b key = ground (
    arith,
    k.contents-channel b.low.capacity,
    k.contents-channel b.medium.capacity,
    k.contents-channel b.high.capacity,
  )

  -- In every queue that any interleaving of pushes, cancelled pushes, worker loops and tasks
  -- reaches, a key is `Pending` exactly while one job with it is claimed, sent, received or
  -- spawned, it is `Processing` exactly while one job with it runs, and in no other state does such
  -- a job exist.
  pub Reachable-OneHolder :
      (b : QueueBuilder) {q : Queue C M H} (key : Text) → Reachable k b q → OneHolder k q key
  Reachable-OneHolder b key started = start-OneHolder b key
  Reachable-OneHolder b key (stepped s r eq) =
      take_step-OneHolder s _ _ key eq (Reachable-OneHolder b key r)
