-- ===== src/Queue/Invariant.antt =====
-- A key is claimed at most once: what the state map says of it is what the queue holds of it.
pub mod Reached
use agentq.Prelude.{
  ℕ, ◌+◌, ◌≡◌, refl, List, [], ◌∷◌, ◌++◌, Option, none, some, arith, Option-cases, inl, inr, subst,
}
use agentq.Text.{Text, text_eq_iff}
use agentq.Job.{Job, State, Outcome, state_from, outcome_of, Priority}
use agentq.Tokio.{Tokio, Sent, accepted, full, closed}
use agentq.Queue.{
  Queue, QueueBuilder, Claim, Task, Phase, spawned, running, recorded, insert, remove, lane_at,
  start,
}
use agentq.Queue.Steps.{
  take_at, push_claim, push_send, push_cancel, worker_recv, worker_spawn, task_start, task_record,
  task_notify, claim_by, sent, start_task, record_task, notify_task,
}
use agentq.Queue.Steps.Counts.{
  total, total-snoc, total-take_at, hit, hit_held, hit_spawned, hit_running, is_pending,
  is_processing, lane_jobs, lanes_jobs, waiting_jobs, running_jobs, lanes_jobs-set_lane,
}
use agentq.Queue.Run.{
  Step, claim, send, cancel, recv, spawn, begin, finish, notify, take_step, Reachable, started,
  stepped,
}

module _ {C M H : Type 0} (k : Tokio C M H) where
  -- A key is `Pending` exactly while one job with it waits, and `Processing` exactly while one runs.
  pub record OneHolder (q : Queue C M H) (key : Text) : Type 0 where
    pub waits : waiting_jobs k key q ≡ is_pending (q.statemap key)
    pub runs : running_jobs k key q ≡ is_processing (q.statemap key)

  claim_by-OneHolder :
      (job : Job) (q : Queue C M H) (st : Option State) (key : Text)
      → q.statemap job.key ≡ st
      → OneHolder q key
      → OneHolder (claim_by k st job q).1 key
  unfolding claim_by waiting_jobs running_jobs is_pending is_processing hit insert
  claim_by-OneHolder job q none key e v = ground (
    arith,
    text_eq_iff job.key key,
    total-snoc (λ (c : Claim). hit key c.job) q.claims
        (record { job = job; receiver = (k.oneshot q.oneshots).0 }),
  )
  claim_by-OneHolder job q (some State.pending) key e v = ground arith
  claim_by-OneHolder job q (some State.processing) key e v = ground arith
  claim_by-OneHolder job q (some (State.completed o)) key e v = ground arith
  claim_by-OneHolder job q (some (State.failed o)) key e v = ground (
    arith,
    text_eq_iff job.key key,
    total-snoc (λ (c : Claim). hit key c.job) q.claims
        (record { job = job; receiver = (k.oneshot q.oneshots).0 }),
  )

  pub push_claim-OneHolder :
      (job : Job) (q : Queue C M H) (key : Text)
      → OneHolder q key
      → OneHolder (push_claim k job q).1 key
  unfolding push_claim
  push_claim-OneHolder job q key v = claim_by-OneHolder job q (q.statemap job.key) key refl v

  -- With a claim taken out, the job of the claim is one that waits.
  sent-OneHolder :
      (answer : Sent C) (c : Claim) (cs : List Claim) (n : ℕ) (q q' : Queue C M H) (key : Text)
      → take_at n q.claims ≡ some (c, cs)
      → k.send c.job (lane_at c.job.priority q.lanes).channel ≡ answer
      → sent k answer c (record q { claims = cs }) ≡ some q'
      → OneHolder q key
      → OneHolder q' key
  unfolding sent waiting_jobs running_jobs is_pending is_processing hit insert lane_jobs
  sent-OneHolder (accepted ch) c cs n q q' key e ek eq v =
      let l = lane_at c.job.priority q.lanes in
      ground (
        arith,
        total-take_at (λ (x : Claim). hit key x.job) n q.claims c cs,
        lanes_jobs-set_lane k key c.job.priority (record l { channel = ch }) q.lanes,
        k.contents-send c.job l.channel ch,
        total-snoc (hit key) (k.contents l.channel) c.job,
      )
  sent-OneHolder full c cs n q q' key e ek eq v = ground arith
  sent-OneHolder closed c cs n q q' key e ek eq v = ground (
    arith,
    total-take_at (λ (x : Claim). hit key x.job) n q.claims c cs,
    text_eq_iff c.job.key key,
  )

  pub push_send-OneHolder :
      (n : ℕ) (q q' : Queue C M H) (key : Text)
      → push_send k n q ≡ some q'
      → OneHolder q key
      → OneHolder q' key
  push_send-OneHolder n q q' key eq v = elim (Option-cases (take_at n q.claims)) [
    | inl e ↦ absurd (unfold push_send in ground arith)
    | inr ((c, cs), e) ↦
        sent-OneHolder (k.send c.job (lane_at c.job.priority q.lanes).channel) c cs n q q' key e
          refl (unfold push_send in rw (e, push_send) at eq) v
  ]

  pub push_cancel-OneHolder :
      (n : ℕ) (q q' : Queue C M H) (key : Text)
      → push_cancel k n q ≡ some q'
      → OneHolder q key
      → OneHolder q' key
  unfolding push_cancel waiting_jobs running_jobs is_pending is_processing hit remove
  push_cancel-OneHolder n q q' key eq v = elim (Option-cases (take_at n q.claims)) [
    | inl e ↦ ground arith
    | inr ((c, cs), e) ↦ ground (
      arith,
      total-take_at (λ (x : Claim). hit key x.job) n q.claims c cs,
      text_eq_iff c.job.key key,
    )
  ]

  pub worker_recv-OneHolder :
      (p : Priority) (q q' : Queue C M H) (key : Text)
      → worker_recv k p q ≡ some q'
      → OneHolder q key
      → OneHolder q' key
  unfolding worker_recv waiting_jobs running_jobs lane_jobs hit_held total
  worker_recv-OneHolder p q q' key eq v =
      let l = lane_at p q.lanes in
      elim (Option-cases (k.recv l.channel)) [
        | inl e ↦ ground arith
        | inr ((j, ch), e) ↦ ground (
          arith,
          k.contents-recv l.channel ch j,
          lanes_jobs-set_lane k key p (record l { channel = ch; held = some j }) q.lanes,
        )
      ]

  pub worker_spawn-OneHolder :
      (p : Priority) (q q' : Queue C M H) (key : Text)
      → worker_spawn k p q ≡ some q'
      → OneHolder q key
      → OneHolder q' key
  unfolding worker_spawn waiting_jobs running_jobs lane_jobs hit_held hit_spawned hit_running
  worker_spawn-OneHolder p q q' key eq v =
      let l = lane_at p q.lanes in
      elim (Option-cases l.held) [
        | inl e ↦ ground arith
        | inr (j, e) ↦ elim (Option-cases (k.acquire l.semaphore)) [
          | inl f ↦ ground arith
          | inr (m, f) ↦ ground (
            arith,
            lanes_jobs-set_lane k key p (record l { semaphore = m; held = none }) q.lanes,
            total-snoc (λ (t : Task). hit_spawned key t.phase t.job) q.tasks
                (record { job = j; lane = p; phase = spawned }),
            total-snoc (λ (t : Task). hit_running key t.phase t.job) q.tasks
                (record { job = j; lane = p; phase = spawned }),
          )
        ]
      ]
