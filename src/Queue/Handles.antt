-- ===== src/Queue/Handles.antt =====
-- src/queue.rs, src/state.rs: no handle is forgotten: one that is not settled is among the waiters.
use agentq.Prelude.{
  ℕ, ◌+◌, ◌≤◌, ◌≡◌, refl, subst, true, List, [], ◌∷◌, Option, none, some, arith, Option-cases, inl,
  inr,
}
use agentq.Text.{Text}
use agentq.Job.{Job, State, Outcome, outcome_of}
use agentq.Tokio.{Tokio, Sent, accepted, full, closed, unresolved}
use agentq.Queue.{
  Queue, QueueBuilder, Claim, Task, Phase, spawned, running, recorded, insert, remove, or_default,
  lane_at, start,
}
use agentq.Queue.Steps.{
  take_at, push_claim, forget_waiters, sent, push_send, push_cancel, worker_recv, worker_spawn,
  task_start, task_record, notify_task, task_notify,
}
use agentq.Queue.Run.{
  Step, claim, send, cancel, recv, spawn, begin, finish, notify, take_step, Reachable, started,
  stepped,
}
use agentq.Queue.Steps.Counts.{waiting_jobs, running_jobs}
use agentq.Queue.Attended.{awaited, recorded_jobs, Reachable-awaited}
use agentq.Queue.Listed.{
  listed, Listed, taken-Listed, claim_by-Listed, forget_waiters-Listed, resolve_all-unresolved,
}

module _ {C M H : Type 0} (k : Tokio C M H) where
  abbrev Kept : Queue C M H → Queue C M H → Type 0
  Kept q q' = Listed k q.waiters q.oneshots → Listed k q'.waiters q'.oneshots

  became : (q q0 q' : Queue C M H) → some q0 ≡ some q' → Kept q q0 → Kept q q'
  became q q0 q' e g l =
      let e' : q0 ≡ q' = cc e in subst (λ x. Listed k x.waiters x.oneshots) e' (g l)

  sent-Listed : (a : Sent C) (c : Claim) (q q' : Queue C M H) → sent k a c q ≡ some q' → Kept q q'
  unfolding sent
  sent-Listed (accepted ch) c q q' e l = became q _ q' e (λ x. x) l
  sent-Listed full c q q' e l = cc
  sent-Listed closed c q q' e l =
      became q _ q' e
        (forget_waiters-Listed k c.job.key
          (record q { statemap = insert c.job.key (State.failed k.send_error) q.statemap }))
        l

  notify_task-Listed :
      (ph : Phase) (t : Task) (ts : List Task) (q q' : Queue C M H)
      → notify_task k ph t ts q ≡ some q'
      → Kept q q'
  unfolding notify_task
  notify_task-Listed (recorded o) t ts q q' e l =
      became q _ q' e
        (taken-Listed k t.job.key q.waiters q.oneshots _
          (λ i. resolve_all-unresolved k (or_default (q.waiters t.job.key)) o i q.oneshots))
        l
  notify_task-Listed spawned t ts q q' e l = cc
  notify_task-Listed running t ts q q' e l = cc

  push_send-Listed : (n : ℕ) (q q' : Queue C M H) → push_send k n q ≡ some q' → Kept q q'
  push_send-Listed n q q' eq l = elim (Option-cases (take_at n q.claims)) [
    | inl e ↦ absurd (unfold push_send in ground arith)
    | inr ((c, cs), e) ↦
        sent-Listed (k.send c.job (lane_at c.job.priority q.lanes).channel) c
          (record q { claims = cs }) q' (unfold push_send in rw (e, push_send) at eq) l
  ]

  push_cancel-Listed : (n : ℕ) (q q' : Queue C M H) → push_cancel k n q ≡ some q' → Kept q q'
  push_cancel-Listed n q q' eq l = elim (Option-cases (take_at n q.claims)) [
    | inl e ↦ absurd (unfold push_cancel in ground arith)
    | inr ((c, cs), e) ↦
        let q1 = record q { claims = cs; statemap = remove c.job.key q.statemap } in
        let eq' : some (forget_waiters k c.job.key q1) ≡ some q' =
          unfold push_cancel in rw (e, push_cancel) at eq in
        became q (forget_waiters k c.job.key q1) q' eq' (forget_waiters-Listed k c.job.key q1) l
  ]

  task_notify-Listed : (n : ℕ) (q q' : Queue C M H) → task_notify k n q ≡ some q' → Kept q q'
  task_notify-Listed n q q' eq l = elim (Option-cases (take_at n q.tasks)) [
    | inl e ↦ absurd (unfold task_notify in ground arith)
    | inr ((t, ts), e) ↦
        notify_task-Listed t.phase t ts q q' (unfold task_notify in rw (e, task_notify) at eq) l
  ]

  -- The other steps leave the waiters and the channels alone.
  abbrev Same : Queue C M H → Queue C M H → Type 0
  Same q q' = (q'.waiters ≡ q.waiters) × (q'.oneshots ≡ q.oneshots)

  Same-Listed : (q q' : Queue C M H) → Same q q' → Kept q q'
  Same-Listed q q' (ew, eo) l = rw (ew, eo) l

  worker_recv-Same :
      (p : agentq.Job.Priority) (q q' : Queue C M H) → worker_recv k p q ≡ some q' → Same q q'
  unfolding worker_recv
  worker_recv-Same p q q' e = (ground arith, ground arith)

  worker_spawn-Same :
      (p : agentq.Job.Priority) (q q' : Queue C M H) → worker_spawn k p q ≡ some q' → Same q q'
  unfolding worker_spawn
  worker_spawn-Same p q q' e = (ground arith, ground arith)

  task_start-Same : (n : ℕ) (q q' : Queue C M H) → task_start k n q ≡ some q' → Same q q'
  unfolding task_start
  task_start-Same n q q' e = (ground arith, ground arith)

  task_record-Same :
      (n : ℕ) (end : agentq.Job.JobEnd) (q q' : Queue C M H)
      → task_record k n end q ≡ some q'
      → Same q q'
  unfolding task_record
  task_record-Same n end q q' e = (ground arith, ground arith)

  take_step-Listed : (s : Step) (q q' : Queue C M H) → take_step k s q ≡ some q' → Kept q q'
  unfolding take_step
  take_step-Listed (claim job) q q' e l =
      became q _ q' e (unfold push_claim in claim_by-Listed k job q (q.statemap job.key)) l
  take_step-Listed (send n) q q' e l = push_send-Listed n q q' e l
  take_step-Listed (cancel n) q q' e l = push_cancel-Listed n q q' e l
  take_step-Listed (recv p) q q' e l = Same-Listed q q' (worker_recv-Same p q q' e) l
  take_step-Listed (spawn p) q q' e l = Same-Listed q q' (worker_spawn-Same p q q' e) l
  take_step-Listed (begin n) q q' e l = Same-Listed q q' (task_start-Same n q q' e) l
  take_step-Listed (finish n end) q q' e l = Same-Listed q q' (task_record-Same n end q q' e) l
  take_step-Listed (notify n) q q' e l = task_notify-Listed n q q' e l

  Reachable-Listed :
      (b : QueueBuilder) {q : Queue C M H} → Reachable k b q → Listed k q.waiters q.oneshots
  unfolding start
  Reachable-Listed b started = record { at = λ i e. absurd (k.poll-no_oneshots i e) }
  Reachable-Listed b (stepped s r eq) = take_step-Listed s _ _ eq (Reachable-Listed b r)

  listed-awaited : (i : ℕ) (o : Option (List ℕ)) → listed i (or_default o) ≡ true → awaited o ≡ 1
  unfolding listed or_default awaited
  listed-awaited i none e = cc
  listed-awaited i (some []) e = cc
  listed-awaited i (some (s ∷ ss)) e = refl

  -- In every reachable queue a handle that is neither resolved nor lost waits for some key, and that
  -- key is held by a job that will answer it: one that waits in a push or in its lane, one that runs,
  -- or one that has recorded its outcome and has not yet sent it.
  pub Reachable-unresolved :
      (b : QueueBuilder) {q : Queue C M H} (i : ℕ)
      → Reachable k b q
      → k.poll i q.oneshots ≡ unresolved
      → (key : Text) × (listed i (or_default (q.waiters key)) ≡ true)
        × (1 ≤ waiting_jobs k key q + running_jobs k key q + recorded_jobs key q.tasks)
  Reachable-unresolved b {q} i r e =
      let (key, there) = (Reachable-Listed b r).at i e in
      let held = Reachable-awaited k b key r in
      let one = listed-awaited i (q.waiters key) there in (key, there, omega (arith, held, one))
