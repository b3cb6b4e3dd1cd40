-- ===== src/Queue/Still.antt =====
-- A key that no job waits or runs for keeps its state: only a push of the key changes it.
use agentq.Prelude.{ℕ, ◌≡◌, refl, List, Option, some, arith, Option-cases, inl, inr, subst}
use agentq.Text.{Text, text_eq_iff}
use agentq.Job.{Job, State, Outcome, outcome_of}
use agentq.Tokio.{Tokio, Sent, accepted, full, closed}
use agentq.Queue.{
  Queue, QueueBuilder, Claim, Task, Phase, spawned, running, recorded, insert, remove, lane_at,
}
use agentq.Queue.Steps.{
  take_at, push_claim, push_send, push_cancel, worker_recv, worker_spawn, task_start, task_record,
  task_notify, sent, start_task, record_task, notify_task,
}
use agentq.Queue.Steps.Counts.{
  total-take_at, hit, hit_spawned, hit_running, is_pending, is_processing, waiting_jobs,
  running_jobs,
}
use agentq.Queue.Run.{
  Step, claim, send, cancel, recv, spawn, begin, finish, notify, take_step, Reachable,
}
use agentq.Queue.Invariant.{OneHolder}
use agentq.Queue.Invariant.Reached.{Reachable-OneHolder}

module _ {C M H : Type 0} (k : Tokio C M H) (key : Text) (st : Option State)
    (waits_not : is_pending st ≡ 0) (runs_not : is_processing st ≡ 0) where
  abbrev Still : Queue C M H → Type 0
  Still q = q.statemap key ≡ st

  sent-Still :
      (answer : Sent C) (c : Claim) (cs : List Claim) (n : ℕ) (q q' : Queue C M H)
      → take_at n q.claims ≡ some (c, cs)
      → sent k answer c (record q { claims = cs }) ≡ some q'
      → OneHolder k q key
      → Still q
      → Still q'
  unfolding sent waiting_jobs is_pending hit insert
  sent-Still (accepted ch) c cs n q q' e eq v s = ground arith
  sent-Still full c cs n q q' e eq v s = cc
  sent-Still closed c cs n q q' e eq v s = ground (
    arith,
    total-take_at (λ (x : Claim). hit key x.job) n q.claims c cs,
    text_eq_iff c.job.key key,
  )

  start_task-Still :
      (ph : Phase) (t : Task) (ts : List Task) (n : ℕ) (q q' : Queue C M H)
      → take_at n q.tasks ≡ some (t, ts)
      → t.phase ≡ ph
      → start_task k ph t ts q ≡ some q'
      → OneHolder k q key
      → Still q
      → Still q'
  unfolding start_task waiting_jobs is_pending hit hit_spawned insert
  start_task-Still spawned t ts n q q' e ep eq v s = ground (
    arith,
    total-take_at (λ (x : Task). hit_spawned key x.phase x.job) n q.tasks t ts,
    text_eq_iff t.job.key key,
  )
  start_task-Still running t ts n q q' e ep eq v s = cc
  start_task-Still (recorded o) t ts n q q' e ep eq v s = cc

  record_task-Still :
      (ph : Phase) (o : Outcome) (t : Task) (ts : List Task) (n : ℕ) (q q' : Queue C M H)
      → take_at n q.tasks ≡ some (t, ts)
      → t.phase ≡ ph
      → record_task k ph t o ts q ≡ some q'
      → OneHolder k q key
      → Still q
      → Still q'
  unfolding record_task running_jobs is_processing hit hit_running insert
  record_task-Still running o t ts n q q' e ep eq v s = ground (
    arith,
    total-take_at (λ (x : Task). hit_running key x.phase x.job) n q.tasks t ts,
    text_eq_iff t.job.key key,
  )
  record_task-Still spawned o t ts n q q' e ep eq v s = cc
  record_task-Still (recorded o') o t ts n q q' e ep eq v s = cc

  notify_task-Still :
      (ph : Phase) (t : Task) (ts : List Task) (q q' : Queue C M H)
      → notify_task k ph t ts q ≡ some q'
      → Still q
      → Still q'
  unfolding notify_task
  notify_task-Still (recorded o) t ts q q' eq s = ground arith
  notify_task-Still running t ts q q' eq s = cc
  notify_task-Still spawned t ts q q' eq s = cc

  push_cancel-Still :
      (n : ℕ) (q q' : Queue C M H) (c : Claim) (cs : List Claim)
      → take_at n q.claims ≡ some (c, cs)
      → push_cancel k n q ≡ some q'
      → OneHolder k q key
      → Still q
      → Still q'
  unfolding push_cancel waiting_jobs is_pending hit remove
  push_cancel-Still n q q' c cs e eq v s = ground (
    arith,
    total-take_at (λ (x : Claim). hit key x.job) n q.claims c cs,
    text_eq_iff c.job.key key,
  )

  -- Every step keeps the state, if a claim does.
  pub take_step-Still :
      (b : QueueBuilder) (s : Step) (q q' : Queue C M H)
      → Reachable k b q
      → take_step k s q ≡ some q'
      → ((job : Job) → s ≡ claim job → Still (push_claim k job q).1)
      → Still q
      → Still q'
  unfolding take_step
  take_step-Still b (claim job) q q' r eq own s =
      let e : (push_claim k job q).1 ≡ q' = cc eq in subst Still e (own job refl)
  take_step-Still b (send n) q q' r eq own s = elim (Option-cases (take_at n q.claims)) [
    | inl e ↦ absurd (unfold push_send in ground arith)
    | inr ((c, cs), e) ↦
        sent-Still (k.send c.job (lane_at c.job.priority q.lanes).channel) c cs n q q' e
          (unfold push_send in rw (e, push_send) at eq) (Reachable-OneHolder k b key r) s
  ]
  take_step-Still b (cancel n) q q' r eq own s = elim (Option-cases (take_at n q.claims)) [
    | inl e ↦ absurd (unfold push_cancel in ground arith)
    | inr ((c, cs), e) ↦ push_cancel-Still n q q' c cs e eq (Reachable-OneHolder k b key r) s
  ]
  take_step-Still b (recv p) q q' r eq own s = unfold worker_recv in ground arith
  take_step-Still b (spawn p) q q' r eq own s = unfold worker_spawn in ground arith
  take_step-Still b (begin n) q q' r eq own s = elim (Option-cases (take_at n q.tasks)) [
    | inl e ↦ absurd (unfold task_start in ground arith)
    | inr ((t, ts), e) ↦
        start_task-Still t.phase t ts n q q' e refl (unfold task_start in rw (e, task_start) at eq)
          (Reachable-OneHolder k b key r) s
  ]
  take_step-Still b (finish n end) q q' r eq own s = elim (Option-cases (take_at n q.tasks)) [
    | inl e ↦ absurd (unfold task_record in ground arith)
    | inr ((t, ts), e) ↦
        record_task-Still t.phase (outcome_of end) t ts n q q' e refl
          (unfold task_record in rw (e, task_record) at eq) (Reachable-OneHolder k b key r) s
  ]
  take_step-Still b (notify n) q q' r eq own s = elim (Option-cases (take_at n q.tasks)) [
    | inl e ↦ absurd (unfold task_notify in ground arith)
    | inr ((t, ts), e) ↦
        notify_task-Still t.phase t ts q q' (unfold task_notify in rw (e, task_notify) at eq) s
  ]
