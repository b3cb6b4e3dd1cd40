-- ===== src/Queue/Attended.antt =====
-- A key that is awaited is held by a job that will answer: no waiter is forgotten.
use agentq.Prelude.{
  ℕ, ◌+◌, ◌≤◌, ◌≡◌, refl, List, [], ◌∷◌, ◌++◌, Option, none, some, arith, Option-cases, inl, inr,
  subst,
}
use agentq.Text.{Text, text_eq_iff}
use agentq.Job.{Job, State, Outcome, outcome_of, Priority}
use agentq.Tokio.{Tokio, Sent, accepted, full, closed}
use agentq.Queue.{
  Queue, QueueBuilder, Lane, Claim, Task, Phase, spawned, running, recorded, insert, remove,
  lane_at, add_waiter,
}
use agentq.Queue.Steps.{
  take_at, push_claim, push_send, push_cancel, worker_recv, worker_spawn, task_start, task_record,
  task_notify, claim_by, sent, start_task, record_task, notify_task,
}
use agentq.Queue.Steps.Counts.{
  total, total-snoc, total-take_at, hit, is_pending, is_processing, waiting_jobs, running_jobs,
}
use agentq.Queue.Run.{
  Step, claim, send, cancel, recv, spawn, begin, finish, notify, take_step, Reachable, started,
  stepped,
}
use agentq.Queue.Invariant.Reached.{Reachable-OneHolder}

-- 1 for a key with a waiter.
unfoldable pub awaited : Option (List ℕ) → ℕ
awaited none = 0
awaited (some []) = 0
awaited (some (s ∷ ss)) = 1

awaited_le : (o : Option (List ℕ)) → awaited o ≤ 1
unfolding awaited
awaited_le none = omega arith
awaited_le (some []) = omega arith
awaited_le (some (s ∷ ss)) = omega arith

unfoldable pub hit_recorded : Text → Phase → Job → ℕ
hit_recorded key (recorded o) j = hit key j
hit_recorded key _ j = 0

-- The tasks with the key that have recorded their outcome and not yet sent it.
unfoldable pub recorded_jobs : Text → List Task → ℕ
recorded_jobs key ts = total (λ (t : Task). hit_recorded key t.phase t.job) ts

module _ {C M H : Type 0} (k : Tokio C M H) where
  record Attended (q : Queue C M H) (key : Text) : Type 0 where
    at :
        awaited (q.waiters key)
        ≤ is_pending (q.statemap key) + is_processing (q.statemap key) + recorded_jobs key q.tasks

  claim_by-Attended :
      (job : Job) (q : Queue C M H) (st : Option State) (key : Text)
      → q.statemap job.key ≡ st
      → Attended q key
      → Attended (claim_by k st job q).1 key
  unfolding claim_by is_pending is_processing insert add_waiter
  claim_by-Attended job q none key e v = ground (
    arith,
    text_eq_iff job.key key,
    awaited_le (add_waiter job.key (k.oneshot q.oneshots).0 q.waiters key),
  )
  claim_by-Attended job q (some State.pending) key e v = ground (
    arith,
    text_eq_iff job.key key,
    awaited_le (add_waiter job.key (k.oneshot q.oneshots).0 q.waiters key),
  )
  claim_by-Attended job q (some State.processing) key e v = ground (
    arith,
    text_eq_iff job.key key,
    awaited_le (add_waiter job.key (k.oneshot q.oneshots).0 q.waiters key),
  )
  claim_by-Attended job q (some (State.completed o)) key e v = v
  claim_by-Attended job q (some (State.failed o)) key e v = ground (
    arith,
    text_eq_iff job.key key,
    awaited_le (add_waiter job.key (k.oneshot q.oneshots).0 q.waiters key),
  )

  sent-Attended :
      (answer : Sent C) (c : Claim) (q q' : Queue C M H) (key : Text)
      → sent k answer c q ≡ some q'
      → Attended q key
      → Attended q' key
  unfolding sent insert remove awaited
  sent-Attended (accepted ch) c q q' key eq v = ground arith
  sent-Attended full c q q' key eq v = ground arith
  sent-Attended closed c q q' key eq v = ground arith

  push_cancel-Attended :
      (n : ℕ) (q q' : Queue C M H) (key : Text)
      → push_cancel k n q ≡ some q'
      → Attended q key
      → Attended q' key
  unfolding push_cancel remove awaited
  push_cancel-Attended n q q' key eq v = ground arith

  worker_spawn-Attended :
      (p : Priority) (q q' : Queue C M H) (key : Text)
      → worker_spawn k p q ≡ some q'
      → Attended q key
      → Attended q' key
  unfolding worker_spawn recorded_jobs hit_recorded
  worker_spawn-Attended p q q' key eq v = elim (Option-cases (lane_at p q.lanes).held) [
    | inl e ↦ ground arith
    | inr (j, e) ↦ ground (
      arith,
      total-snoc (λ (t : Task). hit_recorded key t.phase t.job) q.tasks
          (record { job = j; lane = p; phase = spawned }),
    )
  ]

  module _ (n : ℕ) (q q' : Queue C M H) (key : Text) (t : Task) (ts : List Task)
      (e : take_at n q.tasks ≡ some (t, ts)) where
    weight : recorded_jobs key q.tasks ≡ hit_recorded key t.phase t.job + recorded_jobs key ts
    unfolding recorded_jobs
    weight = total-take_at (λ (x : Task). hit_recorded key x.phase x.job) n q.tasks t ts e

    snoc :
        (ph : Phase)
        → recorded_jobs key (ts ++ record t { phase = ph } ∷ [])
          ≡ recorded_jobs key ts + hit_recorded key ph t.job
    unfolding recorded_jobs
    snoc ph = total-snoc (λ (x : Task). hit_recorded key x.phase x.job) ts (record t { phase = ph })

    start_task-Attended :
        (ph : Phase)
        → t.phase ≡ ph
        → start_task k ph t ts q ≡ some q'
        → Attended q key
        → Attended q' key
    unfolding start_task is_pending is_processing insert hit_recorded
    start_task-Attended spawned ep eq v =
        ground (arith, weight, snoc running, text_eq_iff t.job.key key, awaited_le (q.waiters key))
    start_task-Attended running ep eq v = cc
    start_task-Attended (recorded o) ep eq v = cc

    record_task-Attended :
        (ph : Phase) (o : Outcome)
        → t.phase ≡ ph
        → record_task k ph t o ts q ≡ some q'
        → Attended q key
        → Attended q' key
    unfolding record_task is_pending is_processing insert hit_recorded hit
    record_task-Attended running o ep eq v =
        ground
          (arith, weight, snoc (recorded o), text_eq_iff t.job.key key, awaited_le (q.waiters key))
    record_task-Attended spawned o ep eq v = cc
    record_task-Attended (recorded o') o ep eq v = cc

    notify_task-Attended :
        (ph : Phase)
        → t.phase ≡ ph
        → notify_task k ph t ts q ≡ some q'
        → Attended q key
        → Attended q' key
    unfolding notify_task remove awaited hit_recorded hit
    notify_task-Attended (recorded o) ep eq v = ground (arith, weight, text_eq_iff t.job.key key)
    notify_task-Attended spawned ep eq v = cc
    notify_task-Attended running ep eq v = cc

  take_step-Attended :
      (s : Step) (q q' : Queue C M H) (key : Text)
      → take_step k s q ≡ some q'
      → Attended q key
      → Attended q' key
  unfolding take_step
  take_step-Attended (claim job) q q' key eq v =
      let e : (push_claim k job q).1 ≡ q' = cc eq in
      subst (λ x. Attended x key) e
        (unfold push_claim in claim_by-Attended job q (q.statemap job.key) key refl v)
  take_step-Attended (send n) q q' key eq v = elim (Option-cases (take_at n q.claims)) [
    | inl e ↦ absurd (unfold push_send in ground arith)
    | inr ((c, cs), e) ↦
        sent-Attended (k.send c.job (lane_at c.job.priority q.lanes).channel) c
          (record q { claims = cs }) q' key (unfold push_send in rw (e, push_send) at eq)
          (record { at = v.at })
  ]
  take_step-Attended (cancel n) q q' key eq v = push_cancel-Attended n q q' key eq v
  take_step-Attended (recv p) q q' key eq v = unfold worker_recv in ground arith
  take_step-Attended (spawn p) q q' key eq v = worker_spawn-Attended p q q' key eq v
  take_step-Attended (begin n) q q' key eq v = elim (Option-cases (take_at n q.tasks)) [
    | inl e ↦ absurd (unfold task_start in ground arith)
    | inr ((t, ts), e) ↦
        start_task-Attended n q q' key t ts e t.phase refl
          (unfold task_start in rw (e, task_start) at eq) v
  ]
  take_step-Attended (finish n end) q q' key eq v = elim (Option-cases (take_at n q.tasks)) [
    | inl e ↦ absurd (unfold task_record in ground arith)
    | inr ((t, ts), e) ↦
        record_task-Attended n q q' key t ts e t.phase (outcome_of end) refl
          (unfold task_record in rw (e, task_record) at eq) v
  ]
  take_step-Attended (notify n) q q' key eq v = elim (Option-cases (take_at n q.tasks)) [
    | inl e ↦ absurd (unfold task_notify in ground arith)
    | inr ((t, ts), e) ↦
        notify_task-Attended n q q' key t ts e t.phase refl
          (unfold task_notify in rw (e, task_notify) at eq) v
  ]

  Reachable-Attended :
      (b : QueueBuilder) {q : Queue C M H} (key : Text) → Reachable k b q → Attended q key
  unfolding awaited is_pending agentq.Queue.start
  Reachable-Attended b key started = record { at = omega arith }
  Reachable-Attended b key (stepped s r eq) =
      take_step-Attended s _ _ key eq (Reachable-Attended b key r)

  -- In every reachable queue a key with a waiter is held by at least one job that answers it: one
  -- that waits in a push or in its lane, one that runs, or one that has recorded its outcome and has
  -- not yet sent it.
  pub Reachable-awaited :
      (b : QueueBuilder) {q : Queue C M H} (key : Text)
      → Reachable k b q
      → awaited (q.waiters key)
        ≤ waiting_jobs k key q + running_jobs k key q + recorded_jobs key q.tasks
  Reachable-awaited b key r =
      let v = Reachable-Attended b key r in
      let one = Reachable-OneHolder k b key r in omega (arith, v.at, one.waits, one.runs)
