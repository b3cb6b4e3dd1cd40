-- ===== src/Queue/Permits.antt =====
-- A lane never runs more jobs at a time than it has permits.
use agentq.Prelude.{
  ℕ, suc, ◌+◌, ◌≡◌, refl, ◌∙◌, List, [], ◌∷◌, ◌++◌, Option, none, some, arith, Option-cases, inl,
  inr, subst,
}
use agentq.Job.{Job, State, Outcome, outcome_of, Priority}
use agentq.Tokio.{Tokio, Sent, accepted, full, closed}
use agentq.Queue.{
  Queue, QueueBuilder, Lane, Lanes, Claim, Task, Phase, spawned, running, recorded, lane_at,
  set_lane, start, open_lane,
}
use agentq.Queue.Steps.{
  take_at, push_claim, push_send, push_cancel, worker_recv, worker_spawn, task_start, task_record,
  task_notify, claim_by, sent, start_task, record_task, notify_task, forget_waiters,
}
use agentq.Queue.Steps.Counts.{total, total-snoc, total-take_at}
use agentq.Queue.Run.{
  Step, claim, send, cancel, recv, spawn, begin, finish, notify, take_step, Reachable, started,
  stepped,
}

-- 1 for a task of the lane.
unfoldable pub same_lane : Priority → Priority → ℕ
same_lane Priority.low Priority.low = 1
same_lane Priority.medium Priority.medium = 1
same_lane Priority.high Priority.high = 1
same_lane _ _ = 0

unfoldable pub lane_tasks : Priority → List Task → ℕ
lane_tasks p ts = total (λ (t : Task). same_lane p t.lane) ts

module _ {C M H : Type 0} (k : Tokio C M H) (p : Priority) where
  -- The permits that are free, and the tasks that hold one.
  unfoldable pub lane_permits : Queue C M H → ℕ
  unfolding lane_tasks
  lane_permits q = k.permits (lane_at p q.lanes).semaphore + lane_tasks p q.tasks

  -- A lane with another semaphore, seen from this lane: one permit fewer, one more, or as many.
  fewer :
      (p' p'' : Priority) (l : Lane C M) (ls : Lanes (Lane C M))
      → k.permits (lane_at p' ls).semaphore ≡ suc (k.permits l.semaphore)
      → k.permits (lane_at p'' (set_lane p' l ls)).semaphore + same_lane p'' p'
        ≡ k.permits (lane_at p'' ls).semaphore
  unfolding lane_at set_lane same_lane
  fewer Priority.low Priority.low l ls h = omega arith
  fewer Priority.low Priority.medium l ls h = omega arith
  fewer Priority.low Priority.high l ls h = omega arith
  fewer Priority.medium Priority.low l ls h = omega arith
  fewer Priority.medium Priority.medium l ls h = omega arith
  fewer Priority.medium Priority.high l ls h = omega arith
  fewer Priority.high Priority.low l ls h = omega arith
  fewer Priority.high Priority.medium l ls h = omega arith
  fewer Priority.high Priority.high l ls h = omega arith

  more :
      (p' p'' : Priority) (l : Lane C M) (ls : Lanes (Lane C M))
      → k.permits l.semaphore ≡ suc (k.permits (lane_at p' ls).semaphore)
      → k.permits (lane_at p'' (set_lane p' l ls)).semaphore
        ≡ k.permits (lane_at p'' ls).semaphore + same_lane p'' p'
  unfolding lane_at set_lane same_lane
  more Priority.low Priority.low l ls h = omega arith
  more Priority.low Priority.medium l ls h = omega arith
  more Priority.low Priority.high l ls h = omega arith
  more Priority.medium Priority.low l ls h = omega arith
  more Priority.medium Priority.medium l ls h = omega arith
  more Priority.medium Priority.high l ls h = omega arith
  more Priority.high Priority.low l ls h = omega arith
  more Priority.high Priority.medium l ls h = omega arith
  more Priority.high Priority.high l ls h = omega arith

  same :
      (p' p'' : Priority) (l : Lane C M) (ls : Lanes (Lane C M))
      → l.semaphore ≡ (lane_at p' ls).semaphore
      → (lane_at p'' (set_lane p' l ls)).semaphore ≡ (lane_at p'' ls).semaphore
  unfolding lane_at set_lane
  same Priority.low Priority.low l ls h = h
  same Priority.medium Priority.medium l ls h = h
  same Priority.high Priority.high l ls h = h
  same Priority.low Priority.medium l ls h = refl
  same Priority.low Priority.high l ls h = refl
  same Priority.medium Priority.low l ls h = refl
  same Priority.medium Priority.high l ls h = refl
  same Priority.high Priority.low l ls h = refl
  same Priority.high Priority.medium l ls h = refl

  sent-permits :
      (answer : Sent C) (c : Claim) (q q' : Queue C M H)
      → sent k answer c q ≡ some q'
      → lane_permits q' ≡ lane_permits q
  unfolding sent lane_permits forget_waiters
  sent-permits (accepted ch) c q q' eq =
      let l = lane_at c.job.priority q.lanes in
      ground (arith, same c.job.priority p (record l { channel = ch }) q.lanes)
  sent-permits full c q q' eq = cc
  sent-permits closed c q q' eq = ground arith

  claim_by-permits :
      (job : Job) (q : Queue C M H) (st : Option State)
      → lane_permits (claim_by k st job q).1 ≡ lane_permits q
  unfolding claim_by lane_permits
  claim_by-permits job q none = refl
  claim_by-permits job q (some State.pending) = refl
  claim_by-permits job q (some State.processing) = refl
  claim_by-permits job q (some (State.completed o)) = refl
  claim_by-permits job q (some (State.failed o)) = refl

  module _ (n : ℕ) (q q' : Queue C M H) (t : Task) (ts : List Task)
      (e : take_at n q.tasks ≡ some (t, ts)) where
    weight : lane_tasks p q.tasks ≡ same_lane p t.lane + lane_tasks p ts
    unfolding lane_tasks
    weight = total-take_at (λ (x : Task). same_lane p x.lane) n q.tasks t ts e

    snoc :
        (ph : Phase)
        → lane_tasks p (ts ++ record t { phase = ph } ∷ []) ≡ lane_tasks p ts + same_lane p t.lane
    unfolding lane_tasks
    snoc ph = total-snoc (λ (x : Task). same_lane p x.lane) ts (record t { phase = ph })

    start_task-permits :
        (ph : Phase) → start_task k ph t ts q ≡ some q' → lane_permits q' ≡ lane_permits q
    unfolding start_task lane_permits
    start_task-permits spawned eq = ground (arith, weight, snoc running)
    start_task-permits running eq = cc
    start_task-permits (recorded o) eq = cc

    record_task-permits :
        (ph : Phase) (o : Outcome)
        → record_task k ph t o ts q ≡ some q'
        → lane_permits q' ≡ lane_permits q
    unfolding record_task lane_permits
    record_task-permits running o eq = ground (arith, weight, snoc (recorded o))
    record_task-permits spawned o eq = cc
    record_task-permits (recorded o') o eq = cc

    notify_task-permits :
        (ph : Phase) → notify_task k ph t ts q ≡ some q' → lane_permits q' ≡ lane_permits q
    unfolding notify_task lane_permits
    notify_task-permits (recorded o) eq =
        let l = lane_at t.lane q.lanes in
        ground (
          arith,
          weight,
          k.permits-release l.semaphore,
          more t.lane p (record l { semaphore = k.release l.semaphore }) q.lanes,
        )
    notify_task-permits running eq = cc
    notify_task-permits spawned eq = cc

  worker_spawn-permits :
      (p' : Priority) (q q' : Queue C M H)
      → worker_spawn k p' q ≡ some q'
      → lane_permits q' ≡ lane_permits q
  unfolding worker_spawn lane_permits lane_tasks
  worker_spawn-permits p' q q' eq =
      let l = lane_at p' q.lanes in
      elim (Option-cases l.held) [
        | inl e ↦ ground arith
        | inr (j, e) ↦ elim (Option-cases (k.acquire l.semaphore)) [
          | inl f ↦ ground arith
          | inr (m, f) ↦ ground (
            arith,
            k.permits-acquire l.semaphore m,
            fewer p' p (record l { semaphore = m; held = none }) q.lanes,
            total-snoc (λ (t : Task). same_lane p t.lane) q.tasks
                (record { job = j; lane = p'; phase = spawned }),
          )
        ]
      ]

  worker_recv-permits :
      (p' : Priority) (q q' : Queue C M H)
      → worker_recv k p' q ≡ some q'
      → lane_permits q' ≡ lane_permits q
  unfolding worker_recv lane_permits
  worker_recv-permits p' q q' eq =
      let l = lane_at p' q.lanes in
      elim (Option-cases (k.recv l.channel)) [
        | inl e ↦ ground arith
        | inr ((j, ch), e) ↦
            ground (arith, same p' p (record l { channel = ch; held = some j }) q.lanes)
      ]

  take_step-permits :
      (s : Step) (q q' : Queue C M H) → take_step k s q ≡ some q' → lane_permits q' ≡ lane_permits q
  unfolding take_step
  take_step-permits (claim job) q q' eq =
      let e : (push_claim k job q).1 ≡ q' = cc eq in
      subst (λ x. lane_permits x ≡ lane_permits q) e
        (unfold push_claim in claim_by-permits job q (q.statemap job.key))
  take_step-permits (send n) q q' eq = elim (Option-cases (take_at n q.claims)) [
    | inl e ↦ absurd (unfold push_send in ground arith)
    | inr ((c, cs), e) ↦
        sent-permits (k.send c.job (lane_at c.job.priority q.lanes).channel) c
          (record q { claims = cs }) q' (unfold push_send in rw (e, push_send) at eq)
        ∙ (unfold lane_permits in refl)
  ]
  take_step-permits (cancel n) q q' eq = unfold push_cancel lane_permits in ground arith
  take_step-permits (recv p') q q' eq = worker_recv-permits p' q q' eq
  take_step-permits (spawn p') q q' eq = worker_spawn-permits p' q q' eq
  take_step-permits (begin n) q q' eq = elim (Option-cases (take_at n q.tasks)) [
    | inl e ↦ absurd (unfold task_start in ground arith)
    | inr ((t, ts), e) ↦
        start_task-permits n q q' t ts e t.phase (unfold task_start in rw (e, task_start) at eq)
  ]
  take_step-permits (finish n end) q q' eq = elim (Option-cases (take_at n q.tasks)) [
    | inl e ↦ absurd (unfold task_record in ground arith)
    | inr ((t, ts), e) ↦
        record_task-permits n q q' t ts e t.phase (outcome_of end)
          (unfold task_record in rw (e, task_record) at eq)
  ]
  take_step-permits (notify n) q q' eq = elim (Option-cases (take_at n q.tasks)) [
    | inl e ↦ absurd (unfold task_notify in ground arith)
    | inr ((t, ts), e) ↦
        notify_task-permits n q q' t ts e t.phase (unfold task_notify in rw (e, task_notify) at eq)
  ]

  start-semaphore :
      (b : QueueBuilder) (p' : Priority)
      → k.permits (lane_at p' (start k b).lanes).semaphore ≡ (lane_at p' b).permits
  unfolding start lane_at open_lane
  start-semaphore b Priority.low = k.permits-semaphore b.low.permits
  start-semaphore b Priority.medium = k.permits-semaphore b.medium.permits
  start-semaphore b Priority.high = k.permits-semaphore b.high.permits

  start-tasks : (b : QueueBuilder) → lane_tasks p (start k b).tasks ≡ 0
  unfolding start lane_tasks total
  start-tasks b = refl

  start-permits : (b : QueueBuilder) → lane_permits (start k b) ≡ (lane_at p b).permits
  unfolding lane_permits
  start-permits b = omega (arith, start-semaphore b p, start-tasks b)

  -- In every reachable queue the free permits of a lane and the tasks that it has spawned and that
  -- have not ended are together the permits that the lane was configured with. So no lane ever runs
  -- more jobs at a time than its `permits`.
  pub Reachable-permits :
      (b : QueueBuilder) {q : Queue C M H}
      → Reachable k b q
      → k.permits (lane_at p q.lanes).semaphore + lane_tasks p q.tasks ≡ (lane_at p b).permits
  unfolding lane_permits
  Reachable-permits b started = start-permits b
  Reachable-permits b (stepped s r eq) = take_step-permits s _ _ eq ∙ Reachable-permits b r
