-- ===== src/Queue/Stale.antt =====
-- A push between the two locks of a guard's drop is answered with the outcome of the old job.
use agentq.Prelude.{ℕ, ◌≡◌, ◌≢◌, refl, sym, ◌∙◌, List, [], ◌∷◌, ◌++◌, none, some, All}
use agentq.Text.{Text, text_eq_refl}
use agentq.Job.{Job, State, Outcome}
use agentq.Tokio.{Tokio, unresolved, resolved}
use agentq.Queue.{Queue, Task, recorded, insert, remove, lane_at, set_lane, add_waiter, or_default}
use agentq.Queue.Steps.{
  take_at, push_claim, task_notify, claim_by, notify_task, claimed, resolve_all,
}

module _ {C M H : Type 0} (k : Tokio C M H) where
  poll-resolve_all :
      (ws : List ℕ) (id : ℕ) (o : Outcome) (h : H)
      → All (λ s. s ≢ id) ws
      → k.poll id h ≡ unresolved
      → k.poll id (resolve_all k (ws ++ id ∷ []) o h) ≡ resolved o
  unfolding resolve_all
  poll-resolve_all [] id o h f u = k.poll-resolve id o h u
  poll-resolve_all (w ∷ ws) id o h f u =
      poll-resolve_all ws id o (k.resolve w o h) f.1
        (k.poll-resolve_ne id w o h (λ e. f.0 (sym e)) ∙ u)

  -- The queue behind the claim of a key that failed.
  reclaimed : Job → Queue C M H → Queue C M H
  reclaimed job q =
      let (id, oneshots) = k.oneshot q.oneshots in
      record q {
        statemap = insert job.key State.pending q.statemap;
        waiters = add_waiter job.key id q.waiters;
        claims = q.claims ++ record { job = job; receiver = id } ∷ [];
        oneshots = oneshots;
      }

  push_claim-reclaimed :
      (job : Job) (q : Queue C M H) (reason : Text)
      → q.statemap job.key ≡ some (State.failed reason)
      → push_claim k job q ≡ (claimed (k.oneshot q.oneshots).0, reclaimed job q)
  unfolding push_claim reclaimed
  push_claim-reclaimed job q reason e = rw (e, claim_by)

  waiters-reclaimed :
      (job : Job) (q : Queue C M H)
      → or_default ((reclaimed job q).waiters job.key)
        ≡ or_default (q.waiters job.key) ++ (k.oneshot q.oneshots).0 ∷ []
  unfolding reclaimed add_waiter
  waiters-reclaimed job q = rw (text_eq_refl job.key)

  -- The queue behind the second lock of the guard of a task.
  notified : Task → Outcome → List Task → Queue C M H → Queue C M H
  notified t o ts q = record q {
    waiters = remove t.job.key q.waiters;
    oneshots = resolve_all k (or_default (q.waiters t.job.key)) o q.oneshots;
    tasks = ts;
    lanes =
        set_lane t.lane
          (record (lane_at t.lane q.lanes) {
            semaphore = k.release (lane_at t.lane q.lanes).semaphore;
          })
          q.lanes;
  }

  task_notify-notified :
      (n : ℕ) (q : Queue C M H) (t : Task) (ts : List Task) (o : Outcome)
      → take_at n q.tasks ≡ some (t, ts)
      → t.phase ≡ recorded o
      → task_notify k n q ≡ some (notified t o ts q)
  unfolding task_notify notified
  task_notify-notified n q t ts o e ep = rw (e, task_notify) (rw (ep, notify_task))

  stale_poll :
      (t : Task) (ts : List Task) (job : Job) (q : Queue C M H) (o : Outcome)
      → t.job.key ≡ job.key
      → All (λ s. s ≢ (k.oneshot q.oneshots).0) (or_default (q.waiters job.key))
      → k.poll (k.oneshot q.oneshots).0 (notified t o ts (reclaimed job q)).oneshots ≡ resolved o
  unfolding notified
  stale_poll t ts job q o ek fresh =
      rw (ek, waiters-reclaimed job q)
        (unfold reclaimed in
          poll-resolve_all (or_default (q.waiters job.key)) (k.oneshot q.oneshots).0 o
            (k.oneshot q.oneshots).1 fresh (k.poll-oneshot q.oneshots))

  -- A job's guard has recorded a failure under its first lock and not yet taken the waiters. A push
  -- of the same key then claims the key for a new job, whose handle is not among the old waiters;
  -- when the old guard goes on, the new handle resolves to the old failure and the key has no
  -- waiter, while the new job has not been sent to its lane.
  pub stale_outcome :
      (n : ℕ) (q : Queue C M H) (t : Task) (ts : List Task) (reason : Text) (job : Job)
      → take_at n q.tasks ≡ some (t, ts)
      → t.phase ≡ recorded (Outcome.failed reason)
      → t.job.key ≡ job.key
      → q.statemap job.key ≡ some (State.failed reason)
      → All (λ s. s ≢ (k.oneshot q.oneshots).0) (or_default (q.waiters job.key))
      → (id : ℕ) × (q' : Queue C M H) × ((push_claim k job q).0 ≡ claimed id)
        × (task_notify k n (push_claim k job q).1 ≡ some q')
        × (k.poll id q'.oneshots ≡ resolved (Outcome.failed reason))
        × (q'.waiters job.key ≡ none)
        × (q'.claims ≡ q.claims ++ record { job = job; receiver = id } ∷ [])
  stale_outcome n q t ts reason job e ep ek es fresh =
      let o : Outcome = Outcome.failed reason in
      let q1 = reclaimed job q in
      let claim_eq = push_claim-reclaimed job q reason es in
      (
        (k.oneshot q.oneshots).0,
        notified t o ts q1,
        rw claim_eq,
        rw claim_eq (task_notify-notified n q1 t ts o (unfold reclaimed in e) ep),
        stale_poll t ts job q o ek fresh,
        unfold notified remove in rw (ek, text_eq_refl job.key),
        unfold notified reclaimed in refl,
      )
