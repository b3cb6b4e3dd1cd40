-- ===== src/Queue/Wait.antt =====
-- src/queue.rs and src/handle.rs: `Queue::state`, `JobHandle`, and `push_and_wait` as a future that is
-- polled between the steps of the queue.
use agentq.Prelude.{
  ℕ, ◌≡◌, ◌≢◌, refl, sym, subst, ◌∙◌, ap, true, ◌==◌, List, [], ◌∷◌, Option, none, some, Result, ok,
  err, arith, Bool-cases, inl, inr, ==_iff,
}
use agentq.Text.{Text, text_eq_refl}
use agentq.Job.{Job, State, Outcome, lane_closed, JobLost, job_lost, WaitError, push, lost}
use agentq.Tokio.{Tokio, Sent, accepted, full, closed, Poll, unresolved, resolved, dropped}
use agentq.Queue.{Queue, Claim, Task, recorded, or_default, remove}
use agentq.Queue.Steps.{
  take_at, ClaimAnswer, cached, in_flight, claimed, push_claim, drop_senders, forget_waiters,
  push_cancel, resolve_all, notify_task, task_notify,
}
use agentq.Queue.Listed.{listed}

-- What `push_and_wait` returns by its job's handle.
unfoldable pub outcome_result : Result JobLost Outcome → Result WaitError Text
outcome_result (ok (Outcome.completed output)) = ok output
outcome_result (ok (Outcome.failed reason)) = err (WaitError.failed reason)
outcome_result (err e) = err (lost e)

-- The future of `push_and_wait`: in its `send`, with the receiver of the job; at its handle; or
-- ended.
pub data PushAndWait : Type 0 where
  sending : ℕ → PushAndWait
  awaiting : ℕ → PushAndWait
  ended : Result WaitError Text → PushAndWait

unfoldable pub claim_result : ClaimAnswer → PushAndWait
claim_result (cached output) = ended (ok output)
claim_result (in_flight id) = awaiting id
claim_result (claimed id) = sending id

unfoldable pub send_result : {C : Type 0} → Sent C → ℕ → PushAndWait
send_result (accepted c) id = awaiting id
send_result full id = sending id
send_result closed id = ended (err (push lane_closed))

-- `poll` of a one-shot receiver, with `map_err(|_| JobLost)`
unfoldable pub handle_result : Poll → Option (Result JobLost Outcome)
handle_result unresolved = none
handle_result (resolved outcome) = some (ok outcome)
handle_result dropped = some (err job_lost)

unfoldable pub await_result : Option (Result JobLost Outcome) → ℕ → PushAndWait
unfolding outcome_result
await_result none id = awaiting id
await_result (some r) id = ended (outcome_result r)

module _ {C M H : Type 0} (k : Tokio C M H) where
  -- `Queue::state`
  unfoldable pub state : Text → Queue C M H → Option State
  state key q = q.statemap key

  -- `JobHandle::poll`
  unfoldable pub poll_handle : ℕ → Queue C M H → Option (Result JobLost Outcome)
  unfolding handle_result
  poll_handle id q = handle_result (k.poll id q.oneshots)

  -- `push_and_wait` up to its first await.
  unfoldable pub push_and_wait : Job → Queue C M H → PushAndWait × Queue C M H
  unfolding push_claim claim_result
  push_and_wait job q = let r = push_claim k job q in (claim_result r.0, r.1)

  -- A poll of the future at its handle.
  unfoldable pub poll_wait : PushAndWait → Queue C M H → PushAndWait
  unfolding poll_handle await_result
  poll_wait (awaiting id) q = await_result (poll_handle id q) id
  poll_wait w q = w

  -- One call for each receiver, which gives every unresolved one of them the value.
  module _ (op : ℕ → H → H) (value : Poll) (run : List ℕ → H → H) (run_nil : (h : H) → run [] h ≡ h)
      (run_cons : (s : ℕ) (ss : List ℕ) (h : H) → run (s ∷ ss) h ≡ run ss (op s h))
      (gives : (i : ℕ) (h : H) → k.poll i h ≡ unresolved → k.poll i (op i h) ≡ value)
      (settled : (i : ℕ) (h : H) → k.poll i h ≢ unresolved → k.poll i (op i h) ≡ k.poll i h)
      (other : (i s : ℕ) (h : H) → i ≢ s → k.poll i (op s h) ≡ k.poll i h)
      (decides : value ≢ unresolved) where
    one-settled : (s i : ℕ) (h : H) → k.poll i h ≢ unresolved → k.poll i (op s h) ≡ k.poll i h
    one-settled s i h n = elim (Bool-cases (s == i)) [
      | inl e ↦
          let si : i ≡ s = ground (arith, ==_iff s i) in
          subst (λ x. k.poll i (op x h) ≡ k.poll i h) si (settled i h n)
      | inr ne ↦ other i s h (λ x. ground (arith, ==_iff s i))
    ]

    run-settled :
        (ss : List ℕ) (i : ℕ) (h : H) → k.poll i h ≢ unresolved → k.poll i (run ss h) ≡ k.poll i h
    run-settled [] i h n = ap (k.poll i) (run_nil h)
    run-settled (s ∷ ss) i h n =
        let e = one-settled s i h n in
        ap (k.poll i) (run_cons s ss h) ∙ run-settled ss i (op s h) (λ u. n (sym e ∙ u)) ∙ e

    run-listed :
        (ss : List ℕ) (i : ℕ) (h : H)
        → listed i ss ≡ true
        → k.poll i h ≡ unresolved
        → k.poll i (run ss h) ≡ value
    unfolding listed
    run-listed [] i h l u = cc
    run-listed (s ∷ ss) i h l u = ap (k.poll i) (run_cons s ss h) ∙ elim (Bool-cases (s == i)) [
      | inl e ↦
          let si : i ≡ s = ground (arith, ==_iff s i) in
          let v = subst (λ x. k.poll i (op x h) ≡ value) si (gives i h u) in
          run-settled ss i (op s h) (λ x. decides (sym v ∙ x)) ∙ v
      | inr ne ↦
          run-listed ss i (op s h) (ground (arith, l))
            (other i s h (λ x. ground (arith, ==_iff s i)) ∙ u)
    ]

  resolve_all-listed :
      (ss : List ℕ) (o : Outcome) (i : ℕ) (h : H)
      → listed i ss ≡ true
      → k.poll i h ≡ unresolved
      → k.poll i (resolve_all k ss o h) ≡ resolved o
  unfolding resolve_all
  resolve_all-listed ss o =
      run-listed (λ s. k.resolve s o) (resolved o) (λ ss. resolve_all k ss o) (λ h. refl)
        (λ s ss h. refl) (λ i. k.poll-resolve i o) (λ i. k.poll-resolve_settled i o)
        (λ i s. k.poll-resolve_ne i s o) (λ e. cc) ss

  drop_senders-listed :
      (ss : List ℕ) (i : ℕ) (h : H)
      → listed i ss ≡ true
      → k.poll i h ≡ unresolved
      → k.poll i (drop_senders k ss h) ≡ dropped
  unfolding drop_senders
  drop_senders-listed =
      run-listed k.drop_sender dropped (drop_senders k) (λ h. refl) (λ s ss h. refl)
        k.poll-drop_sender k.poll-drop_sender_settled k.poll-drop_sender_ne (λ e. cc)

  outcome_result-ok :
      (o : Outcome)
      → outcome_result (ok o) ≡ elim o [
        | Outcome.completed output ↦ ok output
        | Outcome.failed reason ↦ err (WaitError.failed reason)
      ]
  unfolding outcome_result
  outcome_result-ok (Outcome.completed output) = refl
  outcome_result-ok (Outcome.failed reason) = refl

  -- When the task of a job has recorded its outcome and sends it, each `push_and_wait` that waits for
  -- the key and is not yet settled returns at its next poll: the output if the job completed, and the
  -- reason as an error if it failed.
  pub poll_wait-task_notify :
      (n i : ℕ) (t : Task) (ts : List Task) (o : Outcome) (q q' : Queue C M H)
      → take_at n q.tasks ≡ some (t, ts)
      → t.phase ≡ recorded o
      → listed i (or_default (q.waiters t.job.key)) ≡ true
      → k.poll i q.oneshots ≡ unresolved
      → task_notify k n q ≡ some q'
      → poll_wait (awaiting i) q'
        ≡ ended (elim o [
          | Outcome.completed output ↦ ok output
          | Outcome.failed reason ↦ err (WaitError.failed reason)
        ])
  unfolding poll_wait poll_handle handle_result await_result
  poll_wait-task_notify n i t ts o q q' at_n phase there u e =
      let e' : notify_task k t.phase t ts q ≡ some q' =
        unfold task_notify in rw (at_n, task_notify) at e in
      let e'' = rw phase at e' in
      let h : resolve_all k (or_default (q.waiters t.job.key)) o q.oneshots ≡ q'.oneshots =
        unfold notify_task in cc e'' in
      rw (sym h, resolve_all-listed (or_default (q.waiters t.job.key)) o i q.oneshots there u)
        (ap ended (outcome_result-ok o))

  -- When a push is dropped while it waits for room in its lane, each other `push_and_wait` that waits
  -- for its key and is not yet settled returns at its next poll with the error that its job was lost,
  -- and the key is free again.
  pub poll_wait-push_cancel :
      (n i : ℕ) (c : Claim) (cs : List Claim) (q q' : Queue C M H)
      → take_at n q.claims ≡ some (c, cs)
      → listed i (or_default (q.waiters c.job.key)) ≡ true
      → k.poll i q.oneshots ≡ unresolved
      → push_cancel k n q ≡ some q'
      → (poll_wait (awaiting i) q' ≡ ended (err (lost job_lost))) × (state c.job.key q' ≡ none)
  unfolding poll_wait poll_handle handle_result await_result state
  poll_wait-push_cancel n i c cs q q' at_n there u e =
      let q1 = record q { claims = cs; statemap = remove c.job.key q.statemap } in
      let e' : some (forget_waiters k c.job.key q1) ≡ some q' =
        unfold push_cancel in rw (at_n, push_cancel) at e in
      let h : forget_waiters k c.job.key q1 ≡ q' = cc e' in
      (
        subst (λ x. poll_wait (awaiting i) x ≡ ended (err (lost job_lost))) h
            (unfold forget_waiters in
              rw (drop_senders-listed (or_default (q.waiters c.job.key)) i q.oneshots there u)),
        subst (λ x. state c.job.key x ≡ none) h
            (unfold forget_waiters remove in rw (text_eq_refl c.job.key)),
      )
