-- ===== src/Sqlite/Lease/Exclusive.antt =====
-- One worker at a time: a lease keeps the others out until it expires, and no longer.
use agentq.Prelude.{
  ℕ, ◌≡◌, refl, ap, Bool, false, not, ◌&&◌, ◌==◌, Option, some, ok, arith, ltb_ℤ, if◌then◌else◌,
  pos,
}
use agentq.Text.{Text, text_eq}
use agentq.Event.{
  Event, step_completed, step_failed, retry_scheduled, step_waiting, step_resumed, worker_recovered,
  ClaimResult, claimed, already_completed, held_by_other, already_waiting,
}
use agentq.Workflow.{Duration, SystemTime}
use agentq.Sqlite.Time.{expiry_nanos}
use agentq.Sqlite.Table.{Tables, select_step, upsert_step}
use agentq.Sqlite.Table.Laws.{select_step-upsert_step}
use agentq.Sqlite.Connection.{healthy, SqliteStore}
use agentq.Sqlite.Log.{append_event}
use agentq.Sqlite.Log.Project.{appended, append_event-appended, project, status_row}
use agentq.Sqlite.Lease.{claim_step, text_or_empty}
use agentq.Sqlite.Lease.Claim.{
  answer, granted, tables_after, claim_step_lem, select_step-granted, answer-lease_row,
  lease_expiry-pos,
}

-- The store at another time.
abbrev pub at_time : SystemTime → SqliteStore → SqliteStore
at_time later s = record s { clock = later }

pub claimed_answer :
    (w : Text) (i : ℕ) (a : Text) (ttl : Duration) (t : Tables) (now : SystemTime)
    → (claim_step w i a ttl (healthy t now)).0 ≡ ok claimed
    → answer a now (select_step w i t.steps) ≡ claimed
claimed_answer w i a ttl t now h = cc (h, claim_step_lem w i a ttl t now)

pub after_claim :
    (w : Text) (i : ℕ) (a : Text) (ttl : Duration) (t : Tables) (now : SystemTime)
    → answer a now (select_step w i t.steps) ≡ claimed
    → (claim_step w i a ttl (healthy t now)).1 ≡ healthy (granted w i a ttl t now) now
unfolding tables_after
after_claim w i a ttl t now h = rw (claim_step_lem w i a ttl t now, h)

module _ (w : Text) (i : ℕ) (a b : Text) (ttl ttl' : Duration) (t : Tables) (n : ℕ) where
  -- On a store whose lock is not poisoned and on which no call of rusqlite fails: after a worker's
  -- claim was granted at a time `n` at or after the epoch, a claim of the same step by any worker at
  -- any time is answered without an error. It is refused, because another worker holds the step,
  -- exactly if the worker is another one and the time is before the expiry of the lease; otherwise it
  -- is granted. The expiry is `n` plus the first claim's time to live if that sum is a `SystemTime`,
  -- and `n` itself, so that the lease keeps no one out later, if the sum overflows.
  pub claim_step-claim_step :
      (later : SystemTime)
      → (claim_step w i a ttl (healthy t (pos n))).0 ≡ ok claimed
      → (claim_step w i b ttl' (at_time later (claim_step w i a ttl (healthy t (pos n))).1)).0
        ≡ ok (
            if not (text_eq a b) && ltb_ℤ later (pos (expiry_nanos n ttl))
            then held_by_other
            else claimed)
  claim_step-claim_step later h =
      rw
        (
          after_claim w i a ttl t (pos n) (claimed_answer w i a ttl t (pos n) h),
          claim_step_lem w i b ttl' (granted w i a ttl t (pos n)) later,
        )
        (rw (select_step-granted w i a ttl t (pos n), lease_expiry-pos n ttl)
          (ap ok (answer-lease_row w i a b (expiry_nanos n ttl) _ later)))

-- The event sets the status of this step.
unfoldable pub concerns : Text → ℕ → Event → Bool
concerns w i (step_completed v j _) = text_eq v w && j == i
concerns w i (step_failed v j _) = text_eq v w && j == i
concerns w i (retry_scheduled v j _) = text_eq v w && j == i
concerns w i (step_waiting v j _) = text_eq v w && j == i
concerns w i (step_resumed v j _) = text_eq v w && j == i
concerns w i (worker_recovered v j) = text_eq v w && j == i
concerns w i _ = false

-- What a claim is answered right behind an event of its step.
unfoldable pub answer_behind : Event → ClaimResult
answer_behind (step_completed _ _ output) = already_completed output
answer_behind (step_waiting _ _ _) = already_waiting
answer_behind _ = claimed

module _ (w : Text) (i : ℕ) (a : Text) (ttl : Duration) (t : Tables) (now : SystemTime) where
  -- A row without a lease is claimed by whoever asks, unless it is completed or waiting.
  answer-upsert_status :
      (v : Text) (j : ℕ) (status : Text) (output reason : Option Text) (attempt : ℕ)
      → answer a now
          (select_step w i (upsert_step (status_row v j status output reason attempt) t.steps))
        ≡ (if text_eq v w && j == i
            then answer a now (some (status_row v j status output reason attempt))
            else answer a now (select_step w i t.steps))
  unfolding status_row
  answer-upsert_status v j status output reason attempt =
      rw (select_step-upsert_step w i (status_row v j status output reason attempt) t.steps)
        (ground arith)

  answer-project :
      (event : Event)
      → answer a now (select_step w i (project event t.steps)) ≡ (
          if concerns w i event
          then answer_behind event
          else answer a now (select_step w i t.steps))
  unfolding answer project status_row concerns answer_behind text_eq text_or_empty
  answer-project (step_completed v j x) = answer-upsert_status v j _ _ _ _
  answer-project (step_failed v j x) = answer-upsert_status v j _ _ _ _
  answer-project (retry_scheduled v j x) = answer-upsert_status v j _ _ _ _
  answer-project (step_waiting v j x) = answer-upsert_status v j _ _ _ _
  answer-project (step_resumed v j x) = answer-upsert_status v j _ _ _ _
  answer-project (worker_recovered v j) = answer-upsert_status v j _ _ _ _
  answer-project _ = refl

  pub answer-appended :
      (stamp : SystemTime) (event : Event)
      → answer a now (select_step w i (appended stamp event t).steps) ≡ (
          if concerns w i event
          then answer_behind event
          else answer a now (select_step w i t.steps))
  unfolding appended
  answer-appended stamp event = answer-project event

module _ (w : Text) (i : ℕ) (a : Text) (ttl : Duration) (t : Tables) (now : SystemTime) where
  -- On a store whose lock is not poisoned and on which no call of rusqlite fails: behind an event
  -- that sets the step's status, a claim by any worker, at the time of the append or any other, is
  -- answered by that event: the stored output if the step completed, `AlreadyWaiting` if it waits, and
  -- a grant otherwise. Behind any other event it is answered as a claim at that time would have been
  -- before the event.
  pub claim_step-append_event :
      (later : SystemTime) (event : Event)
      → (claim_step w i a ttl (at_time later (append_event event (healthy t now)).1)).0 ≡ (
          if concerns w i event
          then ok (answer_behind event)
          else (claim_step w i a ttl (healthy t later)).0)
  claim_step-append_event later event =
      rw
        (
          append_event-appended,
          claim_step_lem w i a ttl (appended now event t) later,
          claim_step_lem w i a ttl t later,
        )
        (ground (arith, answer-appended w i a ttl t later now event))
