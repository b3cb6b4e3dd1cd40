-- ===== src/Sqlite/Lease/Expiry.antt =====
-- `expired_leases` reports a lease exactly from the time on at which another worker may claim it.
use agentq.Prelude.{
  ℕ, ◌≡◌, refl, Bool, not, ◌&&◌, ◌==◌, List, [], ◌∷◌, some, ok, any, arith, ltb, ltb_ℤ, pos, map,
  ap, ◌∙◌,
}
use agentq.Text.{Text, text_eq}
use agentq.Event.{claimed}
use agentq.Workflow.{Duration, SystemTime, Execution}
use agentq.Sqlite.Time.{system_time_parts, lease_expiry, expiry_nanos}
use agentq.Sqlite.Table.{Tables, StepRecord, is_step, select_expired, is_expired}
use agentq.Sqlite.Table.Keys.{Unique, any-select_expired, opt_expired, Unique-upsert_step}
use agentq.Sqlite.Connection.{Connection, healthy}
use agentq.Sqlite.Log.Project.{stored_attempt}
use agentq.Sqlite.Lease.Claim.{granted, select_step-granted, lease_expiry-pos}
use agentq.Sqlite.Lease.Exclusive.{at_time, after_claim, claimed_answer}
use agentq.Sqlite.Lease.{claim_step, expired_leases, fetch_executions, row_execution, lease_row}

module _ (t : Tables) where
  abbrev quiet : Connection
  quiet = record { tables = t; answers = [] }

  fetch_executions-map :
      (rows : List StepRecord) → fetch_executions rows quiet ≡ (ok (map row_execution rows), quiet)
  unfolding fetch_executions
  fetch_executions-map [] = refl
  fetch_executions-map (r ∷ rs) = ground (arith, fetch_executions-map rs)

  pub expired_leases-map :
      (now : SystemTime)
      → expired_leases (healthy t now) ≡ (
        ok (
            map row_execution
              (select_expired (system_time_parts now).0 (system_time_parts now).1 t.steps)),
        healthy t now,
      )
  unfolding expired_leases
  expired_leases-map now = ground (
    arith,
    fetch_executions-map
        (select_expired (system_time_parts now).0 (system_time_parts now).1 t.steps),
  )

-- A lease as a claim writes it, at a time after the epoch: it is expired when no longer to come.
is_expired-lease_row :
    (w : Text) (i : ℕ) (a : Text) (expiry attempt m : ℕ)
    → is_expired
        (system_time_parts (pos m)).0
        (system_time_parts (pos m)).1
        (lease_row w i a (pos expiry) attempt)
      ≡ not (ltb_ℤ (pos m) (pos expiry))
unfolding is_expired lease_row system_time_parts text_eq
is_expired-lease_row w i a expiry attempt m = ground arith

-- A report names the step.
unfoldable pub names : Text → ℕ → List Execution → Bool
names w i es = any (λ e. text_eq e.workflow_id w && e.step_index == i) es

names-map :
    (w : Text) (i : ℕ) (rows : List StepRecord)
    → names w i (map row_execution rows) ≡ any (is_step w i) rows
unfolding names row_execution is_step
names-map w i [] = refl
names-map w i (r ∷ rs) = ground (arith, names-map w i rs)

Unique-granted :
    (w : Text) (i : ℕ) (a : Text) (ttl : Duration) (t : Tables) (now : SystemTime)
    → Unique t.steps
    → Unique (granted w i a ttl t now).steps
unfolding granted
Unique-granted w i a ttl t now u = Unique-upsert_step _ t.steps u

opt_expired-lease :
    (w : Text) (i : ℕ) (a : Text) (n : ℕ) (ttl : Duration) (m attempt : ℕ)
    → opt_expired
        (system_time_parts (pos m)).0
        (system_time_parts (pos m)).1
        (some (lease_row w i a (lease_expiry (pos n) ttl) attempt))
      ≡ not (ltb m (expiry_nanos n ttl))
unfolding opt_expired
opt_expired-lease w i a n ttl m attempt =
    rw (lease_expiry-pos n ttl) (is_expired-lease_row w i a (expiry_nanos n ttl) attempt m)

module _ (w : Text) (i : ℕ) (a : Text) (ttl : Duration) (t : Tables) (n m : ℕ) where
  -- On a store whose lock is not poisoned, on which no call of rusqlite fails, and whose table of
  -- steps has at most one row for each step: behind a claim that was granted at a time `n` at or after
  -- the epoch, `expired_leases` at a time `m` at or after the epoch returns without an error, and its
  -- report names the step exactly if `m` is not before the expiry of the lease. The expiry is `n` plus
  -- the time to live if that sum is a `SystemTime`, and `n` itself if the sum overflows.
  pub expired_leases-claim_step :
      Unique t.steps
      → (claim_step w i a ttl (healthy t (pos n))).0 ≡ ok claimed
      → (es : List Execution) × ((expired_leases
            (at_time (pos m) (claim_step w i a ttl (healthy t (pos n))).1)).0
          ≡ ok es)
        × (names w i es ≡ not (ltb m (expiry_nanos n ttl)))
  expired_leases-claim_step u h =
      let g = granted w i a ttl t (pos n) in
      let (secs, nanos) = system_time_parts (pos m) in
      (
        map row_execution (select_expired secs nanos g.steps),
        rw (after_claim w i a ttl t (pos n) (claimed_answer w i a ttl t (pos n) h))
            (ap (λ r. r.0) (expired_leases-map g (pos m))),
        names-map w i (select_expired secs nanos g.steps)
            ∙ any-select_expired w i secs nanos g.steps (Unique-granted w i a ttl t (pos n) u)
            ∙ ap (opt_expired secs nanos) (select_step-granted w i a ttl t (pos n))
            ∙ opt_expired-lease w i a n ttl m (stored_attempt w i t.steps),
      )
