-- ===== src/Sqlite/Lease/Renew.antt =====
-- `renew_lease`: who may renew, and what it changes, when no call fails.
use agentq.Prelude.{
  ℕ, ◌≡◌, refl, ap, Bool, true, false, not, ◌&&◌, ◌==◌, List, [], ◌∷◌, Option, none, some, Result,
  ok, err, arith, ltb_ℤ, if◌then◌else◌, pos, Bool-cases, inl, inr, ◌↔◌,
}
use agentq.Text.{Text, codes, text_eq, text_eq_iff, text_eq_refl}
use agentq.Event.{held_by_other, claimed}
use agentq.Workflow.{Duration, SystemTime}
use agentq.Store.{StoreError, not_found, backend}
use agentq.Sqlite.Time.{
  lease_expiry, system_time_parts, expiry_nanos, system_time_from_parts-system_time_parts,
}
use agentq.Sqlite.Table.{
  Tables, StepRecord, select_step, opt_text_eq, extend_lease, update_leases, leased_status,
}
use agentq.Sqlite.Connection.{healthy}
use agentq.Sqlite.Lease.Exclusive.{at_time}
use agentq.Sqlite.Lease.{renew_lease, claim_step, is_held_by_other}
use agentq.Sqlite.Lease.Claim.{answer, claim_step_lem, lease_expiry-pos}

-- The row is a lease of the worker.
unfoldable pub holds : Text → StepRecord → Bool
holds worker_id r = text_eq r.status leased_status && opt_text_eq r.worker_id worker_id

module _ (w : Text) (i : ℕ) (a : Text) (secs nanos : ℕ) where
  select_step-update_leases :
      (rs : List StepRecord) (r : StepRecord)
      → select_step w i rs ≡ some r
      → holds a r ≡ true
      → select_step w i (update_leases w i a secs nanos rs).0 ≡ some (extend_lease secs nanos r)
  unfolding select_step update_leases holds
  select_step-update_leases [] r e h = cc
  select_step-update_leases (q ∷ rs) r e h = ground (arith, select_step-update_leases rs r)

  updates-ne-zero :
      (rs : List StepRecord) (r : StepRecord)
      → select_step w i rs ≡ some r
      → holds a r ≡ true
      → ((update_leases w i a secs nanos rs).1 == 0) ≡ false
  unfolding select_step update_leases holds
  updates-ne-zero [] r e h = cc
  updates-ne-zero (q ∷ rs) r e h = ground (arith, updates-ne-zero rs r)

module _ (w : Text) (i : ℕ) (a : Text) (ttl : Duration) (t : Tables) (now : SystemTime) where
  unfoldable pub renewed : Tables
  renewed =
      let (secs, nanos) = system_time_parts (lease_expiry now ttl) in
      record t { steps = (update_leases w i a secs nanos t.steps).0 }

  renew_lease_held :
      (r : StepRecord)
      → select_step w i t.steps ≡ some r
      → holds a r ≡ true
      → renew_lease w i a ttl (healthy t now) ≡ (ok tt, healthy renewed now)
  unfolding renew_lease renewed holds
  renew_lease_held r e h = ground (
    arith,
    e,
    updates-ne-zero w i a (system_time_parts (lease_expiry now ttl)).0
        (system_time_parts (lease_expiry now ttl)).1 t.steps r,
  )

  renew_lease_refused :
      (r : StepRecord)
      → select_step w i t.steps ≡ some r
      → holds a r ≡ false
      → renew_lease w i a ttl (healthy t now)
        ≡ (err (backend (codes "lease not held by worker")), healthy t now)
  unfolding renew_lease holds
  renew_lease_refused r e h = ground (arith, e)

  renew_lease_missing :
      select_step w i t.steps ≡ none
      → renew_lease w i a ttl (healthy t now) ≡ (err not_found, healthy t now)
  unfolding renew_lease
  renew_lease_missing e = ground (arith, e)

  -- What `renew_lease` returns by the step's row, and the tables behind it.
  unfoldable pub renewal : Option StepRecord → Result StoreError (Unit {0}) × Tables
  unfolding holds renewed
  renewal none = (err not_found, t)
  renewal (some r) =
      if holds a r then (ok tt, renewed) else (err (backend (codes "lease not held by worker")), t)

  pub renew_lease_row :
      (row : Option StepRecord)
      → select_step w i t.steps ≡ row
      → renew_lease w i a ttl (healthy t now) ≡ ((renewal row).0, healthy (renewal row).1 now)
  unfolding renewal
  renew_lease_row none e = rw (renew_lease_missing e)
  renew_lease_row (some r) e = ground (arith, renew_lease_held r e, renew_lease_refused r e)

pub holds-leased :
    (a : Text) (status : Text) (worker : Option Text)
    → (text_eq status leased_status && opt_text_eq worker a) ≡ true
    → (status ≡ leased_status) × (worker ≡ some a)
unfolding opt_text_eq
holds-leased a status none h = ground arith
holds-leased a status (some b) h = ground (arith, text_eq_iff status leased_status, text_eq_iff b a)

answer-extend_lease :
    (a b : Text) (expiry : ℕ) (r : StepRecord) (later : SystemTime)
    → holds a r ≡ true
    → answer b later (
        some (extend_lease (system_time_parts (pos expiry)).0 (system_time_parts (pos expiry)).1 r))
      ≡ (if not (text_eq a b) && ltb_ℤ later (pos expiry) then held_by_other else claimed)
unfolding answer is_held_by_other holds extend_lease text_eq
answer-extend_lease a b expiry r later h =
    let (es, ew) = holds-leased a r.status r.worker_id h in
    rw (es, ew, system_time_from_parts-system_time_parts expiry)

-- The step has a row, which is a lease of the worker.
abbrev pub HeldBy : Text → Option StepRecord → Type 0
HeldBy a none = ⊥
HeldBy a (some r) = (r.status ≡ leased_status) × (r.worker_id ≡ some a)

module _ (w : Text) (i : ℕ) (a : Text) (ttl : Duration) (t : Tables) (now : SystemTime) where
  renewal_iff : (row : Option StepRecord) → ((renewal w i a ttl t now row).0 ≡ ok tt) ↔ HeldBy a row
  unfolding renewal holds opt_text_eq
  renewal_iff none = (λ h. cc, λ h. absurd h)
  renewal_iff (some r) = (
    λ h. holds-leased a r.status r.worker_id (ground arith),
    λ h. rw (h.0, h.1, text_eq_refl leased_status, text_eq_refl a),
  )

  -- On a store whose lock is not poisoned and on which no call of rusqlite fails: a renewal succeeds
  -- exactly for the worker that the step is leased to, whether or not that lease has expired.
  pub renew_lease_iff :
      ((renew_lease w i a ttl (healthy t now)).0 ≡ ok tt) ↔ HeldBy a (select_step w i t.steps)
  renew_lease_iff =
      rw (renew_lease_row w i a ttl t now (select_step w i t.steps) refl)
        (renewal_iff (select_step w i t.steps))

module _ (w : Text) (i : ℕ) (a b : Text) (ttl ttl' : Duration) (t : Tables) (n : ℕ) where
  claim_behind_renewal :
      (later : SystemTime) (row : Option StepRecord)
      → select_step w i t.steps ≡ row
      → (renewal w i a ttl t (pos n) row).0 ≡ ok tt
      → answer b later (select_step w i (renewal w i a ttl t (pos n) row).1.steps) ≡ (
          if not (text_eq a b) && ltb_ℤ later (pos (expiry_nanos n ttl))
          then held_by_other
          else claimed)
  unfolding renewal renewed
  claim_behind_renewal later none e h = cc
  claim_behind_renewal later (some r) e h = elim (Bool-cases (holds a r)) [
    | inl held ↦
        rw (held, lease_expiry-pos n ttl)
          (rw (select_step-update_leases w i a _ _ t.steps r e held)
            (answer-extend_lease a b (expiry_nanos n ttl) r later held))
    | inr not_held ↦ ground arith
  ]

  -- On a store whose lock is not poisoned and on which no call of rusqlite fails: behind a renewal
  -- that succeeded at a time `n` at or after the epoch, a claim by any worker at any time is answered
  -- without an error. It is refused, because another worker holds the step, exactly if the worker is
  -- another one and the time is before the expiry of the renewed lease; otherwise it is granted. The
  -- expiry is `n` plus the renewal's time to live if that sum is a `SystemTime`, and `n` itself if the
  -- sum overflows.
  pub claim_step-renew_lease :
      (later : SystemTime)
      → (renew_lease w i a ttl (healthy t (pos n))).0 ≡ ok tt
      → (claim_step w i b ttl' (at_time later (renew_lease w i a ttl (healthy t (pos n))).1)).0
        ≡ ok (
            if not (text_eq a b) && ltb_ℤ later (pos (expiry_nanos n ttl))
            then held_by_other
            else claimed)
  claim_step-renew_lease later h =
      let e = renew_lease_row w i a ttl t (pos n) (select_step w i t.steps) refl in
      rw
        (
          e,
          claim_step_lem w i b ttl' (renewal w i a ttl t (pos n) (select_step w i t.steps)).1 later,
        )
        (ap ok (claim_behind_renewal later (select_step w i t.steps) refl (rw e at h)))
