-- ===== src/Sqlite/Spec/Grants.antt =====
-- src/store/sqlite.rs: the calls behind which a claim of a worker is still granted.
use agentq.Prelude.{
  ==_refl, ◌==◌, ◌&&◌, ℕ, ◌≡◌, refl, ap, true, false, List, [], ◌∷◌, Option, none, some,
  if◌then◌else◌, arith, Bool-cases, inl, inr,
}
use agentq.Text.{Text, text_eq, text_eq_refl}
use agentq.Event.{
  Event, step_completed, step_failed, retry_scheduled, step_waiting, step_resumed, worker_recovered,
  ClaimResult, claimed, already_completed, held_by_other, already_waiting,
}
use agentq.Workflow.{Duration, SystemTime}
use agentq.Store.Spec.{closes}
use agentq.Sqlite.Time.{lease_expiry}
use agentq.Sqlite.Table.{
  Tables, StepRecord, is_lease_of, is_step, select_events, select_step, upsert_step, update_leases,
  extend_lease,
}
use agentq.Sqlite.Table.Laws.{select_step-upsert_step}
use agentq.Sqlite.Connection.{healthy}
use agentq.Sqlite.Log.Project.{appended, stored_attempt}
use agentq.Sqlite.Lease.{claim_step, renew_lease, lease_row, is_held_by_other}
use agentq.Sqlite.Lease.Claim.{answer, claim_step_lem, tables_after, granted}
use agentq.Sqlite.Lease.Renew.{renew_lease_row, renewal, renewed, holds, holds-leased}
use agentq.Sqlite.Lease.Exclusive.{concerns, answer_behind, answer-appended}

pub answer-closes :
    (w : Text) (i : ℕ) (e : Event) (r : ClaimResult)
    → closes w i e ≡ false
    → r ≡ claimed
    → (if concerns w i e then answer_behind e else r) ≡ claimed
unfolding closes concerns answer_behind
answer-closes w i (step_completed v j _) r h o = ground (arith, h, o)
answer-closes w i (step_waiting v j _) r h o = ground (arith, h, o)
answer-closes w i (step_failed v j _) r h o = ground (arith, o)
answer-closes w i (retry_scheduled v j _) r h o = ground (arith, o)
answer-closes w i (step_resumed v j _) r h o = ground (arith, o)
answer-closes w i (worker_recovered v j) r h o = ground (arith, o)
answer-closes w i _ r h o = o

own_lease :
    (a : Text) (now : SystemTime) (secs nanos : Option ℕ)
    → is_held_by_other a now (some a) secs nanos ≡ false
unfolding is_held_by_other
own_lease a now none nanos = refl
own_lease a now (some secs) none = refl
own_lease a now (some secs) (some nanos) = rw (text_eq_refl a)

-- A worker's own lease does not keep it out.
answer-own :
    (a : Text) (now : SystemTime) (r : StepRecord)
    → holds a r ≡ true
    → answer a now (some r) ≡ claimed
unfolding answer text_eq holds
answer-own a now r h =
    let (es, ew) = holds-leased a r.status r.worker_id h in
    rw (es, ew, own_lease a now r.expires_at_secs r.expires_at_nanos)

module _ (w : Text) (i : ℕ) (a : Text) (ttl : Duration) (t : Tables) (now : SystemTime) where
  pub tables_after-events : (r : ClaimResult) → (tables_after w i a ttl t now r).events ≡ t.events
  unfolding tables_after granted
  tables_after-events claimed = refl
  tables_after-events (already_completed _) = refl
  tables_after-events held_by_other = refl
  tables_after-events already_waiting = refl

  holds-lease_row :
      (expires_at : SystemTime) (attempt : ℕ) → holds a (lease_row w i a expires_at attempt) ≡ true
  unfolding holds lease_row text_eq agentq.Sqlite.Table.opt_text_eq
  holds-lease_row expires_at attempt = text_eq_refl a

  answer-granted :
      (v : Text) (j : ℕ)
      → answer a now (select_step v j t.steps) ≡ claimed
      → answer a now (select_step v j (granted w i a ttl t now).steps) ≡ claimed
  unfolding granted
  answer-granted v j o =
      let row = lease_row w i a (lease_expiry now ttl) (stored_attempt w i t.steps) in
      rw (select_step-upsert_step v j row t.steps) (
        ground (
          arith,
          o,
          answer-own a now row
              (holds-lease_row (lease_expiry now ttl) (stored_attempt w i t.steps)),
        ))

  pub answer-tables_after :
      (v : Text) (j : ℕ) (r : ClaimResult)
      → answer a now (select_step v j t.steps) ≡ claimed
      → answer a now (select_step v j (tables_after w i a ttl t now r).steps) ≡ claimed
  unfolding tables_after
  answer-tables_after v j claimed o = answer-granted v j o
  answer-tables_after v j (already_completed _) o = o
  answer-tables_after v j held_by_other o = o
  answer-tables_after v j already_waiting o = o

  holds-extend_lease :
      (secs nanos : ℕ) (r : StepRecord)
      → is_lease_of w i a r ≡ true
      → holds a (extend_lease secs nanos r) ≡ true
  unfolding holds extend_lease is_lease_of text_eq
  holds-extend_lease secs nanos r h = ground arith

  is_step-extend_lease :
      (v : Text) (j : ℕ) (secs nanos : ℕ) (r : StepRecord)
      → is_step v j (extend_lease secs nanos r) ≡ is_step v j r
  unfolding is_step extend_lease
  is_step-extend_lease v j secs nanos r = refl

  answer-update_leases :
      (secs nanos : ℕ) (v : Text) (j : ℕ) (rs : List StepRecord)
      → answer a now (select_step v j rs) ≡ claimed
      → answer a now (select_step v j (update_leases w i a secs nanos rs).0) ≡ claimed
  unfolding select_step update_leases
  answer-update_leases secs nanos v j [] o = o
  answer-update_leases secs nanos v j (r ∷ rs) o = elim (Bool-cases (is_lease_of w i a r)) [
    | inl e ↦ rw e (
        ground (
          arith,
          is_step-extend_lease v j secs nanos r,
          answer-update_leases secs nanos v j rs,
          answer-own a now (extend_lease secs nanos r) (holds-extend_lease secs nanos r e),
        ))
    | inr e ↦ rw e (ground (arith, answer-update_leases secs nanos v j rs))
  ]

  pub renewal-events : (row : Option StepRecord) → (renewal w i a ttl t now row).1.events ≡ t.events
  unfolding renewal renewed
  renewal-events none = refl
  renewal-events (some r) = ground arith

  pub answer-renewal :
      (v : Text) (j : ℕ) (row : Option StepRecord)
      → answer a now (select_step v j t.steps) ≡ claimed
      → answer a now (select_step v j (renewal w i a ttl t now row).1.steps) ≡ claimed
  unfolding renewal renewed
  answer-renewal v j none o = o
  answer-renewal v j (some r) o = elim (Bool-cases (holds a r)) [
    | inl e ↦ rw e (answer-update_leases _ _ v j t.steps o)
    | inr e ↦ rw e o
  ]

-- Behind an event that frees its step, the step may be claimed.
pub answer-opened :
    (w : Text) (i : ℕ) (a : Text) (t : Tables) (now : SystemTime) (e : Event)
    → concerns w i e ≡ true
    → answer_behind e ≡ claimed
    → answer a now (select_step w i (appended now e t).steps) ≡ claimed
answer-opened w i a t now e own frees = rw (answer-appended w i a 0 t now now e, own, frees)

pub own_step : (w : Text) (i : ℕ) → text_eq w w && i == i ≡ true
own_step w i = rw (text_eq_refl w, ==_refl i)

pub claim_step-after :
    (w : Text) (i : ℕ) (a : Text) (ttl : Duration) (t : Tables) (now : SystemTime)
    → (claim_step w i a ttl (healthy t now)).1
      ≡ healthy (tables_after w i a ttl t now (answer a now (select_step w i t.steps))) now
claim_step-after w i a ttl t now = ap (λ p. p.1) (claim_step_lem w i a ttl t now)

pub renew_lease-after :
    (w : Text) (i : ℕ) (a : Text) (ttl : Duration) (t : Tables) (now : SystemTime)
    → (renew_lease w i a ttl (healthy t now)).1
      ≡ healthy (renewal w i a ttl t now (select_step w i t.steps)).1 now
renew_lease-after w i a ttl t now =
    ap (λ p. p.1) (renew_lease_row w i a ttl t now (select_step w i t.steps) refl)
