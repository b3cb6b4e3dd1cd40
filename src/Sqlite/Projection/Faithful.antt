-- ===== src/Sqlite/Projection/Faithful.antt =====
-- Each write of the store keeps its table of steps faithful to its log.
use agentq.Prelude.{
  ℕ, subst, ◌≡◌, refl, sym, ap, ◌∙◌, inl, inr, Bool, true, false, ◌&&◌, ◌==◌, List, [], ◌∷◌, ◌++◌,
  Option, none, some, ok, ok-first, arith, if◌then◌else◌, Bool-cases,
}
use agentq.Text.{Text, text_eq, text_eq_iff}
use agentq.Event.{Event, ClaimResult, claimed}
use agentq.Workflow.{SystemTime, Duration, StepStatus, pending}
use agentq.Engine.Replay.{status_loop, step_status_from_events}
use agentq.Engine.Replay.Laws.{status_loop-append}
use agentq.Sqlite.Codec.{event_workflow_id, decode_event}
use agentq.Sqlite.Codec.RoundTrip.{FitsTypes, decode_event-encode_event}
use agentq.Sqlite.Table.{
  StepRecord, Tables, leased_status, select_events, select_step, update_leases, extend_lease,
  is_lease_of, is_step,
}
use agentq.Sqlite.Table.Laws.{select_step-upsert_step}
use agentq.Sqlite.Time.{lease_expiry, system_time_parts}
use agentq.Sqlite.Log.Project.{project, appended, event_record, stored_attempt}
use agentq.Sqlite.Log.Load.{decode_all, decode_all-append, select_events-appended}
use agentq.Sqlite.Lease.{lease_row}
use agentq.Sqlite.Lease.Claim.{tables_after, granted}
use agentq.Sqlite.Lease.Renew.{renewal, renewed, holds}
use agentq.Sqlite.Projection.{Agrees, StartsUnderLease, project-Agrees, status_behind}

pub record Faithful (t : Tables) : Type 0 where
  pub at :
      (w : Text) (i : ℕ) (es : List Event)
      → decode_all (select_events w t.events) ≡ ok es
      → Agrees (select_step w i t.steps) (step_status_from_events es i)

pick_leased :
    (b : Bool) (row : StepRecord) (old : Option StepRecord) (status : StepStatus)
    → row.status ≡ leased_status
    → Agrees old status
    → Agrees (if b then some row else old) status
pick_leased true row old status e h = inl e
pick_leased false row old status e h = h

Agrees-granted :
    (v : Text) (j : ℕ) (a : Text) (ttl : Duration) (t : Tables) (now : SystemTime) (w : Text)
    (i : ℕ) (status : StepStatus)
    → Agrees (select_step w i t.steps) status
    → Agrees (select_step w i (granted v j a ttl t now).steps) status
unfolding granted lease_row
Agrees-granted v j a ttl t now w i status h =
    let row = lease_row v j a (lease_expiry now ttl) (stored_attempt v j t.steps) in
    rw (select_step-upsert_step w i row t.steps)
      (pick_leased (text_eq v w && j == i) row (select_step w i t.steps) status refl h)

is_lease_of-status :
    (v : Text) (j : ℕ) (a : Text) (r : StepRecord)
    → is_lease_of v j a r ≡ true
    → r.status ≡ leased_status
unfolding is_lease_of
is_lease_of-status v j a r h = ground (arith, text_eq_iff r.status leased_status)

updated_first :
    (v : Text) (j : ℕ) (a : Text) (secs nanos : ℕ) (w : Text) (i : ℕ) (status : StepStatus)
    (r : StepRecord) (rs : List StepRecord)
    → Agrees (select_step w i (r ∷ rs)) status
    → (Agrees (select_step w i rs) status
        → Agrees (select_step w i (update_leases v j a secs nanos rs).0) status)
    → Agrees (select_step w i (update_leases v j a secs nanos (r ∷ rs)).0) status
unfolding update_leases select_step extend_lease
updated_first v j a secs nanos w i status r rs h rest = elim (Bool-cases (is_lease_of v j a r)) [
  | inl lease ↦ elim (Bool-cases (is_step w i r)) [
    | inl here ↦ rw (lease, here) (inl (is_lease_of-status v j a r lease))
    | inr other ↦ rw (lease, other) (rest (rw other at h))
  ]
  | inr free ↦ elim (Bool-cases (is_step w i r)) [
    | inl here ↦ rw (free, here) (rw here at h)
    | inr other ↦ rw (free, other) (rest (rw other at h))
  ]
]

Agrees-updated :
    (v : Text) (j : ℕ) (a : Text) (secs nanos : ℕ) (w : Text) (i : ℕ) (status : StepStatus)
    (rs : List StepRecord)
    → Agrees (select_step w i rs) status
    → Agrees (select_step w i (update_leases v j a secs nanos rs).0) status
unfolding update_leases select_step
Agrees-updated v j a secs nanos w i status [] h = h
Agrees-updated v j a secs nanos w i status (r ∷ rs) h =
    updated_first v j a secs nanos w i status r rs h (Agrees-updated v j a secs nanos w i status rs)

event_record-payload :
    (e : Event) (now : SystemTime) → FitsTypes e → decode_event (event_record now e).payload ≡ ok e
unfolding event_record
event_record-payload e now fits = decode_event-encode_event e fits

-- The events behind an append are those before it, and the new one if it is of the workflow.
appended-inv :
    (e : Event) (t : Tables) (now : SystemTime) (w : Text) (es : List Event)
    → FitsTypes e
    → decode_all (select_events w (appended now e t).events) ≡ ok es
    → (es' : List Event) × (decode_all (select_events w t.events) ≡ ok es')
      × (es ≡ (if text_eq (event_workflow_id e) w then es' ++ e ∷ [] else es'))
appended-inv e t now w es fits h = elim (Bool-cases (text_eq (event_workflow_id e) w)) [
  | inl own ↦
      let added =
        decode_all-append (select_events w t.events) (event_record now e) e
          (event_record-payload e now fits) in
      let whole : decode_all (select_events w t.events ++ event_record now e ∷ []) ≡ ok es =
        ground (arith, select_events-appended e t now w) in
      let (es', e', old) =
        ok-first _ es (decode_all (select_events w t.events)) (sym (sym added ∙ whole)) in
      (es', old, rw own (cc))
  | inr other ↦ (es, ground (arith, select_events-appended e t now w), rw other refl)
]

status_behind-append :
    (w : Text) (i : ℕ) (e : Event) (es : List Event)
    → (status_behind w i (status_loop i es (pending, 0)) e).0
      ≡ step_status_from_events (if text_eq (event_workflow_id e) w then es ++ e ∷ [] else es) i
unfolding status_behind
status_behind-append w i e es = elim (Bool-cases (text_eq (event_workflow_id e) w)) [
  | inl own ↦ rw own (
      unfold step_status_from_events in
      ap (λ s. s.0) (sym (status_loop-append i es e (pending, 0))))
  | inr other ↦ rw other (unfold step_status_from_events in refl)
]

pub Faithful-appended :
    (e : Event) (t : Tables) (now : SystemTime)
    → FitsTypes e
    → StartsUnderLease e t.steps
    → Faithful t
    → Faithful (appended now e t)
Faithful-appended e t now fits under f = record {
  at = λ w i es h.
      let (es', old, e') = appended-inv e t now w es fits h in
      subst (λ l. Agrees (select_step w i (appended now e t).steps) (step_status_from_events l i))
        (sym e')
        (unfold appended in
          subst (Agrees (select_step w i (project e t.steps))) (status_behind-append w i e es') (
            project-Agrees w i t.steps (status_loop i es' (pending, 0)) e under
              (unfold step_status_from_events in f.at w i es' old)));
}

Faithful-granted :
    (w : Text) (i : ℕ) (a : Text) (ttl : Duration) (t : Tables) (now : SystemTime)
    → Faithful t
    → Faithful (granted w i a ttl t now)
Faithful-granted v j a ttl t now f = record {
  at = λ w i es h. Agrees-granted v j a ttl t now w i _ (f.at w i es (unfold granted in h));
}

pub Faithful-after :
    (w : Text) (i : ℕ) (a : Text) (ttl : Duration) (t : Tables) (now : SystemTime) (r : ClaimResult)
    → Faithful t
    → Faithful (tables_after w i a ttl t now r)
unfolding tables_after
Faithful-after w i a ttl t now claimed f = Faithful-granted w i a ttl t now f
Faithful-after w i a ttl t now _ f = f

Faithful-renewed :
    (w : Text) (i : ℕ) (a : Text) (ttl : Duration) (t : Tables) (now : SystemTime)
    → Faithful t
    → Faithful (renewed w i a ttl t now)
unfolding renewed
Faithful-renewed v j a ttl t now f = record {
  at = λ w i es h.
      let (secs, nanos) = system_time_parts (lease_expiry now ttl) in
      Agrees-updated v j a secs nanos w i _ t.steps (f.at w i es h);
}

pub Faithful-renewal :
    (w : Text) (i : ℕ) (a : Text) (ttl : Duration) (t : Tables) (now : SystemTime)
    (row : Option StepRecord)
    → Faithful t
    → Faithful (renewal w i a ttl t now row).1
unfolding renewal
Faithful-renewal w i a ttl t now none f = f
Faithful-renewal w i a ttl t now (some r) f = elim (Bool-cases (holds a r)) [
  | inl held ↦ rw held (Faithful-renewed w i a ttl t now f)
  | inr not_held ↦ rw not_held f
]
