-- ===== src/Mem/Spec.antt =====
-- src/recovery.rs, src/engine.rs: the in-memory stores of the tests give what the engine relies on.
use agentq.Prelude.{
  ℕ, ◌≡◌, refl, true, false, ◌&&◌, List, [], ◌∷◌, ◌++◌, append-nil, Option, none, some,
  if◌then◌else◌, ==_refl, ◌==◌, arith,
}
use agentq.Text.{Text, text_eq, text_eq_iff, text_eq_refl}
use agentq.Event.{
  Event, ClaimResult, claimed, already_completed, held_by_other, already_waiting, step_completed,
  worker_recovered,
}
use agentq.Workflow.{Duration, SystemTime}
use agentq.Store.Spec.{StoreSpec, StoreView, closes}
use agentq.Sqlite.Codec.{event_workflow_id}
use agentq.Mem.{
  MemStore, StepEntry, StepProjection, is_entry, get, put, set_pending, project, events_of,
  claim_answer, attempt_of, after_answer, append_event, load_events, claim_step, renew_lease,
  mem_durable_store,
}
use agentq.Mem.EventsOnly.{EventsOnly, events_only_store}

events_of-append :
    (w : Text) (es fs : List Event) → events_of w (es ++ fs) ≡ events_of w es ++ events_of w fs
unfolding events_of
events_of-append w [] fs = refl
events_of-append w (e ∷ es) fs = ground (arith, events_of-append w es fs)

-- What a store that keeps the events in one list reads behind an append.
events_of-behind :
    (w : Text) (es : List Event) (e : Event)
    → events_of w (es ++ e ∷ [])
      ≡ (if text_eq (event_workflow_id e) w then events_of w es ++ e ∷ [] else events_of w es)
unfolding events_of
events_of-behind w es e =
    ground (arith, events_of-append w es (e ∷ []), append-nil (events_of w es))

-- A row that is put is read back at its key, and every other key is left alone.
pub get-put :
    (w : Text) (i : ℕ) (v : Text) (j : ℕ) (p : StepProjection) (rs : List StepEntry)
    → get w i (put v j p rs) ≡ (if text_eq v w && j == i then some p else get w i rs)
unfolding get put is_entry
get-put w i v j p [] = refl
get-put w i v j p (r ∷ rs) = ground (
  arith,
  get-put w i v j p rs,
  text_eq_iff v w,
  text_eq_iff r.workflow_id w,
  text_eq_iff r.workflow_id v,
)

module _ (w : Text) (i : ℕ) (a : Text) (now : SystemTime) where
  -- A claim of the step by the worker is granted on these rows.
  abbrev Grants : List StepEntry → Type 0
  Grants rs = claim_answer a now (get w i rs) ≡ claimed

  put-Grants :
      (v : Text) (j : ℕ) (p : StepProjection) (rs : List StepEntry)
      → (text_eq v w && j == i ≡ true → claim_answer a now (some p) ≡ claimed)
      → Grants rs
      → Grants (put v j p rs)
  put-Grants v j p rs h old = rw (get-put w i v j p rs) (ground arith)

  set_pending-Grants :
      (v : Text) (j : ℕ) (row : Option StepProjection) (rs : List StepEntry)
      → Grants rs
      → Grants (set_pending v j row rs)
  unfolding set_pending claim_answer
  set_pending-Grants v j none rs old = old
  set_pending-Grants v j (some row) rs old = put-Grants v j _ rs (λ e. refl) old

  project-Grants :
      (e : Event) (rs : List StepEntry) → closes w i e ≡ false → Grants rs → Grants (project e rs)
  unfolding project closes
  project-Grants (step_completed v j output) rs h old = put-Grants v j _ rs (λ e. cc) old
  project-Grants (worker_recovered v j) rs h old = set_pending-Grants v j (get v j rs) rs old
  project-Grants _ rs h old = old

  -- A recovered step may be claimed by whoever asks.
  recovered-Grants :
      (rs : List StepEntry) (row : Option StepProjection)
      → get w i rs ≡ row
      → Grants (project (worker_recovered w i) rs)
  unfolding project set_pending claim_answer
  recovered-Grants rs none e = rw (e, e)
  recovered-Grants rs (some row) e = rw (e, get-put, text_eq_refl w, ==_refl i)

  after_answer-Grants :
      (v : Text) (j : ℕ) (ttl : Duration) (r : ClaimResult) (s : MemStore)
      → Grants s.steps
      → Grants (after_answer v j a ttl r s).steps
  unfolding after_answer claim_answer
  after_answer-Grants v j ttl claimed s old =
      put-Grants v j _ s.steps (λ e. rw (text_eq_refl a)) old
  after_answer-Grants v j ttl (already_completed _) s old = old
  after_answer-Grants v j ttl held_by_other s old = old
  after_answer-Grants v j ttl already_waiting s old = old

after_answer-events :
    (w : Text) (i : ℕ) (a : Text) (ttl : Duration) (r : ClaimResult) (s : MemStore)
    → ((after_answer w i a ttl r s).events ≡ s.events)
      × ((after_answer w i a ttl r s).clock ≡ s.clock)
unfolding after_answer
after_answer-events w i a ttl claimed s = (refl, refl)
after_answer-events w i a ttl (already_completed _) s = (refl, refl)
after_answer-events w i a ttl held_by_other s = (refl, refl)
after_answer-events w i a ttl already_waiting s = (refl, refl)

-- A claim is granted by its answer at the store's clock.
abbrev pub mem_view : StoreView MemStore
mem_view = record {
  Good = λ s. Unit;
  log = λ s w. events_of w s.events;
  IsOpen = λ s w i a. Grants w i a s.clock s.steps;
}

-- Every claim is granted.
abbrev pub events_only_view : StoreView EventsOnly
events_only_view = record { Good = λ s. Unit; log = λ s w. events_of w s; IsOpen = λ s w i a. Unit }

pub mem_durable_store-StoreSpec : StoreSpec mem_durable_store mem_view
unfolding mem_durable_store load_events append_event claim_step renew_lease
mem_durable_store-StoreSpec = record {
  load_events_lem = λ w s g. refl;
  append_event-ok = λ e s g fits. refl;
  append_event-Good = λ e s g fits. tt;
  log-append_event = λ e s w g fits. events_of-behind w s.events e;
  append_event-IsOpen = λ e s w i a g h o. project-Grants w i a s.clock e s.steps h o;
  worker_recovered-IsOpen =
      λ s w i a g. recovered-Grants w i a s.clock s.steps (get w i s.steps) refl;
  claim_step-ok = λ w i a ttl s g o. rw o;
  claim_step-Good = λ w i a ttl s g. tt;
  log-claim_step = λ w i a ttl s v g.
      rw ((after_answer-events w i a ttl (claim_answer a s.clock (get w i s.steps)) s).0);
  claim_step-IsOpen = λ w i a ttl s v j g o.
      rw ((after_answer-events w i a ttl (claim_answer a s.clock (get w i s.steps)) s).1)
        (after_answer-Grants v j a s.clock w i ttl (claim_answer a s.clock (get w i s.steps)) s o);
  renew_lease-Good = λ w i a ttl s g. tt;
  log-renew_lease = λ w i a ttl s v g. refl;
  renew_lease-IsOpen = λ w i a ttl s v j g o. o;
}

-- The in-memory store of the engine's tests keeps `StoreSpec`, in every state, and grants every
-- claim.
pub events_only_store-StoreSpec : StoreSpec events_only_store events_only_view
unfolding events_only_store agentq.Mem.EventsOnly.load_events agentq.Mem.EventsOnly.append_event
    agentq.Mem.EventsOnly.claim_step agentq.Mem.EventsOnly.renew_lease
events_only_store-StoreSpec = record {
  load_events_lem = λ w s g. refl;
  append_event-ok = λ e s g fits. refl;
  append_event-Good = λ e s g fits. tt;
  log-append_event = λ e s w g fits. events_of-behind w s e;
  append_event-IsOpen = λ e s w i a g h o. tt;
  worker_recovered-IsOpen = λ s w i a g. tt;
  claim_step-ok = λ w i a ttl s g o. refl;
  claim_step-Good = λ w i a ttl s g. tt;
  log-claim_step = λ w i a ttl s v g. refl;
  claim_step-IsOpen = λ w i a ttl s v j g o. tt;
  renew_lease-Good = λ w i a ttl s g. tt;
  log-renew_lease = λ w i a ttl s v g. refl;
  renew_lease-IsOpen = λ w i a ttl s v j g o. tt;
}
