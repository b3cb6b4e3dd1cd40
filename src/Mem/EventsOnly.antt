-- ===== src/Mem/EventsOnly.antt =====
-- src/engine.rs: the in-memory store of the engine's tests, which keeps events only.
use agentq.Prelude.{ℕ, List, [], ◌∷◌, ◌++◌, ok}
use agentq.Text.{Text}
use agentq.Event.{Event, ClaimResult, claimed}
use agentq.Workflow.{Duration, Execution}
use agentq.Store.{StoreM, DurableStore}
use agentq.Mem.{events_of}

abbrev pub EventsOnly : Type 0
EventsOnly = List Event

unfoldable pub append_event : Event → StoreM EventsOnly (Unit {0})
append_event event s = (ok tt, s ++ event ∷ [])

unfoldable pub load_events : Text → StoreM EventsOnly (List Event)
unfolding events_of
load_events w s = (ok (events_of w s), s)

unfoldable pub claim_step : Text → ℕ → Text → Duration → StoreM EventsOnly ClaimResult
claim_step w i a ttl s = (ok claimed, s)

unfoldable pub renew_lease : Text → ℕ → Text → Duration → StoreM EventsOnly (Unit {0})
renew_lease w i a ttl s = (ok tt, s)

unfoldable pub expired_leases : StoreM EventsOnly (List Execution)
expired_leases s = (ok [], s)

-- `impl DurableStore for MemStore`
unfoldable pub events_only_store : DurableStore EventsOnly
events_only_store = record {
  append_event = append_event;
  load_events = load_events;
  claim_step = claim_step;
  renew_lease = renew_lease;
  expired_leases = expired_leases;
}
