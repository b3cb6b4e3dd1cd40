-- ===== src/Store/Spec.antt =====
-- What the engine relies on of a `DurableStore`, as laws on a view of it: the log of each workflow,
-- and the steps that a worker may claim. The stores of the repository are instances.
use agentq.Prelude.{ℕ, ◌≡◌, Bool, false, ◌&&◌, List, [], ◌∷◌, ◌++◌, ok, ◌==◌, if◌then◌else◌}
use agentq.Text.{Text, text_eq}
use agentq.Event.{Event, claimed, step_completed, step_waiting, step_resumed, worker_recovered}
use agentq.Workflow.{Duration}
use agentq.Store.{DurableStore}
use agentq.Sqlite.Codec.{event_workflow_id}
use agentq.Sqlite.Codec.RoundTrip.{FitsTypes}

-- The event ends the claims of the step.
unfoldable pub closes : Text → ℕ → Event → Bool
closes w i (step_completed v j _) = text_eq v w && j == i
closes w i (step_waiting v j _) = text_eq v w && j == i
closes w i _ = false

-- A view of a store: the states in which no call fails, the log of a workflow, and whether a claim
-- of a step by a worker is granted.
pub record StoreView (S : Type 0) : Type 1 where
  pub Good : S → Type 0
  pub log : S → Text → List Event
  pub IsOpen : S → Text → ℕ → Text → Type 0

-- The calls of the store, told on the view.
pub record StoreSpec {S : Type 0} (ds : DurableStore S) (view : StoreView S) : Type 0 where
  pub load_events_lem :
      (w : Text) (s : S) → view.Good s → ds.load_events w s ≡ (ok (view.log s w), s)
  pub append_event-ok :
      (e : Event) (s : S) → view.Good s → FitsTypes e → (ds.append_event e s).0 ≡ ok tt
  pub append_event-Good :
      (e : Event) (s : S) → view.Good s → FitsTypes e → view.Good (ds.append_event e s).1
  pub log-append_event :
      (e : Event) (s : S) (w : Text)
      → view.Good s
      → FitsTypes e
      → view.log (ds.append_event e s).1 w
        ≡ (if text_eq (event_workflow_id e) w then view.log s w ++ e ∷ [] else view.log s w)
  pub append_event-IsOpen :
      (e : Event) (s : S) (w : Text) (i : ℕ) (a : Text)
      → view.Good s
      → closes w i e ≡ false
      → view.IsOpen s w i a
      → view.IsOpen (ds.append_event e s).1 w i a
  pub worker_recovered-IsOpen :
      (s : S) (w : Text) (i : ℕ) (a : Text)
      → view.Good s
      → view.IsOpen (ds.append_event (worker_recovered w i) s).1 w i a
  pub claim_step-ok :
      (w : Text) (i : ℕ) (a : Text) (ttl : Duration) (s : S)
      → view.Good s
      → view.IsOpen s w i a
      → (ds.claim_step w i a ttl s).0 ≡ ok claimed
  pub claim_step-Good :
      (w : Text) (i : ℕ) (a : Text) (ttl : Duration) (s : S)
      → view.Good s
      → view.Good (ds.claim_step w i a ttl s).1
  pub log-claim_step :
      (w : Text) (i : ℕ) (a : Text) (ttl : Duration) (s : S) (v : Text)
      → view.Good s
      → view.log (ds.claim_step w i a ttl s).1 v ≡ view.log s v
  pub claim_step-IsOpen :
      (w : Text) (i : ℕ) (a : Text) (ttl : Duration) (s : S) (v : Text) (j : ℕ)
      → view.Good s
      → view.IsOpen s v j a
      → view.IsOpen (ds.claim_step w i a ttl s).1 v j a
  pub renew_lease-Good :
      (w : Text) (i : ℕ) (a : Text) (ttl : Duration) (s : S)
      → view.Good s
      → view.Good (ds.renew_lease w i a ttl s).1
  pub log-renew_lease :
      (w : Text) (i : ℕ) (a : Text) (ttl : Duration) (s : S) (v : Text)
      → view.Good s
      → view.log (ds.renew_lease w i a ttl s).1 v ≡ view.log s v
  pub renew_lease-IsOpen :
      (w : Text) (i : ℕ) (a : Text) (ttl : Duration) (s : S) (v : Text) (j : ℕ)
      → view.Good s
      → view.IsOpen s v j a
      → view.IsOpen (ds.renew_lease w i a ttl s).1 v j a

-- A step that is resumed may be claimed, whoever held it.
pub record Reopens {S : Type 0} (ds : DurableStore S) (view : StoreView S) : Type 0 where
  pub step_resumed-IsOpen :
      (s : S) (w : Text) (i : ℕ) (input a : Text)
      → view.Good s
      → view.IsOpen (ds.append_event (step_resumed w i input) s).1 w i a
