-- ===== src/Engine/Trace/Stands.antt =====
-- src/engine.rs: where a run of a workflow stands, on a store that keeps `StoreSpec` and beside
-- tasks that leave the workflow alone.
pub mod Calls
use agentq.Prelude.{
  ℕ, ◌≤◌, ◌≡◌, refl, ap, ◌∙◌, false, List, [], ◌∷◌, ◌++◌, Option, none, some, arith,
}
use agentq.Text.{Text, text_eq_refl}
use agentq.Event.{Event, claimed}
use agentq.Job.{Job}
use agentq.Workflow.{Duration}
use agentq.Store.{DurableStore}
use agentq.Store.Spec.{StoreSpec, StoreView, closes}
use agentq.Queue.{insert, remove}
use agentq.Sqlite.Codec.{event_workflow_id}
use agentq.Sqlite.Codec.RoundTrip.{FitsTypes}
use agentq.Engine.State.{
  WorkflowEngine, RunningWorkflow, Shared, Turn, World, returned, store_reply, call_store, yield_to,
  get_mounted, mount, drop_from_in_flight,
}
use agentq.Engine.Step.{renew, push}
use agentq.Engine.Gives.{Gives}

-- The workflow's log is `es`, its steps from `k` on may be claimed by the worker, and `found` is
-- mounted for it.
pub record Kept {S : Type 0} (view : StoreView S) (w worker : Text) (k : ℕ)
    (found : Option RunningWorkflow) (es : List Event) (v : Shared S) : Type 0 where
  pub good : view.Good v.db
  pub logged : view.log v.db w ≡ es
  pub opened : (j : ℕ) → k ≤ j → view.IsOpen v.db w j worker
  pub mounted : v.mounted w ≡ found

-- The same of a world, with the jobs pushed so far and the turns to come.
pub record Stands {S : Type 0} (view : StoreView S) (w worker : Text) (k : ℕ)
    (found : Option RunningWorkflow) (es : List Event) (jobs : List Job) (turns : List (Turn S))
    (v : World S) : Type 0 where
  pub shared : Kept view w worker k found es v.shared
  pub pushed : v.pushed ≡ jobs
  pub left : v.turns ≡ turns

module _ {S : Type 0} (view : StoreView S) (w worker : Text) where
  -- Another task that leaves the workflow alone.
  abbrev pub LeavesAlone : (Shared S → Shared S) → Type 0
  LeavesAlone f =
      (k : ℕ) (found : Option RunningWorkflow) (es : List Event) (v : Shared S)
      → Kept view w worker k found es v
      → Kept view w worker k found es (f v)

  -- A later step is the next one to be claimed.
  pub Stands-later :
      (k k' : ℕ) (found : Option RunningWorkflow) (es : List Event) (jobs : List Job)
      (turns : List (Turn S)) (v : World S)
      → k ≤ k'
      → Stands view w worker k found es jobs turns v
      → Stands view w worker k' found es jobs turns v
  Stands-later k k' found es jobs turns v le h = record {
    shared = record {
      good = h.shared.good;
      logged = h.shared.logged;
      opened = λ j q. h.shared.opened j (omega arith);
      mounted = h.shared.mounted;
    };
    pushed = h.pushed;
    left = h.left;
  }

module _ {S : Type 0} {ds : DurableStore S} {view : StoreView S} (spec : StoreSpec ds view)
    (w worker : Text) where
  pub Kept-append :
      (k k' : ℕ) (found : Option RunningWorkflow) (es : List Event) (e : Event) (v : Shared S)
      → FitsTypes e
      → event_workflow_id e ≡ w
      → k ≤ k'
      → ((j : ℕ) → k' ≤ j → closes w j e ≡ false)
      → Kept view w worker k found es v
      → Kept view w worker k' found (es ++ e ∷ []) (record v { db = (ds.append_event e v.db).1 })
  Kept-append k k' found es e v fits own le apart h = record {
    good = spec.append_event-Good e v.db h.good fits;
    logged = rw (spec.log-append_event e v.db w h.good fits, own, text_eq_refl w, h.logged);
    opened = λ j q.
        spec.append_event-IsOpen e v.db w j worker h.good (apart j q) (h.opened j (omega arith));
    mounted = h.mounted;
  }

  pub Kept-claim :
      (k i : ℕ) (ttl : Duration) (found : Option RunningWorkflow) (es : List Event) (v : Shared S)
      → Kept view w worker k found es v
      → Kept view w worker k found es (record v { db = (ds.claim_step w i worker ttl v.db).1 })
  Kept-claim k i ttl found es v h = record {
    good = spec.claim_step-Good w i worker ttl v.db h.good;
    logged = spec.log-claim_step w i worker ttl v.db w h.good ∙ h.logged;
    opened = λ j q. spec.claim_step-IsOpen w i worker ttl v.db w j h.good (h.opened j q);
    mounted = h.mounted;
  }

  pub Kept-renew :
      (k i : ℕ) (ttl : Duration) (found : Option RunningWorkflow) (es : List Event) (v : Shared S)
      → Kept view w worker k found es v
      → Kept view w worker k found es (record v { db = (ds.renew_lease w i worker ttl v.db).1 })
  Kept-renew k i ttl found es v h = record {
    good = spec.renew_lease-Good w i worker ttl v.db h.good;
    logged = spec.log-renew_lease w i worker ttl v.db w h.good ∙ h.logged;
    opened = λ j q. spec.renew_lease-IsOpen w i worker ttl v.db w j h.good (h.opened j q);
    mounted = h.mounted;
  }
