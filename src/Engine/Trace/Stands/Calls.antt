-- ===== src/Engine/Trace/Stands/Calls.antt =====
-- src/engine.rs: what each call of the engine does to where a run stands, on a store that keeps
-- `StoreSpec` and beside tasks that leave the workflow alone.
use agentq.Prelude.{ℕ, ◌≤◌, ◌≡◌, refl, ap, false, List, [], ◌∷◌, ◌++◌, Option, none, some}
use agentq.Text.{Text, text_eq_refl}
use agentq.Event.{Event, claimed}
use agentq.Job.{Job}
use agentq.Workflow.{Duration}
use agentq.Store.{DurableStore}
use agentq.Store.Spec.{StoreSpec, StoreView, closes}
use agentq.Queue.{insert, remove}
use agentq.Sqlite.Codec.{event_workflow_id}
use agentq.Sqlite.Codec.RoundTrip.{FitsTypes}
use agentq.Engine.State.{
  WorkflowEngine, RunningWorkflow, Shared, Turn, World, returned, store_reply, call_store, yield_to,
  get_mounted, mount, drop_from_in_flight,
}
use agentq.Engine.Step.{renew, push}
use agentq.Engine.Gives.{Gives}
use agentq.Engine.Trace.Stands.{Stands, LeavesAlone, Kept-append, Kept-claim, Kept-renew}

module _ {S : Type 0} {ds : DurableStore S} {view : StoreView S} (spec : StoreSpec ds view)
    (engine : WorkflowEngine) (w : Text) (found : Option RunningWorkflow) (jobs : List Job)
    (turns : List (Turn S)) where
  abbrev Here : ℕ → List Event → World S → Type 0
  Here k es = Stands view w engine.worker_id k found es jobs turns

  pub append_event-Gives :
      (k k' : ℕ) (es : List Event) (e : Event)
      → FitsTypes e
      → event_workflow_id e ≡ w
      → k ≤ k'
      → ((j : ℕ) → k' ≤ j → closes w j e ≡ false)
      → Gives (Here k es) (call_store (ds.append_event e)) (returned tt) (Here k' (es ++ e ∷ []))
  unfolding call_store store_reply
  append_event-Gives k k' es e fits own le apart = record {
    at = λ v h. (
      rw (spec.append_event-ok e v.shared.db h.shared.good fits) refl,
      record {
        shared =
            Kept-append spec w engine.worker_id k k' found es e v.shared fits own le apart h.shared;
        pushed = h.pushed;
        left = h.left;
      },
    );
  }

  pub claim_step-Gives :
      (k i : ℕ) (es : List Event)
      → k ≤ i
      → Gives
          (Here k es)
          (call_store (ds.claim_step w i engine.worker_id engine.lease_ttl))
          (returned claimed)
          (Here k es)
  unfolding call_store store_reply
  claim_step-Gives k i es le = record {
    at = λ v h. (
      rw
          (spec.claim_step-ok w i engine.worker_id engine.lease_ttl v.shared.db h.shared.good
            (h.shared.opened i le))
          refl,
      record {
        shared = Kept-claim spec w engine.worker_id k i engine.lease_ttl found es v.shared h.shared;
        pushed = h.pushed;
        left = h.left;
      },
    );
  }

  pub load_events-Gives :
      (k : ℕ) (es : List Event)
      → Gives (Here k es) (call_store (ds.load_events w)) (returned es) (Here k es)
  unfolding call_store store_reply
  load_events-Gives k es = record {
    at = λ v h.
        rw (spec.load_events_lem w v.shared.db h.shared.good) (ap returned h.shared.logged, h);
  }

  pub renew-Gives :
      (show : Duration → Text) (k i : ℕ) (es : List Event)
      → Gives (Here k es) (renew ds show engine w i) (returned tt) (Here k es)
  unfolding renew
  renew-Gives show k i es = record {
    at = λ v h. (
      refl,
      record {
        shared = Kept-renew spec w engine.worker_id k i engine.lease_ttl found es v.shared h.shared;
        pushed = h.pushed;
        left = h.left;
      },
    );
  }

  pub yield_to-Gives :
      (k : ℕ) (es : List Event) (others : Shared S → Shared S)
      → LeavesAlone view w engine.worker_id others
      → Gives (Here k es) (yield_to others) (returned tt) (Here k es)
  unfolding yield_to
  yield_to-Gives k es others alone = record {
    at = λ v h. (
      refl,
      record { shared = alone k found es v.shared h.shared; pushed = h.pushed; left = h.left },
    );
  }

  pub push-Gives :
      (show : Duration → Text) (k i : ℕ) (es : List Event) (job : Job) (turn : Turn S)
      (rest : List (Turn S))
      → LeavesAlone view w engine.worker_id turn.during_push
      → Gives
          (Here k es)
          (push ds show engine w i job turn rest)
          (returned turn.answer)
          (Stands view w engine.worker_id k found es (jobs ++ job ∷ []) rest)
  unfolding push
  push-Gives show k i es job turn rest alone = record {
    at = λ v h. (
      refl,
      record {
        shared = alone k found es v.shared h.shared;
        pushed = ap (λ js. js ++ job ∷ []) h.pushed;
        left = refl;
      },
    );
  }

  pub get_mounted-Gives :
      (k : ℕ) (es : List Event) → Gives (Here k es) (get_mounted w) (returned found) (Here k es)
  unfolding get_mounted
  get_mounted-Gives k es = record { at = λ v h. (ap returned h.shared.mounted, h) }

  pub mount-Gives :
      (k : ℕ) (es : List Event) (running : RunningWorkflow)
      → Gives
          (Here k es)
          (mount w running)
          (returned tt)
          (Stands view w engine.worker_id k (some running) es jobs turns)
  unfolding mount insert
  mount-Gives k es running = record {
    at = λ v h. (
      refl,
      record {
        shared = record {
          good = h.shared.good;
          logged = h.shared.logged;
          opened = h.shared.opened;
          mounted = rw (text_eq_refl w);
        };
        pushed = h.pushed;
        left = h.left;
      },
    );
  }

  pub drop_from_in_flight-Gives :
      (k : ℕ) (es : List Event)
      → Gives
          (Here k es)
          (drop_from_in_flight w)
          (returned tt)
          (Stands view w engine.worker_id k none es jobs turns)
  unfolding drop_from_in_flight remove
  drop_from_in_flight-Gives k es = record {
    at = λ v h. (
      refl,
      record {
        shared = record {
          good = h.shared.good;
          logged = h.shared.logged;
          opened = h.shared.opened;
          mounted = rw (text_eq_refl w);
        };
        pushed = h.pushed;
        left = h.left;
      },
    );
  }
