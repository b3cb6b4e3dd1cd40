-- ===== src/Engine/Mounted.antt =====
-- src/engine.rs and src/recovery.rs: a mounted workflow has a body for every step, so no method
-- indexes out of bounds.
pub mod Step
pub mod Drive
pub mod Methods
use agentq.Prelude.{
  ℕ, zero, suc, ◌+◌, ◌-◌, ◌<◌, ◌≤◌, ◌≡◌, refl, Bool, true, false, List, [], ◌∷◌, ◌++◌, Option, none,
  some, Result, ok, err, if◌then◌else◌, arith, All, length, get_elem?, Bool-cases, Option-cases,
  inl, inr, ◌==◌, ltb, ==_iff,
}
use agentq.Text.{Text, codes, text_eq, text_eq_iff}
use agentq.Event.{
  Event, step_started, step_completed, ClaimResult, claimed, already_completed, held_by_other,
  already_waiting,
}
use agentq.Job.{Job, Func, Outcome, PushError, JobLost}
use agentq.Workflow.{
  StepDef, Duration, Workflow, Execution, StepStatus, pending, leased, completed, failed, waiting,
}
use agentq.Store.{DurableStore, StoreError, StoreM}
use agentq.Queue.{Map, insert, remove}
use agentq.Engine.State.{
  RunningWorkflow, WorkflowEngine, EngineError, StepOutcome, Shared, Ready, handle, deadline,
  renewal, Accepted, queued, in_flight, cached, Wake, Turn, World, Reply, returned, failed,
  panicked, blocked, Async, pure, fail, ◌>>=◌, ◌>>◌, store_reply, call_store, yield_to, get_mounted,
  mount, drop_from_in_flight,
}
use agentq.Engine.Ensures.{Ensures, bind-Ensures}
use agentq.Engine.Step.{run_step}

-- Each mounted workflow has as many bodies as steps.
unfoldable pub WellMounted : Map RunningWorkflow → Type 0
WellMounted m =
    (key : Text) (running : RunningWorkflow)
    → m key ≡ some running
    → length running.bodies ≡ length running.steps

abbrev pub Keeps : {S : Type 0} → (Shared S → Shared S) → Type 0
Keeps {S} others = (sh : Shared S) → WellMounted sh.mounted → WellMounted (others sh).mounted

abbrev pub KeepsWake : {S : Type 0} → Wake S → Type 0
KeepsWake wake = Keeps wake.others

-- What the other tasks do during a turn keeps the mounted workflows in order.
abbrev pub KeepsTurn : {S : Type 0} → Turn S → Type 0
KeepsTurn turn =
    Keeps turn.during_push
    × ((delay : Duration) → Keeps (turn.during_sleep delay))
    × All KeepsWake turn.wakes

unfoldable pub InOrder : {S : Type 0} → World S → Type 0
InOrder w = WellMounted w.shared.mounted × All KeepsTurn w.turns

-- A method does not panic, and leaves the mounted workflows in order.
unfoldable pub Safe : {S A : Type 0} → Reply A → World S → Type 0
Safe panicked w = ⊥
Safe _ w = InOrder w

module _ {S : Type 0} where
  pub pure-Safe : {A : Type 0} (a : A) → Ensures {S = S} InOrder (pure a) Safe
  unfolding Safe
  pure-Safe a = record { at = λ w h. h }

  pub fail-Safe : {A : Type 0} (e : EngineError) → Ensures {S = S} {A = A} InOrder (fail e) Safe
  unfolding Safe
  fail-Safe e = record { at = λ w h. h }

  pub blocked-Safe : {A : Type 0} → Ensures {S = S} {A = A} InOrder (λ w. (blocked, w)) Safe
  unfolding Safe
  blocked-Safe = record { at = λ w h. h }

  pub bind-Safe :
      {A B : Type 0} {m : Async S A} {f : A → Async S B}
      → Ensures InOrder m Safe
      → ((a : A) → Ensures InOrder (f a) Safe)
      → Ensures InOrder (m >>= f) Safe
  unfolding Safe
  bind-Safe {f = f} first after =
      bind-Ensures Safe Safe (λ w. (λ e h. h, λ h. h, λ h. h)) f
        (λ a. record { at = λ w h. (after a).at w h }) first

  store_reply-Safe :
      {A : Type 0} (r : Result StoreError A) (w : World S) → InOrder w → Safe (store_reply r) w
  unfolding Safe store_reply
  store_reply-Safe (ok a) w h = h
  store_reply-Safe (err e) w h = h

  pub call_store-Safe : {A : Type 0} (m : StoreM S A) → Ensures InOrder (call_store m) Safe
  unfolding call_store InOrder
  call_store-Safe m = record {
    at = λ w h. store_reply-Safe (m w.shared.db).0 (call_store m w).1 (unfold InOrder in h);
  }

  pub yield_to-Safe :
      (others : Shared S → Shared S) → Keeps others → Ensures InOrder (yield_to others) Safe
  unfolding yield_to InOrder Safe
  yield_to-Safe others k = record { at = λ w h. (k w.shared h.0, h.1) }

  pub get_mounted-Safe :
      (workflow_id : Text) → Ensures {S = S} InOrder (get_mounted workflow_id) Safe
  unfolding get_mounted Safe
  get_mounted-Safe workflow_id = record { at = λ w h. h }

  pub drop_from_in_flight-Safe :
      (workflow_id : Text) → Ensures {S = S} InOrder (drop_from_in_flight workflow_id) Safe
  unfolding drop_from_in_flight InOrder Safe WellMounted remove
  drop_from_in_flight-Safe workflow_id = record {
    at = λ w h. (λ key running e. ground (arith, h.0 key running), h.1);
  }

  pub mount-Safe :
      (workflow_id : Text) (running : RunningWorkflow)
      → length running.bodies ≡ length running.steps
      → Ensures {S = S} InOrder (mount workflow_id running) Safe
  unfolding mount InOrder Safe WellMounted insert
  mount-Safe workflow_id running lengths = record {
    at = λ w h. (λ key running' e. ground (arith, h.0 key running'), h.1);
  }
