-- ===== src/Sqlite/Projection.antt =====
-- The `steps` table against the log: a row says what replaying the workflow's events says of the
-- step, unless it is under a lease.
pub mod Faithful
pub mod History
use agentq.Prelude.{
  ℕ, subst, ==_iff, ◌≡◌, refl, sym, ap, ◌∙◌, ◌⊎◌, inl, inr, Bool, true, false, ◌&&◌, ◌==◌, List, [],
  ◌∷◌, ◌++◌, Option, none, some, Result, ok, err, ◌>>=◌, arith, if◌then◌else◌,
}
use mathlib.Core.Path.{ap₂}
use agentq.Text.{Text, text_eq, text_eq→eq}
use agentq.Event.{
  Event, workflow_started, step_started, step_completed, step_failed, retry_scheduled, step_waiting,
  step_resumed, workflow_completed, workflow_failed, workflow_cancelled, worker_recovered,
}
use agentq.Workflow.{SystemTime, Duration, StepStatus, pending, leased, completed, failed, waiting}
use agentq.Engine.Replay.{observe_status, status_loop, step_status_from_events}
use agentq.Engine.Replay.Laws.{status_loop-append}
use agentq.Sqlite.Codec.{event_workflow_id}
use agentq.Sqlite.Table.{
  StepRecord, Tables, leased_status, pending_status, completed_status, failed_status,
  waiting_status, select_step, upsert_step,
}
use agentq.Sqlite.Table.Laws.{select_step-upsert_step}
use agentq.Sqlite.Log.Project.{project, status_row, appended}

-- What a row without a lease says of its step; no row is a pending step.
abbrev pub Says : Option StepRecord → StepStatus → Type 0
Says none status = status ≡ pending
Says (some r) pending = r.status ≡ pending_status
Says (some r) (leased _ _) = ⊥
Says (some r) (completed output) = (r.status ≡ completed_status) × (r.output ≡ some output)
Says (some r) (failed reason _) = (r.status ≡ failed_status) × (r.reason ≡ some reason)
Says (some r) (waiting reason) = (r.status ≡ waiting_status) × (r.reason ≡ some reason)

abbrev pub IsLeased : Option StepRecord → Type 0
IsLeased none = ⊥
IsLeased (some r) = r.status ≡ leased_status

-- The row agrees with the status that the log gives.
abbrev pub Agrees : Option StepRecord → StepStatus → Type 0
Agrees row status = IsLeased row ⊎ Says row status

-- A step is started only under a lease.
abbrev pub StartsUnderLease : Event → List StepRecord → Type 0
StartsUnderLease (step_started w i _) steps = IsLeased (select_step w i steps)
StartsUnderLease _ steps = Unit

pick-Agrees :
    (same_workflow same_step : Bool) (new : StepRecord) (old : Option StepRecord)
    (s' s : StepStatus × ℕ)
    → Says (some new) s'.0
    → Agrees old s.0
    → Agrees
        (if same_workflow && same_step then some new else old)
        (if same_workflow then (if same_step then s' else s) else s).0
pick-Agrees true true new old s' s says agrees = inr says
pick-Agrees true false new old s' s says agrees = agrees
pick-Agrees false same_step new old s' s says agrees = agrees

if_same : {A : Type 0} (b : Bool) (x : A) → (if b then x else x) ≡ x
if_same true x = refl
if_same false x = refl

start-Agrees :
    (same_workflow same_step : Bool) (row : Option StepRecord) (s' s : StepStatus × ℕ)
    → (same_workflow ≡ true → same_step ≡ true → IsLeased row)
    → Agrees row s.0
    → Agrees row (if same_workflow then (if same_step then s' else s) else s).0
start-Agrees true true row s' s held agrees = inl (held refl refl)
start-Agrees true false row s' s held agrees = agrees
start-Agrees false same_step row s' s held agrees = agrees

-- The status behind an event, which counts in its own workflow.
unfoldable pub status_behind : Text → ℕ → StepStatus × ℕ → Event → StepStatus × ℕ
status_behind w i s e = if text_eq (event_workflow_id e) w then observe_status i e s else s

-- An upsert for step `j` of workflow `v` moves the row as the replay of its event moves the status.
module _ (w : Text) (i : ℕ) (steps : List StepRecord) (s : StepStatus × ℕ) where
  upsert-Agrees :
      (v : Text) (j : ℕ) (status : Text) (output reason : Option Text) (attempt : ℕ)
      (s' : StepStatus × ℕ)
      → Says (some (status_row v j status output reason attempt)) s'.0
      → Agrees (select_step w i steps) s.0
      → Agrees
          (select_step w i (upsert_step (status_row v j status output reason attempt) steps))
          (if text_eq v w then (if j == i then s' else s) else s).0
  unfolding status_row
  upsert-Agrees v j status output reason attempt s' new old =
      rw (select_step-upsert_step w i (status_row v j status output reason attempt) steps) (
        pick-Agrees (text_eq v w) (j == i) (status_row v j status output reason attempt)
          (select_step w i steps) s' s new old)

  pub project-Agrees :
      (e : Event)
      → StartsUnderLease e steps
      → Agrees (select_step w i steps) s.0
      → Agrees (select_step w i (project e steps)) (status_behind w i s e).0
  unfolding project observe_status event_workflow_id status_behind status_row
  project-Agrees (step_started v j x) c h =
      start-Agrees (text_eq v w) (j == i) (select_step w i steps) (pending, x) s
        (λ ew ei.
          subst IsLeased
            (ap₂ (λ u k. select_step u k steps) (text_eq→eq v w ew) ((==_iff j i).0 ei)) c)
        h
  project-Agrees (step_completed v j x) c h =
      upsert-Agrees v j _ _ _ _ (completed x, s.1) (refl, refl) h
  project-Agrees (step_failed v j x) c h =
      upsert-Agrees v j _ _ _ _ (failed x s.1, s.1) (refl, refl) h
  project-Agrees (step_waiting v j x) c h =
      upsert-Agrees v j _ _ _ _ (waiting x, s.1) (refl, refl) h
  project-Agrees (retry_scheduled v j x) c h = upsert-Agrees v j _ _ _ _ (pending, x) refl h
  project-Agrees (step_resumed v j x) c h = upsert-Agrees v j _ _ _ _ (pending, s.1) refl h
  project-Agrees (worker_recovered v j) c h = upsert-Agrees v j _ _ _ _ (pending, s.1) refl h
  project-Agrees (workflow_started v) c h = rw if_same h
  project-Agrees (workflow_completed v) c h = rw if_same h
  project-Agrees (workflow_failed v x) c h = rw if_same h
  project-Agrees (workflow_cancelled v x) c h = rw if_same h
