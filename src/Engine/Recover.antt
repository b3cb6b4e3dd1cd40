-- ===== src/Engine/Recover.antt =====
-- src/recovery.rs: `recover` on the SQLite store, whose calls do not fail here, in a process that
-- has mounted no workflow.
use agentq.Prelude.{
  ℕ, suc, ◌+◌, ◌%◌, ◌^◌, ◌≤◌, ◌≡◌, refl, sym, ap, ◌∙◌, false, ◌&&◌, Bool-cases, inl, inr, ◌==◌,
  List, [], ◌∷◌, ◌++◌, append-nil, append_assoc, none, ok, any, All, arith, length, map,
  if◌then◌else◌, ==_refl,
}
use agentq.Text.{Text, text_eq, text_eq_refl}
use agentq.Event.{Event, worker_recovered}
use agentq.Job.{Job}
use agentq.Workflow.{Duration, SystemTime}
use agentq.Sqlite.Codec.{event_workflow_id, usize_max}
use agentq.Sqlite.Time.{system_time_parts}
use agentq.Sqlite.Table.{Tables, StepRecord, is_step, select_step, select_expired, is_expired}
use agentq.Sqlite.Table.Laws.{select_step-upsert_step}
use agentq.Sqlite.Table.Keys.{Unique, any-select_expired, opt_expired, Unique-upsert_step}
use agentq.Sqlite.Connection.{SqliteStore, healthy}
use agentq.Sqlite.Log.{load_events}
use agentq.Sqlite.Log.Project.{appended, append_event-appended, project, status_row}
use agentq.Sqlite.Log.Load.{load_events-append_event}
use agentq.Sqlite.Lease.{sqlite_durable_store, row_execution}
use agentq.Sqlite.Lease.Expiry.{expired_leases-map}
use agentq.Engine.State.{WorkflowEngine, Turn, World, returned, continue, call_store, store_reply}
use agentq.Engine.Drive.{readmit_mounted, readmit_after_worker_recovery, recover_all, recover}
use agentq.Engine.Cancel.{world_of}

-- The tables behind a `WorkerRecovered` for each row.
unfoldable pub recovered : SystemTime → List StepRecord → Tables → Tables
recovered now [] t = t
recovered now (r ∷ rs) t =
    recovered now rs (appended now (worker_recovered r.workflow_id r.step_index) t)

-- The `WorkerRecovered` of one workflow among those of the rows.
unfoldable pub recoveries : Text → List StepRecord → List Event
recoveries w [] = []
recoveries w (r ∷ rs) =
    let rest = recoveries w rs in
    if text_eq r.workflow_id w then worker_recovered r.workflow_id r.step_index ∷ rest else rest

module _ (w : Text) (i s n : ℕ) where
  -- A recovered step holds no lease.
  opt_expired-appended :
      (v : Text) (j : ℕ) (t : Tables) (now : SystemTime)
      → opt_expired s n (select_step w i (appended now (worker_recovered v j) t).steps)
        ≡ (if text_eq v w && j == i then false else opt_expired s n (select_step w i t.steps))
  unfolding appended project status_row opt_expired is_expired text_eq
  opt_expired-appended v j t now = rw (select_step-upsert_step w i _ t.steps) (ground arith)

  opt_expired-recovered :
      (rs : List StepRecord) (t : Tables) (now : SystemTime)
      → opt_expired s n (select_step w i (recovered now rs t).steps)
        ≡ (if any (is_step w i) rs then false else opt_expired s n (select_step w i t.steps))
  unfolding recovered is_step
  opt_expired-recovered [] t now = refl
  opt_expired-recovered (r ∷ rs) t now = ground (
    arith,
    opt_expired-recovered rs (appended now (worker_recovered r.workflow_id r.step_index) t) now,
    opt_expired-appended r.workflow_id r.step_index t now,
  )

Unique-recovered :
    (rs : List StepRecord) (t : Tables) (now : SystemTime)
    → Unique t.steps
    → Unique (recovered now rs t).steps
unfolding recovered appended project
Unique-recovered [] t now u = u
Unique-recovered (r ∷ rs) t now u =
    Unique-recovered rs (appended now (worker_recovered r.workflow_id r.step_index) t) now
      (Unique-upsert_step _ t.steps u)

-- Rows among which no step is found are none.
no_rows : (rs : List StepRecord) → ((w : Text) (i : ℕ) → any (is_step w i) rs ≡ false) → rs ≡ []
unfolding is_step
no_rows [] h = refl
no_rows (r ∷ rs) h =
    absurd (
      ground
        (arith, h r.workflow_id r.step_index, text_eq_refl r.workflow_id, ==_refl r.step_index))

-- The rows that `expired_leases` reports.
abbrev pub expired_rows : SystemTime → Tables → List StepRecord
expired_rows now t = select_expired (system_time_parts now).0 (system_time_parts now).1 t.steps

module _ (t : Tables) (now : SystemTime) (u : Unique t.steps) where
  expired_rows-recovered : expired_rows now (recovered now (expired_rows now t) t) ≡ []
  expired_rows-recovered = no_rows _ (λ w i.
      let (secs, nanos) = system_time_parts now in
      any-select_expired w i secs nanos (recovered now (expired_rows now t) t).steps
        (Unique-recovered (expired_rows now t) t now u)
      ∙ opt_expired-recovered w i secs nanos (expired_rows now t) t now
      ∙ ground (arith, any-select_expired w i secs nanos t.steps u))

module _ (show : Duration → Text) (engine : WorkflowEngine) (now : SystemTime) (pushed : List Job)
    (turns : List (Turn SqliteStore)) where
  -- No workflow is mounted.
  abbrev pub unmounted : Tables → World SqliteStore
  unmounted t = world_of show engine now pushed turns t (λ key. none)

  readmit-unmounted :
      (w : Text) (i a : ℕ) (t : Tables)
      → readmit_after_worker_recovery sqlite_durable_store show engine w i a (unmounted t)
        ≡ (returned tt, unmounted (appended now (worker_recovered w i) t))
  unfolding readmit_after_worker_recovery sqlite_durable_store readmit_mounted
  readmit-unmounted w i a t = rw (append_event-appended (worker_recovered w i) t now) refl

  recover_all-unmounted :
      (rs : List StepRecord) (n : ℕ) (t : Tables)
      → recover_all sqlite_durable_store show engine (map row_execution rs) n (unmounted t)
        ≡ (returned (n + length rs), unmounted (recovered now rs t))
  unfolding recover_all recovered row_execution
  recover_all-unmounted [] n t =
      let e : n ≡ n + 0 = omega arith in ap (λ m. (returned m, unmounted t)) e
  recover_all-unmounted (r ∷ rs) n t =
      let t' = appended now (worker_recovered r.workflow_id r.step_index) t in
      let e : n + 1 + length rs ≡ n + suc (length rs) = omega arith in
      ap
        (λ p.
          continue p.0
            (λ u. recover_all sqlite_durable_store show engine (map row_execution rs) (n + 1)) p.1)
        (readmit-unmounted r.workflow_id r.step_index (r.attempt % 2 ^ 32) t)
      ∙ recover_all-unmounted rs (n + 1) t'
      ∙ ap (λ m. (returned m, unmounted (recovered now rs t'))) e

  recover-unmounted :
      (t : Tables)
      → recover sqlite_durable_store show engine (unmounted t)
        ≡ (returned (length (expired_rows now t)), unmounted (recovered now (expired_rows now t) t))
  unfolding recover call_store store_reply sqlite_durable_store
  recover-unmounted t = rw (expired_leases-map t now) (
      recover_all-unmounted (expired_rows now t) 0 t
      ∙ (let e : 0 + length (expired_rows now t) ≡ length (expired_rows now t) = omega arith in
          ap (λ m. (returned m, unmounted (recovered now (expired_rows now t) t))) e))

  log-recovered :
      (w : Text) (rs : List StepRecord) (t : Tables) (es : List Event)
      → All (λ r. r.step_index ≤ usize_max) rs
      → (load_events w (healthy t now)).0 ≡ ok es
      → (load_events w (healthy (recovered now rs t) now)).0 ≡ ok (es ++ recoveries w rs)
  unfolding recovered recoveries event_workflow_id
  log-recovered w [] t es fits h = h ∙ ap ok (sym (append-nil es))
  log-recovered w (r ∷ rs) t es fits h =
      let e = worker_recovered r.workflow_id r.step_index in
      let t' = appended now e t in
      let read = load_events-append_event e t now w es fits.0 h in
      let l = rw append_event-appended at read in
      elim (Bool-cases (text_eq r.workflow_id w)) [
        | inl same ↦ rw same (
            log-recovered w rs t' (es ++ e ∷ []) fits.1 (rw same at l)
            ∙ ap ok (append_assoc es (e ∷ []) (recoveries w rs)))
        | inr other ↦ rw other (log-recovered w rs t' es fits.1 (rw other at l))
      ]

  -- In a process that has mounted no workflow, `recover` returns the number of the leases that have
  -- expired; the log of each workflow gets one `WorkerRecovered` for each such lease of it, in the
  -- order of the report, and nothing else; and a second `recover` finds nothing and changes nothing.
  -- No call of the store fails, no two rows have the same key, and the step indices fit `usize`.
  pub recover-recover :
      (t : Tables)
      → Unique t.steps
      → All (λ r. r.step_index ≤ usize_max) (expired_rows now t)
      → (w' : World SqliteStore) × (recover sqlite_durable_store show engine (unmounted t)
          ≡ (returned (length (expired_rows now t)), w'))
        × ((w : Text) (es : List Event)
            → (load_events w (healthy t now)).0 ≡ ok es
            → (load_events w w'.shared.db).0 ≡ ok (es ++ recoveries w (expired_rows now t)))
        × (recover sqlite_durable_store show engine w' ≡ (returned 0, w'))
  recover-recover t u fits =
      let t' = recovered now (expired_rows now t) t in
      let none_left = expired_rows-recovered t now u in
      (
        unmounted t',
        recover-unmounted t,
        λ w es h. log-recovered w (expired_rows now t) t es fits h,
        recover-unmounted t'
            ∙ ap (λ rs. (returned (length rs), unmounted (recovered now rs t'))) none_left
            ∙ unfold recovered in refl,
      )
