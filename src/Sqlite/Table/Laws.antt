-- ===== src/Sqlite/Table/Laws.antt =====
-- What a statement reads after another has written.
use agentq.Prelude.{ℕ, ◌≡◌, refl, ◌&&◌, List, [], ◌∷◌, ◌++◌, some, arith, ◌==◌, if◌then◌else◌}
use agentq.Text.{Text, text_eq, text_eq_iff, text_eq_refl}
use agentq.Sqlite.Table.{EventRecord, StepRecord, select_events, select_step, upsert_step}

-- The selected rows of a longer log are those of the two parts.
pub select_events-append :
    (w : Text) (rs qs : List EventRecord)
    → select_events w (rs ++ qs) ≡ select_events w rs ++ select_events w qs
unfolding select_events
select_events-append w [] qs = refl
select_events-append w (r ∷ rs) qs = ground (arith, select_events-append w rs qs)

module _ (w : Text) (i : ℕ) where
  -- An upsert is read back at its key and leaves every other key alone.
  pub select_step-upsert_step :
      (new : StepRecord) (rs : List StepRecord)
      → select_step w i (upsert_step new rs) ≡ (
          if text_eq new.workflow_id w && new.step_index == i then some new else select_step w i rs)
  unfolding select_step upsert_step
  select_step-upsert_step new [] = refl
  select_step-upsert_step new (r ∷ rs) = ground (
    arith,
    select_step-upsert_step new rs,
    text_eq_iff new.workflow_id w,
    text_eq_iff r.workflow_id w,
    text_eq_iff r.workflow_id new.workflow_id,
  )

pub select_step-upsert_step_self :
    (new : StepRecord) (rs : List StepRecord)
    → select_step new.workflow_id new.step_index (upsert_step new rs) ≡ some new
select_step-upsert_step_self new rs =
    rw (select_step-upsert_step new.workflow_id new.step_index new rs, text_eq_refl new.workflow_id)
      (ground arith)
