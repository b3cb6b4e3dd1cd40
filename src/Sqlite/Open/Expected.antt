-- ===== src/Sqlite/Open/Expected.antt =====
-- src/store/sqlite.rs: the tables that `SqliteStore::new` is meant to leave, by those that were there.
use agentq.Prelude.{
  ◌≡◌, refl, Bool, true, false, List, [], ◌∷◌, ◌++◌, map, Option, none, some, if◌then◌else◌,
}
use agentq.Text.{Text, codes, text_eq}
use agentq.Sqlite.Table.{EventRecord, StepRecord}
use agentq.Sqlite.Open.{
  EventsTable, Database, create_events, create_steps, columns_of, add_ts_millis,
}

-- The column is among the names.
unfoldable pub has_ts_millis : List Text → Bool
has_ts_millis [] = false
has_ts_millis (column ∷ columns) =
    let rest = has_ts_millis columns in if text_eq column (codes "ts_millis") then true else rest

-- The rows with a `ts_millis` of 0, each as it was otherwise.
zeroed : List EventRecord → List EventRecord
zeroed [] = []
zeroed (r ∷ rs) =
    record { workflow_id = r.workflow_id; payload = r.payload; ts_millis = 0 } ∷ zeroed rs

-- A table of events with the column: as it is where it has it, and with the column behind the others
-- and 0 in every row where it has not.
unfoldable pub with_column : Bool → EventsTable → EventsTable
unfolding zeroed
with_column true t = t
with_column false t = record { columns = t.columns ++ codes "ts_millis" ∷ []; rows = zeroed t.rows }

-- The table of events that a file has got, by the one that was there.
unfoldable pub migrated_events : Option EventsTable → EventsTable
unfolding with_column has_ts_millis
migrated_events none = record {
  columns = codes "id" ∷ codes "workflow_id" ∷ codes "payload" ∷ codes "ts_millis" ∷ [];
  rows = [];
}
migrated_events (some t) = with_column (has_ts_millis t.columns) t

-- Its table of steps: no step where there was none.
unfoldable pub migrated_steps : Option (List StepRecord) → List StepRecord
migrated_steps none = []
migrated_steps (some steps) = steps

unfoldable pub migrated : Database → Database
unfolding migrated_events migrated_steps
migrated d = record {
  events = some (migrated_events d.events);
  steps = some (migrated_steps d.steps);
}

-- What the statements find: both tables, and the column by the test of its name.
unfoldable pub altered : Bool → Database → Database
unfolding add_ts_millis
altered true d = d
altered false d = add_ts_millis d

unfoldable pub prepared : Database → Database
unfolding create_events create_steps has_ts_millis columns_of altered
prepared d =
    let d' = create_steps (create_events d) in altered (has_ts_millis (columns_of d'.events)) d'

map-zeroed :
    (rows : List EventRecord)
    → map (λ (r : EventRecord). record r { ts_millis = 0 }) rows ≡ zeroed rows
unfolding zeroed
map-zeroed [] = refl
map-zeroed (r ∷ rs) = rw (map-zeroed rs)

altered-with_column :
    (b : Bool) (t : EventsTable) (ss : List StepRecord)
    → altered b (record { events = some t; steps = some ss })
      ≡ record { events = some (with_column b t); steps = some ss }
unfolding altered with_column add_ts_millis
altered-with_column true t ss = refl
altered-with_column false t ss = rw (map-zeroed t.rows)

prepared-migrated_parts :
    (events : Option EventsTable) (steps : Option (List StepRecord))
    → prepared (record { events = events; steps = steps })
      ≡ migrated (record { events = events; steps = steps })
unfolding prepared migrated create_events create_steps columns_of text_eq
prepared-migrated_parts none none = refl
prepared-migrated_parts none (some ss) = refl
prepared-migrated_parts (some t) none = altered-with_column (has_ts_millis t.columns) t []
prepared-migrated_parts (some t) (some ss) = altered-with_column (has_ts_millis t.columns) t ss

-- The statements make of a file what is said of it above.
pub prepared-migrated : (d : Database) → prepared d ≡ migrated d
prepared-migrated d = prepared-migrated_parts d.events d.steps
