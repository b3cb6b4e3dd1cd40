-- ===== src/Sqlite/Open.antt =====
-- src/store/sqlite.rs: `SqliteStore::new`, on a database file that may have no tables yet, or an
-- `events` table without the column `ts_millis`. The index has no contents of its own.
pub mod Migrated
pub mod Expected
use agentq.Prelude.{
  ◌≡◌, refl, sym, ap, subst, ◌∙◌, Bool, true, false, List, [], ◌∷◌, ◌++◌, map, Option, none, some,
  Result, ok, err, arith, if◌then◌else◌,
}
use agentq.Text.{Text, codes, text_eq}
use agentq.Store.{StoreError}
use agentq.Workflow.{SystemTime}
use agentq.Sqlite.Table.{EventRecord, StepRecord, Tables}
use agentq.Sqlite.Connection.{
  ConnectionTo, SqlOn, SqliteStore, pure, ◌>>=◌, ◌>>◌, query, execute, healthy,
}
use agentq.Sqlite.Connection.Atomic.{Runs, Runs-pure, Runs-query, Runs-execute, Runs-bind}

-- `events` with the names of its columns; where `ts_millis` is none of them, the rows have no such
-- value, and the one that they hold here is never read.
pub record EventsTable : Type 0 where
  pub columns : List Text
  pub rows : List EventRecord

pub record Database : Type 0 where
  pub events : Option EventsTable
  pub steps : Option (List StepRecord)

abbrev pub ts_millis : Text
ts_millis = codes "ts_millis"

abbrev pub event_columns : List Text
event_columns = codes "id" ∷ codes "workflow_id" ∷ codes "payload" ∷ ts_millis ∷ []

pub if_not_exists : {A : Type 0} → A → Option A → A
if_not_exists fresh none = fresh
if_not_exists fresh (some t) = t

-- `CREATE TABLE IF NOT EXISTS events …`
unfoldable pub create_events : Database → Database
unfolding if_not_exists
create_events d = record d {
  events = some (if_not_exists (record { columns = event_columns; rows = [] }) d.events);
}

-- `CREATE TABLE IF NOT EXISTS steps …`
unfoldable pub create_steps : Database → Database
unfolding if_not_exists
create_steps d = record d { steps = some (if_not_exists [] d.steps) }

-- `PRAGMA table_info(events)`
unfoldable pub columns_of : Option EventsTable → List Text
columns_of none = []
columns_of (some t) = t.columns

add_column : Option EventsTable → Option EventsTable
add_column none = none
add_column (some t) = some (record {
  columns = t.columns ++ ts_millis ∷ [];
  rows = map (λ (r : EventRecord). record r { ts_millis = 0 }) t.rows;
})

-- `ALTER TABLE events ADD COLUMN ts_millis INTEGER NOT NULL DEFAULT 0`
unfoldable pub add_ts_millis : Database → Database
unfolding add_column
add_ts_millis d = record d { events = add_column d.events }

-- The loop over the rows of the pragma, which breaks at the column.
unfoldable pub find_ts_millis : List Text → SqlOn Database Bool
unfolding query
find_ts_millis [] = pure false
find_ts_millis (column ∷ columns) =
    let rest = find_ts_millis columns in
    do name ← query (λ _. column); if text_eq name ts_millis then pure true else rest

pub alter_unless : Bool → SqlOn Database (Unit {0})
unfolding execute add_ts_millis
alter_unless true = pure tt
alter_unless false = execute add_ts_millis

unfoldable pub ensure_events_ts_millis_column : SqlOn Database (Unit {0})
unfolding query find_ts_millis alter_unless columns_of
ensure_events_ts_millis_column = do
  query (λ _. tt)
  columns ← query (λ d. columns_of d.events)
  has_ts_millis ← find_ts_millis columns
  alter_unless has_ts_millis

-- The statements of `execute_batch` run in order, up to the first that fails.
unfoldable pub open_database : SqlOn Database (Unit {0})
unfolding query execute create_events create_steps ensure_events_ts_millis_column
open_database = do
  query (λ _. tt)
  execute create_events
  execute (λ d. d)
  execute create_steps
  ensure_events_ts_millis_column

or_empty : {A : Type 0} → Option (List A) → List A
or_empty none = []
or_empty (some xs) = xs

event_rows : Option EventsTable → List EventRecord
event_rows none = []
event_rows (some t) = t.rows

-- What the statements of the store see of the file.
unfoldable pub tables_of : Database → Tables
unfolding or_empty event_rows
tables_of d = record { events = event_rows d.events; steps = or_empty d.steps }

pub opened :
    SystemTime
    → Result StoreError (Unit {0})
    → ConnectionTo Database
    → Result StoreError SqliteStore
unfolding tables_of
opened now (ok u) c = ok (record {
  conn = record { tables = tables_of c.tables; answers = c.answers };
  poisoned = false;
  clock = now;
})
opened now (err e) c = err e

-- `SqliteStore::new`, with the file behind it.
unfoldable pub new :
    SystemTime → ConnectionTo Database → Result StoreError SqliteStore × ConnectionTo Database
unfolding open_database opened
new now c = let r = open_database c in (opened now r.0 r.1, r.1)
