-- ===== src/Sqlite/Open/Migrated.antt =====
-- src/store/sqlite.rs: what `SqliteStore::new` makes of a database file.
use agentq.Prelude.{
  ◌≡◌, refl, sym, ap, ◌∙◌, Bool, true, false, List, [], ◌∷◌, ◌++◌, Option, none, some, Result, ok,
  err, arith, if◌then◌else◌,
}
use agentq.Text.{Text, codes, text_eq}
use agentq.Store.{StoreError}
use agentq.Workflow.{SystemTime}
use agentq.Sqlite.Table.{StepRecord}
use agentq.Sqlite.Connection.{ConnectionTo, SqlOn, SqliteStore, pure, healthy}
use agentq.Sqlite.Connection.Atomic.{Runs, Runs-pure, Runs-query, Runs-execute, Runs-bind}
use agentq.Sqlite.Open.{
  EventsTable, Database, ts_millis, create_events, create_steps, columns_of, add_ts_millis,
  find_ts_millis, alter_unless, ensure_events_ts_millis_column, open_database, tables_of, opened,
  new,
}
use agentq.Sqlite.Open.Expected.{
  has_ts_millis, with_column, migrated_events, migrated_steps, migrated, altered, prepared,
  prepared-migrated,
}

if-Runs :
    (b x : Bool) (m : SqlOn Database Bool)
    → Runs m (λ d. (x, d))
    → Runs (if b then pure true else m) (λ d. (if b then true else x, d))
if-Runs true x m r = Runs-pure true
if-Runs false x m r = r

find_ts_millis-Runs :
    (columns : List Text) → Runs (find_ts_millis columns) (λ d. (has_ts_millis columns, d))
unfolding find_ts_millis has_ts_millis
find_ts_millis-Runs [] = Runs-pure false
find_ts_millis-Runs (column ∷ columns) =
    Runs-bind (λ d. (column, d))
      (λ name d. (if text_eq name ts_millis then true else has_ts_millis columns, d))
      (Runs-query (λ _. column))
      (λ name.
        if-Runs (text_eq name ts_millis) (has_ts_millis columns) (find_ts_millis columns)
          (find_ts_millis-Runs columns))

alter_unless-Runs : (b : Bool) → Runs (alter_unless b) (λ d. (tt, altered b d))
unfolding alter_unless altered
alter_unless-Runs true = Runs-pure tt
alter_unless-Runs false = Runs-execute add_ts_millis

ensure-Runs :
    Runs ensure_events_ts_millis_column (λ d. (tt, altered (has_ts_millis (columns_of d.events)) d))
unfolding ensure_events_ts_millis_column
ensure-Runs =
    Runs-bind (λ d. (tt, d)) (λ u d. (tt, altered (has_ts_millis (columns_of d.events)) d))
      (Runs-query (λ _. tt))
      (λ u.
        Runs-bind (λ d. (columns_of d.events, d))
          (λ columns d. (tt, altered (has_ts_millis columns) d))
          (Runs-query (λ d. columns_of d.events))
          (λ columns.
            Runs-bind (λ d. (has_ts_millis columns, d)) (λ b d. (tt, altered b d))
              (find_ts_millis-Runs columns) alter_unless-Runs))

open_database-Runs : Runs open_database (λ d. (tt, prepared d))
unfolding open_database prepared
open_database-Runs =
    let ensured : Database → Unit {0} × Database =
      λ d. (tt, altered (has_ts_millis (columns_of d.events)) d) in
    Runs-bind (λ d. (tt, d)) (λ u d. ensured (create_steps (create_events d)))
      (Runs-query (λ _. tt))
      (λ u.
        Runs-bind (λ d. (tt, create_events d)) (λ u d. ensured (create_steps d))
          (Runs-execute create_events)
          (λ u.
            Runs-bind (λ d. (tt, d)) (λ u d. ensured (create_steps d)) (Runs-execute (λ d. d))
              (λ u.
                Runs-bind (λ d. (tt, create_steps d)) (λ u d. ensured d) (Runs-execute create_steps)
                  (λ u. ensure-Runs))))

-- The new column is found.
has_ts_millis-append : (cs : List Text) → has_ts_millis (cs ++ codes "ts_millis" ∷ []) ≡ true
unfolding has_ts_millis text_eq
has_ts_millis-append [] = refl
has_ts_millis-append (c ∷ cs) = ground (arith, has_ts_millis-append cs)

with_column-has :
    (b : Bool) (t : EventsTable)
    → has_ts_millis t.columns ≡ b
    → has_ts_millis (with_column b t).columns ≡ true
unfolding with_column
with_column-has true t h = h
with_column-has false t h = has_ts_millis-append t.columns

migrated_events-has :
    (events : Option EventsTable) → has_ts_millis (migrated_events events).columns ≡ true
unfolding migrated_events has_ts_millis text_eq
migrated_events-has none = refl
migrated_events-has (some t) = with_column-has (has_ts_millis t.columns) t refl

abbrev complete : EventsTable → List StepRecord → Database
complete t ss = record { events = some t; steps = some ss }

tables_of-complete :
    (t : EventsTable) (ss : List StepRecord)
    → tables_of (complete t ss) ≡ record { events = t.rows; steps = ss }
unfolding tables_of
tables_of-complete t ss = refl

abbrev quiet : Database → ConnectionTo Database
quiet d = record { tables = d; answers = [] }

find_ts_millis-quiet :
    (columns : List Text) (d : Database)
    → find_ts_millis columns (quiet d) ≡ (ok (has_ts_millis columns), quiet d)
unfolding find_ts_millis has_ts_millis
find_ts_millis-quiet [] d = refl
find_ts_millis-quiet (c ∷ cs) d = ground (arith, find_ts_millis-quiet cs d)

new-complete :
    (now : SystemTime) (t : EventsTable) (ss : List StepRecord)
    → has_ts_millis t.columns ≡ true
    → new now (quiet (complete t ss))
      ≡ (ok (healthy (tables_of (complete t ss)) now), quiet (complete t ss))
unfolding new open_database ensure_events_ts_millis_column create_events create_steps opened
new-complete now t ss h =
    rw (find_ts_millis-quiet t.columns (complete t ss), h) (unfold alter_unless tables_of in refl)

opened-ok :
    (now : SystemTime) (s : SqliteStore) (r : Result StoreError (Unit {0}))
    (c : ConnectionTo Database)
    → opened now r c ≡ ok s
    → (r ≡ ok tt) × (s.conn.tables ≡ tables_of c.tables)
unfolding opened
opened-ok now s (ok tt) c h = (refl, ground arith)
opened-ok now s (err e) c h = cc

-- Whatever rusqlite answers, if `new` returns a store, then the file has got a table of events and
-- a table of steps. The steps are those that were there, or none. The events are those that were
-- there, or none, with the columns that the table had; if `ts_millis` was not among these, it is
-- behind them, and 0 in every row; the columns of a new table are `id`, `workflow_id`, `payload` and
-- `ts_millis`. Either way the table has the column. The store reads exactly these rows; and to open
-- the file again, when no call fails, gives a store of the same rows and changes nothing.
pub new-new :
    (now later : SystemTime) (c : ConnectionTo Database) (s : SqliteStore)
    → (new now c).0 ≡ ok s
    → ((new now c).1.tables ≡ migrated c.tables)
      × (has_ts_millis (migrated_events c.tables.events).columns ≡ true)
      × (s.conn.tables ≡ record {
        events = (migrated_events c.tables.events).rows;
        steps = migrated_steps c.tables.steps;
      })
      × (new later (record { tables = migrated c.tables; answers = [] })
          ≡ (ok (healthy s.conn.tables later), record { tables = migrated c.tables; answers = [] }))
unfolding new migrated
new-new now later c s h =
    let (er, es) = opened-ok now s (open_database c).0 (open_database c).1 h in
    let (e0, et) = open_database-Runs.at c tt er in
    let t = migrated_events c.tables.events in
    let ss = migrated_steps c.tables.steps in
    let now_there : (open_database c).1.tables ≡ complete t ss = et ∙ prepared-migrated c.tables in
    let seen : s.conn.tables ≡ record { events = t.rows; steps = ss } =
      es ∙ ap tables_of now_there ∙ tables_of-complete t ss in
    (
      now_there,
      migrated_events-has c.tables.events,
      seen,
      new-complete later t ss (migrated_events-has c.tables.events)
          ∙ ap (λ x. (ok (healthy x later), quiet (complete t ss)))
              (tables_of-complete t ss ∙ sym seen),
    )
