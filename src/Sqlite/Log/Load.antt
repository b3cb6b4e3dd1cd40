-- ===== src/Sqlite/Log/Load.antt =====
-- Reading the log back: `load_events` returns what was appended, in order.
use agentq.Prelude.{
  ◌≡◌, refl, List, [], ◌∷◌, ◌++◌, append-nil, Result, ok, ◌>>=◌, arith, if◌then◌else◌,
}
use agentq.Text.{Text, text_eq}
use agentq.Event.{Event}
use agentq.Workflow.{SystemTime}
use agentq.Store.{StoreError}
use agentq.Sqlite.Codec.{decode_event, event_workflow_id}
use agentq.Sqlite.Codec.RoundTrip.{FitsTypes, decode_event-encode_event}
use agentq.Sqlite.Table.{EventRecord, Tables, select_events}
use agentq.Sqlite.Table.Laws.{select_events-append}
use agentq.Sqlite.Connection.{Connection, healthy}
use agentq.Sqlite.Log.{append_event, load_events, fetch_payloads}
use agentq.Sqlite.Log.Project.{event_record, appended, append_event-appended}

-- Decoding every row, with the first error.
unfoldable pub decode_all : List EventRecord → Result StoreError (List Event)
decode_all [] = ok []
decode_all (r ∷ rs) = do event ← decode_event r.payload; rest ← decode_all rs; ok (event ∷ rest)

module _ (t : Tables) where
  abbrev quiet : Connection
  quiet = record { tables = t; answers = [] }

  fetch_payloads-decode_all :
      (rows : List EventRecord) → fetch_payloads rows quiet ≡ (decode_all rows, quiet)
  unfolding fetch_payloads decode_all
  fetch_payloads-decode_all [] = refl
  fetch_payloads-decode_all (r ∷ rs) = ground (arith, fetch_payloads-decode_all rs)

  pub load_events-decode_all :
      (w : Text) (now : SystemTime)
      → load_events w (healthy t now) ≡ (decode_all (select_events w t.events), healthy t now)
  unfolding load_events
  load_events-decode_all w now =
      ground (arith, fetch_payloads-decode_all (select_events w t.events))

pub decode_all-append :
    (rs : List EventRecord) (r : EventRecord) (e : Event)
    → decode_event r.payload ≡ ok e
    → decode_all (rs ++ r ∷ []) ≡ (do es ← decode_all rs; ok (es ++ e ∷ []))
unfolding decode_all
decode_all-append [] r e d = ground arith
decode_all-append (q ∷ rs) r e d = ground (arith, decode_all-append rs r e d)

pub select_events-appended :
    (event : Event) (t : Tables) (now : SystemTime) (w : Text)
    → select_events w (appended now event t).events ≡ (
        if text_eq (event_workflow_id event) w
        then select_events w t.events ++ event_record now event ∷ []
        else select_events w t.events)
unfolding appended event_record select_events
select_events-appended event t now w = ground (
  arith,
  select_events-append w t.events (event_record now event ∷ []),
  append-nil (select_events w t.events),
)

pub decode_all-appended :
    (event : Event) (t : Tables) (now : SystemTime) (w : Text) (es : List Event)
    → FitsTypes event
    → decode_all (select_events w t.events) ≡ ok es
    → decode_all (select_events w (appended now event t).events)
      ≡ ok (if text_eq (event_workflow_id event) w then es ++ event ∷ [] else es)
unfolding event_record
decode_all-appended event t now w es fits old = ground (
  arith,
  select_events-appended event t now w,
  decode_all-append (select_events w t.events) (event_record now event) event,
  decode_event-encode_event event fits,
)

-- An event that is appended to a log becomes the last one of its own workflow, as it was written,
-- and every other workflow's events stay as they were, if its step index and attempt fit their
-- types and no call fails.
pub load_events-append_event :
    (event : Event) (t : Tables) (now : SystemTime) (w : Text) (es : List Event)
    → FitsTypes event
    → (load_events w (healthy t now)).0 ≡ ok es
    → (load_events w (append_event event (healthy t now)).1).0
      ≡ ok (if text_eq (event_workflow_id event) w then es ++ event ∷ [] else es)
load_events-append_event event t now w es fits old =
    rw (append_event-appended, load_events-decode_all)
      (decode_all-appended event t now w es fits (rw load_events-decode_all at old))
