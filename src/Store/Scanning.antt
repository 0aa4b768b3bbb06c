-- ===== src/Store/Scanning.antt =====
-- What a success of the queries and of the clock's transaction says.
use staging_platform.Base.{String, ◌≡◌, refl, false, List, [], ◌∷◌, map, arith, trim_space}
use staging_platform.Base.Int.{ℤ}
use staging_platform.Json.{Codec}
use staging_platform.Result.{ok, err, >>=-eq-ok, not_found}
use staging_platform.Store.Records.{Time, ScheduledEvent, SessionClock, DeliveryMode, is_zero}
use staging_platform.Store.Tables.{Db, EventRow, clock_of, upsert}
use staging_platform.Store.Events.{scan_event, scan_rows, list_due_scheduled_events, due_rows}
use staging_platform.Store.Clocks.{advance_session_clock, get_session_clock, add_time, is_negative}
use staging_platform.Store.Marking.{ids_of}

module _ (c : Codec) where
  scan_event-id :
      (row : EventRow) {e : ScheduledEvent} → scan_event c row ≡ ok e → e.event_id ≡ row.event_id
  unfolding scan_event
  scan_event-id row {e} h = ground arith

  pub scan_rows-ids :
      (rows : List EventRow) {es : List ScheduledEvent}
      → scan_rows c rows ≡ ok es
      → map (λ (e : ScheduledEvent). e.event_id) es ≡ ids_of rows
  unfolding scan_rows
  scan_rows-ids [] {es} h = let e : [] ≡ es = cc in rw (← e)
  scan_rows-ids (row ∷ rows) {es} h =
      let (event, scanned, h1) = >>=-eq-ok (scan_event c row) _ h in
      let (events, rest, h2) = >>=-eq-ok (scan_rows c rows) _ h1 in
      let e : event ∷ events ≡ es = cc in
      rw (← e) (rw (scan_event-id row scanned, scan_rows-ids rows rest))

  pub list_due-eq-ok :
      (db : Db) (name : String) (mode : DeliveryMode) (now : Time) {es : List ScheduledEvent}
      → list_due_scheduled_events c db name mode now ≡ ok es
      → scan_rows c (due_rows db name mode now) ≡ ok es
  unfolding list_due_scheduled_events
  list_due-eq-ok db name mode now h = ground arith

-- A clock that is advanced: the other tables stay, and the time is the old one, or the initial one
-- where there was no clock, moved on by the duration.
pub advance_session_clock-eq-ok :
    (db : Db) (session_name : String) (by : ℤ) (initial updated_at : Time) {db' : Db}
    {clock : SessionClock}
    → advance_session_clock db session_name by initial updated_at ≡ ok (db', clock)
    → (db' ≡ record db { clocks = upsert (clock_of (trim_space session_name)) clock db.clocks })
      × (clock.session_name ≡ trim_space session_name)
      × (is_negative by ≡ false)
      × ((old : SessionClock)
          → get_session_clock db (trim_space session_name) ≡ ok old
          → clock.current_time ≡ add_time old.current_time by)
      × (get_session_clock db (trim_space session_name) ≡ err not_found
          → clock.current_time ≡ add_time initial by)
unfolding advance_session_clock
advance_session_clock-eq-ok db session_name by initial updated_at {db'} {clock} h = ground arith

-- The query's own checks depend on its arguments alone.
pub list_due-none :
    (c : Codec) (before db : Db) (name : String) (mode : DeliveryMode) (now : Time)
    {es : List ScheduledEvent}
    → list_due_scheduled_events c before name mode now ≡ ok es
    → due_rows db name mode now ≡ []
    → list_due_scheduled_events c db name mode now ≡ ok []
unfolding list_due_scheduled_events scan_rows
list_due-none c before db name mode now h e = rw e (ground arith)

pub get_session_clock-events :
    (d : Db) (rows : List EventRow) (name : String)
    → get_session_clock (record d { events = rows }) name ≡ get_session_clock d name
unfolding get_session_clock
get_session_clock-events d rows name = refl

pub list_due-nonzero :
    (c : Codec) (db : Db) (name : String) (mode : DeliveryMode) (now : Time)
    {es : List ScheduledEvent}
    → list_due_scheduled_events c db name mode now ≡ ok es
    → is_zero now ≡ false
unfolding list_due_scheduled_events
list_due-nonzero c db name mode now h = ground arith
