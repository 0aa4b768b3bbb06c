-- ===== src/Store/Events.antt =====
-- internal/store/sqlite/store.go: the scheduled events.
use staging_platform.Base.{
  String, Bool, true, false, not, ◌&&◌, Option, none, some, List, [], ◌∷◌, ltb, leb, ◌==◌, str_eq,
  if◌then◌else◌, find, any, keep, update_where, trim_space, is_blank,
}
use staging_platform.Base.Order.{text_le}
use staging_platform.Base.Sorting.{sort_by}
use staging_platform.Json.{Codec}
use staging_platform.Result.{
  Result, ok, not_found, codec_failed, rejected, ◌>>=◌, ◌>>◌, refuse_if, or_err, no_problems,
}
use staging_platform.Store.Records.{
  Time, is_zero, ScheduledEvent, event_problems, DeliveryMode, push, pull, other_mode,
  is_delivery_mode, delivered, is_pending,
}
use staging_platform.Store.Tables.{Db, EventRow, event_with_id, event_of, upsert}
use staging_platform.Store.Sessions.{get_session}
use staging_platform.Store.Snapshots.{marshal_json}

-- `formatOptionalTime`: the zero time is NULL too.
abbrev pub optional_time : Option Time → Option Time
optional_time none = none
optional_time (some t) = if is_zero t then none else some t

abbrev pub event_row : ScheduledEvent → String → EventRow
event_row e json = record {
  event_id = e.event_id;
  session_name = e.session_name;
  service = e.service;
  topic = e.topic;
  delivery_mode = e.delivery_mode;
  due_at = e.due_at;
  payload_json = json;
  status = e.status;
  created_at = e.created_at;
  delivered_at = optional_time e.delivered_at;
}

abbrev pub is_mode : DeliveryMode → DeliveryMode → Bool
is_mode push push = true
is_mode pull pull = true
is_mode (other_mode a) (other_mode b) = str_eq a b
is_mode a b = false

-- `ORDER BY due_at ASC, event_id ASC`
unfoldable pub due_first : EventRow → EventRow → Bool
due_first a b =
    if a.due_at == b.due_at then text_le a.event_id b.event_id else ltb a.due_at b.due_at

-- `WHERE session_name = ? AND status = 'pending' AND delivery_mode = ? AND due_at <= ?`
unfoldable pub is_due : String → DeliveryMode → Time → EventRow → Bool
is_due name mode now e =
    event_of name e && is_pending e.status && is_mode e.delivery_mode mode && leb e.due_at now

-- The rows that the query of `ListDueScheduledEvents` selects, in its order.
unfoldable pub due_rows : Db → String → DeliveryMode → Time → List EventRow
due_rows db name mode now = sort_by due_first (keep (is_due name mode now) db.events)

-- `WHERE event_id = ? AND session_name = ? AND status = 'pending'`
unfoldable pub is_markable : String → String → EventRow → Bool
is_markable name id e = event_with_id id e && event_of name e && is_pending e.status

-- `SET status = 'delivered', delivered_at = ?`
abbrev pub mark : Time → EventRow → EventRow
mark at e = record e { status = delivered; delivered_at = some at }

-- The loop of `MarkScheduledEventsDelivered` over the table, inside its transaction.
unfoldable pub mark_rows : String → Time → List String → List EventRow → Result (List EventRow)
mark_rows name at [] rows = ok rows
mark_rows name at (id ∷ ids) rows = do
  let event_id = trim_space id
  refuse_if (str_eq event_id "") (rejected "scheduled event_id is required")
  refuse_if (not (any (is_markable name event_id) rows)) not_found
  mark_rows name at ids (update_where (is_markable name event_id) (mark at) rows)

-- An error rolls the whole transaction back.
unfoldable pub mark_scheduled_events_delivered : Db → String → List String → Time → Result Db
mark_scheduled_events_delivered db name [] at = do
  refuse_if (is_blank name) (rejected "scheduled event session_name is required")
  refuse_if (is_zero at) (rejected "scheduled event delivered_at is required")
  ok db
mark_scheduled_events_delivered db name (id ∷ ids) at = do
  refuse_if (is_blank name) (rejected "scheduled event session_name is required")
  refuse_if (is_zero at) (rejected "scheduled event delivered_at is required")
  rows ← mark_rows name at (id ∷ ids) db.events
  ok (record db { events = rows })

module _ (c : Codec) where
  unfoldable pub put_scheduled_event : Db → ScheduledEvent → Result Db
  put_scheduled_event db e = do
    no_problems (event_problems e)
    get_session db e.session_name >>= λ _. ok tt
    json ← marshal_json c e.payload
    ok (record db { events = upsert (event_with_id e.event_id) (event_row e json) db.events })

  -- `scanScheduledEvent`, from the row on
  unfoldable pub scan_event : EventRow → Result ScheduledEvent
  scan_event row = do
    payload ← or_err (c.unmarshal row.payload_json) codec_failed
    let event : ScheduledEvent = record {
      event_id = row.event_id;
      session_name = row.session_name;
      service = row.service;
      topic = row.topic;
      delivery_mode = row.delivery_mode;
      due_at = row.due_at;
      payload = payload;
      status = row.status;
      created_at = row.created_at;
      delivered_at = row.delivered_at;
    }
    no_problems (event_problems event)
    ok event

  unfoldable pub scan_rows : List EventRow → Result (List ScheduledEvent)
  scan_rows [] = ok []
  scan_rows (row ∷ rows) = do event ← scan_event row; events ← scan_rows rows; ok (event ∷ events)

  unfoldable pub get_scheduled_event : Db → String → Result ScheduledEvent
  get_scheduled_event db id = do
    row ← or_err (find (event_with_id id) db.events) not_found
    scan_event row

  unfoldable pub list_due_scheduled_events :
      Db → String → DeliveryMode → Time → Result (List ScheduledEvent)
  list_due_scheduled_events db name mode due_at = do
    refuse_if (is_blank name) (rejected "scheduled event session_name is required")
    refuse_if (not (is_delivery_mode mode))
        (rejected "scheduled event delivery_mode is unsupported")
    refuse_if (is_zero due_at) (rejected "scheduled event due_at boundary is required")
    scan_rows (due_rows db name mode due_at)
