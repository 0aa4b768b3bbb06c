-- ===== src/Store/Records.antt =====
-- internal/store/store.go: the records of the session store and of the event queue store, and
-- their `Validate`. A time is a number of nanoseconds after Go's zero time, which is 0.
use staging_platform.Base.{
  ℕ, String, Bool, true, false, not, ◌&&◌, ◌||◌, Option, none, some, List, [], ◌∷◌, ◌++◌, ltb, ◌==◌,
  if◌then◌else◌, is_blank,
}
use staging_platform.Json.{Fields}

abbrev pub Time : Type 0
Time = ℕ

abbrev pub is_zero : Time → Bool
is_zero t = t == 0

-- `problems = append(problems, message)` under a test
abbrev pub problem : Bool → String → List String
problem b message = if b then message ∷ [] else []

-- A nil map is `none`.
abbrev pub is_nil : Option Fields → Bool
is_nil none = true
is_nil (some o) = false

-- A string type of Go: its constants, and any other text.
pub data SessionStatus : Type 0 where
  active : SessionStatus
  other_status : String → SessionStatus

pub record SessionRecord : Type 0 where
  pub session_name : String
  pub parent_session_name : String
  pub current_snapshot_id : String
  pub status : SessionStatus
  pub created_at : Time
  pub updated_at : Time

abbrev pub is_session_status : SessionStatus → Bool
is_session_status active = true
is_session_status (other_status s) = false

unfoldable pub session_problems : SessionRecord → List String
session_problems s =
    problem (is_blank s.session_name) "session_name is required"
    ++ problem (not (is_session_status s.status)) "status must be \"active\""
    ++ problem (is_zero s.created_at) "created_at is required"
    ++ problem (is_zero s.updated_at) "updated_at is required"
    ++ problem
        (not (is_zero s.created_at) && not (is_zero s.updated_at) && ltb s.updated_at s.created_at)
        "updated_at cannot be before created_at"

pub record SessionSnapshot : Type 0 where
  pub snapshot_id : String
  pub session_name : String
  pub parent_snapshot_id : String
  pub source_run_id : String
  pub state : Option Fields
  pub created_at : Time

unfoldable pub snapshot_problems : SessionSnapshot → List String
snapshot_problems s =
    problem (is_blank s.snapshot_id) "snapshot_id is required"
    ++ problem (is_blank s.session_name) "session_name is required"
    ++ problem (is_nil s.state) "state is required"
    ++ problem (is_zero s.created_at) "created_at is required"

pub record SessionClock : Type 0 where
  pub session_name : String
  pub current_time : Time
  pub updated_at : Time

unfoldable pub clock_problems : SessionClock → List String
clock_problems c =
    problem (is_blank c.session_name) "session_name is required"
    ++ problem (is_zero c.current_time) "current_time is required"
    ++ problem (is_zero c.updated_at) "updated_at is required"

pub data DeliveryMode : Type 0 where
  push pull : DeliveryMode
  other_mode : String → DeliveryMode

pub data EventStatus : Type 0 where
  pending delivered : EventStatus
  other_status : String → EventStatus

pub record ScheduledEvent : Type 0 where
  pub event_id : String
  pub session_name : String
  pub service : String
  pub topic : String
  pub delivery_mode : DeliveryMode
  pub due_at : Time
  pub payload : Option Fields
  pub status : EventStatus
  pub created_at : Time
  pub delivered_at : Option Time

abbrev pub is_delivery_mode : DeliveryMode → Bool
is_delivery_mode push = true
is_delivery_mode pull = true
is_delivery_mode (other_mode s) = false

abbrev pub is_pending : EventStatus → Bool
is_pending pending = true
is_pending delivered = false
is_pending (EventStatus.other_status s) = false

abbrev pub is_delivered : EventStatus → Bool
is_delivered pending = false
is_delivered delivered = true
is_delivered (EventStatus.other_status s) = false

-- nil, or the zero time
abbrev pub is_unset : Option Time → Bool
is_unset none = true
is_unset (some t) = is_zero t

abbrev pub is_set : Option Time → Bool
is_set none = false
is_set (some t) = true

unfoldable pub event_problems : ScheduledEvent → List String
event_problems e =
    problem (is_blank e.event_id) "event_id is required"
    ++ problem (is_blank e.session_name) "session_name is required"
    ++ problem (is_blank e.service) "service is required"
    ++ problem (is_blank e.topic) "topic is required"
    ++ problem (not (is_delivery_mode e.delivery_mode))
        "delivery_mode must be one of \"push\", \"pull\""
    ++ problem (is_zero e.due_at) "due_at is required"
    ++ problem (is_nil e.payload) "payload is required"
    ++ problem (not (is_pending e.status || is_delivered e.status))
        "status must be one of \"pending\", \"delivered\""
    ++ problem (is_zero e.created_at) "created_at is required"
    ++ problem (is_pending e.status && is_set e.delivered_at)
        "delivered_at must be empty when status is pending"
    ++ problem (is_delivered e.status && is_unset e.delivered_at)
        "delivered_at is required when status is delivered"
