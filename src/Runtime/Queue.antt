-- ===== src/Runtime/Queue.antt =====
-- internal/runtime/queue/manager.go. The manager's clock and its source of identifiers are
-- arguments of each method: `now`, and an identifier or none where the source fails.
pub mod Ready
pub mod Delivery
pub mod Pulling
pub mod Total
pub mod Failure
pub mod Invariant
use staging_platform.Base.{
  String, Option, none, some, List, [], ◌∷◌, map, if◌then◌else◌, trim_space, Bool,
}
use staging_platform.Base.Int.{ℤ}
use staging_platform.Json.{Fields, end, Codec}
use staging_platform.Result.{
  Result, Err, ok, err, not_found, id_failed, rejected, or_err, refuse_if,
}
use staging_platform.Effect.{Effect, return, fail, reads, writes, transacts, ◌>>=◌, ◌>>◌}
use staging_platform.Store.Records.{
  Time, SessionClock, ScheduledEvent, DeliveryMode, push, pull, pending, delivered,
}
use staging_platform.Store.Tables.{Db}
use staging_platform.Store.Clocks.{
  get_session_clock, ensure_session_clock, advance_session_clock, is_negative,
}
use staging_platform.Store.Events.{
  put_scheduled_event, list_due_scheduled_events, mark_scheduled_events_delivered,
}

pub record ScheduleOptions : Type 0 where
  pub session_name : String
  pub service : String
  pub topic : String
  pub delivery_mode : DeliveryMode
  pub due_at : Time
  pub payload : Option Fields

pub record AdvanceResult : Type 0 where
  pub clock : SessionClock
  pub delivered_push : List ScheduledEvent

-- `if payload == nil { payload = map[string]any{} }`
abbrev non_nil : Option Fields → Fields
non_nil none = end
non_nil (some o) = o

unfoldable pub new_event : ScheduleOptions → String → Time → ScheduledEvent
new_event opts event_id now = record {
  event_id = event_id;
  session_name = trim_space opts.session_name;
  service = trim_space opts.service;
  topic = trim_space opts.topic;
  delivery_mode = opts.delivery_mode;
  due_at = opts.due_at;
  payload = some (non_nil opts.payload);
  status = pending;
  created_at = now;
  delivered_at = none;
}

-- `withDeliveredAt`
unfoldable pub with_delivered_at : Time → List ScheduledEvent → List ScheduledEvent
with_delivered_at at =
    map {A = ScheduledEvent} λ e. record e { status = delivered; delivered_at = some at }

-- `ensureClock`: an error other than `store.ErrNotFound` stays.
abbrev or_make : String → Time → Result SessionClock → Effect SessionClock
or_make name now (ok clock) = return clock
or_make name now (err not_found) = do
  ensured ← transacts λ db.
      ensure_session_clock db (record { session_name = name; current_time = now; updated_at = now })
  return ensured.0
or_make name now (err e) = fail e

unfoldable pub ensure_clock : String → Time → Effect SessionClock
ensure_clock name now db = or_make name now (get_session_clock db name) db

-- `Now`
unfoldable pub now_of : String → Time → Effect SessionClock
unfolding ensure_clock
now_of session_name now = ensure_clock (trim_space session_name) now

-- `markDelivered`
unfoldable pub mark_delivered : String → List ScheduledEvent → Time → Effect (Unit {0})
mark_delivered name [] at = return tt
mark_delivered name (e ∷ es) at =
    writes λ db. mark_scheduled_events_delivered db name (map (λ x. x.event_id) (e ∷ es)) at

module _ (c : Codec) where
  unfoldable pub schedule : ScheduleOptions → Option String → Time → Effect ScheduledEvent
  unfolding new_event
  schedule opts new_id now = do
    event_id ← reads λ _. or_err new_id id_failed
    let event = new_event opts event_id now
    writes λ db. put_scheduled_event c db event
    return event

  unfoldable pub advance_time : String → ℤ → Time → Effect AdvanceResult
  unfolding mark_delivered with_delivered_at
  advance_time session_name by now = do
    reads λ _. refuse_if (is_negative by) (rejected "advance_time duration cannot be negative")
    let name = trim_space session_name
    clock ← transacts λ db. advance_session_clock db name by now now
    due ← reads λ db. list_due_scheduled_events c db name push clock.current_time
    mark_delivered name due clock.current_time
    return (record { clock = clock; delivered_push = with_delivered_at clock.current_time due })

  unfoldable pub pull_due : String → Time → Effect (List ScheduledEvent)
  unfolding ensure_clock mark_delivered with_delivered_at
  pull_due session_name now = do
    let name = trim_space session_name
    clock ← ensure_clock name now
    due ← reads λ db. list_due_scheduled_events c db name pull clock.current_time
    mark_delivered name due clock.current_time
    return (with_delivered_at clock.current_time due)
