-- ===== src/Runtime/Queue/Total.antt =====
-- `AdvanceTime` succeeds wherever the session is there and the tables are sound.
use staging_platform.Base.{
  String, ℕ, ◌+◌, ◌≡◌, refl, ap, ◌∙◌, ◌⊎◌, inl, inr, true, false, List, [], ◌∷◌, arith, str_eq,
  trim_space, is_blank, any,
}
use staging_platform.Base.Int.{pos}
use staging_platform.Base.Trimming.{trim_space_idem}
use staging_platform.Json.{Codec}
use staging_platform.Result.{ok, err, not_found}
use staging_platform.Effect.{return}
use staging_platform.Effect.Inversion.{bind_of_ok, reads_of_ok, transacts_of_ok, writes_of_ok}
use staging_platform.Store.Records.{
  Time, is_zero, ScheduledEvent, SessionClock, clock_problems, DeliveryMode, is_delivery_mode, push,
}
use staging_platform.Store.Tables.{Db, EventRow, clock_of, upsert, session_named}
use staging_platform.Store.Sessions.{ensure_session_exists}
use staging_platform.Store.Clocks.{get_session_clock, advance_session_clock}
use staging_platform.Store.Events.{
  due_rows, list_due_scheduled_events, mark_scheduled_events_delivered, mark_rows,
}
use staging_platform.Store.Scanning.{scan_rows-ids, list_due-eq-ok, advance_session_clock-eq-ok}
use staging_platform.Runtime.Queue.{AdvanceResult, mark_delivered, with_delivered_at, advance_time}
use staging_platform.Runtime.Queue.Delivery.{event_ids, ids_of-due_rows}
use staging_platform.Runtime.Queue.Ready.{IsReady, scan-due_total, mark-due_total}

-- The session has no clock yet, or one that reads back.
abbrev pub HasGoodClock : Db → String → Type 0
HasGoodClock db name =
    (get_session_clock db name ≡ err not_found)
    ⊎ ((old : SessionClock) × (get_session_clock db name ≡ ok old)
        × (is_zero old.current_time ≡ false))

abbrev moved : String → Time → Time → SessionClock
moved name t now = record { session_name = name; current_time = t; updated_at = now }

abbrev moved_db : Db → SessionClock → Db
moved_db db clock = record db { clocks = upsert (clock_of clock.session_name) clock db.clocks }

advance_session_clock_total :
    (db : Db) (name : String) (n : ℕ) (now : Time)
    → trim_space name ≡ name
    → str_eq name "" ≡ false
    → any (session_named name) db.sessions ≡ true
    → is_zero now ≡ false
    → HasGoodClock db name
    → (d : Db) × (clock : SessionClock) × (advance_session_clock db name (pos n) now now
        ≡ ok (d, clock))
      × (is_zero clock.current_time ≡ false)
unfolding advance_session_clock ensure_session_exists clock_problems is_blank
advance_session_clock_total db name n now t b s z (inl none) =
    let clock = moved name (now + n) now in (moved_db db clock, clock, ground arith, ground arith)
advance_session_clock_total db name n now t b s z (inr (old, is, nz)) =
    let clock = moved name (old.current_time + n) now in
    (moved_db db clock, clock, ground arith, ground arith)

list_due_total :
    (c : Codec) (db : Db) (name : String) (mode : DeliveryMode) (now : Time)
    → is_blank name ≡ false
    → is_delivery_mode mode ≡ true
    → is_zero now ≡ false
    → IsReady c db.events
    → (es : List ScheduledEvent) × (list_due_scheduled_events c db name mode now ≡ ok es)
unfolding list_due_scheduled_events due_rows
list_due_total c db name mode now b m z r =
    let (es, e) = scan-due_total c name mode now db.events r in (es, rw (b, m, z) e)

mark_delivered_total :
    (db : Db) (name : String) (es : List ScheduledEvent) (at : Time) {out : List EventRow}
    → is_blank name ≡ false
    → is_zero at ≡ false
    → mark_rows name at (event_ids es) db.events ≡ ok out
    → (d : Db) × (mark_delivered name es at db ≡ (ok tt, d))
unfolding mark_delivered return mark_scheduled_events_delivered
mark_delivered_total db name [] at b z h = (db, refl)
mark_delivered_total db name (e ∷ es) at {out} b z h =
    (record db { events = out }, writes_of_ok _ db (rw (b, z, h)))

module _ (c : Codec) (db : Db) (name : String) (mode : DeliveryMode) (now : Time) where
  -- Listing and marking what is due.
  deliver_total :
      is_blank name ≡ false
      → is_delivery_mode mode ≡ true
      → is_zero now ≡ false
      → IsReady c db.events
      → (es : List ScheduledEvent) × (d : Db) × (list_due_scheduled_events c db name mode now
          ≡ ok es)
        × (mark_delivered name es now db ≡ (ok tt, d))
  deliver_total b m z r =
      let (es, listed) = list_due_total c db name mode now b m z r in
      let (out, marks) = mark-due_total c name mode now db.events r now in
      let ids =
        scan_rows-ids c (due_rows db name mode now) (list_due-eq-ok c db name mode now listed)
        ∙ ids_of-due_rows db name mode now in
      let (d, marked) = mark_delivered_total db name es now {out = out} b z (rw ids marks) in
      (es, d, listed, marked)

-- `AdvanceTime` by a duration that is not negative succeeds when the session's name is not blank
-- and the session is stored, the manager's clock is not the zero time, the session has no clock
-- yet or one that reads back with a time other than zero, and the event table is ready: its
-- identifiers are distinct, not empty and without blanks around them, and each of its rows reads
-- back.
pub advance_time_total :
    (c : Codec) (session_name : String) (n : ℕ) (now : Time) (db : Db)
    → str_eq (trim_space session_name) "" ≡ false
    → any (session_named (trim_space session_name)) db.sessions ≡ true
    → is_zero now ≡ false
    → HasGoodClock db (trim_space session_name)
    → IsReady c db.events
    → (r : AdvanceResult) × (d : Db) × (advance_time c session_name (pos n) now db ≡ (ok r, d))
unfolding advance_time is_blank return
advance_time_total c session_name n now db b s z g r =
    let name = trim_space session_name in
    let idem = trim_space_idem session_name in
    let (d1, clock, advanced, nz) = advance_session_clock_total db name n now idem b s z g in
    let same =
      ap (λ (d : Db). d.events) (advance_session_clock-eq-ok db name (pos n) now now advanced).0 in
    let (es, d2, listed, marked) =
      deliver_total c d1 name push clock.current_time (rw idem b) refl nz (rw same r) in
    (
      record { clock = clock; delivered_push = with_delivered_at clock.current_time es },
      d2,
      bind_of_ok _ _ (reads_of_ok _ db refl)
          ∙ bind_of_ok _ _ (transacts_of_ok _ db advanced)
          ∙ bind_of_ok _ _ (reads_of_ok _ d1 listed)
          ∙ bind_of_ok _ _ marked
          ∙ refl,
    )
