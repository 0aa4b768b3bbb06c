-- ===== src/Runtime/Queue/Delivery.antt =====
-- What `AdvanceTime` and `PullDue` deliver.
use staging_platform.Base.{
  String, ◌≡◌, refl, sym, ap, subst, ◌∙◌, List, [], ◌∷◌, map, trim_space, keep, All,
}
use staging_platform.Base.Members.{map_same}
use staging_platform.Base.Sorting.{sort_by}
use staging_platform.Base.Int.{ℤ}
use staging_platform.Json.{Codec}
use staging_platform.Result.{ok}
use staging_platform.Effect.Inversion.{
  bind-eq-ok, reads-eq-ok, transacts-eq-ok, writes-eq-ok, return-eq-ok,
}
use staging_platform.Store.Records.{Time, ScheduledEvent, DeliveryMode, push}
use staging_platform.Store.Tables.{Db, EventRow}
use staging_platform.Store.Clocks.{advance_session_clock}
use staging_platform.Store.Events.{is_due, due_rows, list_due_scheduled_events}
use staging_platform.Store.Marking.{
  mark_if, due_ids, HasTrimmedId, ids_of, mark_if-nil, mark_scheduled-eq-ok, keep-due-mark,
}
use staging_platform.Store.Scanning.{scan_rows-ids, list_due-eq-ok, advance_session_clock-eq-ok}
use staging_platform.Runtime.Queue.{AdvanceResult, mark_delivered, with_delivered_at, advance_time}

-- The parts of a success of `AdvanceTime`.
pub record Advanced (c : Codec) (name : String) (by : ℤ) (now : Time) (db db' : Db)
    (r : AdvanceResult) : Type 0 where
  pub before : Db
  pub due : List ScheduledEvent
  pub clock_advanced : advance_session_clock db name by now now ≡ ok (before, r.clock)
  pub listed : list_due_scheduled_events c before name push r.clock.current_time ≡ ok due
  pub marked : mark_delivered name due r.clock.current_time before ≡ (ok tt, db')
  pub reported : r.delivered_push ≡ with_delivered_at r.clock.current_time due

module _ (c : Codec) where
  pub advance_time-Advanced :
      (session_name : String) (by : ℤ) (now : Time) {db db' : Db} {r : AdvanceResult}
      → advance_time c session_name by now db ≡ (ok r, db')
      → Advanced c (trim_space session_name) by now db db' r
  unfolding advance_time
  advance_time-Advanced session_name by now {db} {db'} {r} h =
      let (_, d0, h0, g0) = bind-eq-ok _ _ h in
      let (clock, d1, h1, g1) = bind-eq-ok _ _ g0 in
      let (due, d2, h2, g2) = bind-eq-ok _ _ g1 in
      let (_, d3, h3, g3) = bind-eq-ok _ _ g2 in
      let e0 = (reads-eq-ok _ h0).1 in
      let k1 = transacts-eq-ok _ h1 in
      let (k2, e2) = reads-eq-ok _ h2 in
      let (e5, e4) = return-eq-ok _ g3 in
      let same_clock : clock ≡ r.clock = ap (λ (a : AdvanceResult). a.clock) e5 in
      record {
        before = d1;
        due = due;
        clock_advanced = cc (e0, k1, same_clock);
        listed = cc (k2, same_clock);
        marked = cc (h3, e2, e4, same_clock);
        reported = cc (ap (λ (a : AdvanceResult). a.delivered_push) e5, same_clock);
      }

abbrev pub event_ids : List ScheduledEvent → List String
event_ids = map λ e. e.event_id

pub mark_delivered-eq-ok :
    (db : Db) (name : String) (due : List ScheduledEvent) (at : Time) {db' : Db}
    → mark_delivered name due at db ≡ (ok tt, db')
    → db' ≡ record db { events = map (mark_if name at (event_ids due)) db.events }
unfolding mark_delivered
mark_delivered-eq-ok db name [] at h =
    rw (map_same (mark_if name at []) db.events (mark_if-nil name at)) (sym (return-eq-ok tt h).1)
mark_delivered-eq-ok db name (e ∷ es) at h =
    mark_scheduled-eq-ok db name (event_ids (e ∷ es)) at (writes-eq-ok _ h)

event_ids-with_delivered_at :
    (at : Time) (es : List ScheduledEvent) → event_ids (with_delivered_at at es) ≡ event_ids es
unfolding with_delivered_at
event_ids-with_delivered_at at [] = refl
event_ids-with_delivered_at at (e ∷ es) = rw (event_ids-with_delivered_at at es)

-- How events leave a table `rows`: `out` are those of the session and the mode that are due by
-- `t`, by the time they are due and then by identifier; they are marked delivered at `t`, every
-- other row is as it was, and no row is due any more.
pub record HandedOut (name : String) (mode : DeliveryMode) (t : Time) (rows : List EventRow)
    (db' : Db) (out : List ScheduledEvent) : Type 0 where
  pub in_order : event_ids out ≡ due_ids name mode t rows
  pub marked : db'.events ≡ map (mark_if name t (due_ids name mode t rows)) rows
  pub none_left : due_rows db' name mode t ≡ []

due_rows-of_events :
    (db : Db) (name : String) (mode : DeliveryMode) (t : Time)
    → keep (is_due name mode t) db.events ≡ []
    → due_rows db name mode t ≡ []
unfolding due_rows sort_by
due_rows-of_events db name mode t h = rw h

pub ids_of-due_rows :
    (db : Db) (name : String) (mode : DeliveryMode) (t : Time)
    → ids_of (due_rows db name mode t) ≡ due_ids name mode t db.events
unfolding due_rows
ids_of-due_rows db name mode t = refl

pub HandedOut-mark :
    (c : Codec) (name : String) (mode : DeliveryMode) (t : Time) (before : Db) {db' : Db}
    {due : List ScheduledEvent}
    → All HasTrimmedId before.events
    → list_due_scheduled_events c before name mode t ≡ ok due
    → mark_delivered name due t before ≡ (ok tt, db')
    → HandedOut name mode t before.events db' (with_delivered_at t due)
HandedOut-mark c name mode t before {db'} {due} trimmed listed marked =
    let ids =
      scan_rows-ids c (due_rows before name mode t) (list_due-eq-ok c before name mode t listed)
      ∙ ids_of-due_rows before name mode t in
    let e = ap (λ (d : Db). d.events) (mark_delivered-eq-ok before name due t marked) in
    let e' : db'.events ≡ map (mark_if name t (due_ids name mode t before.events)) before.events =
      rw ids at e in
    record {
      in_order = event_ids-with_delivered_at t due ∙ ids;
      marked = e';
      none_left =
          due_rows-of_events db' name mode t
            (rw e' (keep-due-mark name mode t t before.events trimmed));
    }

module _ (c : Codec) where
  -- When `AdvanceTime` succeeds, and no event's identifier has blanks around it, the events it
  -- returns are the pending push events of the session that are due by the time of the clock it
  -- returns, by due time and then by identifier. The stored table has exactly these marked
  -- delivered at that time, every other row is as before, and no pending push event of the session
  -- is due any more.
  pub advance_time-HandedOut :
      (session_name : String) (by : ℤ) (now : Time) (db : Db) {db' : Db} {r : AdvanceResult}
      → All HasTrimmedId db.events
      → advance_time c session_name by now db ≡ (ok r, db')
      → HandedOut (trim_space session_name) push r.clock.current_time db.events db' r.delivered_push
  advance_time-HandedOut session_name by now db {db'} {r} trimmed h =
      let a = advance_time-Advanced c session_name by now h in
      let e =
        ap (λ (d : Db). d.events)
          (advance_session_clock-eq-ok db (trim_space session_name) by now now
            a.clock_advanced).0 in
      let out =
        HandedOut-mark c (trim_space session_name) push r.clock.current_time a.before (rw e trimmed)
          a.listed a.marked in
      rw a.reported (
        subst
          (λ rows.
            HandedOut (trim_space session_name) push r.clock.current_time rows db'
              (with_delivered_at r.clock.current_time a.due))
          e out)
