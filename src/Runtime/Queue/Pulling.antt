-- ===== src/Runtime/Queue/Pulling.antt =====
-- What `PullDue` delivers, and that it delivers nothing twice.
use staging_platform.Base.{
  Bool, String, ◌≡◌, refl, sym, ap, subst, ◌∙◌, List, [], arith, trim_space, All,
}
use staging_platform.Json.{Codec}
use staging_platform.Result.{Result, ok, err, not_found}
use staging_platform.Effect.{return, fail, ◌>>=◌}
use staging_platform.Effect.Inversion.{
  bind-eq-ok, reads-eq-ok, transacts-eq-ok, return-eq-ok, bind_of_ok, reads_of_ok,
}
use staging_platform.Store.Records.{Time, ScheduledEvent, SessionClock, pull}
use staging_platform.Store.Tables.{Db}
use staging_platform.Store.Clocks.{get_session_clock, ensure_session_clock}
use staging_platform.Store.Events.{list_due_scheduled_events}
use staging_platform.Store.Marking.{HasTrimmedId}
use staging_platform.Store.Scanning.{list_due-none, get_session_clock-events}
use staging_platform.Runtime.Queue.{
  mark_delivered, with_delivered_at, pull_due, ensure_clock, or_make,
}
use staging_platform.Runtime.Queue.Delivery.{HandedOut, HandedOut-mark, mark_delivered-eq-ok}

-- A clock that was made is the one that the session has from then on, and no event is touched.
ensure_session_clock-eq-ok :
    (db : Db) (wanted : SessionClock) {d : Db} {clock : SessionClock} {created : Bool}
    → ensure_session_clock db wanted ≡ ok (d, (clock, created))
    → (d.events ≡ db.events) × (get_session_clock d wanted.session_name ≡ ok clock)
unfolding ensure_session_clock
ensure_session_clock-eq-ok db wanted h = ground arith

or_make-eq-ok :
    (name : String) (now : Time) (found : Result SessionClock) (db : Db) {d : Db}
    {clock : SessionClock}
    → get_session_clock db name ≡ found
    → or_make name now found db ≡ (ok clock, d)
    → (d.events ≡ db.events) × (get_session_clock d name ≡ ok clock)
unfolding return fail
or_make-eq-ok name now (ok c) db {d} {clock} e h =
    let (e1, e2) = return-eq-ok c h in (ap (λ (x : Db). x.events) (sym e2), cc (e, e1, e2))
or_make-eq-ok name now (err not_found) db e h =
    let ((found, created), d1, h1, g1) = bind-eq-ok _ _ h in
    let (e1, e2) = return-eq-ok _ g1 in
    let (same, is_found) = ensure_session_clock-eq-ok db _ (transacts-eq-ok _ h1) in
    (cc (same, e2), cc (is_found, e1, e2))
or_make-eq-ok name now (err x) db e h = ground arith

pub ensure_clock-eq-ok :
    (name : String) (now : Time) (db : Db) {d : Db} {clock : SessionClock}
    → ensure_clock name now db ≡ (ok clock, d)
    → (d.events ≡ db.events) × (get_session_clock d name ≡ ok clock)
unfolding ensure_clock
ensure_clock-eq-ok name now db h = or_make-eq-ok name now (get_session_clock db name) db refl h

ensure_clock_of_found :
    (name : String) (now : Time) (db : Db) {clock : SessionClock}
    → get_session_clock db name ≡ ok clock
    → ensure_clock name now db ≡ (ok clock, db)
unfolding ensure_clock return
ensure_clock_of_found name now db h = rw h

deliver_none :
    (name : String) (t : Time) (db : Db)
    → (mark_delivered name [] t >>= λ _. return (with_delivered_at t [])) db ≡ (ok [], db)
unfolding mark_delivered with_delivered_at ◌>>=◌
deliver_none name t db = refl

-- The parts of a success of `PullDue`.
record Pulled (c : Codec) (name : String) (now : Time) (db db' : Db) (out : List ScheduledEvent)
    : Type 0 where
  before : Db
  clock : SessionClock
  due : List ScheduledEvent
  clocked : ensure_clock name now db ≡ (ok clock, before)
  listed : list_due_scheduled_events c before name pull clock.current_time ≡ ok due
  marked : mark_delivered name due clock.current_time before ≡ (ok tt, db')
  reported : out ≡ with_delivered_at clock.current_time due

module _ (c : Codec) where
  pull_due-Pulled :
      (session_name : String) (now : Time) {db db' : Db} {out : List ScheduledEvent}
      → pull_due c session_name now db ≡ (ok out, db')
      → Pulled c (trim_space session_name) now db db' out
  unfolding pull_due
  pull_due-Pulled session_name now {db} {db'} {out} h =
      let (clock, d1, h1, g1) = bind-eq-ok _ _ h in
      let (due, d2, h2, g2) = bind-eq-ok _ _ g1 in
      let (_, d3, h3, g3) = bind-eq-ok _ _ g2 in
      let (k2, e2) = reads-eq-ok _ h2 in
      let (e5, e4) = return-eq-ok _ g3 in
      record {
        before = d1;
        clock = clock;
        due = due;
        clocked = h1;
        listed = k2;
        marked = cc (h3, e2, e4);
        reported = sym e5;
      }

  Pulled-found :
      {name : String} {now : Time} {db db' : Db} {out : List ScheduledEvent}
      (p : Pulled c name now db db' out)
      → get_session_clock db' name ≡ ok p.clock
  Pulled-found {name} {now} {db} p =
      rw (mark_delivered-eq-ok p.before name p.due p.clock.current_time p.marked)
        (get_session_clock-events p.before _ name ∙ (ensure_clock-eq-ok name now db p.clocked).1)

  Pulled-HandedOut :
      {name : String} {now : Time} {db db' : Db} {out : List ScheduledEvent}
      (p : Pulled c name now db db' out)
      → All HasTrimmedId db.events
      → HandedOut name pull p.clock.current_time db.events db' out
  Pulled-HandedOut {name} {now} {db} {db'} p trimmed =
      let t = p.clock.current_time in
      let same = (ensure_clock-eq-ok name now db p.clocked).0 in
      let handed = HandedOut-mark c name pull t p.before (rw same trimmed) p.listed p.marked in
      rw p.reported
        (subst (λ rows. HandedOut name pull t rows db' (with_delivered_at t p.due)) same handed)

  -- When `PullDue` succeeds, and no event's identifier has blanks around it, the session has a
  -- clock afterwards, and the events returned are the pending pull events of the session due by
  -- its time, by due time and then by identifier. The stored table has exactly these marked
  -- delivered at that time, every other row is as before, and no pending pull event of the session
  -- is due any more.
  pub pull_due-HandedOut :
      (session_name : String) (now : Time) (db : Db) {db' : Db} {out : List ScheduledEvent}
      → All HasTrimmedId db.events
      → pull_due c session_name now db ≡ (ok out, db')
      → (clock : SessionClock) × (get_session_clock db' (trim_space session_name) ≡ ok clock)
        × HandedOut (trim_space session_name) pull clock.current_time db.events db' out
  pull_due-HandedOut session_name now db trimmed h =
      let p = pull_due-Pulled session_name now h in
      (p.clock, Pulled-found p, Pulled-HandedOut p trimmed)

  -- When `PullDue` succeeds, and no event's identifier has blanks around it, a second `PullDue` of
  -- the session on the tables it left, at any time of the system clock, succeeds, returns no
  -- event, and changes nothing.
  pub pull_due-again :
      (session_name : String) (now later : Time) (db : Db) {db' : Db} {out : List ScheduledEvent}
      → All HasTrimmedId db.events
      → pull_due c session_name now db ≡ (ok out, db')
      → pull_due c session_name later db' ≡ (ok [], db')
  unfolding pull_due
  pull_due-again session_name now later db {db'} trimmed h =
      let name = trim_space session_name in
      let p = pull_due-Pulled session_name now h in
      let none = (Pulled-HandedOut p trimmed).none_left in
      bind_of_ok _ _ (ensure_clock_of_found name later db' (Pulled-found p))
      ∙ bind_of_ok _ _ (
          reads_of_ok _ db'
            (list_due-none c p.before db' name pull p.clock.current_time p.listed none))
      ∙ deliver_none name p.clock.current_time db'
