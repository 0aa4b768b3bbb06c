-- ===== src/Runtime/Queue/Failure.antt =====
-- What a failure of a queue method leaves, and that no method spoils the event table.
use staging_platform.Base.{String, ◌≡◌, refl, ◌∙◌, inl, inr, some, List, [], ◌∷◌, trim_space}
use staging_platform.Base.Int.{ℤ}
use staging_platform.Base.Members.{All-mono}
use staging_platform.Json.{Codec}
use staging_platform.Result.{Err, Result, ok, err}
use staging_platform.Effect.{◌>>=◌}
use staging_platform.Effect.Inversion.{
  bind-eq-err, reads-eq-ok, reads-eq-err, transacts-eq-ok, transacts-eq-err, writes-eq-err,
  not-return-err,
}
use staging_platform.Store.Records.{Time, ScheduledEvent, SessionClock}
use staging_platform.Store.Tables.{Db}
use staging_platform.Store.Events.{put_scheduled_event}
use staging_platform.Store.Marking.{HasTrimmedId}
use staging_platform.Store.Scanning.{advance_session_clock-eq-ok, list_due-nonzero}
use staging_platform.Runtime.Queue.{
  ScheduleOptions, AdvanceResult, new_event, mark_delivered, schedule, advance_time,
}
use staging_platform.Runtime.Queue.Delivery.{advance_time-Advanced, advance_time-HandedOut}
use staging_platform.Runtime.Queue.Ready.{IsReady, IsSound}
use staging_platform.Runtime.Queue.Invariant.{put_scheduled_event-IsReady, HandedOut-IsReady}

mark_delivered-eq-err :
    (name : String) (es : List ScheduledEvent) (at : Time) (db : Db) {db' : Db} {e : Err}
    → mark_delivered name es at db ≡ (err e, db')
    → db ≡ db'
unfolding mark_delivered
mark_delivered-eq-err name [] at db h = absurd (not-return-err tt db h)
mark_delivered-eq-err name (x ∷ xs) at db h = writes-eq-err _ h

-- All tables but the clocks are those of before.
abbrev pub OnlyClocks : Db → Db → Type 0
OnlyClocks db db' = db' ≡ record db { clocks = db'.clocks }

same_clocks : {db db' : Db} → db ≡ db' → OnlyClocks db db'
same_clocks e = rw (← e)

other_clocks :
    {db d0 d1 : Db} {clocks : List SessionClock}
    → db ≡ d0
    → d1 ≡ record d0 { clocks = clocks }
    → OnlyClocks db d1
other_clocks e moved = rw (moved, e)

module _ (c : Codec) where
  -- When `AdvanceTime` fails, every table other than that of the clocks is as before.
  pub advance_time_failed :
      (session_name : String) (by : ℤ) (now : Time) (db : Db) {db' : Db} {e : Err}
      → advance_time c session_name by now db ≡ (err e, db')
      → OnlyClocks db db'
  unfolding advance_time
  advance_time_failed session_name by now db {db'} h = elim (bind-eq-err _ _ h) [
    | inl refused ↦ same_clocks (reads-eq-err _ refused)
    | inr (_, d0, p0, h0) ↦ elim (bind-eq-err _ _ h0) [
      | inl failed ↦ same_clocks ((reads-eq-ok _ p0).1 ∙ transacts-eq-err _ failed)
      | inr (clock, d1, p1, h1) ↦
          let moved =
            (advance_session_clock-eq-ok d0 (trim_space session_name) by now now
              (transacts-eq-ok _ p1)).0 in
          let only : OnlyClocks db d1 = other_clocks (reads-eq-ok _ p0).1 moved in
          elim (bind-eq-err _ _ h1) [
            | inl failed ↦ rw (← reads-eq-err _ failed) only
            | inr (due, d2, p2, h2) ↦ elim (bind-eq-err _ _ h2) [
              | inl failed ↦
                  rw
                    (
                      ← mark_delivered-eq-err (trim_space session_name) due clock.current_time d2
                          failed,
                      ← (reads-eq-ok _ p2).1,
                    )
                    only
              | inr (_, d3, _, h3) ↦ absurd (not-return-err _ d3 h3)
            ]
          ]
    ]
  ]

  -- When `AdvanceTime` succeeds on an event table that is ready (distinct identifiers, not empty
  -- and without blanks around them, and rows that read back), the event table is ready afterwards.
  pub advance_time-IsReady :
      (session_name : String) (by : ℤ) (now : Time) (db : Db) {db' : Db} {r : AdvanceResult}
      → IsReady c db.events
      → advance_time c session_name by now db ≡ (ok r, db')
      → IsReady c db'.events
  advance_time-IsReady session_name by now db r h =
      let a = advance_time-Advanced c session_name by now h in
      HandedOut-IsReady c (list_due-nonzero c a.before (trim_space session_name) _ _ a.listed) r (
        advance_time-HandedOut c session_name by now db
          (All-mono (IsSound c) HasTrimmedId db.events (λ e s. s.0) r.sound) h)

  -- `Schedule` with a new identifier without blanks around it keeps the event table ready
  -- (distinct identifiers, not empty and without blanks around them, and rows that read back),
  -- whether it succeeds or fails.
  pub schedule-IsReady :
      (opts : ScheduleOptions) (event_id : String) (now : Time) (db : Db)
      → trim_space event_id ≡ event_id
      → IsReady c db.events
      → IsReady c (schedule c opts (some event_id) now db).1.events
  unfolding schedule new_event ◌>>=◌
  schedule-IsReady opts event_id now db t r =
      after (put_scheduled_event c db (new_event opts event_id now)) refl
    where
      after :
          (w : Result Db)
          → put_scheduled_event c db (new_event opts event_id now) ≡ w
          → IsReady c (schedule c opts (some event_id) now db).1.events
      after (ok d) e = rw e (put_scheduled_event-IsReady c db (new_event opts event_id now) t r e)
      after (err x) e = rw e r
