-- ===== src/Store/Clocks.antt =====
-- internal/store/sqlite/store.go: the clocks of sessions.
use staging_platform.Base.{
  String, Bool, true, false, not, [], ◌∷◌, ◌++◌, ◌+◌, str_eq, if◌then◌else◌, find, any, trim_space,
}
use staging_platform.Base.Int.{ℤ, pos, negsuc}
use staging_platform.Result.{
  Result, ok, err, not_found, rejected, ◌>>=◌, ◌>>◌, refuse_if, or_err, no_problems,
}
use staging_platform.Store.Records.{Time, is_zero, SessionClock, clock_problems}
use staging_platform.Store.Tables.{Db, clock_of, upsert}
use staging_platform.Store.Sessions.{get_session, ensure_session_exists}

-- `getSessionClockQuery`
unfoldable pub get_session_clock : Db → String → Result SessionClock
get_session_clock db name = do
  c ← or_err (find (clock_of name) db.clocks) not_found
  no_problems (clock_problems c)
  ok c

unfoldable pub put_session_clock : Db → SessionClock → Result Db
put_session_clock db c = do
  no_problems (clock_problems c)
  get_session db c.session_name >>= λ _. ok tt
  ok (record db { clocks = upsert (clock_of c.session_name) c db.clocks })

-- `EnsureSessionClock`: the clock that the session has then, and whether this call made it
unfoldable pub ensure_session_clock : Db → SessionClock → Result (Db × (SessionClock × Bool))
ensure_session_clock db c = do
  no_problems (clock_problems c)
  ensure_session_exists db c.session_name
  let created = not (any (clock_of c.session_name) db.clocks)
  let db' = if created then record db { clocks = db.clocks ++ c ∷ [] } else db
  ensured ← get_session_clock db' c.session_name
  ok (db', (ensured, created))

-- The clock's time, or the initial time where there is no clock; any other error stays.
abbrev current_or : Time → Result SessionClock → Result Time
current_or initial (ok c) = ok c.current_time
current_or initial (err not_found) = ok initial
current_or initial (err e) = err e

abbrev pub is_negative : ℤ → Bool
is_negative (pos n) = false
is_negative (negsuc n) = true

-- `t.Add(by)` for a duration that is not negative
abbrev pub add_time : Time → ℤ → Time
add_time t (pos n) = t + n
add_time t (negsuc n) = t

unfoldable pub advance_session_clock : Db → String → ℤ → Time → Time → Result (Db × SessionClock)
advance_session_clock db session_name by initial_time updated_at = do
  let name = trim_space session_name
  refuse_if (str_eq name "") (rejected "session clock session_name is required")
  refuse_if (is_negative by) (rejected "session clock advance duration cannot be negative")
  refuse_if (is_zero initial_time) (rejected "session clock initial_time is required")
  refuse_if (is_zero updated_at) (rejected "session clock updated_at is required")
  ensure_session_exists db name
  current ← current_or initial_time (get_session_clock db name)
  let advanced : SessionClock = record {
    session_name = name;
    current_time = add_time current by;
    updated_at = updated_at;
  }
  no_problems (clock_problems advanced)
  ok (record db { clocks = upsert (clock_of name) advanced db.clocks }, advanced)
