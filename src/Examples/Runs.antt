-- ===== src/Examples/Runs.antt =====
-- The managers at concrete inputs.
use mathlib.Core.Path.{◌≡◌, refl}
use staging_platform.Base.{
  String, some, List, [], ◌∷◌, map, find, any, keep, all, update_where, trim_space, is_blank,
}
use staging_platform.Base.Int.{pos}
use staging_platform.Base.Sorting.{sort_by}
use staging_platform.Result.{Result, ok, err, rejected}
use staging_platform.Effect.{◌>>=◌, or_undo, return, fail, reads, writes, transacts}
use staging_platform.Store.Records.{
  ScheduledEvent, session_problems, snapshot_problems, clock_problems, event_problems,
}
use staging_platform.Store.Tables.{upsert}
use staging_platform.Store.Sessions.{
  session_row, parent_is_missing, create_session, get_session, ensure_session_exists,
  parse_ended_at, get_run_record,
}
use staging_platform.Store.Snapshots.{
  hydrate_snapshot, get_session_snapshot, check_current_snapshot, update_session,
  check_parent_snapshot, check_source_run, marshal_json, put_session_snapshot, parent_of_next,
  check_run_session, advanced_session, append_session_snapshot,
}
use staging_platform.Store.Clocks.{get_session_clock, ensure_session_clock, advance_session_clock}
use staging_platform.Store.Events.{
  due_first, is_due, due_rows, is_markable, mark_rows, mark_scheduled_events_delivered,
  put_scheduled_event, scan_event, scan_rows, list_due_scheduled_events,
}
use staging_platform.Store.Deletion.{
  forget_run, forget_parent, orphan, delete_session_row, delete_rows, has_rows, delete_session,
}
use staging_platform.Runtime.Queue.{
  AdvanceResult, new_event, ensure_clock, mark_delivered, with_delivered_at, schedule, advance_time,
  pull_due,
}
use staging_platform.Runtime.Injection.{
  resolve_inject, check_match, check_rule, check_rules, new_engine, matches, first_match,
  count_call, evaluate,
}
use staging_platform.Runtime.Injection.Library.{named_library}
use staging_platform.Runtime.Session.{
  create, fork, clone_state, copy_snapshot, snapshot, restore, current_snapshot, new_session,
}
use staging_platform.Examples.Fixtures.{small_codec, two_sessions, from_run}

-- All that a run of a manager computes with.
unfoldable pub run_all : Unit {0}
unfolding ◌>>=◌ or_undo find any keep all update_where trim_space is_blank sort_by session_problems
    snapshot_problems clock_problems upsert session_row parent_is_missing create_session get_session
    ensure_session_exists parse_ended_at get_run_record hydrate_snapshot get_session_snapshot
    check_current_snapshot update_session check_parent_snapshot check_source_run marshal_json
    put_session_snapshot parent_of_next check_run_session advanced_session append_session_snapshot
    get_session_clock ensure_session_clock advance_session_clock due_first is_due due_rows
    is_markable mark_rows mark_scheduled_events_delivered put_scheduled_event scan_event scan_rows
    list_due_scheduled_events delete_session schedule advance_time pull_due create fork clone_state
    named_library resolve_inject check_match check_rule check_rules new_engine matches first_match
    count_call evaluate copy_snapshot snapshot restore current_snapshot forget_run forget_parent
    orphan delete_session_row delete_rows has_rows new_session new_event ensure_clock mark_delivered
    with_delivered_at return fail reads writes transacts event_problems
run_all = tt

abbrev ids : Result AdvanceResult → List String
ids (ok r) = map {A = ScheduledEvent} (λ e. e.event_id) r.delivered_push
ids (err e) = []

advance_in_order :
    ids (advance_time small_codec " shop" (pos 60) 10 two_sessions).0 ≡ "evt_a" ∷ "evt_b" ∷ []
unfolding run_all
advance_in_order = refl

advance_some : ids (advance_time small_codec " shop" (pos 45) 10 two_sessions).0 ≡ "evt_a" ∷ []
unfolding run_all
advance_some = refl

fork_of_run : fork small_codec "shop" "copy" (some "snap_2") 30 from_run ≡ (
  err (rejected "snapshot source run session must match snapshot session"),
  (fork small_codec "shop" "copy" (some "snap_2") 30 from_run).1,
)
unfolding run_all
fork_of_run = refl
