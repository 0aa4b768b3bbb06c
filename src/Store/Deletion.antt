-- ===== src/Store/Deletion.antt =====
-- internal/store/sqlite/store.go: `DeleteSession`, with what the references of the tables do to
-- the rows that it leaves (internal/store/sqlite/migrations).
pub mod Gone
use staging_platform.Base.{
  String, Bool, not, ◌||◌, ◌&&◌, List, str_eq, if◌then◌else◌, any, keep, map,
}
use staging_platform.Result.{Result, ok, not_found, ◌>>=◌, ◌>>◌, refuse_if}
use staging_platform.Store.Records.{SessionRecord}
use staging_platform.Store.Tables.{
  Db, SnapshotRow, RunRow, session_named, snapshot_of, snapshot_with_id, clock_of, event_of, run_of,
  run_with_id, salt_of,
}

-- The six `COUNT(*)` queries: does any table hold a row of the session?
unfoldable pub has_rows : Db → String → Bool
has_rows db name =
    any (run_of name) db.runs
    || any (salt_of name) db.salts
    || any (session_named name) db.sessions
    || any (snapshot_of name) db.snapshots
    || any (clock_of name) db.clocks
    || any (event_of name) db.events

-- `source_run_id … ON DELETE SET NULL`
unfoldable pub forget_run : List RunRow → SnapshotRow → SnapshotRow
forget_run gone s =
    if any (run_with_id s.source_run_id) gone then record s { source_run_id = "" } else s

-- `parent_snapshot_id … ON DELETE SET NULL`
unfoldable pub forget_parent : List SnapshotRow → SnapshotRow → SnapshotRow
forget_parent gone s =
    if any (snapshot_with_id s.parent_snapshot_id) gone
    then record s { parent_snapshot_id = "" }
    else s

-- `parent_session_name … ON DELETE SET NULL`
unfoldable pub orphan : String → SessionRecord → SessionRecord
orphan name s =
    if str_eq s.parent_session_name name then record s { parent_session_name = "" } else s

-- A session's row takes its snapshots along (`ON DELETE CASCADE`).
unfoldable pub delete_session_row : Db → String → Db
unfolding orphan forget_parent
delete_session_row db name =
    if any (session_named name) db.sessions
    then record db {
      sessions = map (orphan name) (keep (λ s. not (session_named name s)) db.sessions);
      snapshots =
          map (forget_parent (keep (snapshot_of name) db.snapshots))
            (keep (λ s. not (snapshot_of name s)) db.snapshots);
    }
    else db

-- The `DELETE` statements in their order: runs, salts, events, clock, session.
unfoldable pub delete_rows : Db → String → Db
unfolding forget_run delete_session_row
delete_rows db name =
    delete_session_row
      (record db {
        runs = keep (λ r. not (run_of name r)) db.runs;
        snapshots = map (forget_run (keep (run_of name) db.runs)) db.snapshots;
        salts = keep (λ s. not (salt_of name s)) db.salts;
        events = keep (λ e. not (event_of name e)) db.events;
        clocks = keep (λ c. not (clock_of name c)) db.clocks;
      })
      name

unfoldable pub delete_session : Db → String → Result Db
unfolding has_rows delete_rows
delete_session db name = do refuse_if (not (has_rows db name)) not_found; ok (delete_rows db name)
