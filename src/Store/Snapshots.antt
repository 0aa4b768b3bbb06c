-- ===== src/Store/Snapshots.antt =====
-- internal/store/sqlite/store.go: `UpdateSession` and the operations on snapshots.
pub mod Appended
pub mod Updated
pub mod Stored
use mathlib.Core.List.{head?}
use staging_platform.Base.{
  String, Bool, not, Option, none, some, ltb, ◌==◌, str_eq, if◌then◌else◌, is_blank, find, any,
  keep, List, [], ◌∷◌, ◌++◌, update_where,
}
use staging_platform.Base.Order.{text_le}
use staging_platform.Base.Sorting.{sort_by}
use staging_platform.Json.{Fields, Codec}
use staging_platform.Result.{
  Result, ok, not_found, conflict, foreign_key, codec_failed, rejected, ◌>>=◌, ◌>>◌, refuse_if,
  or_err, no_problems,
}
use staging_platform.Store.Records.{
  Time, is_zero, SessionRecord, session_problems, SessionSnapshot, snapshot_problems,
}
use staging_platform.Store.Tables.{
  Db, SnapshotRow, null_if_empty, session_named, snapshot_with_id, snapshot_of, run_with_id, upsert,
}
use staging_platform.Store.Sessions.{session_row, parent_is_missing, get_session, get_run_record}

-- `ORDER BY created_at DESC, snapshot_id DESC`
abbrev newest_first : SnapshotRow → SnapshotRow → Bool
newest_first a b =
    if a.created_at == b.created_at
    then text_le b.snapshot_id a.snapshot_id
    else ltb b.created_at a.created_at

module _ (c : Codec) where
  -- `getSessionSnapshotByQuery`, from the row on
  unfoldable pub hydrate_snapshot : SnapshotRow → Result SessionSnapshot
  hydrate_snapshot row = do
    state ← or_err (c.unmarshal row.state_json) codec_failed
    let snapshot : SessionSnapshot = record {
      snapshot_id = row.snapshot_id;
      session_name = row.session_name;
      parent_snapshot_id = row.parent_snapshot_id;
      source_run_id = row.source_run_id;
      state = state;
      created_at = row.created_at;
    }
    no_problems (snapshot_problems snapshot)
    ok snapshot

  unfoldable pub get_session_snapshot : Db → String → Result SessionSnapshot
  get_session_snapshot db id = do
    row ← or_err (find (snapshot_with_id id) db.snapshots) not_found
    hydrate_snapshot row

  -- `GetLatestSessionSnapshot`: `ORDER BY created_at DESC, snapshot_id DESC LIMIT 1`
  unfoldable pub get_latest_session_snapshot : Db → String → Result SessionSnapshot
  get_latest_session_snapshot db name = do
    row ← or_err (head? (sort_by newest_first (keep (snapshot_of name) db.snapshots))) not_found
    hydrate_snapshot row

  -- A session may only point at a snapshot of its own.
  unfoldable pub check_current_snapshot : Db → SessionRecord → Result (Unit {0})
  check_current_snapshot db s = if is_blank s.current_snapshot_id then ok tt else do
    snapshot ← get_session_snapshot db s.current_snapshot_id
    refuse_if (not (str_eq snapshot.session_name s.session_name))
        (rejected "session cannot point at the snapshot of another session")

  unfoldable pub update_session : Db → SessionRecord → Result Db
  update_session db s = do
    no_problems (session_problems s)
    check_current_snapshot db s
    let row = session_row s
    let rows = update_where (session_named s.session_name) (λ _. row) db.sessions
    refuse_if (not (any (session_named s.session_name) db.sessions)) not_found
    refuse_if (parent_is_missing row rows) foreign_key
    ok (record db { sessions = rows })

  -- The checks of `PutSessionSnapshot` on the snapshot's parent and source run.
  unfoldable pub check_parent_snapshot : Db → SessionSnapshot → Result (Unit {0})
  check_parent_snapshot db s =
      if is_blank s.parent_snapshot_id
      then ok tt
      else do get_session_snapshot db s.parent_snapshot_id >>= λ _. ok tt

  unfoldable pub check_source_run : Db → SessionSnapshot → Result (Unit {0})
  check_source_run db s = if is_blank s.source_run_id then ok tt else do
    run ← get_run_record c db s.source_run_id
    refuse_if (not (str_eq run.session_name s.session_name))
        (rejected "snapshot source run session must match snapshot session")

  -- What the columns of a snapshot hold, with its state as text.
  abbrev pub snapshot_row : SessionSnapshot → String → SnapshotRow
  snapshot_row s json = record {
    snapshot_id = s.snapshot_id;
    session_name = s.session_name;
    parent_snapshot_id = null_if_empty s.parent_snapshot_id;
    source_run_id = null_if_empty s.source_run_id;
    state_json = json;
    created_at = s.created_at;
  }

  -- `marshalJSON` of a map: the nil map is `null`.
  unfoldable pub marshal_json : Option Fields → Result String
  marshal_json none = ok "null"
  marshal_json (some o) = or_err (c.marshal o) codec_failed

  unfoldable pub put_session_snapshot : Db → SessionSnapshot → Result Db
  put_session_snapshot db s = do
    no_problems (snapshot_problems s)
    get_session db s.session_name >>= λ _. ok tt
    check_parent_snapshot db s
    check_source_run db s
    json ← marshal_json s.state
    ok (record db {
      snapshots = upsert (snapshot_with_id s.snapshot_id) (snapshot_row s json) db.snapshots;
    })

  -- `AppendSessionSnapshot`: the snapshot's parent is the session's current snapshot.
  unfoldable pub parent_of_next : Db → SessionRecord → Result String
  parent_of_next db session = if is_blank session.current_snapshot_id then ok "" else do
    row ← or_err (find (snapshot_with_id session.current_snapshot_id) db.snapshots) not_found
    refuse_if (not (str_eq row.session_name session.session_name))
        (rejected "session current snapshot belongs to another session")
    ok session.current_snapshot_id

  -- `lookupRunSessionName` and the test on its result
  unfoldable pub check_run_session : Db → SessionSnapshot → Result (Unit {0})
  check_run_session db s = if is_blank s.source_run_id then ok tt else do
    run ← or_err (find (run_with_id s.source_run_id) db.runs) not_found
    refuse_if (not (str_eq run.session_name s.session_name))
        (rejected "snapshot source run session must match snapshot session")

  -- `session` with its current snapshot and its time of update moved on, never back
  unfoldable pub advanced_session : SessionRecord → String → Time → SessionRecord
  advanced_session session id updated_at = record session {
    current_snapshot_id = id;
    updated_at = if ltb updated_at session.updated_at then session.updated_at else updated_at;
  }

  -- `UPDATE sessions SET current_snapshot_id = ?, updated_at = ?`
  abbrev point_at : SessionRecord → SessionRecord → SessionRecord
  point_at updated row = record row {
    current_snapshot_id = updated.current_snapshot_id;
    updated_at = updated.updated_at;
  }

  unfoldable pub append_session_snapshot :
      Db → SessionSnapshot → Time → Result (Db × SessionSnapshot)
  append_session_snapshot db s updated_at = do
    no_problems (snapshot_problems s)
    refuse_if (is_zero updated_at) (rejected "session updated_at is required")
    json ← marshal_json s.state
    session ← get_session db s.session_name
    parent ← parent_of_next db session
    let appended = record s { parent_snapshot_id = parent }
    check_run_session db appended
    let updated = advanced_session session appended.snapshot_id updated_at
    no_problems (session_problems updated)
    refuse_if (any (snapshot_with_id appended.snapshot_id) db.snapshots) conflict
    refuse_if (not (any (session_named updated.session_name) db.sessions)) not_found
    ok (
      record db {
        snapshots = db.snapshots ++ snapshot_row appended json ∷ [];
        sessions = update_where (session_named updated.session_name) (point_at updated) db.sessions;
      },
      appended,
    )
