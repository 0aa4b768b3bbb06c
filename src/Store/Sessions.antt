-- ===== src/Store/Sessions.antt =====
-- internal/store/sqlite/store.go: `CreateSession`, `GetSession` and `getRunRecord`. An operation that fails leaves
-- the tables as they were, so it returns no tables then.
use staging_platform.Base.{
  String, Bool, not, ◌&&◌, Option, none, some, List, [], ◌∷◌, ◌++◌, str_eq, find, any, is_blank,
  if◌then◌else◌, ◌≡◌, sym, ap, ◌∙◌,
}
use staging_platform.Json.{Fields, Items, Codec}
use staging_platform.Result.{
  Result, ok, rejected, codec_failed, ok-injective, >>=-eq-ok, not_found, conflict, foreign_key,
  ◌>>=◌, ◌>>◌, refuse_if, or_err, no_problems,
}
use staging_platform.Store.Records.{Time, SessionRecord, session_problems}
use staging_platform.Store.Tables.{Db, RunRow, null_if_empty, session_named, run_with_id}

-- What the columns of a session hold.
unfoldable pub session_row : SessionRecord → SessionRecord
session_row s = record s {
  parent_session_name = null_if_empty s.parent_session_name;
  current_snapshot_id = null_if_empty s.current_snapshot_id;
}

-- `FOREIGN KEY (parent_session_name) REFERENCES sessions(session_name)`
unfoldable pub parent_is_missing : SessionRecord → List SessionRecord → Bool
parent_is_missing s rows =
    not (str_eq s.parent_session_name "") && not (any (session_named s.parent_session_name) rows)

unfoldable pub create_session : Db → SessionRecord → Result Db
unfolding session_row parent_is_missing
create_session db s = do
  no_problems (session_problems s)
  let row = session_row s
  let rows = db.sessions ++ row ∷ []
  refuse_if (any (session_named s.session_name) db.sessions) conflict
  refuse_if (parent_is_missing row rows) foreign_key
  ok (record db { sessions = rows })

-- `getSessionQuery`: a row that does not validate is an error.
unfoldable pub get_session : Db → String → Result SessionRecord
get_session db name = do
  s ← or_err (find (session_named name) db.sessions) not_found
  no_problems (session_problems s)
  ok s

-- `ensureSessionExistsTx`
unfoldable pub ensure_session_exists : Db → String → Result (Unit {0})
ensure_session_exists db name = refuse_if (not (any (session_named name) db.sessions)) not_found

-- `RunRecord`, with the decoded columns
pub record RunRecord : Type 0 where
  pub run_id : String
  pub session_name : String
  pub mode : String
  pub status : String
  pub schema_version : String
  pub sdk_version : String
  pub runtime_version : String
  pub scrub_policy_version : String
  pub base_snapshot_id : String
  pub agent_version : String
  pub git_sha : String
  pub started_at : Time
  pub ended_at : Option Time
  pub integrity_issues : Items
  pub metadata : Option Fields

module _ (c : Codec) where
  unfoldable pub parse_ended_at : String → Result (Option Time)
  parse_ended_at t =
      if is_blank t
      then ok none
      else or_err (c.parse_time t) (rejected "parse ended_at for run") >>= λ at. ok (some at)

  -- `getRunRecord`: a row whose times or JSON do not decode is an error.
  unfoldable pub get_run_record : Db → String → Result RunRecord
  unfolding parse_ended_at
  get_run_record db run_id = do
    row ← or_err (find (run_with_id run_id) db.runs) not_found
    started_at ← or_err (c.parse_time row.started_at) (rejected "parse started_at for run")
    ended_at ← parse_ended_at row.ended_at
    issues ← or_err (c.unmarshal_issues row.integrity_issues_json) codec_failed
    metadata ← or_err (c.unmarshal row.metadata_json) codec_failed
    ok (record {
      run_id = row.run_id;
      session_name = row.session_name;
      mode = row.mode;
      status = row.status;
      schema_version = row.schema_version;
      sdk_version = row.sdk_version;
      runtime_version = row.runtime_version;
      scrub_policy_version = row.scrub_policy_version;
      base_snapshot_id = row.base_snapshot_id;
      agent_version = row.agent_version;
      git_sha = row.git_sha;
      started_at = started_at;
      ended_at = ended_at;
      integrity_issues = issues;
      metadata = metadata;
    })

  -- What is read of a row has the session that is stored.
  pub get_run_record-session :
      (db : Db) (run_id : String) (row : RunRow) (run : RunRecord)
      → find (run_with_id run_id) db.runs ≡ some row
      → get_run_record db run_id ≡ ok run
      → run.session_name ≡ row.session_name
  unfolding get_run_record
  get_run_record-session db run_id row run found h =
      let (row', is_row, h1) =
        >>=-eq-ok (or_err (find (run_with_id run_id) db.runs) not_found) _ h in
      let (_, _, h2) = >>=-eq-ok (or_err (c.parse_time row'.started_at) _) _ h1 in
      let (_, _, h3) = >>=-eq-ok (parse_ended_at row'.ended_at) _ h2 in
      let (_, _, h4) = >>=-eq-ok (or_err (c.unmarshal_issues row'.integrity_issues_json) _) _ h3 in
      let (_, _, is_run) = >>=-eq-ok (or_err (c.unmarshal row'.metadata_json) _) _ h4 in
      let same : row' ≡ row = ok-injective (sym is_row ∙ ap (λ o. or_err o not_found) found) in
      sym (ap (λ (r : RunRecord). r.session_name) (ok-injective is_run))
      ∙ ap (λ (r : RunRow). r.session_name) same
