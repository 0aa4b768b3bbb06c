-- ===== src/Store/Snapshots/Updated.antt =====
-- internal/store/sqlite/store.go: what a success of `UpdateSession` says.
use text.Mathlib.TextEquality.{eq_iff}
use text.Mathlib.TextPositions.{eq_refl}
use staging_platform.Base.{
  String, ◌≡◌, sym, ap, ◌∙◌, true, not, [], arith, any, find, some, update_where,
}
use staging_platform.Base.Members.{find-update_where, find_of_any, find_passes}
use staging_platform.Json.{Codec}
use staging_platform.Result.{
  ok, refuse_if, or_err, no_problems, no_problems-eq-ok, >>=-eq-ok, ok-injective, or_err-eq-ok,
  codec_failed, not_found, foreign_key, ◌>>=◌,
}
use staging_platform.Store.Records.{
  SessionRecord, SessionSnapshot, session_problems, snapshot_problems,
}
use staging_platform.Store.Tables.{Db, SnapshotRow, session_named, snapshot_with_id}
use staging_platform.Store.Sessions.{get_session, session_row, parent_is_missing}
use staging_platform.Store.Snapshots.{
  get_session_snapshot, hydrate_snapshot, update_session, check_current_snapshot,
}
use staging_platform.Store.Snapshots.Appended.{get_session_of_find}

module _ (c : Codec) where
  pub update_session-eq-ok :
      (db : Db) (s : SessionRecord) {db' : Db}
      → update_session c db s ≡ ok db'
      → (session_problems s ≡ [])
        × (check_current_snapshot c db s ≡ ok tt)
        × (any (session_named s.session_name) db.sessions ≡ true)
        × (db' ≡ record db {
          sessions = update_where (session_named s.session_name) (λ _. session_row s) db.sessions;
        })
  unfolding update_session
  update_session-eq-ok db s h =
      let (_, valid, h1) = >>=-eq-ok (no_problems (session_problems s)) _ h in
      let (_, checked, h2) = >>=-eq-ok (check_current_snapshot c db s) _ h1 in
      let (_, there, h3) =
        >>=-eq-ok (refuse_if (not (any (session_named s.session_name) db.sessions)) not_found) _
          h2 in
      let (_, _, h4) =
        >>=-eq-ok
          (refuse_if
            (parent_is_missing (session_row s)
              (update_where (session_named s.session_name) (λ _. session_row s) db.sessions))
            foreign_key)
          _ h3 in
      (no_problems-eq-ok (session_problems s) valid, checked, ground arith, sym (ok-injective h4))

  -- The session that was written is the one that is read.
  pub update_session-ReadBack :
      (db : Db) (s : SessionRecord) {db' : Db}
      → update_session c db s ≡ ok db'
      → (get_session db' s.session_name ≡ ok (session_row s)) × (db'.snapshots ≡ db.snapshots)
  unfolding session_problems session_row
  update_session-ReadBack db s {db'} h =
      let (valid, _, there, e) = update_session-eq-ok db s h in
      let (_, found) = find_of_any (session_named s.session_name) db.sessions there in
      (
        get_session_of_find c db' s.session_name
            (ap (λ (d : Db). find (session_named s.session_name) d.sessions) e
              ∙ find-update_where (session_named s.session_name) (λ _. session_row s)
                  (λ x t. eq_refl s.session_name) db.sessions found)
            valid,
        ap (λ (d : Db). d.snapshots) e,
      )

  pub hydrate_snapshot-eq-ok :
      (row : SnapshotRow) {s : SessionSnapshot}
      → hydrate_snapshot c row ≡ ok s
      → (snapshot_problems s ≡ [])
        × (s.snapshot_id ≡ row.snapshot_id)
        × (c.unmarshal row.state_json ≡ some s.state)
  unfolding hydrate_snapshot
  hydrate_snapshot-eq-ok row {s} h =
      let (state, decoded, h1) = >>=-eq-ok (or_err (c.unmarshal row.state_json) codec_failed) _ h in
      let (_, valid, h2) = >>=-eq-ok (no_problems _) _ h1 in
      let e = ok-injective h2 in
      (
        ap snapshot_problems (sym e) ∙ no_problems-eq-ok _ valid,
        ap (λ (x : SessionSnapshot). x.snapshot_id) (sym e),
        or_err-eq-ok (c.unmarshal row.state_json) codec_failed decoded
            ∙ ap (λ (x : SessionSnapshot). some x.state) e,
      )

  -- A snapshot that is read has the identifier asked for, and its state is decoded from a text.
  pub get_session_snapshot-eq-ok :
      (db : Db) (id : String) {s : SessionSnapshot}
      → get_session_snapshot c db id ≡ ok s
      → (snapshot_problems s ≡ [])
        × (s.snapshot_id ≡ id)
        × (t : String) × (c.unmarshal t ≡ some s.state)
  unfolding get_session_snapshot
  get_session_snapshot-eq-ok db id {s} h =
      let (row, found, h1) =
        >>=-eq-ok (or_err (find (snapshot_with_id id) db.snapshots) not_found) _ h in
      let (valid, same, decoded) = hydrate_snapshot-eq-ok row h1 in
      let f = or_err-eq-ok (find (snapshot_with_id id) db.snapshots) not_found found in
      (
        valid,
        same
            ∙ ground (
              arith,
              find_passes (snapshot_with_id id) db.snapshots f,
              eq_iff row.snapshot_id id,
            ),
        row.state_json,
        decoded,
      )

  -- A snapshot is read from the table of snapshots alone.
  pub get_session_snapshot-snapshots :
      (d e : Db) (id : String)
      → d.snapshots ≡ e.snapshots
      → get_session_snapshot c d id ≡ get_session_snapshot c e id
  unfolding get_session_snapshot
  get_session_snapshot-snapshots d e id same =
      ap (λ rows. or_err (find (snapshot_with_id id) rows) not_found >>= hydrate_snapshot c) same
