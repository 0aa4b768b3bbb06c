-- ===== src/Store/Snapshots/Appended.antt =====
-- internal/store/sqlite/store.go: what a success of `AppendSessionSnapshot` says, and how the rows
-- it leaves read back.
use text.Mathlib.TextEquality.{eq_iff}
use text.Mathlib.TextPositions.{eq_refl}
use staging_platform.Base.{
  String, ◌≡◌, refl, sym, ap, ◌∙◌, false, not, List, [], ◌∷◌, ◌++◌, arith, any, find, some,
  is_blank, update_where, inl, inr, Bool-cases,
}
use staging_platform.Base.Members.{find-update_where, find-append_none, find_passes}
use staging_platform.Json.{Fields, Codec}
use staging_platform.Result.{
  ok, refuse_if, no_problems, no_problems-eq-ok, >>=-eq-ok, refuse_if-eq-ok, ok-injective, rejected,
  conflict, not_found,
}
use staging_platform.Store.Records.{
  Time, is_zero, SessionRecord, SessionSnapshot, session_problems, snapshot_problems,
}
use staging_platform.Store.Tables.{Db, SnapshotRow, session_named, snapshot_with_id, null_if_empty}
use staging_platform.Store.Sessions.{get_session}
use staging_platform.Store.Snapshots.{
  append_session_snapshot, parent_of_next, advanced_session, snapshot_row, marshal_json, point_at,
  get_session_snapshot, hydrate_snapshot, check_run_session,
}

pub get_session-eq-ok :
    (db : Db) (name : String) {s : SessionRecord}
    → get_session db name ≡ ok s
    → (find (session_named name) db.sessions ≡ some s) × (s.session_name ≡ name)
unfolding get_session
get_session-eq-ok db name {s} h =
    let found : find (session_named name) db.sessions ≡ some s = ground arith in
    (
      found,
      ground
          (arith, find_passes (session_named name) db.sessions found, eq_iff s.session_name name),
    )

module _ (c : Codec) where
  -- What an append that succeeds has read, and the tables that it leaves.
  pub append-eq-ok :
      (db : Db) (s : SessionSnapshot) (at : Time) {db' : Db} {a : SessionSnapshot}
      → append_session_snapshot c db s at ≡ ok (db', a)
      → (session : SessionRecord) × (json parent : String) × (get_session db s.session_name
          ≡ ok session)
        × (marshal_json c s.state ≡ ok json)
        × (parent_of_next c db session ≡ ok parent)
        × (snapshot_problems s ≡ [])
        × (session_problems (advanced_session c session s.snapshot_id at) ≡ [])
        × (any (snapshot_with_id s.snapshot_id) db.snapshots ≡ false)
        × (a ≡ record s { parent_snapshot_id = parent })
        × (db' ≡ record db {
          snapshots =
              db.snapshots ++ snapshot_row c (record s { parent_snapshot_id = parent }) json ∷ [];
          sessions =
              update_where
                (session_named (advanced_session c session s.snapshot_id at).session_name)
                (point_at c (advanced_session c session s.snapshot_id at))
                db.sessions;
        })
  unfolding append_session_snapshot
  append-eq-ok db s at h =
      let (_, valid, h1) = >>=-eq-ok (no_problems (snapshot_problems s)) _ h in
      let (_, _, h2) =
        >>=-eq-ok (refuse_if (is_zero at) (rejected "session updated_at is required")) _ h1 in
      let (json, encoded, h3) = >>=-eq-ok (marshal_json c s.state) _ h2 in
      let (session, found, h4) = >>=-eq-ok (get_session db s.session_name) _ h3 in
      let (parent, next, h5) = >>=-eq-ok (parent_of_next c db session) _ h4 in
      let appended : SessionSnapshot = record s { parent_snapshot_id = parent } in
      let updated = advanced_session c session s.snapshot_id at in
      let (_, _, h6) = >>=-eq-ok (check_run_session c db appended) _ h5 in
      let (_, valid', h7) = >>=-eq-ok (no_problems (session_problems updated)) _ h6 in
      let (_, fresh, h8) =
        >>=-eq-ok (refuse_if (any (snapshot_with_id s.snapshot_id) db.snapshots) conflict) _ h7 in
      let (_, _, h9) =
        >>=-eq-ok (refuse_if (not (any (session_named updated.session_name) db.sessions)) not_found)
          _ h8 in
      let e = sym (ap (λ (p : Db × SessionSnapshot). p.1) (ok-injective h9)) in
      (
        session,
        json,
        parent,
        found,
        encoded,
        next,
        no_problems-eq-ok (snapshot_problems s) valid,
        no_problems-eq-ok (session_problems updated) valid',
        refuse_if-eq-ok _ conflict fresh,
        e,
        sym (ap (λ (p : Db × SessionSnapshot). p.0) (ok-injective h9)),
      )

  pub null_if_empty-nonblank : (t : String) → is_blank t ≡ false → null_if_empty t ≡ t
  null_if_empty-nonblank t h = rw h refl

  pub null_if_empty-empty : null_if_empty "" ≡ ""
  null_if_empty-empty = elim (Bool-cases (is_blank "")) [ inl t ↦ rw t refl | inr f ↦ rw f refl ]

  parent-null_if_empty :
      (db : Db) (session : SessionRecord) {parent : String}
      → parent_of_next c db session ≡ ok parent
      → null_if_empty parent ≡ parent
  unfolding parent_of_next
  parent-null_if_empty db session {parent} h =
      elim (Bool-cases (is_blank session.current_snapshot_id)) [
        | inl t ↦ let e : "" ≡ parent = ok-injective (rw t at h) in rw (← e) null_if_empty-empty
        | inr f ↦
            let e : session.current_snapshot_id ≡ parent = ground arith in
            rw (← e) (null_if_empty-nonblank session.current_snapshot_id f)
      ]

  -- The row of a valid snapshot reads back as the snapshot.
  pub hydrate-snapshot_row :
      (s : SessionSnapshot) (json : String)
      → c.unmarshal json ≡ some s.state
      → snapshot_problems s ≡ []
      → null_if_empty s.parent_snapshot_id ≡ s.parent_snapshot_id
      → null_if_empty s.source_run_id ≡ s.source_run_id
      → hydrate_snapshot c (snapshot_row c s json) ≡ ok s
  unfolding hydrate_snapshot snapshot_problems
  hydrate-snapshot_row s json decoded valid p r = rw (decoded, p, r, valid) refl

  -- The session that `AppendSessionSnapshot` updates is found as updated.
  appended-session :
      (db : Db) (name id : String) (at : Time) {session : SessionRecord}
      → get_session db name ≡ ok session
      → let updated = advanced_session c session id at in
        find
          (session_named name)
          (update_where (session_named updated.session_name) (point_at c updated) db.sessions)
        ≡ some updated
  unfolding advanced_session
  appended-session db name id at {session} h =
      let (found, named) = get_session-eq-ok db name h in
      rw (← named) (
        find-update_where (session_named session.session_name) _ (λ x t. t) db.sessions
          (rw (← named) at found))

  pub marshal_json-decodes :
      (s : SessionSnapshot) (d : Fields) (t : String) {json : String}
      → s.state ≡ some d
      → c.unmarshal t ≡ some (some d)
      → marshal_json c s.state ≡ ok json
      → c.unmarshal json ≡ some s.state
  unfolding marshal_json
  marshal_json-decodes s d t {json} state decodes h =
      let (u, marshals, unmarshals) = c.marshal-unmarshal t d decodes in
      let m : marshal_json c (some d) ≡ ok json = rw state at h in
      let e : u ≡ json = ground arith in rw (state, ← e) unmarshals

  pub get_session_of_find :
      (db : Db) (name : String) {s : SessionRecord}
      → find (session_named name) db.sessions ≡ some s
      → session_problems s ≡ []
      → get_session db name ≡ ok s
  unfolding get_session
  get_session_of_find db name f v = rw (f, v) refl

  pub get_session_snapshot_of_find :
      (db : Db) (id : String) {row : SnapshotRow} {s : SessionSnapshot}
      → find (snapshot_with_id id) db.snapshots ≡ some row
      → hydrate_snapshot c row ≡ ok s
      → get_session_snapshot c db id ≡ ok s
  unfolding get_session_snapshot
  get_session_snapshot_of_find db id f h = rw f h

  pub snapshot_id-nonblank :
      (s : SessionSnapshot) → snapshot_problems s ≡ [] → is_blank s.snapshot_id ≡ false
  unfolding snapshot_problems
  snapshot_id-nonblank s h = ground arith

  pub find-appended :
      (rows : List SnapshotRow) (row : SnapshotRow)
      → any (snapshot_with_id row.snapshot_id) rows ≡ false
      → find (snapshot_with_id row.snapshot_id) (rows ++ row ∷ []) ≡ some row
  unfolding find
  find-appended rows row fresh =
      find-append_none (snapshot_with_id row.snapshot_id) rows (row ∷ []) fresh
      ∙ rw (eq_refl row.snapshot_id) refl

  -- What an append leaves, read back: the session points at the snapshot, and the snapshot is there
  -- as it was returned.
  pub append-ReadBack :
      (db : Db) (s : SessionSnapshot) (at : Time) (d : Fields) (t : String) {db' : Db}
      {a : SessionSnapshot}
      → s.state ≡ some d
      → c.unmarshal t ≡ some (some d)
      → null_if_empty s.source_run_id ≡ s.source_run_id
      → append_session_snapshot c db s at ≡ ok (db', a)
      → (session : SessionRecord) × (get_session db' s.session_name ≡ ok session)
        × (session.current_snapshot_id ≡ s.snapshot_id)
        × (a.snapshot_id ≡ s.snapshot_id)
        × (is_blank s.snapshot_id ≡ false)
        × (get_session_snapshot c db' s.snapshot_id ≡ ok a)
  unfolding advanced_session snapshot_problems
  append-ReadBack db s at d t {db'} {a} state decodes run h =
      let (session, json, parent, found, encoded, next, valid, valid', fresh, e, e') =
        append-eq-ok db s at h in
      let appended : SessionSnapshot = record s { parent_snapshot_id = parent } in
      let reads_back : hydrate_snapshot c (snapshot_row c appended json) ≡ ok appended =
        hydrate-snapshot_row appended json (marshal_json-decodes s d t state decodes encoded) valid
          (parent-null_if_empty db session next) run in
      (
        advanced_session c session s.snapshot_id at,
        get_session_of_find db' s.session_name
            (ap (λ (d : Db). find (session_named s.session_name) d.sessions) e'
              ∙ appended-session db s.session_name s.snapshot_id at found)
            valid',
        refl,
        ap (λ (x : SessionSnapshot). x.snapshot_id) e,
        snapshot_id-nonblank s valid,
        get_session_snapshot_of_find db' s.snapshot_id
            (ap (λ (d : Db). find (snapshot_with_id s.snapshot_id) d.snapshots) e'
              ∙ find-appended db.snapshots (snapshot_row c appended json) fresh)
            (reads_back ∙ ap ok (sym e)),
      )
