-- ===== src/Runtime/Session/ReadBack.antt =====
-- internal/runtime/session/manager.go: what `Snapshot` and `Restore` leave as the current snapshot.
use text.Mathlib.TextEquality.{eq_iff}
use staging_platform.Base.{
  String, ◌≡◌, refl, sym, ap, ◌∙◌, false, not, arith, str_eq, Option, none, some, is_blank,
  trim_space, ◌⊎◌, inl, inr,
}
use staging_platform.Json.{Fields, Codec}
use staging_platform.Result.{ok, refuse_if, or_err, refuse_if-eq-ok, rejected, id_failed}
use staging_platform.Effect.{reads, writes}
use staging_platform.Effect.Inversion.{
  bind-eq-ok, reads-eq-ok, transacts-eq-ok, writes-eq-ok, return-eq-ok, bind_of_ok, reads_of_ok,
}
use staging_platform.Store.Records.{Time, SessionRecord, SessionSnapshot}
use staging_platform.Store.Tables.{Db, null_if_empty}
use staging_platform.Store.Sessions.{get_session, session_row}
use staging_platform.Store.Snapshots.{get_session_snapshot, update_session}
use staging_platform.Store.Snapshots.Appended.{
  append-ReadBack, null_if_empty-empty, null_if_empty-nonblank, get_session-eq-ok,
  snapshot_id-nonblank,
}
use staging_platform.Store.Snapshots.Updated.{
  update_session-ReadBack, get_session_snapshot-eq-ok, get_session_snapshot-snapshots,
}
use staging_platform.Runtime.Session.{clone_state, snapshot, restore, current_snapshot}

Option-cases : (m : Option String) → (m ≡ none) ⊎ ((t : String) × (m ≡ some t))
Option-cases none = inl refl
Option-cases (some t) = inr (t, refl)

str_eq-true : (a b : String) → not (str_eq a b) ≡ false → a ≡ b
str_eq-true a b h = ground (arith, eq_iff a b)

module _ (c : Codec) where
  -- A map is cloned to what its text decodes to.
  clone_state-decodes :
      (o : Fields) {cloned : Option Fields}
      → clone_state c (some o) ≡ ok cloned
      → (d : Fields) × (t : String) × (cloned ≡ some d) × (c.unmarshal t ≡ some (some d))
  unfolding clone_state
  clone_state-decodes o {cloned} h = elim (Option-cases (c.marshal o)) [
    | inl n ↦ ground arith
    | inr (t, e) ↦ let (d, decodes) = c.unmarshal-marshal o t e in (d, t, ground arith, decodes)
  ]

  current_snapshot_of :
      (name : String) (db : Db) (session : SessionRecord) {s : SessionSnapshot}
      → get_session db (trim_space name) ≡ ok session
      → is_blank session.current_snapshot_id ≡ false
      → get_session_snapshot c db session.current_snapshot_id ≡ ok s
      → current_snapshot c name db ≡ (ok s, db)
  unfolding current_snapshot
  current_snapshot_of name db session {s} found blank read =
      bind_of_ok (reads λ d. get_session d (trim_space name)) _
        (reads_of_ok (λ d. get_session d (trim_space name)) db found)
      ∙ rw blank (reads_of_ok (λ d. get_session_snapshot c d session.current_snapshot_id) db read)

  -- When `Snapshot` succeeds for a state that is not nil, `CurrentSnapshot` of the same session
  -- then returns the snapshot that it returned.
  pub snapshot-current_snapshot :
      (session_name : String) (state : Fields) (new_id : Option String) (now : Time) (db : Db)
      {db' : Db} {s : SessionSnapshot}
      → snapshot c session_name (some state) new_id now db ≡ (ok s, db')
      → current_snapshot c session_name db' ≡ (ok s, db')
  unfolding snapshot
  snapshot-current_snapshot session_name state new_id now db {db'} {s} h =
      let (id, d1, r1, h1) = bind-eq-ok (reads λ _. or_err new_id id_failed) _ h in
      let (_, e1) = reads-eq-ok _ r1 in
      let (cloned, d2, r2, h2) = bind-eq-ok (reads λ _. clone_state c (some state)) _ h1 in
      let (clones, e2) = reads-eq-ok _ r2 in
      let (d, t, is_d, decodes) = clone_state-decodes state clones in
      let appended = transacts-eq-ok _ h2 in
      let (session, found, points, same_id, nonblank, there) =
        append-ReadBack c d2 _ now d t is_d decodes (null_if_empty-empty c) appended in
      current_snapshot_of session_name db' session found (rw points nonblank) (rw points there)

  -- The session is written to point at a snapshot of its own.
  pub restored-current_snapshot :
      (session_name id : String) (db : Db) (restored : SessionRecord) {db' : Db}
      {s : SessionSnapshot}
      → restored.session_name ≡ trim_space session_name
      → restored.current_snapshot_id ≡ id
      → get_session_snapshot c db id ≡ ok s
      → update_session c db restored ≡ ok db'
      → current_snapshot c session_name db' ≡ (ok s, db')
  unfolding session_row
  restored-current_snapshot session_name id db restored {db'} {s} named points read written =
      let (there, same_rows) = update_session-ReadBack c db restored written in
      let (valid, same, _, _) = get_session_snapshot-eq-ok c db id read in
      let nonblank : is_blank id ≡ false = rw same at (snapshot_id-nonblank c s valid) in
      let pointed : (session_row restored).current_snapshot_id ≡ id =
        ap (λ (t : String). null_if_empty t) points ∙ null_if_empty-nonblank c id nonblank in
      let found = ap (λ (n : String). get_session db' n) (sym named) ∙ there in
      current_snapshot_of session_name db' (session_row restored) found
        (ap is_blank pointed ∙ nonblank)
        (ap (get_session_snapshot c db') pointed
          ∙ get_session_snapshot-snapshots c db' db id same_rows
          ∙ read)

  -- When `Restore` succeeds, the session it returns points at the snapshot asked for, which belongs to
  -- that session, and `CurrentSnapshot` then returns this snapshot.
  pub restore-current_snapshot :
      (session_name snapshot_id : String) (now : Time) (db : Db) {db' : Db} {r : SessionRecord}
      → restore c session_name snapshot_id now db ≡ (ok r, db')
      → (r.session_name ≡ trim_space session_name)
        × (r.current_snapshot_id ≡ trim_space snapshot_id)
        × (s : SessionSnapshot) × (s.session_name ≡ r.session_name)
        × (get_session_snapshot c db (trim_space snapshot_id) ≡ ok s)
        × (current_snapshot c session_name db' ≡ (ok s, db'))
  unfolding restore
  restore-current_snapshot session_name snapshot_id now db {db'} {r} h =
      let (session, d1, r1, h1) =
        bind-eq-ok (reads λ d. get_session d (trim_space session_name)) _ h in
      let (found, e1) = reads-eq-ok _ r1 in
      let (s, d2, r2, h2) =
        bind-eq-ok (reads λ d. get_session_snapshot c d (trim_space snapshot_id)) _ h1 in
      let (read, e2) = reads-eq-ok _ r2 in
      let (_, d3, r3, h3) =
        bind-eq-ok
          (reads λ _.
            refuse_if (not (str_eq s.session_name session.session_name))
              (rejected "snapshot belongs to another session"))
          _ h2 in
      let (owns, e3) = reads-eq-ok _ r3 in
      let restored : SessionRecord = record session {
        current_snapshot_id = s.snapshot_id;
        updated_at = now;
      } in
      let (_, d4, w4, h4) = bind-eq-ok (writes λ d. update_session c d restored) _ h3 in
      let written = writes-eq-ok _ w4 in
      let (is_r, e4) = return-eq-ok restored h4 in
      let (_, named) = get_session-eq-ok db (trim_space session_name) found in
      let (_, same, _, _) = get_session_snapshot-eq-ok c d1 (trim_space snapshot_id) read in
      let owned : s.session_name ≡ session.session_name =
        str_eq-true _ _ (refuse_if-eq-ok _ _ owns) in
      let read' = ap (λ (d : Db). get_session_snapshot c d (trim_space snapshot_id)) e1 ∙ read in
      (
        ap (λ (x : SessionRecord). x.session_name) (sym is_r) ∙ named,
        ap (λ (x : SessionRecord). x.current_snapshot_id) (sym is_r) ∙ same,
        s,
        owned ∙ ap (λ (x : SessionRecord). x.session_name) is_r,
        read',
        restored-current_snapshot session_name (trim_space snapshot_id) db restored named same read'
            (ap (λ (d : Db). update_session c d restored) (e1 ∙ e2 ∙ e3) ∙ written ∙ ap ok e4),
      )
