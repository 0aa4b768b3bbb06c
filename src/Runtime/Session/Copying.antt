-- ===== src/Runtime/Session/Copying.antt =====
-- internal/runtime/session/manager.go: the snapshot that `Fork` gives to the child.
use text.Mathlib.TextPositions.{eq_refl}
use staging_platform.Base.{
  String, ◌≡◌, refl, sym, ap, ◌∙◌, true, false, [], arith, find, any, Option, none, some, is_blank,
  trim_space, ◌⊎◌, inl, inr,
}
use staging_platform.Json.{Fields, Codec}
use staging_platform.Result.{ok}
use staging_platform.Store.Records.{Time, SessionRecord, SessionSnapshot, snapshot_problems, is_nil}
use staging_platform.Store.Tables.{Db, session_named, snapshot_with_id, null_if_empty}
use staging_platform.Store.Sessions.{get_session}
use staging_platform.Store.Snapshots.{get_session_snapshot, put_session_snapshot, snapshot_row}
use staging_platform.Store.Snapshots.Appended.{
  marshal_json-decodes, get_session_snapshot_of_find, null_if_empty-nonblank, snapshot_id-nonblank,
}
use staging_platform.Store.Snapshots.Stored.{
  put_session_snapshot-eq-ok, hydrate-row_of_blanks, find-upsert,
}
use staging_platform.Store.Snapshots.Updated.{
  get_session_snapshot-eq-ok, get_session_snapshot-snapshots,
}
use staging_platform.Runtime.Session.{
  new_session, clone_state, copy_snapshot, fork, current_snapshot,
}
use staging_platform.Runtime.Session.Forking.{fork-parts, copy_snapshot-parts, create_session-eq-ok}
use staging_platform.Runtime.Session.ReadBack.{restored-current_snapshot}

snapshot_state-IsSet : (s : SessionSnapshot) → snapshot_problems s ≡ [] → is_nil s.state ≡ false
unfolding snapshot_problems
snapshot_state-IsSet s h = ground arith

module _ (c : Codec) where
  -- A state that was read is cloned to itself.
  clone_state-same :
      (t : String) (state : Option Fields) {cloned : Option Fields}
      → c.unmarshal t ≡ some state
      → is_nil state ≡ false
      → clone_state c state ≡ ok cloned
      → (d : Fields) × (state ≡ some d) × (cloned ≡ some d)
  unfolding clone_state
  clone_state-same t none decodes set h = cc
  clone_state-same t (some d) decodes set h =
      let (u, marshals, unmarshals) = c.marshal-unmarshal t d decodes in (d, refl, ground arith)

  -- A snapshot that is stored is read, a blank reference as the empty text.
  put-read :
      (db : Db) (s : SessionSnapshot) (d : Fields) (t : String) {db' : Db}
      → s.state ≡ some d
      → c.unmarshal t ≡ some (some d)
      → put_session_snapshot c db s ≡ ok db'
      → get_session_snapshot c db' s.snapshot_id
        ≡ ok (record s {
          parent_snapshot_id = null_if_empty s.parent_snapshot_id;
          source_run_id = null_if_empty s.source_run_id;
        })
  put-read db s d t {db'} state decodes h =
      let (valid, _, json, encoded, e) = put_session_snapshot-eq-ok c db s h in
      get_session_snapshot_of_find c db' s.snapshot_id
        (ap (λ (x : Db). find (snapshot_with_id s.snapshot_id) x.snapshots) e
          ∙ find-upsert (snapshot_with_id s.snapshot_id) (snapshot_row c s json) db.snapshots
              (eq_refl s.snapshot_id))
        (hydrate-row_of_blanks c s json (marshal_json-decodes c s d t state decodes encoded) valid)

  copy_snapshot-current_snapshot :
      (parent child : SessionRecord) (child_name : String) (new_id : Option String) (now : Time)
      (db : Db) {db' : Db} {r : SessionRecord}
      → child.session_name ≡ trim_space child_name
      → copy_snapshot c parent child new_id now db ≡ (ok r, db')
      → (s k : SessionSnapshot) × (get_session_snapshot c db parent.current_snapshot_id ≡ ok s)
        × (current_snapshot c child_name db' ≡ (ok k, db'))
        × (k.snapshot_id ≡ r.current_snapshot_id)
        × (k.session_name ≡ child.session_name)
        × (k.parent_snapshot_id ≡ s.snapshot_id)
        × (k.state ≡ s.state)
        × (r.session_name ≡ child.session_name)
        × (r.parent_session_name ≡ child.parent_session_name)
  copy_snapshot-current_snapshot parent child child_name new_id now db {db'} {r} named h =
      let (s, id, state, d, read, cloned, stored, updated, is_r) =
        copy_snapshot-parts c parent child new_id now db h in
      let (valid, same_id, t, decoded) =
        get_session_snapshot-eq-ok c db parent.current_snapshot_id read in
      let (o, is_o, is_o') =
        clone_state-same t s.state decoded (snapshot_state-IsSet s valid) cloned in
      let pointed : SessionRecord = record child { current_snapshot_id = id } in
      let there = put-read db _ o t is_o' (decoded ∙ ap some is_o) stored in
      (
        s,
        _,
        read,
        restored-current_snapshot c child_name id d pointed named refl there updated,
        ap (λ (x : SessionRecord). x.current_snapshot_id) is_r,
        refl,
        null_if_empty-nonblank c s.snapshot_id (snapshot_id-nonblank c s valid),
        is_o' ∙ sym is_o,
        ap (λ (x : SessionRecord). x.session_name) (sym is_r),
        ap (λ (x : SessionRecord). x.parent_session_name) (sym is_r),
      )

  -- When `Fork` succeeds, the parent session exists, the child did not, and the session returned is
  -- named as asked and has the parent as its parent. Where the parent had no current snapshot, the
  -- child has none. Where it had one, `CurrentSnapshot` of the child then returns a snapshot of the
  -- child, with the identifier that the returned session points at, with the parent's current
  -- snapshot as its parent, and with the same state as that snapshot.
  pub fork-Copies :
      (parent_name child_name : String) (new_id : Option String) (now : Time) (db : Db) {db' : Db}
      {r : SessionRecord}
      → fork c parent_name child_name new_id now db ≡ (ok r, db')
      → (p : SessionRecord) × (get_session db (trim_space parent_name) ≡ ok p)
        × (any (session_named (trim_space child_name)) db.sessions ≡ false)
        × (r.session_name ≡ trim_space child_name)
        × (r.parent_session_name ≡ p.session_name)
        × (((is_blank p.current_snapshot_id ≡ true) × (r.current_snapshot_id ≡ ""))
            ⊎ ((s k : SessionSnapshot) × (get_session_snapshot c db p.current_snapshot_id ≡ ok s)
                × (current_snapshot c child_name db' ≡ (ok k, db'))
                × (k.snapshot_id ≡ r.current_snapshot_id)
                × (k.session_name ≡ r.session_name)
                × (k.parent_snapshot_id ≡ s.snapshot_id)
                × (k.state ≡ s.state)))
  unfolding new_session
  fork-Copies parent_name child_name new_id now db {db'} {r} h =
      let (p, d, found, created, outcome) = fork-parts c parent_name child_name new_id now db h in
      let child = new_session (trim_space child_name) p.session_name now in
      let (fresh, made) = create_session-eq-ok db child created in
      elim outcome [
        | inl (blank, is_r, _) ↦ (
          p,
          found,
          fresh,
          ap (λ (x : SessionRecord). x.session_name) (sym is_r),
          ap (λ (x : SessionRecord). x.parent_session_name) (sym is_r),
          inl (blank, ap (λ (x : SessionRecord). x.current_snapshot_id) (sym is_r)),
        )
        | inr (_, copied) ↦
            let (s, k, read, current, points, owned, parent, state, named, from) =
              copy_snapshot-current_snapshot p child child_name new_id now d refl copied in
            let same =
              get_session_snapshot-snapshots c d db p.current_snapshot_id
                (ap (λ (x : Db). x.snapshots) made) in
            (
              p,
              found,
              fresh,
              named,
              from,
              inr (s, k, sym same ∙ read, current, points, owned ∙ sym named, parent, state),
            )
      ]
