-- ===== src/Store/Snapshots/Stored.antt =====
-- internal/store/sqlite/store.go: what a success of `PutSessionSnapshot` says.
use staging_platform.Base.{
  String, ◌≡◌, refl, sym, ap, ◌∙◌, Bool, true, false, List, [], ◌∷◌, arith, any, find, some,
  is_blank, Bool-cases, inl, inr, str_eq,
}
use staging_platform.Base.Members.{find-update_where, find_of_any, find-append_none}
use staging_platform.Json.{Codec}
use staging_platform.Result.{
  ok, refuse_if-eq-ok, no_problems, no_problems-eq-ok, >>=-eq-ok, ok-injective, ◌>>=◌,
}
use staging_platform.Store.Records.{SessionSnapshot, snapshot_problems}
use staging_platform.Store.Tables.{Db, RunRow, run_with_id, snapshot_with_id, null_if_empty, upsert}
use staging_platform.Store.Sessions.{get_session, get_run_record, get_run_record-session}
use staging_platform.Store.Snapshots.{
  hydrate_snapshot, snapshot_row, marshal_json, check_parent_snapshot, check_source_run,
  put_session_snapshot,
}

pub find-upsert {ℓ} :
    {A : Type ℓ} (p : A → Bool) (row : A) (rows : List A)
    → p row ≡ true
    → find p (upsert p row rows) ≡ some row
unfolding find upsert
find-upsert p row rows h = elim (Bool-cases (any p rows)) [
  | inl t ↦
      let (_, found) = find_of_any p rows t in
      rw t (find-update_where p (λ _. row) (λ x e. h) rows found)
  | inr f ↦ rw f (find-append_none p rows (row ∷ []) f ∙ rw h refl)
]

module _ (c : Codec) where
  pub put_session_snapshot-eq-ok :
      (db : Db) (s : SessionSnapshot) {db' : Db}
      → put_session_snapshot c db s ≡ ok db'
      → (snapshot_problems s ≡ [])
        × (check_source_run c db s ≡ ok tt)
        × (json : String) × (marshal_json c s.state ≡ ok json)
        × (db' ≡ record db {
          snapshots = upsert (snapshot_with_id s.snapshot_id) (snapshot_row c s json) db.snapshots;
        })
  unfolding put_session_snapshot
  put_session_snapshot-eq-ok db s h =
      let (_, valid, h1) = >>=-eq-ok (no_problems (snapshot_problems s)) _ h in
      let (_, _, h2) = >>=-eq-ok (get_session db s.session_name >>= λ _. ok tt) _ h1 in
      let (_, _, h3) = >>=-eq-ok (check_parent_snapshot c db s) _ h2 in
      let (_, run, h4) = >>=-eq-ok (check_source_run c db s) _ h3 in
      let (json, encoded, h5) = >>=-eq-ok (marshal_json c s.state) _ h4 in
      (no_problems-eq-ok (snapshot_problems s) valid, run, json, encoded, sym (ok-injective h5))

  -- The row of a valid snapshot reads back, a blank reference as the empty text.
  pub hydrate-row_of_blanks :
      (s : SessionSnapshot) (json : String)
      → c.unmarshal json ≡ some s.state
      → snapshot_problems s ≡ []
      → hydrate_snapshot c (snapshot_row c s json)
        ≡ ok (record s {
          parent_snapshot_id = null_if_empty s.parent_snapshot_id;
          source_run_id = null_if_empty s.source_run_id;
        })
  unfolding hydrate_snapshot snapshot_problems
  hydrate-row_of_blanks s json decoded valid = rw (decoded, valid) refl

  -- A snapshot is only stored with a source run of its own session.
  pub check_source_run-session :
      (db : Db) (s : SessionSnapshot) (run : RunRow)
      → check_source_run c db s ≡ ok tt
      → is_blank s.source_run_id ≡ false
      → find (run_with_id s.source_run_id) db.runs ≡ some run
      → str_eq run.session_name s.session_name ≡ true
  unfolding check_source_run
  check_source_run-session db s run h nonblank found =
      let (r, read, same) = >>=-eq-ok (get_run_record c db s.source_run_id) _ (rw nonblank at h) in
      let of_session = get_run_record-session c db s.source_run_id run r found read in
      ground (arith, refuse_if-eq-ok _ _ same, ap (λ t. str_eq t s.session_name) of_session)
