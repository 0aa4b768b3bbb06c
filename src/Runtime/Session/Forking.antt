-- ===== src/Runtime/Session/Forking.antt =====
-- internal/runtime/session/manager.go: what a success of `Fork` says.
use text.Mathlib.TextEquality.{eq_iff}
use staging_platform.Base.{
  String, ◌≡◌, sym, ap, ◌∙◌, Bool, true, false, [], ◌∷◌, ◌++◌, any, find, if◌then◌else◌, Option,
  some, is_blank, trim_space, ◌⊎◌, inl, inr, Bool-cases, ◌≢◌,
}
use staging_platform.Json.{Fields, Codec}
use staging_platform.Result.{
  ok, refuse_if, or_err, no_problems, >>=-eq-ok, ok-injective, refuse_if-eq-ok, conflict,
  foreign_key, id_failed,
}
use staging_platform.Effect.{reads, writes}
use staging_platform.Effect.Inversion.{
  bind-eq-ok, reads-eq-ok, writes-eq-ok, return-eq-ok, or_undo-eq-ok,
}
use staging_platform.Store.Records.{Time, SessionRecord, SessionSnapshot, session_problems}
use staging_platform.Store.Tables.{Db, RunRow, run_with_id, session_named}
use staging_platform.Store.Sessions.{get_session, create_session, session_row, parent_is_missing}
use staging_platform.Store.Snapshots.{get_session_snapshot, update_session, put_session_snapshot}
use staging_platform.Store.Snapshots.Stored.{put_session_snapshot-eq-ok, check_source_run-session}
use staging_platform.Store.Snapshots.Updated.{get_session_snapshot-snapshots}
use staging_platform.Store.Deletion.{delete_session}
use staging_platform.Runtime.Session.{new_session, clone_state, copy_snapshot, fork}

pub create_session-eq-ok :
    (db : Db) (s : SessionRecord) {db' : Db}
    → create_session db s ≡ ok db'
    → (any (session_named s.session_name) db.sessions ≡ false)
      × (db' ≡ record db { sessions = db.sessions ++ session_row s ∷ [] })
unfolding create_session
create_session-eq-ok db s h =
    let (_, _, h1) = >>=-eq-ok (no_problems (session_problems s)) _ h in
    let (_, fresh, h2) =
      >>=-eq-ok (refuse_if (any (session_named s.session_name) db.sessions) conflict) _ h1 in
    let (_, _, h3) =
      >>=-eq-ok
        (refuse_if (parent_is_missing (session_row s) (db.sessions ++ session_row s ∷ []))
          foreign_key)
        _ h2 in
    (refuse_if-eq-ok _ conflict fresh, sym (ok-injective h3))

false≢true : false ≢ true
false≢true h = cc

module _ {ℓ} {A B : Type ℓ} {x : B} where
  if-then : {b : Bool} → b ≡ true → (f g : A → B) {a : A} → (if b then f else g) a ≡ x → f a ≡ x
  if-then t f g h = rw t at h

  if-else : {b : Bool} → b ≡ false → (f g : A → B) {a : A} → (if b then f else g) a ≡ x → g a ≡ x
  if-else t f g h = rw t at h

-- A success of `Fork` copied a snapshot, or the parent had none.
module _ (c : Codec) where
  pub fork-parts :
      (parent_name child_name : String) (new_id : Option String) (now : Time) (db : Db) {db' : Db}
      {r : SessionRecord}
      → fork c parent_name child_name new_id now db ≡ (ok r, db')
      → (p : SessionRecord) × (d : Db) × (get_session db (trim_space parent_name) ≡ ok p)
        × (create_session db (new_session (trim_space child_name) p.session_name now) ≡ ok d)
        × (((is_blank p.current_snapshot_id ≡ true)
              × (new_session (trim_space child_name) p.session_name now ≡ r)
              × (d ≡ db'))
            ⊎ ((is_blank p.current_snapshot_id ≡ false)
                × (copy_snapshot c p
                      (new_session (trim_space child_name) p.session_name now)
                      new_id
                      now
                      d
                    ≡ (ok r, db'))))
  unfolding fork
  fork-parts parent_name child_name new_id now db {db'} {r} h =
      let (p, d1, r1, h1) = bind-eq-ok (reads λ d. get_session d (trim_space parent_name)) _ h in
      let (found, e1) = reads-eq-ok _ r1 in
      let child = new_session (trim_space child_name) p.session_name now in
      let (_, d, w, h2) = bind-eq-ok (writes λ d. create_session d child) _ h1 in
      let created = ap (λ (x : Db). create_session x child) e1 ∙ writes-eq-ok _ w in
      (
        p,
        d,
        found,
        created,
        elim (Bool-cases (is_blank p.current_snapshot_id)) [
          | inl t ↦ let (is_r, same) = return-eq-ok child (if-then t _ _ h2) in inl (t, is_r, same)
          | inr f ↦ inr (
            f,
            or_undo-eq-ok (copy_snapshot c p child new_id now)
                (λ d. delete_session d child.session_name) d (if-else f _ _ h2),
          )
        ],
      )

  pub copy_snapshot-parts :
      (parent child : SessionRecord) (new_id : Option String) (now : Time) (db : Db) {db' : Db}
      {r : SessionRecord}
      → copy_snapshot c parent child new_id now db ≡ (ok r, db')
      → (s : SessionSnapshot) × (id : String) × (state : Option Fields) × (d : Db)
        × (get_session_snapshot c db parent.current_snapshot_id ≡ ok s)
        × (clone_state c s.state ≡ ok state)
        × (put_session_snapshot c db (record {
          snapshot_id = id;
          session_name = child.session_name;
          parent_snapshot_id = s.snapshot_id;
          source_run_id = s.source_run_id;
          state = state;
          created_at = now;
        })
            ≡ ok d)
        × (update_session c d (record child { current_snapshot_id = id }) ≡ ok db')
        × (record child { current_snapshot_id = id } ≡ r)
  unfolding copy_snapshot
  copy_snapshot-parts parent child new_id now db {db'} {r} h =
      let (s, d1, r1, h1) =
        bind-eq-ok (reads λ d. get_session_snapshot c d parent.current_snapshot_id) _ h in
      let (read, e1) = reads-eq-ok _ r1 in
      let (id, d2, r2, h2) = bind-eq-ok (reads λ _. or_err new_id id_failed) _ h1 in
      let (_, e2) = reads-eq-ok _ r2 in
      let (state, d3, r3, h3) = bind-eq-ok (reads λ _. clone_state c s.state) _ h2 in
      let (cloned, e3) = reads-eq-ok _ r3 in
      let k : SessionSnapshot = record {
        snapshot_id = id;
        session_name = child.session_name;
        parent_snapshot_id = s.snapshot_id;
        source_run_id = s.source_run_id;
        state = state;
        created_at = now;
      } in
      let (_, d4, w4, h4) = bind-eq-ok (writes λ d. put_session_snapshot c d k) _ h3 in
      let stored = ap (λ (d : Db). put_session_snapshot c d k) (e1 ∙ e2 ∙ e3) ∙ writes-eq-ok _ w4 in
      let pointed : SessionRecord = record child { current_snapshot_id = id } in
      let (_, d5, w5, h5) = bind-eq-ok (writes λ d. update_session c d pointed) _ h4 in
      let (is_r, e5) = return-eq-ok pointed h5 in
      (s, id, state, d4, read, cloned, stored, writes-eq-ok _ w5 ∙ ap ok e5, is_r)

  copy_of_run-not_ok :
      (parent child : SessionRecord) (new_id : Option String) (now : Time) (db : Db)
      (s : SessionSnapshot) (run : RunRow) {db' : Db} {r : SessionRecord}
      → get_session_snapshot c db parent.current_snapshot_id ≡ ok s
      → is_blank s.source_run_id ≡ false
      → find (run_with_id s.source_run_id) db.runs ≡ some run
      → run.session_name ≢ child.session_name
      → ¬ (copy_snapshot c parent child new_id now db ≡ (ok r, db'))
  copy_of_run-not_ok parent child new_id now db s run read from_run ran other h =
      let (s', id, state, d, read', _, stored, _, _) =
        copy_snapshot-parts parent child new_id now db h in
      let same : s' ≡ s = ok-injective (sym read' ∙ read) in
      let (_, checked, _, _, _) = put_session_snapshot-eq-ok c db _ stored in
      let same_run = ap (λ (x : SessionSnapshot). x.source_run_id) same in
      other (
        (eq_iff run.session_name child.session_name).0 (
          check_source_run-session c db _ run checked (ap is_blank same_run ∙ from_run)
            (ap (λ id. find (run_with_id id) db.runs) same_run ∙ ran)))

  -- `Fork` does not succeed when the parent session reads back with a current snapshot that reads
  -- back with a source run that is stored, and the session of this run is not named as the child
  -- is to be.
  pub fork_of_run-not_ok :
      (parent_name child_name : String) (new_id : Option String) (now : Time) (db : Db)
      (p : SessionRecord) (s : SessionSnapshot) (run : RunRow) {db' : Db} {r : SessionRecord}
      → get_session db (trim_space parent_name) ≡ ok p
      → is_blank p.current_snapshot_id ≡ false
      → get_session_snapshot c db p.current_snapshot_id ≡ ok s
      → is_blank s.source_run_id ≡ false
      → find (run_with_id s.source_run_id) db.runs ≡ some run
      → run.session_name ≢ trim_space child_name
      → ¬ (fork c parent_name child_name new_id now db ≡ (ok r, db'))
  unfolding new_session
  fork_of_run-not_ok parent_name child_name new_id now db p s run {db'} {r} found points read
        from_run ran other h =
      let (p', d, found', created, outcome) = fork-parts parent_name child_name new_id now db h in
      let same : p' ≡ p = ok-injective (sym found' ∙ found) in
      let (_, made) = create_session-eq-ok db _ created in
      let current = ap (λ (x : SessionRecord). x.current_snapshot_id) same in
      elim outcome [
        | inl (blank, _, _) ↦ false≢true (sym (ap is_blank current ∙ points) ∙ blank)
        | inr (_, copied) ↦
            copy_of_run-not_ok p' (new_session (trim_space child_name) p'.session_name now) new_id
              now d s run
              (ap (get_session_snapshot c d) current
                ∙ get_session_snapshot-snapshots c d db p.current_snapshot_id
                    (ap (λ (x : Db). x.snapshots) made)
                ∙ read)
              from_run (ap (λ (x : Db). find (run_with_id s.source_run_id) x.runs) made ∙ ran) other
              copied
      ]
