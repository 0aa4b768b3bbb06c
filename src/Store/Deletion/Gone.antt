-- ===== src/Store/Deletion/Gone.antt =====
-- internal/store/sqlite/store.go: what `DeleteSession` leaves of a session and of the others.
use mathlib.Core.Path.{fun_ext}
use text.Mathlib.TextEquality.{eq_iff}
use staging_platform.Base.{
  String, ◌≡◌, refl, ap, ◌∙◌, Bool, true, false, List, map, arith, not, any, keep, str_eq,
  Bool-cases, inl, inr, ◌≢◌,
}
use staging_platform.Base.Members.{any-map, any-keep-not, keep-keep_apart, find-none_of_any}
use staging_platform.Result.{ok, err, not_found}
use staging_platform.Store.Records.{SessionRecord}
use staging_platform.Store.Tables.{
  Db, SnapshotRow, session_named, snapshot_of, event_of, clock_of, run_of, salt_of,
}
use staging_platform.Store.Sessions.{get_session}
use staging_platform.Store.Deletion.{
  has_rows, orphan, forget_parent, delete_session_row, delete_rows, delete_session,
}

orphan-name : (name n : String) → (λ s. session_named n (orphan name s)) ≡ session_named n
unfolding orphan
orphan-name name n = fun_ext λ s. ground arith

forget_parent-name :
    (gone : List SnapshotRow) (n : String)
    → (λ s. snapshot_of n (forget_parent gone s)) ≡ snapshot_of n
unfolding forget_parent
forget_parent-name gone n = fun_ext λ s. ground arith

no_session :
    (name : String) (rows : List SessionRecord)
    → any (session_named name) (map (orphan name) (keep (λ s. not (session_named name s)) rows))
      ≡ false
no_session name rows =
    any-map (orphan name) (session_named name) (keep (λ s. not (session_named name s)) rows)
    ∙ ap (λ (t : SessionRecord → Bool). any t (keep (λ s. not (session_named name s)) rows))
        (orphan-name name name)
    ∙ any-keep-not (session_named name) rows

no_snapshot :
    (name : String) (gone rows : List SnapshotRow)
    → any (snapshot_of name) (map (forget_parent gone) (keep (λ s. not (snapshot_of name s)) rows))
      ≡ false
no_snapshot name gone rows =
    any-map (forget_parent gone) (snapshot_of name) (keep (λ s. not (snapshot_of name s)) rows)
    ∙ ap (λ (t : SnapshotRow → Bool). any t (keep (λ s. not (snapshot_of name s)) rows))
        (forget_parent-name gone name)
    ∙ any-keep-not (snapshot_of name) rows

delete_rows-gone :
    (db : Db) (name : String)
    → any (session_named name) db.sessions ≡ true
    → has_rows (delete_rows db name) name ≡ false
unfolding has_rows delete_rows delete_session_row
delete_rows-gone db name h =
    rw
      (
        h,
        any-keep-not (run_of name) db.runs,
        any-keep-not (salt_of name) db.salts,
        any-keep-not (event_of name) db.events,
        any-keep-not (clock_of name) db.clocks,
        no_session name db.sessions,
        no_snapshot name _ _,
      )
      refl

has_rows-session :
    (db : Db) (name : String)
    → has_rows db name ≡ false
    → any (session_named name) db.sessions ≡ false
unfolding has_rows
has_rows-session db name h = ground arith

get_session-missing :
    (db : Db) (name : String)
    → any (session_named name) db.sessions ≡ false
    → get_session db name ≡ err not_found
unfolding get_session
get_session-missing db name h = rw (find-none_of_any (session_named name) db.sessions h) refl

other_name :
    (name other n : String) → name ≢ other → str_eq n other ≡ true → not (str_eq n name) ≡ true
other_name name other n h t = ground (arith, eq_iff n other, eq_iff n name)

delete_session_row-rest :
    (db : Db) (name : String)
    → ((delete_session_row db name).events ≡ db.events)
      × ((delete_session_row db name).clocks ≡ db.clocks)
      × ((delete_session_row db name).runs ≡ db.runs)
      × ((delete_session_row db name).salts ≡ db.salts)
unfolding delete_session_row
delete_session_row-rest db name = elim (Bool-cases (any (session_named name) db.sessions)) [
  | inl t ↦ rw t (refl, refl, refl, refl)
  | inr f ↦ rw f (refl, refl, refl, refl)
]

-- The rows that a deletion leaves to another session.
abbrev pub KeepsOther : String → Db → Db → Type 0
KeepsOther other db db' =
    (keep (event_of other) db'.events ≡ keep (event_of other) db.events)
    × (keep (clock_of other) db'.clocks ≡ keep (clock_of other) db.clocks)
    × (keep (run_of other) db'.runs ≡ keep (run_of other) db.runs)
    × (keep (salt_of other) db'.salts ≡ keep (salt_of other) db.salts)

delete_rows-KeepsOther :
    (db : Db) (name other : String) → name ≢ other → KeepsOther other db (delete_rows db name)
unfolding delete_rows
delete_rows-KeepsOther db name other apart =
    let (e, c, r, s) = delete_session_row-rest _ name in
    (
      ap (keep (event_of other)) e
          ∙ keep-keep_apart (event_of other) (λ x. not (event_of name x))
              (λ x. other_name name other x.session_name apart) db.events,
      ap (keep (clock_of other)) c
          ∙ keep-keep_apart (clock_of other) (λ x. not (clock_of name x))
              (λ x. other_name name other x.session_name apart) db.clocks,
      ap (keep (run_of other)) r
          ∙ keep-keep_apart (run_of other) (λ x. not (run_of name x))
              (λ x. other_name name other x.session_name apart) db.runs,
      ap (keep (salt_of other)) s
          ∙ keep-keep_apart (salt_of other) (λ x. not (salt_of name x))
              (λ x. other_name name other x.session_name apart) db.salts,
    )

delete_session_of_row :
    (db : Db) (name : String)
    → any (session_named name) db.sessions ≡ true
    → delete_session db name ≡ ok (delete_rows db name)
unfolding delete_session has_rows
delete_session_of_row db name h = ground arith

-- A session that has its row is deleted with success. Afterwards no table that the deletion counts
-- holds a row of it, `GetSession` does not find it, and the events, the clock, the runs and the
-- salt of any other session are the same.
pub delete_session-Gone :
    (db : Db) (name other : String)
    → any (session_named name) db.sessions ≡ true
    → name ≢ other
    → (db' : Db) × (delete_session db name ≡ ok db')
      × (has_rows db' name ≡ false)
      × (get_session db' name ≡ err not_found)
      × KeepsOther other db db'
delete_session-Gone db name other h apart =
    let gone = delete_rows-gone db name h in
    (
      delete_rows db name,
      delete_session_of_row db name h,
      gone,
      get_session-missing _ name (has_rows-session _ name gone),
      delete_rows-KeepsOther db name other apart,
    )
