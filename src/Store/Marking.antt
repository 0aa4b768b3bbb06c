-- ===== src/Store/Marking.antt =====
-- What `MarkScheduledEventsDelivered` does to each row of the table.
use mathlib.Core.Path.{fun_ext}
use mathlib.Core.List.{map-map, Memᴰ}
use text.Mathlib.TextPositions.{eq_refl}
use staging_platform.Base.{
  String, ◌≡◌, ap, ◌∙◌, Bool, true, false, ◌&&◌, List, [], ◌∷◌, map, arith, str_eq, if◌then◌else◌,
  Bool-cases, ◌⊎◌, inl, inr, any, keep, update_where, All, trim_space, is_blank, not,
}
use staging_platform.Base.Members.{
  update_where-map, map_same, any-map, any-sort_by, any-keep_of_mem, keep-none, All-map, All-of_mem,
  mem_of_All,
}
use staging_platform.Base.Sorting.{sort_by}
use staging_platform.Result.{ok, refuse_if, >>=-eq-ok}
use staging_platform.Store.Records.{Time, is_zero, is_pending, DeliveryMode}
use staging_platform.Store.Tables.{Db, EventRow, event_of}
use staging_platform.Store.Events.{
  is_markable, mark, mark_rows, mark_scheduled_events_delivered, is_due, due_first,
}

-- The row is a pending event of the session, and its identifier is among those given.
abbrev pub is_marked : String → List String → EventRow → Bool
is_marked name ids e =
    event_of name e && is_pending e.status && any (λ id. str_eq e.event_id (trim_space id)) ids

abbrev pub mark_if : String → Time → List String → EventRow → EventRow
mark_if name at ids e = if is_marked name ids e then mark at e else e

pub mark_if-nil : (name : String) (at : Time) (e : EventRow) → mark_if name at [] e ≡ e
unfolding any
mark_if-nil name at e = ground arith

mark_if-cons :
    (name : String) (at : Time) (id : String) (ids : List String) (e : EventRow)
    → mark_if name at ids (if is_markable name (trim_space id) e then mark at e else e)
      ≡ mark_if name at (id ∷ ids) e
unfolding any is_markable
mark_if-cons name at id ids e = ground arith

-- A success has marked exactly the rows that `is_marked` names, and no other.
pub mark_rows-map :
    (name : String) (at : Time) (ids : List String) (rows : List EventRow) {out : List EventRow}
    → mark_rows name at ids rows ≡ ok out
    → out ≡ map (mark_if name at ids) rows
unfolding mark_rows
mark_rows-map name at [] rows h = cc (map_same (mark_if name at []) rows (mark_if-nil name at))
mark_rows-map name at (id ∷ ids) rows {out} h =
    let (_, _, h1) = >>=-eq-ok (refuse_if (str_eq (trim_space id) "") _) _ h in
    let (_, _, h2) =
      >>=-eq-ok (refuse_if (not (any (is_markable name (trim_space id)) rows)) _) _ h1 in
    mark_rows-map name at ids (update_where (is_markable name (trim_space id)) (mark at) rows) h2
    ∙ ap (map (mark_if name at ids))
        (update_where-map (is_markable name (trim_space id)) (mark at) rows)
    ∙ map-map (mark_if name at ids)
        (λ x. if is_markable name (trim_space id) x then mark at x else x) rows
    ∙ ap (λ (f : EventRow → EventRow). map f rows) (fun_ext (mark_if-cons name at id ids))

-- The identifiers of the rows that pass a test, in any order.
abbrev pub ids_of : List EventRow → List String
ids_of = map λ e. e.event_id

module _ (due : EventRow → Bool) (le : EventRow → EventRow → Bool) where
  -- A row that passes is among the rows sorted.
  pub any_id-sorted :
      (rows : List EventRow) (e : EventRow)
      → Memᴰ e rows
      → due e ≡ true
      → trim_space e.event_id ≡ e.event_id
      → any (λ id. str_eq e.event_id (trim_space id)) (ids_of (sort_by le (keep due rows))) ≡ true
  any_id-sorted rows e m d t =
      any-map (λ (x : EventRow). x.event_id) (λ id. str_eq e.event_id (trim_space id))
        (sort_by le (keep due rows))
      ∙ any-sort_by le (λ x. str_eq e.event_id (trim_space x.event_id)) (keep due rows)
      ∙ any-keep_of_mem due (λ x. str_eq e.event_id (trim_space x.event_id)) rows m d
          (rw t (eq_refl e.event_id))

mark_if-not_due :
    (name : String) (mode : DeliveryMode) (now at : Time) (ids : List String) (e : EventRow)
    → (is_due name mode now e ≡ false) ⊎ (any (λ id. str_eq e.event_id (trim_space id)) ids ≡ true)
    → is_due name mode now (mark_if name at ids e) ≡ false
unfolding is_due
mark_if-not_due name mode now at ids e h = ground arith

abbrev pub due_ids : String → DeliveryMode → Time → List EventRow → List String
due_ids name mode now rows = ids_of (sort_by due_first (keep (is_due name mode now) rows))

abbrev pub HasTrimmedId : EventRow → Type 0
HasTrimmedId e = trim_space e.event_id ≡ e.event_id

-- No row is due any more once the due rows are marked.
pub keep-due-mark :
    (name : String) (mode : DeliveryMode) (now at : Time) (rows : List EventRow)
    → All HasTrimmedId rows
    → keep (is_due name mode now) (map (mark_if name at (due_ids name mode now rows)) rows) ≡ []
keep-due-mark name mode now at rows h =
    keep-none due _ (All-map (mark_if name at ids) (λ e. due e ≡ false) rows (All-of_mem rows each))
  where
    due : EventRow → Bool
    due = is_due name mode now

    ids : List String
    ids = due_ids name mode now rows

    each : (e : EventRow) → Memᴰ e rows → due (mark_if name at ids e) ≡ false
    each e m = mark_if-not_due name mode now at ids e (elim (Bool-cases (due e)) [
      | inl d ↦ inr (any_id-sorted due due_first rows e m d (mem_of_All HasTrimmedId rows h m))
      | inr n ↦ inl n
    ])

-- A success of `MarkScheduledEventsDelivered`, as a whole.
pub mark_scheduled-eq-ok :
    (db : Db) (name : String) (ids : List String) (at : Time) {db' : Db}
    → mark_scheduled_events_delivered db name ids at ≡ ok db'
    → db' ≡ record db { events = map (mark_if name at ids) db.events }
unfolding mark_scheduled_events_delivered
mark_scheduled-eq-ok db name [] at {db'} h =
    let e : map (mark_if name at []) db.events ≡ db.events =
      map_same (mark_if name at []) db.events (mark_if-nil name at) in
    rw e (ground arith)
mark_scheduled-eq-ok db name (id ∷ ids) at {db'} h =
    let (_, _, h1) = >>=-eq-ok (refuse_if (is_blank name) _) _ h in
    let (_, _, h2) = >>=-eq-ok (refuse_if (is_zero at) _) _ h1 in
    let (rows, k, h3) = >>=-eq-ok (mark_rows name at (id ∷ ids) db.events) _ h2 in
    let e : record db { events = rows } ≡ db' = cc in
    rw (← e, mark_rows-map name at (id ∷ ids) db.events k)
