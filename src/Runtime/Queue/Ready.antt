-- ===== src/Runtime/Queue/Ready.antt =====
-- When the event table and a session's clock let a delivery succeed.
use text.Mathlib.TextEquality.{eq_iff}
use staging_platform.Base.{
  String, ◌≡◌, refl, ◌∙◌, Bool, true, false, List, [], ◌∷◌, arith, inl, inr, Bool-cases, str_eq,
  trim_space, keep, any, All, update_where,
}
use staging_platform.Base.Members.{
  any-map, any-keep-false, any-insert_by, any-sort_by, All-sort_by, All-keep, All-map, All-zip,
  All-of_mem, any_of_mem, All-keep_passes,
}
use staging_platform.Base.Sorting.{insert_by, sort_by}
use staging_platform.Json.{Codec}
use staging_platform.Result.{ok}
use staging_platform.Store.Records.{Time, ScheduledEvent, DeliveryMode}
use staging_platform.Store.Tables.{EventRow, event_with_id}
use staging_platform.Store.Events.{
  is_due, due_first, is_markable, mark, mark_rows, scan_event, scan_rows,
}
use staging_platform.Store.Marking.{HasTrimmedId, ids_of}

-- No two rows have one identifier (`event_id TEXT PRIMARY KEY`).
abbrev pub DistinctIds : List EventRow → Type 0
DistinctIds [] = Unit
DistinctIds (e ∷ es) = (any (event_with_id e.event_id) es ≡ false) × DistinctIds es

DistinctIds-keep :
    (p : EventRow → Bool) (es : List EventRow) → DistinctIds es → DistinctIds (keep p es)
unfolding keep
DistinctIds-keep p [] h = tt
DistinctIds-keep p (e ∷ es) h =
    ground (arith, DistinctIds-keep p es h.1, any-keep-false p (event_with_id e.event_id) es h.0)

DistinctIds-insert :
    (le : EventRow → EventRow → Bool) (x : EventRow) (xs : List EventRow)
    → any (event_with_id x.event_id) xs ≡ false
    → DistinctIds xs
    → DistinctIds (insert_by le x xs)
unfolding any insert_by
DistinctIds-insert le x [] a d = (refl, tt)
DistinctIds-insert le x (y ∷ ys) a d = elim (Bool-cases (le x y)) [
  | inl t ↦ rw t (a, d)
  | inr f ↦
      rw (f, any-insert_by le (event_with_id y.event_id) x ys)
        (
          ground (arith, d.0, eq_iff x.event_id y.event_id, eq_iff y.event_id x.event_id),
          DistinctIds-insert le x ys (ground arith) d.1,
        )
]

DistinctIds-sort :
    (le : EventRow → EventRow → Bool) (xs : List EventRow)
    → DistinctIds xs
    → DistinctIds (sort_by le xs)
unfolding sort_by
DistinctIds-sort le [] d = tt
DistinctIds-sort le (x ∷ xs) d =
    DistinctIds-insert le x (sort_by le xs) (any-sort_by le (event_with_id x.event_id) xs ∙ d.0)
      (DistinctIds-sort le xs d.1)

-- One statement of the loop leaves every other event as it was.
any_markable-other :
    (name : String) (at : Time) (id other : String) (rows : List EventRow)
    → str_eq id other ≡ false
    → any (is_markable name other) (update_where (is_markable name id) (mark at) rows)
      ≡ any (is_markable name other) rows
unfolding any update_where is_markable
any_markable-other name at id other [] h = refl
any_markable-other name at id other (e ∷ es) h = ground (
  arith,
  any_markable-other name at id other es h,
  eq_iff e.event_id id,
  eq_iff e.event_id other,
  eq_iff id other,
)

-- What the loop of `MarkScheduledEventsDelivered` needs of an identifier.
abbrev pub CanMark : String → List EventRow → String → Type 0
CanMark name rows id =
    (trim_space id ≡ id) × (str_eq id "" ≡ false) × (any (is_markable name id) rows ≡ true)

abbrev pub Different : List String → Type 0
Different [] = Unit
Different (id ∷ ids) = (any (λ other. str_eq other id) ids ≡ false) × Different ids

CanMark-update :
    (name : String) (at : Time) (id : String) (rows : List EventRow) (ids : List String)
    → any (λ other. str_eq other id) ids ≡ false
    → All (CanMark name rows) ids
    → All (CanMark name (update_where (is_markable name id) (mark at) rows)) ids
unfolding any
CanMark-update name at id rows [] d h = tt
CanMark-update name at id rows (i ∷ is) d h = (
  (
    h.0.0,
    h.0.1,
    any_markable-other name at id i rows (ground (arith, eq_iff id i, eq_iff i id)) ∙ h.0.2,
  ),
  CanMark-update name at id rows is (ground arith) h.1,
)

pub mark_rows_total :
    (name : String) (at : Time) (ids : List String) (rows : List EventRow)
    → Different ids
    → All (CanMark name rows) ids
    → (out : List EventRow) × (mark_rows name at ids rows ≡ ok out)
unfolding mark_rows
mark_rows_total name at [] rows d h = (rows, refl)
mark_rows_total name at (id ∷ ids) rows d h =
    let rest =
      mark_rows_total name at ids (update_where (is_markable name id) (mark at) rows) d.1
        (CanMark-update name at id rows ids d.0 h.1) in
    (rest.0, rw (h.0.0, h.0.1, h.0.2) rest.1)

Different-ids_of : (rows : List EventRow) → DistinctIds rows → Different (ids_of rows)
Different-ids_of [] d = tt
Different-ids_of (e ∷ es) d = (
  any-map (λ (x : EventRow). x.event_id) (λ other. str_eq other e.event_id) es ∙ d.0,
  Different-ids_of es d.1,
)

module _ (c : Codec) where
  -- A row that reads back, under an identifier that the manager can name.
  abbrev pub IsSound : EventRow → Type 0
  IsSound e =
      HasTrimmedId e
      × (str_eq e.event_id "" ≡ false)
      × ((x : ScheduledEvent) × (scan_event c e ≡ ok x))

  pub record IsReady (rows : List EventRow) : Type 0 where
    pub distinct : DistinctIds rows
    pub sound : All IsSound rows

  scan_rows_total :
      (rows : List EventRow)
      → All IsSound rows
      → (es : List ScheduledEvent) × (scan_rows c rows ≡ ok es)
  unfolding scan_rows
  scan_rows_total [] h = ([], refl)
  scan_rows_total (row ∷ rows) h =
      let (x, e) = h.0.2 in let (xs, es) = scan_rows_total rows h.1 in (x ∷ xs, rw (e, es))

  module _ (name : String) (mode : DeliveryMode) (now : Time) (rows : List EventRow)
      (ready : IsReady rows) where
    abbrev due : List EventRow
    due = sort_by due_first (keep (is_due name mode now) rows)

    due-IsSound : All IsSound due
    due-IsSound =
        All-sort_by IsSound due_first _ (All-keep IsSound (is_due name mode now) rows ready.sound)

    pub scan-due_total : (es : List ScheduledEvent) × (scan_rows c due ≡ ok es)
    scan-due_total = scan_rows_total due due-IsSound

    abbrev Markable : EventRow → Type 0
    Markable e = is_due name mode now e ≡ true → any (is_markable name e.event_id) rows ≡ true

    markable_of_due :
        (e : EventRow) → is_due name mode now e ≡ true → is_markable name e.event_id e ≡ true
    unfolding is_due is_markable
    markable_of_due e h = ground (arith, eq_iff e.event_id e.event_id)

    due-CanMark : All (CanMark name rows) (ids_of due)
    due-CanMark =
        All-map (λ (e : EventRow). e.event_id) (CanMark name rows) due
          (All-zip IsSound (λ e. any (is_markable name e.event_id) rows ≡ true)
            (λ e. CanMark name rows e.event_id) due (λ e s m. (s.0, s.1, m)) due-IsSound
            (All-sort_by _ due_first _ (
              All-zip Markable (λ e. is_due name mode now e ≡ true)
                (λ e. any (is_markable name e.event_id) rows ≡ true)
                (keep (is_due name mode now) rows) (λ e f d. f d)
                (All-keep Markable (is_due name mode now) rows (
                  All-of_mem rows (λ e m d.
                    any_of_mem (is_markable name e.event_id) rows m (markable_of_due e d))))
                (All-keep_passes (is_due name mode now) rows))))

    pub mark-due_total :
        (at : Time) → (out : List EventRow) × (mark_rows name at (ids_of due) rows ≡ ok out)
    mark-due_total at =
        mark_rows_total name at (ids_of due) rows
          (Different-ids_of due (
            DistinctIds-sort due_first _
              (DistinctIds-keep (is_due name mode now) rows ready.distinct)))
          due-CanMark
