-- ===== src/Runtime/Queue/Invariant.antt =====
-- The managers keep the event table sound.
use mathlib.Core.Path.{fun_ext}
use text.Mathlib.TextEquality.{eq_iff}
use staging_platform.Base.{
  String, ◌≡◌, ◌≢◌, refl, ap, ◌∙◌, Bool, false, Option, none, some, List, [], ◌∷◌, ◌++◌, map, arith,
  inl, inr, Bool-cases, Option-cases, str_eq, trim_space, is_blank, any, All, update_where,
}
use staging_platform.Base.Members.{All-mono, any-map, any-append, All-map, All-append, All-update}
use staging_platform.Json.{Fields, Codec}
use staging_platform.Result.{ok, >>=-eq-ok, no_problems-eq-ok, no_problems, ◌>>=◌}
use staging_platform.Store.Records.{
  Time, is_zero, delivered, DeliveryMode, ScheduledEvent, event_problems,
}
use staging_platform.Store.Tables.{Db, EventRow, event_with_id, upsert}
use staging_platform.Store.Sessions.{get_session}
use staging_platform.Store.Snapshots.{marshal_json}
use staging_platform.Store.Events.{event_row, optional_time, mark, put_scheduled_event, scan_event}
use staging_platform.Store.Marking.{is_marked, mark_if, due_ids}
use staging_platform.Runtime.Queue.Delivery.{HandedOut}
use staging_platform.Runtime.Queue.Ready.{DistinctIds, IsSound, IsReady}

stored_problems :
    (e : ScheduledEvent) (d : Fields)
    → event_problems e ≡ []
    → event_problems (record e { payload = some d; delivered_at = optional_time e.delivered_at })
      ≡ []
unfolding event_problems
stored_problems e d h = ground arith

marked_problems :
    (e : ScheduledEvent) (at : Time)
    → is_zero at ≡ false
    → event_problems e ≡ []
    → event_problems (record e { status = delivered; delivered_at = some at }) ≡ []
unfolding event_problems
marked_problems e at z h = ground arith

nonblank_id :
    (e : ScheduledEvent)
    → event_problems e ≡ []
    → trim_space e.event_id ≡ e.event_id
    → str_eq e.event_id "" ≡ false
unfolding event_problems is_blank
nonblank_id e h t = ground arith

-- A row that is written under its own key takes the place of the row with that key.
any-update_same :
    (id other : String) (row : EventRow) (rows : List EventRow)
    → row.event_id ≡ id
    → any (event_with_id other) (update_where (event_with_id id) (λ _. row) rows)
      ≡ any (event_with_id other) rows
unfolding any update_where
any-update_same id other row [] h = refl
any-update_same id other row (e ∷ es) h =
    ground (arith, any-update_same id other row es h, eq_iff e.event_id id)

DistinctIds-update :
    (id : String) (row : EventRow) (rows : List EventRow)
    → row.event_id ≡ id
    → DistinctIds rows
    → DistinctIds (update_where (event_with_id id) (λ _. row) rows)
unfolding update_where
DistinctIds-update id row [] h d = tt
DistinctIds-update id row (e ∷ es) h d = elim (Bool-cases (event_with_id id e)) [
  | inl t ↦ rw t (
    any-update_same id row.event_id row es h ∙ rw (h, ← (eq_iff e.event_id id).0 t) d.0,
    DistinctIds-update id row es h d.1,
  )
  | inr f ↦ rw f (any-update_same id e.event_id row es h ∙ d.0, DistinctIds-update id row es h d.1)
]

DistinctIds-append :
    (row : EventRow) (rows : List EventRow)
    → any (event_with_id row.event_id) rows ≡ false
    → DistinctIds rows
    → DistinctIds (rows ++ row ∷ [])
unfolding any
DistinctIds-append row [] h d = (refl, tt)
DistinctIds-append row (e ∷ es) h d = (
  any-append (event_with_id e.event_id) es (row ∷ [])
      ∙ ground (arith, d.0, h, eq_iff e.event_id row.event_id, eq_iff row.event_id e.event_id),
  DistinctIds-append row es (ground arith) d.1,
)

DistinctIds-upsert :
    (row : EventRow) (rows : List EventRow)
    → DistinctIds rows
    → DistinctIds (upsert (event_with_id row.event_id) row rows)
unfolding upsert
DistinctIds-upsert row rows d = elim (Bool-cases (any (event_with_id row.event_id) rows)) [
  | inl t ↦ rw t (DistinctIds-update row.event_id row rows refl d)
  | inr f ↦ rw f (DistinctIds-append row rows f d)
]

All-upsert :
    (P : EventRow → Type 0) (p : EventRow → Bool) (row : EventRow) (rows : List EventRow)
    → P row
    → All P rows
    → All P (upsert p row rows)
unfolding upsert
All-upsert P p row rows h hs = elim (Bool-cases (any p rows)) [
  | inl t ↦ rw t (All-update P p row rows h hs)
  | inr f ↦ rw f (All-append P rows (row ∷ []) hs (h, tt))
]

nil_payload : (e : ScheduledEvent) → e.payload ≡ none → event_problems e ≢ []
unfolding event_problems
nil_payload e n h = ground arith

abbrev stored : ScheduledEvent → Fields → ScheduledEvent
stored e d = record e { payload = some d; delivered_at = optional_time e.delivered_at }

event_id-mark_if :
    (name : String) (at : Time) (ids : List String) (e : EventRow)
    → (mark_if name at ids e).event_id ≡ e.event_id
event_id-mark_if name at ids e = ground arith

abbrev scanned : EventRow → Option Fields → ScheduledEvent
scanned e payload = record {
  event_id = e.event_id;
  session_name = e.session_name;
  service = e.service;
  topic = e.topic;
  delivery_mode = e.delivery_mode;
  due_at = e.due_at;
  payload = payload;
  status = e.status;
  created_at = e.created_at;
  delivered_at = e.delivered_at;
}

module _ (c : Codec) where
  -- A new event is sound.
  event_row-IsSound :
      (e : ScheduledEvent) (json : String)
      → trim_space e.event_id ≡ e.event_id
      → event_problems e ≡ []
      → marshal_json c e.payload ≡ ok json
      → IsSound c (event_row e json)
  unfolding marshal_json scan_event
  event_row-IsSound e json t p m = elim (Option-cases e.payload) [
    | inl nil ↦ absurd (nil_payload e nil p)
    | inr (o, is) ↦
        let encoded : c.marshal o ≡ some json = ground arith in
        let (d, decoded) = c.unmarshal-marshal o json encoded in
        (t, nonblank_id e p t, (stored e d, rw (decoded, stored_problems e d p)))
  ]

  mark-IsSound :
      (at : Time) (e : EventRow) → is_zero at ≡ false → IsSound c e → IsSound c (mark at e)
  unfolding scan_event
  mark-IsSound at e z s = elim (Option-cases (c.unmarshal e.payload_json)) [
    | inl f ↦ cc (rw f at s.2.1)
    | inr (payload, decoded) ↦
        let (_, valid, _) =
          >>=-eq-ok (no_problems (event_problems (scanned e payload))) _ (rw decoded at s.2.1) in
        (
          s.0,
          s.1,
          (
            record (scanned e payload) { status = delivered; delivered_at = some at },
            rw (
              decoded,
              marked_problems (scanned e payload) at z
                  (no_problems-eq-ok (event_problems (scanned e payload)) valid),
            ),
          ),
        )
  ]

  mark_if-IsSound :
      (name : String) (at : Time) (ids : List String) (e : EventRow)
      → is_zero at ≡ false
      → IsSound c e
      → IsSound c (mark_if name at ids e)
  mark_if-IsSound name at ids e z s = elim (Bool-cases (is_marked name ids e)) [
    | inl t ↦ rw t (mark-IsSound at e z s)
    | inr f ↦ rw f s
  ]

  -- A scheduled event keeps the table sound.
  pub put_scheduled_event-IsReady :
      (db : Db) (e : ScheduledEvent) {db' : Db}
      → trim_space e.event_id ≡ e.event_id
      → IsReady c db.events
      → put_scheduled_event c db e ≡ ok db'
      → IsReady c db'.events
  unfolding put_scheduled_event
  put_scheduled_event-IsReady db e {db'} t r h =
      let (_, valid, h1) = >>=-eq-ok (no_problems (event_problems e)) _ h in
      let (_, _, h2) = >>=-eq-ok (get_session db e.session_name >>= λ _. ok tt) _ h1 in
      let (json, encoded, h3) = >>=-eq-ok (marshal_json c e.payload) _ h2 in
      let same : record db {
        events = upsert (event_with_id e.event_id) (event_row e json) db.events;
      }
          ≡ db' =
        cc in
      rw (← same) (record {
        distinct = DistinctIds-upsert (event_row e json) db.events r.distinct;
        sound =
            All-upsert (IsSound c) (event_with_id e.event_id) (event_row e json) db.events
              (event_row-IsSound e json t (no_problems-eq-ok (event_problems e) valid) encoded)
              r.sound;
      })

  DistinctIds-mark :
      (name : String) (at : Time) (ids : List String) (rows : List EventRow)
      → DistinctIds rows
      → DistinctIds (map (mark_if name at ids) rows)
  DistinctIds-mark name at ids [] d = tt
  DistinctIds-mark name at ids (e ∷ es) d = (
    rw (event_id-mark_if name at ids e) (
        any-map (mark_if name at ids) (event_with_id e.event_id) es
        ∙ ap (λ (q : EventRow → Bool). any q es)
            (fun_ext λ x. ap (λ (i : String). str_eq i e.event_id) (event_id-mark_if name at ids x))
        ∙ d.0),
    DistinctIds-mark name at ids es d.1,
  )

  pub HandedOut-IsReady :
      {name : String} {mode : DeliveryMode} {t : Time} {rows : List EventRow} {db' : Db}
      {out : List ScheduledEvent}
      → is_zero t ≡ false
      → IsReady c rows
      → HandedOut name mode t rows db' out
      → IsReady c db'.events
  HandedOut-IsReady {name} {mode} {t} {rows} z r h =
      let ids = due_ids name mode t rows in
      rw h.marked (record {
        distinct = DistinctIds-mark name t ids rows r.distinct;
        sound = All-map (mark_if name t ids) (IsSound c) rows (
            All-mono (IsSound c) (λ e. IsSound c (mark_if name t ids e)) rows
              (λ e s. mark_if-IsSound name t ids e z s) r.sound);
      })
