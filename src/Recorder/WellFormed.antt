-- ===== src/Recorder/WellFormed.antt =====
-- internal/recorder/schema.go: what a run that `Validate` accepts looks like.
use mathlib.Core.List.{map-eq-nil_iff, append-eq-nil_iff}
use text.Mathlib.TextEquality.{eq_iff}
use staging_platform.Base.{
  ℕ, suc, ◌≤◌, String, ◌≡◌, ◌≢◌, refl, ap, Bool, true, false, not, ◌&&◌, none, some, List, [], ◌∷◌,
  ◌++◌, map, All, Pairwise, any, arith, str_eq, is_blank, trim_space, Bool-cases, Option-cases, inl,
  inr,
}
use staging_platform.Base.Empty.{flatten-All-IsNil}
use staging_platform.Base.Int.{ℤ, pos, negsuc, ◌<ℤ◌, ◌≤ℤ◌, lt_of_leb_ℤ, le_of_ltb_ℤ}
use staging_platform.Base.Problems.{Problem, item, within, adds, adds-nil, is_empty}
use staging_platform.Base.Members.{All-mono}
use staging_platform.Json.{Codec}
use staging_platform.Store.Records.{Time, is_zero}
use staging_platform.Recorder.{
  Run, Interaction, Event, ScrubReport, contains, terminal_event_types, run_status_complete,
  valid_run_statuses, run_status_incomplete, run_status_corrupted,
}
use staging_platform.Recorder.Validation.{
  ends_open, events_problems, scrub_report_problems, interaction_problems, interactions_problems,
  ended_early, not_ended, status_problems, run_problems, event_problems,
}

-- Time goes on from event to event, and the sequence numbers rise.
abbrev pub Precedes : Event → Event → Type 0
Precedes e f = (e.sequence <ℤ f.sequence) × (e.t_ms ≤ℤ f.t_ms) × (e.sim_t_ms ≤ℤ f.sim_t_ms)

-- One bound for the first event of a list bounds the rest.
abbrev After : ℤ → ℤ → ℤ → Event → Type 0
After last t sim e = (last <ℤ e.sequence) × (t ≤ℤ e.t_ms) × (sim ≤ℤ e.sim_t_ms)

After-weaken :
    (e : Event) (last t sim : ℤ) (es : List Event)
    → After last t sim e
    → All (After e.sequence e.t_ms e.sim_t_ms) es
    → All (After last t sim) es
After-weaken e last t sim es h hs =
    All-mono (After e.sequence e.t_ms e.sim_t_ms) (After last t sim) es (λ f k. omega arith) hs

-- The sequence number is above 0, and neither time is negative.
abbrev pub FromZero : Event → Type 0
FromZero e = (pos 0 <ℤ e.sequence) × (pos 0 ≤ℤ e.t_ms) × (pos 0 ≤ℤ e.sim_t_ms)

event-FromZero : (e : Event) → event_problems e ≡ [] → FromZero e
unfolding event_problems
event-FromZero e h =
    let (sequence, (time, (sim_time, _))) = flatten-All-IsNil _ h in
    (
      lt_of_leb_ℤ e.sequence (pos 0) (adds-nil _ _ sequence),
      le_of_ltb_ℤ e.t_ms (pos 0) (adds-nil _ _ time),
      le_of_ltb_ℤ e.sim_t_ms (pos 0) (adds-nil _ _ sim_time),
    )

events-Precedes :
    (idx : ℕ) (seen : List ℤ) (last t sim : ℤ) (es : List Event)
    → events_problems idx seen last t sim es ≡ []
    → All (After last t sim) es × All FromZero es × Pairwise Precedes es
unfolding events_problems
events-Precedes idx seen last t sim [] h = (tt, tt, tt)
events-Precedes idx seen last t sim (e ∷ es) h =
    let (here, rest) = append-eq-nil_iff.0 h in
    let parts = flatten-All-IsNil _ ((map-eq-nil_iff (item "events" idx)).0 here) in
    let (later, from_zero, ordered) =
      events-Precedes (suc idx) (e.sequence ∷ seen) e.sequence e.t_ms e.sim_t_ms es rest in
    let (_, (rises, (time, (sim_time, (own, _))))) = parts in
    let first : After last t sim e = (
      lt_of_leb_ℤ e.sequence last (adds-nil _ _ rises),
      le_of_ltb_ℤ e.t_ms t (adds-nil _ _ time),
      le_of_ltb_ℤ e.sim_t_ms sim (adds-nil _ _ sim_time),
    ) in
    (
      (first, After-weaken e last t sim es first later),
      (event-FromZero e own, from_zero),
      (later, ordered),
    )

-- The last event ends the interaction.
abbrev pub EndsClosed : List Event → Type 0
EndsClosed es =
    (before : List Event) × (e : Event) × (es ≡ before ++ e ∷ [])
    × (contains terminal_event_types e.type ≡ true)

events-EndsClosed : (es : List Event) → is_empty es ≡ false → ends_open es ≡ false → EndsClosed es
unfolding ends_open
events-EndsClosed [] n h = cc
events-EndsClosed (e ∷ []) n h = ([], e, refl, ground arith)
events-EndsClosed (e ∷ f ∷ es) n h =
    let (before, l, split, closed) = events-EndsClosed (f ∷ es) refl h in
    (e ∷ before, l, ap (◌∷◌ e) split, closed)

-- What holds of each interaction of a run that is accepted.
pub record IsSound (run_id policy : String) (i : Interaction) : Type 0 where
  pub same_run : i.run_id ≡ run_id
  pub same_policy : i.scrub_report.scrub_policy_version ≡ policy
  pub named : is_blank i.interaction_id ≡ false
  pub positive : pos 0 <ℤ i.sequence
  pub latency : pos 0 ≤ℤ i.latency_ms
  pub from_zero : All FromZero i.events
  pub ordered : Pairwise Precedes i.events
  pub ends : EndsClosed i.events

same_of_adds :
    (a b : String) (p : Problem)
    → str_eq a "" ≡ false
    → adds (not (str_eq a "") && not (str_eq b a)) p ≡ []
    → b ≡ a
same_of_adds a b p n h = ground (arith, eq_iff b a)

scrub_report-same :
    (policy : String) (r : ScrubReport)
    → str_eq policy "" ≡ false
    → map (within "scrub_report") (scrub_report_problems policy r) ≡ []
    → r.scrub_policy_version ≡ policy
unfolding scrub_report_problems
scrub_report-same policy r n h =
    let parts = flatten-All-IsNil _ ((map-eq-nil_iff (within "scrub_report")).0 h) in
    same_of_adds policy r.scrub_policy_version _ n parts.1.0

interaction-IsSound :
    (run_id policy : String) (i : Interaction)
    → str_eq run_id "" ≡ false
    → str_eq policy "" ≡ false
    → interaction_problems run_id policy i ≡ []
    → IsSound run_id policy i
unfolding interaction_problems
interaction-IsSound run_id policy i n m h =
    let (
      _,
      (
        same,
        (
          named,
          (
            _,
            (
              positive,
              (_, (_, (_, (_, (latency, (_, (nonempty, (events, (closed, (_, (report, _))))))))))),
            ),
          ),
        ),
      ),
    ) =
      flatten-All-IsNil _ h in
    let (_, start, ordered) = events-Precedes 0 [] (pos 0) (negsuc 0) (negsuc 0) i.events events in
    record {
      same_run = same_of_adds run_id i.run_id _ n same;
      same_policy = scrub_report-same policy i.scrub_report m report;
      named = adds-nil _ _ named;
      positive = lt_of_leb_ℤ i.sequence (pos 0) (adds-nil _ _ positive);
      latency = le_of_ltb_ℤ i.latency_ms (pos 0) (adds-nil _ _ latency);
      from_zero = start;
      ordered = ordered;
      ends = events-EndsClosed i.events (adds-nil _ _ nonempty) (adds-nil _ _ closed);
    }

-- The sequence numbers rise, and no identifier comes twice.
abbrev pub ComesBefore : Interaction → Interaction → Type 0
ComesBefore i j = (i.sequence <ℤ j.sequence) × (i.interaction_id ≢ j.interaction_id)

-- An interaction that the loop has not seen.
abbrev IsNew : List String → ℤ → Interaction → Type 0
IsNew seen last i = (contains seen i.interaction_id ≡ false) × (last <ℤ i.sequence)

IsNew-cons :
    (seen : List String) (last : ℤ) (i j : Interaction)
    → IsNew seen last i
    → IsNew (i.interaction_id ∷ seen) i.sequence j
    → IsNew seen last j × ComesBefore i j
unfolding any
IsNew-cons seen last i j h k = (
  (ground arith, omega arith),
  (k.1, λ e. ground (arith, eq_iff i.interaction_id j.interaction_id)),
)

interactions-IsSound :
    (run_id policy : String) (idx : ℕ) (seen : List String) (last : ℤ) (is : List Interaction)
    → str_eq run_id "" ≡ false
    → str_eq policy "" ≡ false
    → interactions_problems run_id policy idx seen last is ≡ []
    → All (IsNew seen last) is × Pairwise ComesBefore is × All (IsSound run_id policy) is
unfolding interactions_problems
interactions-IsSound run_id policy idx seen last [] n m h = (tt, tt, tt)
interactions-IsSound run_id policy idx seen last (i ∷ is) n m h =
    let (here, rest) = append-eq-nil_iff.0 h in
    let (fresh, (rises, (own, _))) =
      flatten-All-IsNil _ ((map-eq-nil_iff (item "interactions" idx)).0 here) in
    let (later, before, sound) =
      interactions-IsSound run_id policy (suc idx) (i.interaction_id ∷ seen) i.sequence is n m
        rest in
    let new : IsNew seen last i =
      (adds-nil _ _ fresh, lt_of_leb_ℤ i.sequence last (adds-nil _ _ rises)) in
    let step = λ (j : Interaction) (k : IsNew (i.interaction_id ∷ seen) i.sequence j).
      IsNew-cons seen last i j new k in
    (
      (new, All-mono _ (IsNew seen last) is (λ j k. (step j k).0) later),
      (All-mono _ (ComesBefore i) is (λ j k. (step j k).1) later, before),
      (interaction-IsSound run_id policy i n m own, sound),
    )

-- What the status of a run promises.
pub record IsWellFormed (r : Run) : Type 0 where
  pub named : is_blank r.run_id ≡ false
  pub distinct : Pairwise ComesBefore r.interactions
  pub sound : All (IsSound r.run_id r.scrub_policy_version) r.interactions
  pub finished :
      r.status ≡ run_status_complete
      → (t : Time) × (r.ended_at ≡ some t) × (r.started_at ≤ t) × (r.integrity_issues ≡ [])
  pub explained : r.status ≢ run_status_complete → r.integrity_issues ≢ []

nonblank-nonempty : (t : String) → is_blank t ≡ false → str_eq t "" ≡ false
unfolding is_blank trim_space
nonblank-nonempty t h = elim (Bool-cases (str_eq t "")) [
  | inl e ↦ cc (rw ((eq_iff t "").0 e) at h)
  | inr f ↦ f
]

nil_of_is_empty {ℓ} : {A : Type ℓ} (xs : List A) → is_empty xs ≡ true → xs ≡ []
nil_of_is_empty [] h = refl
nil_of_is_empty (x ∷ xs) h = cc

not-false : {b : Bool} → not b ≡ false → b ≡ true
not-false h = ground arith

never_ended : (r : Run) → r.ended_at ≡ none → ¬ (not_ended r ≡ false)
never_ended r n h = ground arith

ended_late :
    (r : Run) (t : Time)
    → r.ended_at ≡ some t
    → is_zero r.started_at ≡ false
    → ended_early r ≡ false
    → r.started_at ≤ t
ended_late r t e z h = ground arith

status-Finished :
    (r : Run)
    → is_zero r.started_at ≡ false
    → ended_early r ≡ false
    → status_problems r ≡ []
    → r.status ≡ run_status_complete
    → (t : Time) × (r.ended_at ≡ some t) × (r.started_at ≤ t) × (r.integrity_issues ≡ [])
unfolding status_problems
status-Finished r z early h done =
    let complete = (eq_iff r.status run_status_complete).1 done in
    let ended : not_ended r ≡ false = ground arith in
    let clean : is_empty r.integrity_issues ≡ true = ground arith in
    elim (Option-cases r.ended_at) [
      | inl n ↦ absurd (never_ended r n ended)
      | inr (t, e) ↦ (t, e, ended_late r t e z early, nil_of_is_empty r.integrity_issues clean)
    ]

status-Explained :
    (r : Run)
    → contains valid_run_statuses r.status ≡ true
    → status_problems r ≡ []
    → r.status ≢ run_status_complete
    → r.integrity_issues ≢ []
unfolding status_problems any
status-Explained r v h unfinished e =
    let other : str_eq r.status run_status_complete ≡ false =
      ground (arith, eq_iff r.status run_status_complete) in
    let parts = adds-nil _ _ (rw other at h) in
    ground (
      arith,
      eq_iff r.status run_status_complete,
      eq_iff run_status_complete r.status,
      eq_iff r.status run_status_incomplete,
      eq_iff run_status_incomplete r.status,
      eq_iff r.status run_status_corrupted,
      eq_iff run_status_corrupted r.status,
    )

-- A run in which `Validate` finds no problem has an identifier, and:
-- the interactions have rising sequence numbers and different identifiers; each of them is of
-- this run and its scrub policy, has an identifier, a positive sequence number, a latency that is not
-- negative, and events whose sequence numbers rise from above 0 and whose two times never go
-- back and are not negative, the last of which is of a terminal type; a complete run has ended, not
-- before it started, and has no integrity issue; any other run has one.
pub run_problems-IsWellFormed : (c : Codec) (r : Run) → run_problems c r ≡ [] → IsWellFormed r
unfolding run_problems
run_problems-IsWellFormed c r h =
    let (
      _,
      (
        _,
        (_, (policy, (named, (_, (_, (status, (started, (early, (_, (by_status, (is, _))))))))))),
      ),
    ) =
      flatten-All-IsNil _ h in
    let n = nonblank-nonempty r.run_id (adds-nil _ _ named) in
    let m = nonblank-nonempty r.scrub_policy_version (adds-nil _ _ policy) in
    let (_, distinct, sound) =
      interactions-IsSound r.run_id r.scrub_policy_version 0 [] (pos 0) r.interactions n m is in
    record {
      named = adds-nil _ _ named;
      distinct = distinct;
      sound = sound;
      finished = status-Finished r (adds-nil _ _ started) (adds-nil _ _ early) by_status;
      explained = status-Explained r (ground (arith, adds-nil _ _ status)) by_status;
    }
