-- ===== src/Recorder/Validation.antt =====
-- internal/recorder/schema.go: the `validate` methods. Each returns its problems in the order of the
-- code. A problem is the format of its message with the arguments, and what `addNested` puts before.
use mathlib.Core.List.{flatten}
use staging_platform.Base.{
  ℕ, suc, String, Bool, not, true, false, ◌&&◌, ◌||◌, Option, none, some, List, [], ◌∷◌, ◌++◌, map,
  ltb, str_eq, if◌then◌else◌, is_blank, any,
}
use staging_platform.Base.Problems.{
  Problem, says, within, item, text, number, adds, adds_text, is_empty, item_problems,
}
use staging_platform.Base.Int.{ℤ, pos, negsuc, ltb_ℤ, leb_ℤ, eqb_ℤ}
use staging_platform.Json.{Fields, Codec}
use staging_platform.Store.Records.{is_zero}
use staging_platform.Recorder.{
  Run, Interaction, Request, Event, ExtractedEntity, ScrubReport, IntegrityIssue, Header, contains,
  artifact_schema_version, valid_run_modes, valid_run_statuses, valid_protocols,
  valid_fallback_tiers, terminal_event_types, run_status_complete, run_status_incomplete,
  run_status_corrupted,
}

unfoldable pub request_problems : Request → List Problem
request_problems r = flatten (
    adds_text (is_blank r.url) "url is required"
    ∷ adds_text (is_blank r.method) "method is required"
    ∷ adds_text (any {A = Header} (λ h. is_blank h.name) r.headers)
        "headers cannot contain an empty header name"
    ∷ [])

unfoldable pub event_problems : Event → List Problem
event_problems e = flatten (
    adds_text (leb_ℤ e.sequence (pos 0)) "sequence must be greater than 0"
    ∷ adds_text (ltb_ℤ e.t_ms (pos 0)) "t_ms cannot be negative"
    ∷ adds_text (ltb_ℤ e.sim_t_ms (pos 0)) "sim_t_ms cannot be negative"
    ∷ adds_text (is_blank e.type) "type is required"
    ∷ [])

unfoldable pub entity_problems : ExtractedEntity → List Problem
entity_problems e = flatten (
    adds_text (is_blank e.type) "type is required"
    ∷ adds_text (is_blank e.id) "id is required"
    ∷ [])

unfoldable pub scrub_report_problems : String → ScrubReport → List Problem
scrub_report_problems expected s = flatten (
    adds_text (is_blank s.scrub_policy_version) "scrub_policy_version is required"
    ∷ adds (not (str_eq expected "") && not (str_eq s.scrub_policy_version expected))
        (says "scrub_policy_version must match run scrub_policy_version %q" (text expected ∷ []))
    ∷ adds_text (is_blank s.session_salt_id) "session_salt_id is required"
    ∷ adds_text (any is_blank s.redacted_paths) "redacted_paths cannot contain empty values"
    ∷ adds_text (any is_blank s.detector_kinds) "detector_kinds cannot contain empty values"
    ∷ [])

unfoldable pub issue_problems : IntegrityIssue → List Problem
issue_problems i = flatten (
    adds_text (is_blank i.code) "code is required"
    ∷ adds_text (is_blank i.message) "message is required"
    ∷ adds_text (ltb_ℤ i.event_sequence (pos 0)) "event_sequence cannot be negative"
    ∷ [])

-- The loop over the events, with the last times and sequences and the sequences seen.
unfoldable pub events_problems : ℕ → List ℤ → ℤ → ℤ → ℤ → List Event → List Problem
events_problems idx seen last t sim [] = []
events_problems idx seen last t sim (e ∷ es) =
    map (item "events" idx) (
      flatten (
        adds (any (λ s. eqb_ℤ s e.sequence) seen)
          (says "sequence %d is duplicated" (number e.sequence ∷ []))
        ∷ adds_text (leb_ℤ e.sequence last) "sequence must be strictly increasing"
        ∷ adds_text (ltb_ℤ e.t_ms t) "t_ms must be non-decreasing"
        ∷ adds_text (ltb_ℤ e.sim_t_ms sim) "sim_t_ms must be non-decreasing"
        ∷ event_problems e
        ∷ []))
    ++ events_problems (suc idx) (e.sequence ∷ seen) e.sequence e.t_ms e.sim_t_ms es

-- Does the last event end the interaction? There is no last event of an empty list.
unfoldable pub ends_open : List Event → Bool
ends_open [] = false
ends_open (e ∷ []) = not (contains terminal_event_types e.type)
ends_open (e ∷ f ∷ es) = ends_open (f ∷ es)

unfoldable pub interaction_problems : String → String → Interaction → List Problem
interaction_problems run_id policy i = flatten (
    adds_text (is_blank i.run_id) "run_id is required"
    ∷ adds (not (str_eq run_id "") && not (str_eq i.run_id run_id))
        (says "run_id must match parent run_id %q" (text run_id ∷ []))
    ∷ adds_text (is_blank i.interaction_id) "interaction_id is required"
    ∷ adds_text
        (not (str_eq i.parent_interaction_id "") && str_eq i.parent_interaction_id i.interaction_id)
        "parent_interaction_id cannot equal interaction_id"
    ∷ adds_text (leb_ℤ i.sequence (pos 0)) "sequence must be greater than 0"
    ∷ adds_text (is_blank i.service) "service is required"
    ∷ adds_text (is_blank i.operation) "operation is required"
    ∷ adds (not (contains valid_protocols i.protocol))
        (says "protocol must be one of %q, %q, %q, %q, %q, %q" (map text valid_protocols))
    ∷ adds_text
        (not (str_eq i.fallback_tier "") && not (contains valid_fallback_tiers i.fallback_tier))
        "fallback_tier must be a valid fallback tier when set"
    ∷ adds_text (ltb_ℤ i.latency_ms (pos 0)) "latency_ms cannot be negative"
    ∷ map (within "request") (request_problems i.request)
    ∷ adds_text (is_empty i.events) "events must contain at least one event"
    ∷ events_problems 0 [] (pos 0) (negsuc 0) (negsuc 0) i.events
    ∷ adds (ends_open i.events) (
        says "events must end with a terminal event (%q, %q, %q, %q)"
          (map text terminal_event_types))
    ∷ item_problems "extracted_entities" entity_problems 0 i.extracted_entities
    ∷ map (within "scrub_report") (scrub_report_problems policy i.scrub_report)
    ∷ [])

-- The loop over the interactions, with the last sequence and the identifiers seen.
unfoldable pub interactions_problems :
    String → String → ℕ → List String → ℤ → List Interaction → List Problem
interactions_problems run_id policy idx seen last [] = []
interactions_problems run_id policy idx seen last (i ∷ is) =
    map (item "interactions" idx) (
      flatten (
        adds (contains seen i.interaction_id)
          (says "interaction_id %q is duplicated" (text i.interaction_id ∷ []))
        ∷ adds_text (leb_ℤ i.sequence last) "sequence must be strictly increasing"
        ∷ interaction_problems run_id policy i
        ∷ []))
    ++ interactions_problems run_id policy (suc idx) (i.interaction_id ∷ seen) i.sequence is

abbrev pub ended_early : Run → Bool
ended_early r = elim r.ended_at [
  | none ↦ false
  | some t ↦ not (is_zero r.started_at) && ltb t r.started_at
]

abbrev pub not_ended : Run → Bool
not_ended r = elim r.ended_at [ none ↦ true | some t ↦ is_zero t ]

abbrev pub unserializable : Codec → Option Fields → Bool
unserializable c none = false
unserializable c (some o) = elim (c.marshal o) [ none ↦ true | some t ↦ false ]

-- The problems that hang on the status.
unfoldable pub status_problems : Run → List Problem
status_problems r =
    if str_eq r.status run_status_complete
    then adds (not_ended r)
        (says "ended_at is required when status is %q" (text run_status_complete ∷ []))
      ++ adds (not (is_empty r.integrity_issues))
          (says "integrity_issues must be empty when status is %q" (text run_status_complete ∷ []))
    else adds
        ((str_eq r.status run_status_incomplete || str_eq r.status run_status_corrupted)
          && is_empty r.integrity_issues)
        (says "integrity_issues must contain at least one issue when status is %q"
          (text r.status ∷ []))

unfoldable pub run_problems : Codec → Run → List Problem
run_problems c r = flatten (
    adds (not (str_eq r.schema_version artifact_schema_version))
      (says "schema_version must be %q" (text artifact_schema_version ∷ []))
    ∷ adds_text (is_blank r.sdk_version) "sdk_version is required"
    ∷ adds_text (is_blank r.runtime_version) "runtime_version is required"
    ∷ adds_text (is_blank r.scrub_policy_version) "scrub_policy_version is required"
    ∷ adds_text (is_blank r.run_id) "run_id is required"
    ∷ adds_text (is_blank r.session_name) "session_name is required"
    ∷ adds (not (contains valid_run_modes r.mode))
        (says "mode must be one of %q, %q, %q, %q" (map text valid_run_modes))
    ∷ adds (not (contains valid_run_statuses r.status))
        (says "status must be one of %q, %q, %q" (map text valid_run_statuses))
    ∷ adds_text (is_zero r.started_at) "started_at is required"
    ∷ adds_text (ended_early r) "ended_at cannot be before started_at"
    ∷ adds_text (unserializable c r.metadata) "metadata must be JSON serializable: %v"
    ∷ status_problems r
    ∷ interactions_problems r.run_id r.scrub_policy_version 0 [] (pos 0) r.interactions
    ∷ item_problems "integrity_issues" issue_problems 0 r.integrity_issues
    ∷ [])
