-- ===== src/Recorder.antt =====
-- internal/recorder/schema.go: the recorded run, and what a string type of it may hold. The string
-- types of Go are texts here, with the source's constants.
pub mod Validation
pub mod WellFormed
use staging_platform.Base.{String, Bool, Option, List, [], ◌∷◌, str_eq, any}
use staging_platform.Base.Int.{ℤ}
use staging_platform.Json.{Value, Fields}
use staging_platform.Store.Records.{Time}

abbrev pub artifact_schema_version : String
artifact_schema_version = "v1alpha1"

abbrev pub run_status_complete : String
run_status_complete = "complete"

abbrev pub run_status_incomplete : String
run_status_incomplete = "incomplete"

abbrev pub run_status_corrupted : String
run_status_corrupted = "corrupted"

abbrev pub valid_run_modes : List String
valid_run_modes = "record" ∷ "replay" ∷ "hybrid" ∷ "passthrough" ∷ []

abbrev pub valid_run_statuses : List String
valid_run_statuses = run_status_complete ∷ run_status_incomplete ∷ run_status_corrupted ∷ []

abbrev pub valid_protocols : List String
valid_protocols = "http" ∷ "https" ∷ "sse" ∷ "websocket" ∷ "postgres" ∷ "tool" ∷ []

abbrev pub tier_exact : String
tier_exact = "exact"

abbrev pub tier_nearest_neighbor : String
tier_nearest_neighbor = "nearest_neighbor"

abbrev pub tier_state_synthesis : String
tier_state_synthesis = "state_synthesis"

abbrev pub tier_llm_synthesis : String
tier_llm_synthesis = "llm_synthesis"

abbrev pub valid_fallback_tiers : List String
valid_fallback_tiers =
    tier_exact ∷ tier_nearest_neighbor ∷ tier_state_synthesis ∷ tier_llm_synthesis ∷ []

abbrev pub terminal_event_types : List String
terminal_event_types = "response_received" ∷ "error" ∷ "timeout" ∷ "stream_end" ∷ []

-- `slices.Contains`
abbrev pub contains : List String → String → Bool
contains xs x = any (λ y. str_eq y x) xs

-- One name of `map[string][]string`, with its values.
pub record Header : Type 0 where
  pub name : String
  pub values : List String

pub record Request : Type 0 where
  pub url : String
  pub method : String
  pub headers : List Header
  pub body : Value

pub record Event : Type 0 where
  pub sequence : ℤ
  pub t_ms : ℤ
  pub sim_t_ms : ℤ
  pub type : String
  pub payload : Option Fields
  pub nested_interaction_id : String

pub record ExtractedEntity : Type 0 where
  pub type : String
  pub id : String
  pub attrs : Option Fields

pub record ScrubReport : Type 0 where
  pub redacted_paths : List String
  pub detector_kinds : List String
  pub scrub_policy_version : String
  pub session_salt_id : String

pub record IntegrityIssue : Type 0 where
  pub code : String
  pub message : String
  pub interaction_id : String
  pub event_sequence : ℤ

pub record Interaction : Type 0 where
  pub run_id : String
  pub interaction_id : String
  pub parent_interaction_id : String
  pub sequence : ℤ
  pub service : String
  pub operation : String
  pub protocol : String
  pub streaming : Bool
  pub fallback_tier : String
  pub fallback_reason : String
  pub request : Request
  pub events : List Event
  pub extracted_entities : List ExtractedEntity
  pub scrub_report : ScrubReport
  pub latency_ms : ℤ

pub record Run : Type 0 where
  pub schema_version : String
  pub sdk_version : String
  pub runtime_version : String
  pub scrub_policy_version : String
  pub run_id : String
  pub session_name : String
  pub mode : String
  pub status : String
  pub base_snapshot_id : String
  pub agent_version : String
  pub git_sha : String
  pub started_at : Time
  pub ended_at : Option Time
  pub metadata : Option Fields
  pub interactions : List Interaction
  pub integrity_issues : List IntegrityIssue

-- `ReplayEligible`
abbrev pub replay_eligible : Run → Bool
replay_eligible r = str_eq r.status run_status_complete
