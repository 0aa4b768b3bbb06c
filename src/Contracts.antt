-- ===== src/Contracts.antt =====
-- internal/analysis/contracts: behavior contracts. This file is schema.go's data and the selector of
-- an interaction (generate.go). The string types of Go are texts here.
pub mod Schema
pub mod Classify
pub mod Generate
pub mod Enforce
pub mod Compare
pub mod Risk
use staging_platform.Base.{
  ℕ, String, Bool, not, ◌&&◌, ◌||◌, Option, none, some, List, [], ◌∷◌, str_eq, append_text,
  if◌then◌else◌, is_blank, trim_space, any,
}
use staging_platform.Json.{Value, Fields, null, bool, number, text, array, object, end, field}
use staging_platform.Recorder.{Interaction}
use staging_platform.Standard.{Standard}

abbrev pub schema_version : String
schema_version = "v1alpha1"

abbrev pub side_effect_read : String
side_effect_read = "read"

abbrev pub side_effect_write : String
side_effect_write = "write"

abbrev pub side_effect_destructive : String
side_effect_destructive = "destructive"

abbrev pub side_effect_financial : String
side_effect_financial = "financial"

abbrev pub side_effect_external_message : String
side_effect_external_message = "external_message"

abbrev pub side_effect_unknown : String
side_effect_unknown = "unknown"

abbrev pub valid_side_effects : List String
valid_side_effects =
    side_effect_read ∷ side_effect_write ∷ side_effect_destructive ∷ side_effect_financial
    ∷ side_effect_external_message ∷ side_effect_unknown ∷ []

abbrev pub valid_approval_sources : List String
valid_approval_sources = "human" ∷ "system" ∷ "external" ∷ []

pub record ApprovalRequirement : Type 0 where
  pub source : String
  pub role : String
  pub evidence_path : String

pub record Action (F : Type 0) : Type 0 where
  pub service : String
  pub operation : String
  pub tool : String
  pub side_effect : String
  pub classifier_reason : String
  pub allowed_fallback_tiers : List String
  pub requires_approval : Bool
  pub approval : Option ApprovalRequirement
  pub max_amount : Option F
  pub reason : String

pub record ActionSelector : Type 0 where
  pub service : String
  pub operation : String
  pub tool : String

pub record UserOverride (F : Type 0) : Type 0 where
  pub id : String
  pub match : ActionSelector
  pub side_effect : String
  pub allowed_fallback_tiers : List String
  pub requires_approval : Option Bool
  pub max_amount : Option F
  pub reason : String
  pub approved_by : String
  pub approved_at : String

pub record Agent : Type 0 where
  pub name : String
  pub models : List String

-- `File`
pub record Contract (F : Type 0) : Type 0 where
  pub schema_version : String
  pub agent : Agent
  pub allowed_actions : List (Action F)
  pub restricted_actions : List (Action F)
  pub forbidden_actions : List (Action F)
  pub user_overrides : List (UserOverride F)

-- `object[key]`, nil where there is no such key
unfoldable pub get_field : String → Fields → Value
get_field key end = null
get_field key (field k v fs) = let rest = get_field key fs in if str_eq k key then v else rest

-- `valueFromMap`
unfoldable pub value_from_map : Value → String → Value
value_from_map (object o) key = get_field key o
value_from_map v key = null

module _ (g : Standard) where
  abbrev sprint_set : Value → String
  sprint_set null = ""
  sprint_set v = trim_space (g.sprint v)

  unfoldable pub string_from_map : Value → String → String
  unfolding value_from_map
  string_from_map value key = sprint_set (value_from_map value key)

  abbrev pub is_tool_call : Interaction → Bool
  is_tool_call i = str_eq i.protocol "tool" || str_eq i.service "stagehand.tool"

  unfoldable pub tool_name_from_interaction : Interaction → String
  unfolding string_from_map
  tool_name_from_interaction i =
      if str_eq (trim_space i.operation) ""
      then string_from_map i.request.body "name"
      else trim_space i.operation

  -- `selectorFromInteraction`
  unfoldable pub selector_from_interaction : Interaction → Option ActionSelector
  unfolding tool_name_from_interaction
  selector_from_interaction i =
      let tool = tool_name_from_interaction i in
      let service = trim_space i.service in
      let operation = trim_space i.operation in
      if is_tool_call i
      then (if str_eq tool ""
          then none
          else some (record { service = ""; operation = ""; tool = tool }))
      else if str_eq service "" || str_eq operation ""
      then none
      else some (record { service = service; operation = operation; tool = "" })

unfoldable pub selector_key : ActionSelector → String
selector_key s =
    if is_blank s.tool
    then append_text "service:"
        (append_text (trim_space s.service) (append_text "\noperation:" (trim_space s.operation)))
    else append_text "tool:" (trim_space s.tool)

abbrev pub action_selector : {F : Type 0} → Action F → ActionSelector
action_selector a = record { service = a.service; operation = a.operation; tool = a.tool }

-- Is there an action with the key?
abbrev pub is_listed : {F : Type 0} → String → List (Action F) → Bool
is_listed key as' = any (λ a. str_eq (selector_key (action_selector a)) key) as'
