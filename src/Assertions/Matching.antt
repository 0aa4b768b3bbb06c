-- ===== src/Assertions/Matching.antt =====
-- internal/analysis/assertions/evaluate.go: which interactions an assertion is about. Where the code
-- ranges over a map, the order of the fields stands for the order it meets them in.
use staging_platform.Base.{
  String, Bool, true, false, not, ◌&&◌, ◌||◌, Option, none, some, List, [], ◌∷◌, keep, any, map,
  str_eq, append_text, if◌then◌else◌, is_blank, trim_space,
}
use staging_platform.Json.{Value, Items, Fields, null, array, object, end, field, nil, cons}
use staging_platform.Recorder.{Run, Interaction, Event, contains}
use staging_platform.Standard.{Standard}
use staging_platform.Contracts.{side_effect_unknown}
use staging_platform.Contracts.Classify.{classify_interaction, after_first}
use staging_platform.Contracts.Generate.{find_numeric_field}
use staging_platform.Contracts.Enforce.{has_approval_evidence, of_map}

pub record Selection (F : Type 0) : Type 0 where
  pub service : String
  pub operation : String
  pub tool : String
  pub interaction_id : String
  pub event_type : String
  pub fallback_tier : String
  pub side_effect : String
  pub destination_type : String
  pub amount_gt : Option F
  pub approval_missing : Option Bool
  pub channel : String
  pub channel_not_in : List String
  pub domain : String
  pub domain_not_in : List String
  pub new_action : Option Bool
  pub unknown_risk : Option Bool

unfoldable pub action_key : Interaction → String
action_key i =
    if str_eq (trim_space i.service) "stagehand.tool"
    then append_text "tool:" i.operation
    else append_text "service:" (append_text i.service (append_text "\noperation:" i.operation))

-- `newEvaluationContext`: the keys of the base run's actions; none where there is no base run.
unfoldable pub base_action_keys : Option Run → List String
unfolding action_key
base_action_keys none = []
base_action_keys (some run) = map action_key run.interactions

unfoldable pub normalize_tool_match : {F : Type 0} → Selection F → Selection F
normalize_tool_match m =
    if is_blank m.tool
    then m
    else record m { service = "stagehand.tool"; operation = trim_space m.tool }

-- A condition that is not set always holds.
abbrev pub if_set : String → Bool → Bool
if_set wanted test = str_eq wanted "" || test

abbrev same : Bool → Bool → Bool
same true b = b
same false b = not b

abbrev pub if_some : Option Bool → Bool → Bool
if_some none test = true
if_some (some wanted) test = same wanted test

module _ (g : Standard) where
  unfoldable pub string_from_any : Value → String
  string_from_any null = ""
  string_from_any v = trim_space (g.sprint v)

  abbrev own_string : Value → String
  own_string (object o) = ""
  own_string (array xs) = ""
  own_string v = string_from_any v

  abbrev or_text : String → String → String
  or_text first next = if str_eq first "" then next else first

  -- The first loop of `nestedStringField`: the fields of the name themselves.
  unfoldable pub shallow_string_field : String → Fields → String
  unfolding string_from_any
  shallow_string_field key end = ""
  shallow_string_field key (field k v fs) =
      let rest = shallow_string_field key fs in
      if g.equal_fold k key then or_text (own_string v) rest else rest

  mutual
    unfolding shallow_string_field

    pub nested_string_field : String → Value → String
    nested_string_field key (object o) =
        or_text (shallow_string_field key o) (nested_string_fields key o)
    nested_string_field key (array xs) = nested_string_items key xs
    nested_string_field key v = ""

    nested_string_fields : String → Fields → String
    nested_string_fields key end = ""
    nested_string_fields key (field k v fs) =
        or_text (nested_string_field key v) (nested_string_fields key fs)

    nested_string_items : String → Items → String
    nested_string_items key nil = ""
    nested_string_items key (cons v vs) =
        or_text (nested_string_field key v) (nested_string_items key vs)

  abbrev first_of : List String → Value → String
  first_of [] v = ""
  first_of (key ∷ keys) v = or_text (nested_string_field key v) (first_of keys v)

  abbrev first_in_events : List String → List Event → String
  first_in_events keys [] = ""
  first_in_events keys (e ∷ es) =
      or_text (first_of keys (of_map g e.payload)) (first_in_events keys es)

  unfoldable pub observed_string : Interaction → List String → String
  unfolding nested_string_field
  observed_string i keys = or_text (first_of keys i.request.body) (first_in_events keys i.events)

  unfoldable pub string_in_set : String → List String → Bool
  string_in_set value set =
      let wanted = g.to_lower (trim_space value) in
      not (str_eq wanted "") && any (λ item. str_eq (g.to_lower (trim_space item)) wanted) set

  unfoldable pub interaction_has_event_type : Interaction → String → Bool
  interaction_has_event_type i type = any (λ (e : Event). str_eq e.type type) i.events

  unfoldable pub interaction_has_approval_evidence : Interaction → Bool
  interaction_has_approval_evidence i =
      has_approval_evidence g i.request.body
      || any (λ (e : Event). has_approval_evidence g (of_map g e.payload)) i.events

  abbrev pub exceeds : Option g.Float → Option g.Float → Bool
  exceeds none observed = true
  exceeds (some limit) none = false
  exceeds (some limit) (some amount) = not (g.is_at_most amount limit)

  abbrev or_whole : String → Option String → String
  or_whole s none = s
  or_whole s (some t) = t

  -- What stands before the first of the marks.
  abbrev before_any : List String → String → String
  before_any marks String.[] = ""
  before_any marks (String.◌∷◌ c s) =
      let rest = before_any marks s in
      if contains marks (String.◌∷◌ c "") then "" else String.◌∷◌ c rest

  -- `hostFromURL`, the argument that the assertions below are given.
  unfoldable pub url_host : String → String
  unfolding after_first
  url_host raw =
      let whole = trim_space raw in
      let without_scheme = or_whole whole (after_first "://" whole) in
      let authority = before_any ("/" ∷ "?" ∷ "#" ∷ []) without_scheme in
      g.to_lower
        (trim_space (before_any (":" ∷ []) (or_whole authority (after_first "@" authority))))

  module _ (host_from_url : String → String) where
    unfoldable pub observed_domain : Interaction → String
    unfolding observed_string
    observed_domain i =
        or_text (observed_string i ("domain" ∷ "destination_domain" ∷ "destinationDomain" ∷ []))
          (host_from_url i.request.url)

    abbrev is_unknown : Interaction → Bool
    is_unknown i = str_eq (classify_interaction g i).side_effect side_effect_unknown

    unfoldable pub interaction_matches : List String → Selection g.Float → Interaction → Bool
    unfolding normalize_tool_match interaction_has_event_type interaction_has_approval_evidence
        observed_domain string_in_set action_key
    interaction_matches base_keys selection i =
        let m = normalize_tool_match selection in
        if_set m.service (str_eq i.service m.service)
        && if_set m.operation (str_eq i.operation m.operation)
        && if_set m.interaction_id (str_eq i.interaction_id m.interaction_id)
        && if_set m.fallback_tier (str_eq i.fallback_tier m.fallback_tier)
        && if_set m.event_type (interaction_has_event_type i m.event_type)
        && if_set m.side_effect (str_eq (classify_interaction g i).side_effect m.side_effect)
        && if_some m.unknown_risk (is_unknown i)
        && exceeds m.amount_gt (find_numeric_field g "amount" i.request.body)
        && if_some m.approval_missing (not (interaction_has_approval_evidence i))
        && if_set m.destination_type (
            str_eq (observed_string i ("destination_type" ∷ "destinationType" ∷ []))
              m.destination_type)
        && if_set m.channel (str_eq (observed_string i ("channel" ∷ [])) m.channel)
        && not (string_in_set (observed_string i ("channel" ∷ [])) m.channel_not_in)
        && if_set m.domain (str_eq (observed_domain i) m.domain)
        && not (string_in_set (observed_domain i) m.domain_not_in)
        && if_some m.new_action (not (contains base_keys (action_key i)))

    unfoldable pub matching_interactions :
        List String → Selection g.Float → List Interaction → List Interaction
    matching_interactions base_keys selection is = keep (interaction_matches base_keys selection) is
