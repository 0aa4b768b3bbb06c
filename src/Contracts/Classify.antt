-- ===== src/Contracts/Classify.antt =====
-- internal/analysis/contracts/generate.go: how an interaction is classified by its side effect. Where
-- the code ranges over a map, `range_order` gives the order it meets the fields in.
pub mod Verb
use staging_platform.Base.{
  ℕ, zero, suc, String, Bool, not, ◌&&◌, ◌||◌, Option, none, some, List, [], ◌∷◌, ltb, leb, str_eq,
  append_text, if◌then◌else◌, is_blank, trim_space, find, any,
}
use staging_platform.Json.{Value, Items, Fields, null, array, object, end, field, nil, cons}
use staging_platform.Recorder.{Interaction, Event, ScrubReport, contains}
use staging_platform.Standard.{Standard}
use staging_platform.Contracts.{
  valid_side_effects, side_effect_read, side_effect_write, side_effect_destructive,
  side_effect_financial, side_effect_external_message, side_effect_unknown, get_field,
  value_from_map, is_tool_call, tool_name_from_interaction,
}

pub record Classification : Type 0 where
  pub side_effect : String
  pub reason : String

pub record ClassificationOverride : Type 0 where
  pub tool : String
  pub side_effect : String
  pub reason : String

abbrev pub unclassified : Classification
unclassified = record { side_effect = ""; reason = "" }

-- `a` where it has a side effect, or else `b`
abbrev pub or_else : Classification → Classification → Classification
or_else a b = if str_eq a.side_effect "" then b else a

-- `riskRank`
unfoldable pub risk_rank : String → ℕ
risk_rank s =
    if str_eq s side_effect_read
    then 1
    else if str_eq s side_effect_write
    then 2
    else if str_eq s side_effect_external_message
    then 3
    else if str_eq s side_effect_financial
    then 4
    else if str_eq s side_effect_destructive
    then 5
    else if str_eq s side_effect_unknown
    then 6
    else 0

unfoldable pub higher_risk : String → String → String
higher_risk current candidate =
    if ltb (risk_rank current) (risk_rank candidate) then candidate else current

-- `requiresApproval`
unfoldable pub requires_approval : String → Bool
requires_approval s =
    str_eq s side_effect_financial
    || str_eq s side_effect_destructive
    || str_eq s side_effect_external_message
    || str_eq s side_effect_unknown

abbrev read_terms : List String
read_terms = "get" ∷ "lookup" ∷ "list" ∷ "find" ∷ "search" ∷ "fetch" ∷ "read" ∷ "retrieve" ∷ []

abbrev write_terms : List String
write_terms =
    "update" ∷ "create" ∷ "set" ∷ "assign" ∷ "add" ∷ "edit" ∷ "write" ∷ "upsert" ∷ "close" ∷ "open"
    ∷ []

abbrev known_sql_verbs : List String
known_sql_verbs =
    "SELECT" ∷ "SHOW" ∷ "DESCRIBE" ∷ "EXPLAIN" ∷ "INSERT" ∷ "UPDATE" ∷ "UPSERT" ∷ "DELETE" ∷ "DROP"
    ∷ "TRUNCATE" ∷ "ALTER" ∷ []

abbrev destructive_terms : List String
destructive_terms =
    "delete" ∷ "drop" ∷ "remove" ∷ "archive" ∷ "disable" ∷ "destroy" ∷ "truncate" ∷ "alter" ∷ []

abbrev financial_terms : List String
financial_terms = "refund" ∷ "charge" ∷ "payment" ∷ "invoice" ∷ "payout" ∷ "transfer" ∷ []

abbrev message_terms : List String
message_terms = "email" ∷ "sms" ∷ "message" ∷ "notify" ∷ "slack" ∷ "send" ∷ []

-- strings.HasPrefix, and what follows the prefix
abbrev pub drop_prefix : String → String → Option String
drop_prefix String.[] s = some s
drop_prefix (String.◌∷◌ c p) String.[] = none
drop_prefix (String.◌∷◌ c p) (String.◌∷◌ d s) =
    let rest = drop_prefix p s in if str_eq (String.◌∷◌ c "") (String.◌∷◌ d "") then rest else none

abbrev or_later : Option String → Option String → Option String
or_later (some s) later = some s
or_later none later = later

-- What follows the first place where the pattern stands (strings.Index).
unfoldable pub after_first : String → String → Option String
after_first p String.[] = drop_prefix p ""
after_first p (String.◌∷◌ d s) =
    let later = after_first p s in or_later (drop_prefix p (String.◌∷◌ d s)) later

unfoldable pub text_length : String → ℕ
text_length String.[] = 0
text_length (String.◌∷◌ c s) = suc (text_length s)

-- What follows a comment at the start of the query, or none where there is no comment.
pub data Comment : Type 0 where
  unclosed : Comment
  before : String → Comment
  absent : Comment

abbrev closed_by : Option String → Comment
closed_by none = unclosed
closed_by (some s) = before (trim_space s)

unfoldable pub skip_comment : String → Comment
skip_comment q = elim (drop_prefix "--" q) [
  | some rest ↦ closed_by (after_first "\n" q)
  | none ↦ elim (drop_prefix "/*" q) [ some rest ↦ closed_by (after_first "*/" q) | none ↦ absent ]
]

module _ (g : Standard) where
  abbrev first_or_empty : List String → String
  first_or_empty [] = ""
  first_or_empty (w ∷ ws) = w

  unfoldable pub first_word : String → String
  first_word value =
      if str_eq (trim_space value) "" then "" else first_or_empty (g.fields (trim_space value))

  -- The loop of `sqlVerb`, on fuel: none where it runs out.
  unfoldable pub sql_verb_within : ℕ → String → Option String
  unfolding skip_comment first_word
  sql_verb_within zero q = none
  sql_verb_within (suc fuel) q = elim (skip_comment q) [
    | unclosed ↦ some ""
    | before rest ↦ sql_verb_within fuel rest
    | absent ↦ some (first_word q)
  ]

  abbrev or_empty : Option String → String
  or_empty none = ""
  or_empty (some s) = s

  -- `sqlVerb`
  unfoldable pub sql_verb : String → String
  unfolding sql_verb_within
  sql_verb q = or_empty (sql_verb_within (suc (text_length (trim_space q))) (trim_space q))

  abbrev is_known_sql_verb : String → Bool
  is_known_sql_verb v = contains known_sql_verbs (g.to_upper (trim_space v))

  abbrev or_nested : Bool → String → String → String
  or_nested here value rest = if here then value else rest

  -- `stringFromNestedMap`: the value of the first field of the name, at any depth
  mutual
    pub string_from_nested_map : String → Value → String
    string_from_nested_map key (object o) = string_from_nested_fields key o
    string_from_nested_map key (array xs) = string_from_nested_items key xs
    string_from_nested_map key v = ""

    pub string_from_nested_fields : String → Fields → String
    string_from_nested_fields key end = ""
    string_from_nested_fields key (field k v fs) =
        let nested = string_from_nested_map key v in
        let rest = string_from_nested_fields key fs in
        if g.equal_fold k key
        then trim_space (g.sprint v)
        else if str_eq nested ""
        then rest
        else nested

    pub string_from_nested_items : String → Items → String
    string_from_nested_items key nil = ""
    string_from_nested_items key (cons v vs) =
        let nested = string_from_nested_map key v in
        let rest = string_from_nested_items key vs in if str_eq nested "" then rest else nested

  -- A call of `stringFromNestedMap`, in the order in which it ranges over the maps
  abbrev nested_string : String → Value → String
  nested_string key v = string_from_nested_map key (g.range_order key v)

  abbrev query_candidates : Interaction → List String
  query_candidates i =
      trim_space i.operation
      ∷ nested_string "query" i.request.body
      ∷ nested_string "sql" i.request.body
      ∷ nested_string "statement" i.request.body
      ∷ nested_string "command" i.request.body
      ∷ []

  abbrev value_or : String → Option String → String
  value_or d none = d
  value_or d (some s) = s

  unfoldable pub database_query_text : Interaction → String
  unfolding sql_verb
  database_query_text i =
      value_or (trim_space i.operation)
        (find (λ v. is_known_sql_verb (sql_verb v)) (query_candidates i))

  abbrev because : String → String → Classification
  because side_effect reason = record { side_effect = side_effect; reason = reason }

  unfoldable pub classify_database_operation : String → Classification
  unfolding sql_verb
  classify_database_operation query =
      let verb = g.to_upper (sql_verb query) in
      let reason = λ (kind : String).
        append_text "database operation " (append_text verb (append_text " classified as " kind)) in
      if contains ("SELECT" ∷ "SHOW" ∷ "DESCRIBE" ∷ "EXPLAIN" ∷ []) verb
      then because side_effect_read (reason "read")
      else if contains ("INSERT" ∷ "UPDATE" ∷ "UPSERT" ∷ []) verb
      then because side_effect_write (reason "write")
      else if contains ("DELETE" ∷ "DROP" ∷ "TRUNCATE" ∷ "ALTER" ∷ []) verb
      then because side_effect_destructive (reason "destructive")
      else because side_effect_unknown "database operation did not match known risk rules"

  -- strings.Join(words, " ")
  unfoldable pub join_words : List String → String
  join_words [] = ""
  join_words (w ∷ []) = w
  join_words (w ∷ v ∷ ws) = append_text w (append_text " " (join_words (v ∷ ws)))

  unfoldable pub scrubbed_query_snippet : Interaction → String → String
  unfolding join_words
  scrubbed_query_snippet i query =
      let words = join_words (g.fields query) in
      if is_blank i.scrub_report.scrub_policy_version || is_blank i.scrub_report.session_salt_id
      then ""
      else if leb (g.byte_length words) 120
      then words
      else append_text (g.first_bytes words 120) "..."

  unfoldable pub classify_database_interaction : Interaction → Classification
  unfolding database_query_text classify_database_operation scrubbed_query_snippet
  classify_database_interaction i =
      let query = database_query_text i in
      let c = classify_database_operation query in
      let snippet = scrubbed_query_snippet i query in
      if str_eq snippet "" then c else record c {
        reason = append_text c.reason (append_text "; scrubbed query snippet: " (g.quote snippet));
      }

  -- The first term that the text contains.
  abbrev term_risk : String → String → String → List String → Classification
  term_risk text side_effect kind terms = elim (find (g.includes text) terms) [
    | none ↦ unclassified
    | some term ↦
        because side_effect (
          append_text "endpoint contains " (append_text kind (append_text " term " (g.quote term))))
  ]

  unfoldable pub keyword_risk : String → Classification
  keyword_risk text =
      or_else (term_risk text side_effect_destructive "destructive" destructive_terms) (
        or_else (term_risk text side_effect_financial "financial" financial_terms)
          (term_risk text side_effect_external_message "external-message" message_terms))

  abbrev verb_risk : List String → Classification
  verb_risk [] = unclassified
  verb_risk (part ∷ parts) =
      let rest = verb_risk parts in
      if contains read_terms part
      then because side_effect_read (append_text "tool name contains read term " (g.quote part))
      else if contains write_terms part
      then because side_effect_write (append_text "tool name contains write term " (g.quote part))
      else rest

  -- `toolVerbRisk`
  unfoldable pub tool_verb_risk : String → Classification
  tool_verb_risk name =
      verb_risk
        (g.fields_at (g.to_lower (g.replace_all (g.replace_all name "-" "_") " " "_")) "_.:/")

  unfoldable pub classify_tool_name : String → Classification
  unfolding keyword_risk tool_verb_risk
  classify_tool_name name =
      let trimmed = trim_space name in
      let by_keyword = keyword_risk (g.to_lower trimmed) in
      if str_eq trimmed ""
      then because side_effect_unknown "tool has no side_effect metadata and no name to classify"
      else if not (str_eq by_keyword.side_effect "")
      then record by_keyword { reason = append_text "tool name " by_keyword.reason }
      else or_else (tool_verb_risk trimmed) (
          because side_effect_unknown
            "tool has no side_effect metadata and name did not match known risk rules")

  unfoldable pub normalized_http_method : Interaction → String
  unfolding first_word
  normalized_http_method i =
      let method = g.to_upper (trim_space i.request.method) in
      if str_eq method "" then g.to_upper (first_word i.operation) else method

  unfoldable pub classify_http_method : String → Classification
  classify_http_method method =
      let reason = λ (kind : String).
        append_text "HTTP method " (append_text method (append_text " classified as " kind)) in
      if contains ("GET" ∷ "HEAD" ∷ []) method
      then because side_effect_read (reason "read")
      else if str_eq method "OPTIONS"
      then because side_effect_read "HTTP method OPTIONS classified as safe read"
      else if str_eq method "DELETE"
      then because side_effect_destructive "HTTP method DELETE classified as destructive"
      else if contains ("POST" ∷ "PUT" ∷ "PATCH" ∷ []) method
      then because side_effect_write (reason "write")
      else unclassified

  abbrev declared : String → String
  declared candidate =
      if str_eq candidate ""
      then ""
      else if contains valid_side_effects candidate
      then candidate
      else side_effect_unknown

  -- `sideEffectFromValue`
  unfoldable pub side_effect_from_value : Value → String
  side_effect_from_value null = ""
  side_effect_from_value v = declared (trim_space (g.sprint v))

  abbrev event_value : Option Fields → Value
  event_value none = null
  event_value (some o) = get_field "side_effect" o

  -- The first event that declares a side effect.
  unfoldable pub events_side_effect : List Event → String
  unfolding side_effect_from_value
  events_side_effect [] = ""
  events_side_effect (e ∷ es) =
      let rest = events_side_effect es in
      let here = side_effect_from_value (event_value e.payload) in
      if str_eq here "" then rest else here

  -- The branch of `ClassifyInteraction` for a tool.
  unfoldable pub classify_tool : Interaction → Classification
  unfolding side_effect_from_value events_side_effect classify_tool_name
  classify_tool i =
      let in_body = side_effect_from_value (value_from_map i.request.body "side_effect") in
      let in_events = events_side_effect i.events in
      if not (str_eq in_body "")
      then because in_body (append_text "tool request body declares side_effect=" in_body)
      else if not (str_eq in_events "")
      then because in_events (append_text "tool event declares side_effect=" in_events)
      else classify_tool_name (tool_name_from_interaction g i)

  unfoldable pub infer_risk_from_text : String → Classification
  unfolding keyword_risk
  infer_risk_from_text value =
      or_else (keyword_risk (g.to_lower value))
        (because side_effect_unknown "text did not match known risk terms")

  -- The branch of `ClassifyInteraction` for HTTP.
  unfoldable pub classify_http : Interaction → Classification
  unfolding normalized_http_method classify_http_method keyword_risk infer_risk_from_text
  classify_http i =
      let method = normalized_http_method i in
      let text =
        g.to_lower (join_words (i.service ∷ i.operation ∷ i.request.method ∷ i.request.url ∷ [])) in
      if str_eq method "DELETE"
      then classify_http_method method
      else or_else (keyword_risk text) (
          or_else (classify_http_method method) (
            if is_blank i.request.method
            then infer_risk_from_text i.operation
            else because side_effect_unknown (
                append_text "HTTP method " (append_text method " did not match known risk rules"))))

  unfoldable pub classify_interaction : Interaction → Classification
  unfolding classify_tool classify_database_interaction classify_http
  classify_interaction i =
      if is_tool_call g i
      then classify_tool i
      else if g.equal_fold i.service "openai" || g.equal_fold i.service "anthropic"
      then because side_effect_read
          (append_text "service " (append_text i.service " is treated as model read"))
      else if str_eq i.protocol "postgres"
      then classify_database_interaction i
      else classify_http i

  -- `matchingClassificationOverride`
  unfoldable pub matching_override :
      Interaction → List ClassificationOverride → Option ClassificationOverride
  matching_override i overrides =
      if is_tool_call g i
      then find
          (λ o.
            g.equal_fold (trim_space o.tool) (tool_name_from_interaction g i)
            && not (str_eq o.side_effect ""))
          overrides
      else none

  -- `ClassifyInteractionWithOverrides`
  unfoldable pub classify_with_overrides :
      Interaction → List ClassificationOverride → Classification
  unfolding matching_override classify_interaction
  classify_with_overrides i overrides = elim (matching_override i overrides) [
    | none ↦ classify_interaction i
    | some o ↦ because o.side_effect (
        if is_blank o.reason
        then append_text "config classification.tool_overrides declares side_effect=" o.side_effect
        else trim_space o.reason)
  ]
