-- ===== src/Runtime/Fallback/Requests.antt =====
-- internal/runtime/fallback/matcher.go: a request by its key, its query, its headers and the values
-- of its body. Lists that the code sorts at the end are gathered in the order of the fields.
use staging_platform.Base.{
  ℕ, suc, String, Bool, false, ◌||◌, Option, none, some, List, [], ◌∷◌, ◌++◌, map, str_eq,
  append_text, if◌then◌else◌, trim_space,
}
use staging_platform.Base.Int.{pos}
use staging_platform.Base.Order.{text_le}
use staging_platform.Base.Sorting.{sort_by}
use staging_platform.Json.{
  Value, Items, Fields, null, bool, number, text, array, object, end, field, nil, cons,
}
use staging_platform.Recorder.{Interaction, Header, contains}
use staging_platform.Standard.{Standard, Net}

-- What follows the last dot, if there is one, and what stands before the first bracket.
abbrev or_self : String → Option String → String
or_self s none = s
or_self s (some t) = t

abbrev last_part : String → Option String
last_part String.[] = none
last_part (String.◌∷◌ c s) =
    let rest = last_part s in
    elim rest [ some t ↦ some t | none ↦ if str_eq (String.◌∷◌ c "") "." then some s else none ]

abbrev before_bracket : String → String
before_bracket String.[] = ""
before_bracket (String.◌∷◌ c s) =
    let rest = before_bracket s in if str_eq (String.◌∷◌ c "") "[" then "" else String.◌∷◌ c rest

unfoldable pub field_name : String → String
field_name path = before_bracket (or_self path (last_part path))

abbrev pub join_path : String → String → String
join_path prefix key = if str_eq prefix "" then key else append_text prefix (append_text "." key)

module _ (g : Standard) (net : Net Header) where
  unfoldable pub request_path : String → String
  request_path raw = elim (net.parse_url raw) [
    | none ↦ trim_space raw
    | some u ↦ append_text (g.to_lower (net.host u)) (net.escaped_path u)
  ]

  abbrev sorted_header : Header → Header
  sorted_header h = record h { values = sort_by text_le h.values }

  unfoldable pub sorted_query : List Header → String
  sorted_query [] = ""
  sorted_query (v ∷ vs) =
      net.encode_query
        (sort_by (λ (a b : Header). text_le a.name b.name) (map sorted_header (v ∷ vs)))

  unfoldable pub normalized_url : String → String
  unfolding sorted_query
  normalized_url raw = elim (net.parse_url raw) [
    | none ↦ trim_space raw
    | some u ↦
        net.url_text u (g.to_lower (net.scheme u)) (g.to_lower (net.host u))
          (sorted_query (net.query u))
  ]

  unfoldable pub canonical_json : Value → String
  canonical_json null = "null"
  canonical_json v = g.marshal v

  -- strings.Join(parts, "\x00")
  unfoldable pub exact_request_key : Interaction → String
  unfolding normalized_url canonical_json
  exact_request_key i = append_text i.service (
      append_text "\0" (
        append_text i.operation (
          append_text "\0" (
            append_text i.protocol (
              append_text "\0" (
                append_text (g.to_upper i.request.method) (
                  append_text "\0" (
                    append_text (normalized_url i.request.url)
                      (append_text "\0" (canonical_json i.request.body))))))))))

  unfoldable pub is_timestamp_like : String → Bool
  is_timestamp_like value =
      net.is_iso_date_like (trim_space value)
      || net.is_unix_seconds (trim_space value)
      || net.is_unix_millis (trim_space value)

  abbrev mutable_names : List String
  mutable_names =
      "request_id" ∷ "trace_id" ∷ "correlation_id" ∷ "idempotency_key" ∷ "cursor" ∷ "next_cursor"
      ∷ "page_token" ∷ "pagination_token" ∷ "starting_after" ∷ "ending_before" ∷ "created_at"
      ∷ "updated_at" ∷ "generated_at" ∷ "timestamp" ∷ "time" ∷ []

  abbrev is_timestamp_value : Value → Bool
  is_timestamp_value (text t) = is_timestamp_like t
  is_timestamp_value v = false

  unfoldable pub is_mutable_request_field : String → Value → Bool
  unfolding is_timestamp_like
  is_mutable_request_field name v =
      contains mutable_names (g.replace_all (g.to_lower (trim_space name)) "-" "_")
      || is_timestamp_value v

  unfoldable pub is_mutable_header : String → Bool
  is_mutable_header name =
      contains
        ("x-request-id" ∷ "x-trace-id" ∷ "x-correlation-id" ∷ "idempotency-key" ∷ "date" ∷ [])
        (g.to_lower (trim_space name))

  -- The entries of one name of a query, without those that change from request to request.
  abbrev entry_parts : String → List String → List String
  entry_parts key [] = []
  entry_parts key (v ∷ vs) =
      let rest = entry_parts key vs in
      if is_mutable_request_field key (text v)
      then rest
      else append_text key (append_text "=" v) ∷ rest

  abbrev all_entries : List Header → List String
  all_entries [] = []
  all_entries (h ∷ hs) = entry_parts h.name h.values ++ all_entries hs

  unfoldable pub query_parts : String → List String
  unfolding is_mutable_request_field
  query_parts raw = elim (net.parse_url raw) [
    | none ↦ []
    | some u ↦ sort_by text_le (all_entries (net.query u))
  ]

  abbrev is_ignored_header : String → Bool
  is_ignored_header key =
      contains ("authorization" ∷ "cookie" ∷ "set-cookie" ∷ []) key || is_mutable_header key

  abbrev one_header : Header → List String
  one_header h =
      let key = g.to_lower (trim_space h.name) in
      if is_ignored_header key
      then []
      else map (λ v. append_text key (append_text "=" (trim_space v))) h.values

  abbrev all_headers : List Header → List String
  all_headers [] = []
  all_headers (h ∷ hs) = one_header h ++ all_headers hs

  unfoldable pub header_parts : List Header → List String
  unfolding is_mutable_header
  header_parts headers = sort_by text_le (all_headers headers)

  abbrev leaf_part : String → Value → List String
  leaf_part path v =
      if is_mutable_request_field (field_name path) v
      then []
      else append_text path (append_text "=" (canonical_json v)) ∷ []

  mutual
    unfolding field_name is_mutable_request_field canonical_json

    pub flatten_value : String → Value → List String
    flatten_value path (object o) = flatten_fields path o
    flatten_value path (array xs) = flatten_items path 0 xs
    flatten_value path null = leaf_part path null
    flatten_value path (bool b) = leaf_part path (bool b)
    flatten_value path (number n) = leaf_part path (number n)
    flatten_value path (text t) = leaf_part path (text t)

    pub flatten_fields : String → Fields → List String
    flatten_fields path end = []
    flatten_fields path (field k v fs) =
        flatten_value (join_path path k) v ++ flatten_fields path fs

    pub flatten_items : String → ℕ → Items → List String
    flatten_items path idx nil = []
    flatten_items path idx (cons v vs) =
        flatten_value
          (append_text path (append_text "[" (append_text (g.sprint_int (pos idx)) "]"))) v
        ++ flatten_items path (suc idx) vs

  unfoldable pub flattened_value_set : Value → List String
  unfolding flatten_value
  flattened_value_set null = []
  flattened_value_set v = sort_by text_le (flatten_value "" v)
