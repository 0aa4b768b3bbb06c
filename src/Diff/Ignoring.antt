-- ===== src/Diff/Ignoring.antt =====
-- internal/analysis/diff/diff.go: the fields that a comparison ignores. A set of fields is a list of
-- texts, each once.
use staging_platform.Base.{
  ℕ, suc, zero, ◌+◌, ◌*◌, String, Bool, true, false, not, ◌&&◌, ◌||◌, Option, none, some, List, [],
  ◌∷◌, ◌++◌, map, keep, str_eq, append_text, if◌then◌else◌, is_blank, trim_space,
}
use staging_platform.Base.Order.{text_le}
use staging_platform.Base.Sorting.{sort_by}
use staging_platform.Base.Problems.{is_empty}
use staging_platform.Json.{Value, Items, Fields, text, array, object, end, field, nil, cons}
use staging_platform.Recorder.{Interaction, Header, contains}
use staging_platform.Standard.{Standard, Net}
use staging_platform.Contracts.{get_field}
use staging_platform.Contracts.Classify.{drop_prefix}
use staging_platform.Contracts.Generate.{add_text}

pub record ServiceIgnoredFields : Type 0 where
  pub service : String
  pub request_paths : List String
  pub response_paths : List String

pub record ServiceIgnored : Type 0 where
  pub service : String
  pub fields : List String

-- strings.TrimPrefix, strings.HasPrefix
abbrev or_whole : String → Option String → String
or_whole s none = s
or_whole s (some t) = t

abbrev pub trim_prefix : String → String → String
trim_prefix prefix s = or_whole s (drop_prefix prefix s)

abbrev is_there : Option String → Bool
is_there none = false
is_there (some t) = true

abbrev pub has_prefix : String → String → Bool
has_prefix prefix s = is_there (drop_prefix prefix s)

abbrev pub add_all : List String → List String → List String
add_all set [] = set
add_all set (x ∷ xs) = add_all (add_text set x) xs

abbrev always_ignored : List String
always_ignored =
    "run_id" ∷ "interaction_id" ∷ "sequence" ∷ "fallback_tier" ∷ "fallback_reason" ∷ "latency_ms"
    ∷ "events[*].t_ms" ∷ "events[*].sim_t_ms" ∷ "scrub_report.detector_kinds"
    ∷ "scrub_report.redacted_paths" ∷ "scrub_report.session_salt_id" ∷ []

abbrev cleaned : String → String
cleaned f = trim_prefix "." (trim_prefix "$." (trim_space f))

-- What one field of the options adds.
abbrev ignoring : String → List String
ignoring f =
    if str_eq f ""
    then []
    else if has_prefix "response." f
    then f ∷ append_text "events[*].data." (trim_prefix "response." f) ∷ []
    else f ∷ []

abbrev ignored_of : List String → List String → List String
ignored_of set [] = set
ignored_of set (f ∷ fs) = ignored_of (add_all set (ignoring (cleaned f))) fs

unfoldable pub normalize_ignored_fields : List String → List String
normalize_ignored_fields fs = ignored_of always_ignored fs

unfoldable pub normalize_relative_ignore_path : String → String → String
normalize_relative_ignore_path raw prefix =
    let path = cleaned raw in
    if str_eq path ""
    then ""
    else if has_prefix (append_text prefix ".") path || str_eq path prefix
    then path
    else if str_eq prefix "request" && has_prefix "response." path
    then path
    else if str_eq prefix "response" && has_prefix "request." path
    then path
    else append_text prefix (append_text "." path)

abbrev not_empty : String → Bool
not_empty s = not (str_eq s "")

abbrev diff_fields : ServiceIgnoredFields → List String
diff_fields s =
    keep not_empty (map (λ p. normalize_relative_ignore_path p "request") s.request_paths)
    ++ keep not_empty (map (λ p. normalize_relative_ignore_path p "response") s.response_paths)

unfoldable pub normalize_service_ignored_fields : List ServiceIgnoredFields → List ServiceIgnored
unfolding normalize_relative_ignore_path normalize_ignored_fields
normalize_service_ignored_fields [] = []
normalize_service_ignored_fields (s ∷ ss) =
    let rest = normalize_service_ignored_fields ss in
    if is_blank s.service || is_empty (diff_fields s)
    then rest
    else record {
      service = trim_space s.service;
      fields = normalize_ignored_fields (diff_fields s);
    }
      ∷ rest

abbrev fields_of : String → List ServiceIgnored → List String
fields_of service [] = []
fields_of service (s ∷ ss) =
    let rest = fields_of service ss in if str_eq s.service service then s.fields else rest

unfoldable pub ignored_for_interaction :
    Interaction → List String → List ServiceIgnored → List String
ignored_for_interaction i global services = add_all global (fields_of i.service services)

-- The parts of one piece of a path: names, and what stands in brackets.
mutual
  pub outside : String → String → List String
  outside acc String.[] = if str_eq acc "" then [] else acc ∷ []
  outside acc (String.◌∷◌ c s) =
      let opened = inside "" s in
      let rest = outside (append_text acc (String.◌∷◌ c "")) s in
      if str_eq (String.◌∷◌ c "") "["
      then (if str_eq acc "" then opened else acc ∷ opened)
      else rest

  inside : String → String → List String
  inside acc String.[] = append_text "[" acc ∷ []
  inside acc (String.◌∷◌ c s) =
      let closed = outside "" s in
      let rest = inside (append_text acc (String.◌∷◌ c "")) s in
      if str_eq (String.◌∷◌ c "") "]" then acc ∷ closed else rest

abbrev digits : List String
digits = "0" ∷ "1" ∷ "2" ∷ "3" ∷ "4" ∷ "5" ∷ "6" ∷ "7" ∷ "8" ∷ "9" ∷ []

abbrev index_in : ℕ → String → List String → Option ℕ
index_in n d [] = none
index_in n d (e ∷ es) = let rest = index_in (suc n) d es in if str_eq d e then some n else rest

abbrev more_digits : ℕ → String → Option ℕ
more_digits n String.[] = some n
more_digits n (String.◌∷◌ c s) = elim (index_in 0 (String.◌∷◌ c "") digits) [
  | none ↦ none
  | some d ↦ more_digits (n * 10 + d) s
]

unfoldable pub parse_array_index : String → Option ℕ
parse_array_index s = if str_eq s "" then none else more_digits 0 s

abbrev delete_field : String → Fields → Fields
delete_field key end = end
delete_field key (field k v fs) =
    let rest = delete_field key fs in if str_eq k key then rest else field k v rest

-- `removePath`
mutual
  unfolding parse_array_index

  pub remove_path : List String → Value → Value
  remove_path [] v = v
  remove_path (part ∷ parts) (array xs) =
      let each = remove_from_all parts xs in
      let kept = remove_from_all (part ∷ parts) xs in
      array (
        if str_eq part "*"
        then each
        else elim (parse_array_index part) [ some n ↦ remove_at n parts xs | none ↦ kept ])
  remove_path (part ∷ []) (object o) = object (delete_field part o)
  remove_path (part ∷ next ∷ parts) (object o) = object (remove_below part (next ∷ parts) o)
  remove_path (part ∷ parts) v = v

  remove_from_all : List String → Items → Items
  remove_from_all parts nil = nil
  remove_from_all parts (cons v vs) = cons (remove_path parts v) (remove_from_all parts vs)

  remove_at : ℕ → List String → Items → Items
  remove_at n parts nil = nil
  remove_at zero parts (cons v vs) = cons (remove_path parts v) vs
  remove_at (suc n) parts (cons v vs) = cons v (remove_at n parts vs)

  remove_below : String → List String → Fields → Fields
  remove_below key parts end = end
  remove_below key parts (field k v fs) =
      let changed = remove_path parts v in
      let rest = remove_below key parts fs in
      if str_eq k key then field k changed fs else field k v rest

abbrev set_field : String → Value → Fields → Fields
set_field key w end = end
set_field key w (field k v fs) =
    let rest = set_field key w fs in if str_eq k key then field k w fs else field k v rest

module _ (g : Standard) (net : Net Header) where
  abbrev pieces : List String → List String
  pieces [] = []
  pieces (raw ∷ raws) = outside "" raw ++ pieces raws

  unfoldable pub split_ignore_path : String → List String
  unfolding outside
  split_ignore_path path = pieces (g.split path ".")

  unfoldable pub remove_ignored_fields : List String → Value → Value
  unfolding split_ignore_path remove_path
  remove_ignored_fields [] v = v
  remove_ignored_fields (path ∷ paths) v =
      remove_ignored_fields paths (remove_path (split_ignore_path path) v)

  abbrev bare : String → String
  bare f = trim_prefix "request." (trim_prefix "." (trim_prefix "$." f))

  unfoldable pub ignored_query_keys : List String → List String
  ignored_query_keys ignored =
      map (λ f. g.to_lower (trim_prefix "query." (bare f)))
        (keep (λ f. has_prefix "query." (bare f) && not (str_eq (bare f) "query.")) ignored)

  abbrev sorted_header : Header → Header
  sorted_header h = record h { values = sort_by text_le h.values }

  -- The query without the ignored names, in order.
  abbrev ordered_query : List String → List Header → List Header
  ordered_query ignored query =
      sort_by (λ (a b : Header). text_le a.name b.name)
        (map sorted_header
          (keep (λ (h : Header). not (contains (ignored_query_keys ignored) h.name)) query))

  unfoldable pub normalized_url_with_ignored_query : String → List String → String
  unfolding ignored_query_keys
  normalized_url_with_ignored_query raw ignored = elim (net.parse_url raw) [
    | none ↦ trim_space raw
    | some u ↦
        net.url_text u (g.to_lower (net.scheme u)) (g.to_lower (net.host u))
          (net.encode_query (ordered_query ignored (net.query u)))
  ]

  unfoldable pub identity_key : List String → Interaction → String
  unfolding remove_ignored_fields normalized_url_with_ignored_query
  identity_key ignored i = g.marshal (
      remove_ignored_fields ignored (
        object (
          field "service" (text i.service) (
            field "operation" (text i.operation) (
              field "protocol" (text i.protocol) (
                field "request"
                  (object (
                    field "method" (text (g.to_upper i.request.method)) (
                      field "url" (text (normalized_url_with_ignored_query i.request.url ignored))
                        end)))
                  end))))))

  abbrev with_url : List String → Value → Fields → Fields
  with_url ignored (text raw) request =
      set_field "url" (text (normalized_url_with_ignored_query raw ignored)) request
  with_url ignored v request = request

  abbrev with_request : List String → Value → Fields → Fields
  with_request ignored (object request) o =
      set_field "request" (object (with_url ignored (get_field "url" request) request)) o
  with_request ignored v o = o

  unfoldable pub remove_ignored_request_query_params : List String → Fields → Fields
  unfolding ignored_query_keys normalized_url_with_ignored_query
  remove_ignored_request_query_params ignored o =
      if is_empty (ignored_query_keys ignored)
      then o
      else with_request ignored (get_field "request" o) o

  abbrev without_ignored : List String → Value → Value
  without_ignored ignored (object o) =
      remove_ignored_fields ignored (object (remove_ignored_request_query_params ignored o))
  without_ignored ignored v = v

  -- `decodedInteraction`. The JSON value of an interaction is that of encoding/json.
  unfoldable pub decoded_interaction : (Interaction → Value) → List String → Interaction → Value
  unfolding remove_ignored_request_query_params remove_ignored_fields
  decoded_interaction decoded ignored i = without_ignored ignored (decoded i)
