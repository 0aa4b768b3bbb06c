-- ===== src/Examples/Samples.antt =====
-- A small library of texts and numbers, and a run of two calls.
use Prim.Native.Nat.{◌/◌}
use text.Mathlib.TextEquality.{eq_iff}
use staging_platform.Base.{
  ℕ, suc, ◌+◌, ◌-◌, ◌*◌, ◌≡◌, refl, String, true, false, none, some, [], ◌∷◌, ltb, leb, str_eq,
  if◌then◌else◌, arith,
}
use staging_platform.Base.Int.{pos}
use staging_platform.Json.{text as json_text, object, end, field}
use staging_platform.Recorder.{Interaction, Event, Run, Header}
use staging_platform.Standard.{Standard, Net, Laws}

-- A number is one more than its hundredths; zero lies below all others.
abbrev pub literal : String → ℕ
literal t =
    if str_eq t "1"
    then 101
    else if str_eq t "0.50"
    then 51
    else if str_eq t "0.35"
    then 36
    else if str_eq t "0.25"
    then 26
    else if str_eq t "0.15"
    then 16
    else 1

abbrev pub sample : Standard
sample = record {
  to_lower = λ s. s;
  to_upper = λ s. s;
  equal_fold = str_eq;
  includes = str_eq;
  replace_all = λ s old new. s;
  fields = λ s. s ∷ [];
  split = λ s separator. s ∷ [];
  fields_at = λ s separators. s ∷ [];
  byte_length = λ s. 0;
  first_bytes = λ s n. s;
  sprint = λ v. "";
  sprint_int = λ i. "0";
  quote = λ s. s;
  marshal = λ v. "{}";
  sha256_hex = λ s. s;
  Float = ℕ;
  is_negative = λ x. false;
  is_less = ltb;
  is_at_most = leb;
  range_order = λ key v. v;
  parse_float = λ s. none;
  float_of = literal;
  is_rfc3339 = λ s. true;
  ratio = λ a b. suc (a * 100 / b);
  plus = λ x y. x + y - 1;
  times = λ x y. suc ((x - 1) * (y - 1) / 100);
  negative_infinity = 0;
  two_decimals = λ x. "";
}

pub ltb_irrefl : (x : ℕ) → ltb x x ≡ false
ltb_irrefl x = ground arith

pub ltb_trans : (x y z : ℕ) → ltb x y ≡ true → ltb y z ≡ true → ltb x z ≡ true
ltb_trans x y z h h' = ground arith

abbrev pub sample_laws : Laws sample
sample_laws = record {
  equal_fold_refl = λ s. (eq_iff s s).1 refl;
  is_less_irrefl = ltb_irrefl;
  is_less_trans = ltb_trans;
}

-- A URL is a path alone.
abbrev pub paths : Net Header
paths = record {
  Url = String;
  parse_url = some;
  scheme = λ u. "";
  host = λ u. "";
  escaped_path = λ u. u;
  query = λ u. [];
  encode_query = λ vs. "";
  url_text = λ u scheme host query. u;
  is_iso_date_like = λ s. false;
  is_unix_seconds = λ s. false;
  is_unix_millis = λ s. false;
}

abbrev pub received : Event
received = record {
  sequence = pos 1;
  t_ms = pos 5;
  sim_t_ms = pos 5;
  type = "response_received";
  payload = some end;
  nested_interaction_id = "";
}

abbrev pub call : String → ℕ → String → Interaction
call id n method = record {
  run_id = "run_1";
  interaction_id = id;
  parent_interaction_id = "";
  sequence = pos n;
  service = "stripe";
  operation = method;
  protocol = "https";
  streaming = false;
  fallback_tier = "";
  fallback_reason = "";
  request = record {
    url = "/v1/items";
    method = method;
    headers = [];
    body = object (field "kind" (json_text "item") end);
  };
  events = received ∷ [];
  extracted_entities = [];
  scrub_report = record {
    redacted_paths = [];
    detector_kinds = [];
    scrub_policy_version = "v1";
    session_salt_id = "salt_1";
  };
  latency_ms = pos 5;
}

abbrev pub two_calls : Run
two_calls = record {
  schema_version = "v1alpha1";
  sdk_version = "1";
  runtime_version = "1";
  scrub_policy_version = "v1";
  run_id = "run_1";
  session_name = "shop";
  mode = "record";
  status = "complete";
  base_snapshot_id = "";
  agent_version = "";
  git_sha = "";
  started_at = 10;
  ended_at = some 20;
  metadata = none;
  interactions = call "int_1" 1 "GET" ∷ call "int_2" 2 "DELETE" ∷ [];
  integrity_issues = [];
}

-- The same session without the second call.
abbrev pub one_call : Run
one_call = record two_calls { run_id = "run_2"; interactions = call "int_1" 1 "GET" ∷ [] }
