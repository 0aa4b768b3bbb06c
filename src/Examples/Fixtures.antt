-- ===== src/Examples/Fixtures.antt =====
-- A small codec, and a store with two sessions.
use mathlib.Core.Path.{◌≡◌, refl}
use text.Mathlib.TextEquality.{eq_iff}
use staging_platform.Base.{ℕ, String, Option, none, some, [], ◌∷◌, arith, str_eq, if◌then◌else◌}
use staging_platform.Json.{Fields, end, field, nil, Codec}
use staging_platform.Store.Records.{SessionRecord, active, push, pending}
use staging_platform.Store.Tables.{Db, EventRow, RunRow, SnapshotRow}

abbrev pub encode : Fields → Option String
encode end = some "{}"
encode (field k v fs) = none

abbrev pub decode : String → Option (Option Fields)
decode t = if str_eq t "{}" then some (some end) else if str_eq t "null" then some none else none

pub encode_decodes :
    (o : Fields) (t : String) → encode o ≡ some t → (d : Fields) × (decode t ≡ some (some d))
encode_decodes end t h = (end, ground (arith, eq_iff t "{}", eq_iff t "null"))
encode_decodes (field k v fs) t h = (end, ground arith)

pub decode_encodes :
    (t : String) (d : Fields)
    → decode t ≡ some (some d)
    → (u : String) × (encode d ≡ some u) × (decode u ≡ some (some d))
decode_encodes t end h = ("{}", refl, refl)
decode_encodes t (field k v fs) h = ("{}", ground arith, ground arith)

-- A codec of the empty object alone.
abbrev pub small_codec : Codec
small_codec = record {
  marshal = encode;
  unmarshal = decode;
  unmarshal_issues = λ t. if str_eq t "null" then some nil else none;
  parse_time = λ t. if str_eq t "10" then some 10 else if str_eq t "20" then some 20 else none;
  unmarshal-marshal = encode_decodes;
  marshal-unmarshal = decode_encodes;
}

abbrev pub session : String → String → SessionRecord
session name current = record {
  session_name = name;
  parent_session_name = "";
  current_snapshot_id = current;
  status = active;
  created_at = 10;
  updated_at = 10;
}

abbrev pub snapshot_row_of : String → String → String → SnapshotRow
snapshot_row_of id name run = record {
  snapshot_id = id;
  session_name = name;
  parent_snapshot_id = "";
  source_run_id = run;
  state_json = "{}";
  created_at = 10;
}

abbrev pub run_row : String → String → RunRow
run_row id name = record {
  run_id = id;
  session_name = name;
  mode = "record";
  status = "complete";
  schema_version = "v1alpha1";
  sdk_version = "1";
  runtime_version = "1";
  scrub_policy_version = "1";
  base_snapshot_id = "";
  agent_version = "";
  git_sha = "";
  started_at = "10";
  ended_at = "20";
  integrity_issues_json = "null";
  metadata_json = "{}";
}

abbrev pub webhook : String → String → ℕ → EventRow
webhook id name due = record {
  event_id = id;
  session_name = name;
  service = "stripe";
  topic = "refund.created";
  delivery_mode = push;
  due_at = due;
  payload_json = "{}";
  status = pending;
  created_at = 10;
  delivered_at = none;
}

abbrev pub empty_db : Db
empty_db = record { sessions = []; snapshots = []; clocks = []; events = []; runs = []; salts = [] }

-- A session with two webhooks that wait, and another session beside it.
abbrev pub two_sessions : Db
two_sessions = record empty_db {
  sessions = session "shop" "snap_1" ∷ session "other" "" ∷ [];
  snapshots = snapshot_row_of "snap_1" "shop" "" ∷ [];
  events = webhook "evt_b" "shop" 70 ∷ webhook "evt_a" "shop" 50 ∷ webhook "evt_c" "other" 50 ∷ [];
}

-- The current snapshot was taken from a run.
abbrev pub from_run : Db
from_run = record empty_db {
  sessions = session "shop" "snap_1" ∷ [];
  snapshots = snapshot_row_of "snap_1" "shop" "run_1" ∷ [];
  runs = run_row "run_1" "shop" ∷ run_row "run_2" "copy" ∷ [];
}
