-- ===== src/Store/Tables.antt =====
-- internal/store/sqlite/migrations: the rows of the tables that the session store and the event
-- queue store use, with their keys and references. A NULL column of text reads back as the empty
-- text, and `nullIfEmpty` makes a blank text NULL, so the empty text stands for NULL. A time column
-- has the fixed width of `sqliteTimeFormat`, so that its texts compare as the times do.
use staging_platform.Base.{
  ℕ, String, Bool, Option, List, [], ◌∷◌, ◌++◌, str_eq, if◌then◌else◌, is_blank, any, update_where,
}
use staging_platform.Store.Records.{Time, SessionRecord, SessionClock, DeliveryMode, EventStatus}

pub record SnapshotRow : Type 0 where
  pub snapshot_id : String
  pub session_name : String
  pub parent_snapshot_id : String
  pub source_run_id : String
  pub state_json : String
  pub created_at : Time

pub record EventRow : Type 0 where
  pub event_id : String
  pub session_name : String
  pub service : String
  pub topic : String
  pub delivery_mode : DeliveryMode
  pub due_at : Time
  pub payload_json : String
  pub status : EventStatus
  pub created_at : Time
  pub delivered_at : Option Time

-- The columns as they are stored: rows that this code reads and another part writes.
pub record RunRow : Type 0 where
  pub run_id : String
  pub session_name : String
  pub mode : String
  pub status : String
  pub schema_version : String
  pub sdk_version : String
  pub runtime_version : String
  pub scrub_policy_version : String
  pub base_snapshot_id : String
  pub agent_version : String
  pub git_sha : String
  pub started_at : String
  -- empty where it is NULL
  pub ended_at : String
  pub integrity_issues_json : String
  pub metadata_json : String

pub record SaltRow : Type 0 where
  pub session_name : String
  pub salt_id : String
  pub salt_encrypted : List ℕ
  pub created_at : Time

pub record Db : Type 0 where
  pub sessions : List SessionRecord
  pub snapshots : List SnapshotRow
  pub clocks : List SessionClock
  pub events : List EventRow
  pub runs : List RunRow
  pub salts : List SaltRow

-- `nullIfEmpty`
abbrev pub null_if_empty : String → String
null_if_empty s = if is_blank s then "" else s

-- The tests of the `WHERE` clauses.
abbrev pub session_named : String → SessionRecord → Bool
session_named name s = str_eq s.session_name name

abbrev pub snapshot_with_id : String → SnapshotRow → Bool
snapshot_with_id id s = str_eq s.snapshot_id id

abbrev pub snapshot_of : String → SnapshotRow → Bool
snapshot_of name s = str_eq s.session_name name

abbrev pub clock_of : String → SessionClock → Bool
clock_of name c = str_eq c.session_name name

abbrev pub event_with_id : String → EventRow → Bool
event_with_id id e = str_eq e.event_id id

abbrev pub event_of : String → EventRow → Bool
event_of name e = str_eq e.session_name name

abbrev pub run_with_id : String → RunRow → Bool
run_with_id id r = str_eq r.run_id id

abbrev pub run_of : String → RunRow → Bool
run_of name r = str_eq r.session_name name

abbrev pub salt_of : String → SaltRow → Bool
salt_of name s = str_eq s.session_name name

-- `INSERT … ON CONFLICT(key) DO UPDATE SET` of every other column
unfoldable pub upsert {ℓ} : {A : Type ℓ} → (A → Bool) → A → List A → List A
upsert same_key row rows =
    if any same_key rows then update_where same_key (λ _. row) rows else rows ++ row ∷ []
