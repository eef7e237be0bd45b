-- ===== src/Repository.antt =====
-- app/repositories/context_catalog.py: the tables of the durable catalog, by the columns that the
-- repository reads or writes. A time is an instant; a JSON column is the value that its text holds.
pub mod Snapshots
pub mod Contexts
pub mod Backfill
pub mod Hydrate
pub mod Backed
pub mod Reachable
use contextql_server.Prelude.{ℕ, String, Bool, ◌&&◌, Option, none, some, List, str_eq, ◌==◌}

pub data SnapshotState : Type 0 where
  building current superseded : SnapshotState

pub record PayloadRow : Type 0 where
  pub context_id : String
  pub version : ℕ
  pub membership_blob : List ℕ
  pub score_blob : Option (List ℕ)

pub record SnapshotRow : Type 0 where
  pub context_id : String
  pub version : ℕ
  pub storage_kind : String
  pub member_count : ℕ
  pub serialized_bytes : ℕ
  pub computed_at : ℕ
  pub data_as_of : ℕ
  pub valid_from : ℕ
  pub valid_to : Option ℕ
  pub definition_hash : String
  pub definition_version : ℕ
  pub source_watermark : Option String
  pub membership_sha256 : String
  pub score_sha256 : String
  pub state : SnapshotState

pub record HistoryRow : Type 0 where
  pub context_id : String
  pub transaction_id : ℕ
  pub change_type : String
  pub recorded_at : ℕ
  pub effective_at : ℕ
  pub context_version : ℕ
  pub definition_version : ℕ
  pub definition_hash : String
  pub event_id : String
  pub source : String
  pub evidence_ref : Option String
  pub previous_score : Option ℕ
  pub new_score : Option ℕ

-- `contextql.semantic.MaterializationSettings`, by what the server reads of it.
pub record Materialization : Type 0 where
  pub materialized : Bool
  pub refresh_mode : String
  pub refresh_interval : Option String

pub record Composition : Type 0 where
  pub strategy : String
  pub items : List (String × Option ℕ)

-- A row from before the third migration has no id.
pub record ContextRow : Type 0 where
  pub name : String
  pub namespace : String
  pub version : ℕ
  pub definition_text : String
  pub entity_key : String
  pub entity_key_type : Option String
  pub has_score : Bool
  pub score_column : Option String
  pub description : Option String
  pub tags : Option (List String)
  pub lifecycle_state : String
  pub dependency_refs : Option (List String)
  pub context_id : Option String
  pub definition_hash : Option String
  pub raw_ddl : Option String
  pub materialization : Option Materialization
  pub current_snapshot_version : Option ℕ
  pub last_refreshed_at : Option ℕ
  pub data_as_of : Option ℕ
  pub last_refresh_error : Option String
  pub history_available_from : Option ℕ
  pub definition_sql : Option String
  pub score_expression : Option String
  pub composition : Option Composition
  pub temporal_column : Option String
  pub temporal_granularity : Option String
  pub source_kind : String
  pub dropped_at : Option ℕ
  pub last_executed_at : Option ℕ
  pub updated_at : ℕ

pub record Tables : Type 0 where
  pub contexts : List ContextRow
  pub payloads : List PayloadRow
  pub snapshots : List SnapshotRow
  pub history : List HistoryRow

-- `column = ?`, of a column that may be NULL
abbrev pub is_text : String → Option String → Bool
is_text k none = Bool.false
is_text k (some t) = str_eq t k

-- `WHERE context_id = ? AND version = ?`
abbrev pub context_at : String → ℕ → ContextRow → Bool
context_at context_id version r = is_text context_id r.context_id && r.version == version

abbrev pub snapshot_at : String → ℕ → SnapshotRow → Bool
snapshot_at context_id version r = str_eq r.context_id context_id && r.version == version

abbrev pub payload_at : String → ℕ → PayloadRow → Bool
payload_at context_id version r = str_eq r.context_id context_id && r.version == version

abbrev pub is_current : SnapshotState → Bool
is_current SnapshotState.current = Bool.true
is_current _ = Bool.false

-- `WHERE context_id = ? AND state = 'current'`
abbrev pub current_of : String → SnapshotRow → Bool
current_of context_id r = str_eq r.context_id context_id && is_current r.state
