-- ===== src/Repository/Contexts.antt =====
-- context_catalog.py: `save_context`, `drop_context`, `record_execution`, `load_contexts`,
-- and `_entry_from_row`.
pub mod Saved
pub mod Dropped
use Prim.Native.Nat.{compare, Ordering}
use contextql_server.Prelude.{
  ℕ, ⊤, String, Bool, true, false, not, ◌&&◌, ◌||◌, Option, none, some, List, [], ◌∷◌, ◌++◌, map,
  filter, find, any, all, sorted, str_eq, ◌==◌, leb, or_else, is_some, if◌then◌else◌,
}
use contextql_server.Errors.{integrity_error, Result, ok, err}
use contextql_server.Sql.{Statement, settle}
use contextql_server.DeepSee.Decimal.{codes}
use contextql_server.Repository.{
  Materialization, Composition, ContextRow, Tables, context_at, is_text,
}

-- `contextql.semantic.ContextCatalogEntry`, by the fields that the repository maps.
pub record CatalogEntry : Type 0 where
  pub name : String
  pub namespace : String
  pub context_id : String
  pub version : ℕ
  pub definition_hash : Option String
  pub entity_key_name : String
  pub entity_key_type : String
  pub has_score : Bool
  pub is_temporal : Bool
  pub lifecycle_state : String
  pub materialization : Materialization
  pub current_snapshot_version : Option ℕ
  pub last_refreshed_at : Option ℕ
  pub data_as_of : Option ℕ
  pub description : Option String
  pub tags : List String
  pub dependencies : List String
  pub definition_sql : Option String
  pub composition : Option Composition
  pub score_expression : Option String
  pub temporal_column : Option String
  pub temporal_granularity : Option String
  pub source_kind : String
  pub history_available_from : Option ℕ
  pub last_refresh_error : Option String

-- What comes from the engine: the values of `EntityKeyType`, and `MaterializationSettings()`.
pub record EngineTypes : Type 0 where
  pub is_key_type : String → Bool
  pub default_settings : Materialization

-- `name = ? AND namespace = ? AND version = ?`, which is unique in `contexts`
abbrev pub named : String → String → ℕ → ContextRow → Bool
named name namespace version r =
    str_eq r.name name && (str_eq r.namespace namespace && r.version == version)

-- The row that `INSERT INTO contexts` adds.
abbrev pub new_row : CatalogEntry → Option String → ℕ → ContextRow
new_row e raw_ddl now = record {
  name = e.name;
  namespace = e.namespace;
  version = e.version;
  definition_text = or_else e.definition_sql "";
  entity_key = e.entity_key_name;
  entity_key_type = some e.entity_key_type;
  has_score = e.has_score;
  score_column = e.score_expression;
  description = e.description;
  tags = some e.tags;
  lifecycle_state = e.lifecycle_state;
  dependency_refs = some e.dependencies;
  context_id = some e.context_id;
  definition_hash = e.definition_hash;
  raw_ddl = raw_ddl;
  materialization = some e.materialization;
  current_snapshot_version = e.current_snapshot_version;
  last_refreshed_at = e.last_refreshed_at;
  data_as_of = e.data_as_of;
  last_refresh_error = e.last_refresh_error;
  history_available_from = e.history_available_from;
  definition_sql = e.definition_sql;
  score_expression = e.score_expression;
  composition = e.composition;
  temporal_column = e.temporal_column;
  temporal_granularity = e.temporal_granularity;
  source_kind = e.source_kind;
  dropped_at = none;
  last_executed_at = none;
  updated_at = now;
}

-- The assignments of `UPDATE contexts`: the id, the version, the columns that it does not name, and
-- the raw DDL where none is given, stay.
abbrev pub assigned : CatalogEntry → Option String → ℕ → ContextRow → ContextRow
assigned e raw_ddl now r = record (new_row e raw_ddl now) {
  context_id = r.context_id;
  version = r.version;
  raw_ddl = (elim raw_ddl [ none ↦ r.raw_ddl | some t ↦ some t ]);
  dropped_at = r.dropped_at;
  last_executed_at = r.last_executed_at;
}

-- `INSERT INTO contexts`, under its two unique indices
abbrev pub insert_context : CatalogEntry → Option String → ℕ → Statement Tables
insert_context e raw_ddl now t =
    if any (λ r. named e.name e.namespace e.version r || context_at e.context_id e.version r)
      t.contexts
    then err (integrity_error "UNIQUE constraint failed")
    else ok (record t { contexts = t.contexts ++ new_row e raw_ddl now ∷ [] })

abbrev pub assign_row : CatalogEntry → Option String → ℕ → ContextRow → ContextRow
assign_row e raw_ddl now r =
    if context_at e.context_id e.version r then assigned e raw_ddl now r else r

-- Another row, dropped or not, has the name and version.
abbrev pub taken : CatalogEntry → List ContextRow → Bool
taken e rows =
    any (λ r. not (context_at e.context_id e.version r) && named e.name e.namespace e.version r)
      rows

-- `UPDATE contexts ... WHERE context_id = :context_id AND version = :version`, under the unique names
abbrev pub update_context : CatalogEntry → Option String → ℕ → Statement Tables
update_context e raw_ddl now t =
    if taken e t.contexts
    then err (integrity_error "UNIQUE constraint failed")
    else ok (record t { contexts = map (assign_row e raw_ddl now) t.contexts })

write_context : Option ContextRow → CatalogEntry → Option String → ℕ → Statement Tables
write_context none e raw_ddl now t = insert_context e raw_ddl now t
write_context (some existing) e raw_ddl now t = update_context e raw_ddl now t

-- `save_context`; `now` is `datetime('now')`
unfoldable pub save_context : CatalogEntry → Option String → ℕ → Tables → Result ⊤ × Tables
unfolding write_context settle
save_context e raw_ddl now t =
    settle t (write_context (find (context_at e.context_id e.version) t.contexts) e raw_ddl now t)

abbrev pub dropped_row : String → ℕ → ContextRow → ContextRow
dropped_row context_id now r =
    if is_text context_id r.context_id
    then record r { dropped_at = some now; updated_at = now }
    else r

-- `drop_context`, of every version
unfoldable pub drop_context : String → ℕ → Tables → Tables
drop_context context_id now t = record t { contexts = map (dropped_row context_id now) t.contexts }

-- `record_execution`
unfoldable pub record_execution : String → ℕ → ℕ → ℕ → Tables → Tables
record_execution context_id version executed_at now t = record t {
  contexts =
      map
        (λ r.
          if context_at context_id version r
          then record r { last_executed_at = some executed_at; updated_at = now }
          else r)
        t.contexts;
}

-- `text or fallback`
abbrev pub or_text : String → String → String
or_text t fallback = if str_eq t "" then fallback else t

abbrev pub truthy : Option String → Bool
truthy none = false
truthy (some t) = not (str_eq t "")

abbrev pub key_type_of : EngineTypes → String → String
key_type_of g t = if g.is_key_type t then t else "UNKNOWN"

-- `_entry_from_row`, of a row whose id is not NULL
unfoldable pub entry_from_row : EngineTypes → String → ContextRow → CatalogEntry
entry_from_row g context_id r = record {
  name = r.name;
  namespace = or_text r.namespace "default";
  context_id = context_id;
  version = r.version;
  definition_hash = r.definition_hash;
  entity_key_name = r.entity_key;
  entity_key_type = key_type_of g (or_text (or_else r.entity_key_type "") "UNKNOWN");
  has_score = r.has_score;
  is_temporal = truthy r.temporal_column;
  lifecycle_state = r.lifecycle_state;
  materialization = or_else r.materialization g.default_settings;
  current_snapshot_version = r.current_snapshot_version;
  last_refreshed_at = r.last_refreshed_at;
  data_as_of = r.data_as_of;
  description = r.description;
  tags = or_else r.tags [];
  dependencies = or_else r.dependency_refs [];
  definition_sql = r.definition_sql;
  composition = r.composition;
  score_expression = r.score_expression;
  temporal_column = r.temporal_column;
  temporal_granularity = r.temporal_granularity;
  source_kind = or_text r.source_kind "native";
  history_available_from = r.history_available_from;
  last_refresh_error = r.last_refresh_error;
}

-- `context_id = ? AND dropped_at IS NULL`
abbrev pub live : String → ContextRow → Bool
live context_id r = is_text context_id r.context_id && not (is_some r.dropped_at)

-- the row of the highest version that is live
abbrev pub is_latest : List ContextRow → ContextRow → Bool
is_latest rows r = elim r.context_id [
  | none ↦ false
  | some c ↦ not (is_some r.dropped_at) && all (λ s. not (live c s) || leb s.version r.version) rows
]

-- SQLite's BINARY order of texts
codes_le : List ℕ → List ℕ → Bool
codes_le [] ys = true
codes_le (x ∷ xs) [] = false
codes_le (x ∷ xs) (y ∷ ys) = elim (compare x y) [
  | Ordering.lt ↦ true
  | Ordering.gt ↦ false
  | Ordering.eq ↦ codes_le xs ys
]

unfoldable pub text_le : String → String → Bool
unfolding codes_le
text_le s t = codes_le (codes s) (codes t)

-- `ORDER BY c.namespace, c.name`
unfoldable pub by_name : ContextRow → ContextRow → Bool
unfolding text_le
by_name a b =
    if str_eq a.namespace b.namespace
    then text_le a.name b.name
    else text_le a.namespace b.namespace

abbrev pub with_entry :
    EngineTypes → Option String → ContextRow → List CatalogEntry → List CatalogEntry
with_entry g none r es = es
with_entry g (some c) r es = entry_from_row g c r ∷ es

abbrev pub entries : EngineTypes → List ContextRow → List CatalogEntry
entries g [] = []
entries g (r ∷ rs) = with_entry g r.context_id r (entries g rs)

unfoldable pub load_contexts : EngineTypes → Tables → List CatalogEntry
load_contexts g t = entries g (sorted by_name (filter (is_latest t.contexts) t.contexts))
