-- ===== src/SyncState.antt =====
-- app/repositories/synchronizer_state.py over the tables `context_sync_state` and
-- `context_sync_events`; `applied_at` and `updated_at` are left out.
pub mod Durable
use contextql_server.Prelude.{
  ⊤, String, Bool, ◌&&◌, Option, none, some, List, [], ◌∷◌, ◌++◌, map, any, str_eq, if◌then◌else◌,
}
use contextql_server.Errors.{ok}
use contextql_server.Errors.Exec.{Exec}
use contextql_server.Sql.{Statement, Faults, transaction}

pub record StateRow : Type 0 where
  pub context_id : String
  pub committed_watermark : String
  pub ordering_boundary : String

pub record EventRow : Type 0 where
  pub context_id : String
  pub event_id : String
  pub watermark : String

pub record SyncTables : Type 0 where
  pub states : List StateRow
  pub events : List EventRow

abbrev pub watermark_in : String → List StateRow → Option String
watermark_in context_id [] = none
watermark_in context_id (r ∷ rs) =
    if str_eq r.context_id context_id
    then some r.committed_watermark
    else watermark_in context_id rs

abbrev pub ids_in : String → List EventRow → List String
ids_in context_id [] = []
ids_in context_id (r ∷ rs) =
    let rest = ids_in context_id rs in
    if str_eq r.context_id context_id then r.event_id ∷ rest else rest

unfoldable pub load : String → Exec SyncTables (Option String × List String)
load context_id t = (ok (watermark_in context_id t.states, ids_in context_id t.events), t)

-- the primary key of `context_sync_events`
abbrev pub same_event : String → String → EventRow → Bool
same_event context_id event_id r = str_eq r.context_id context_id && str_eq r.event_id event_id

pub insert_ignored : String → String × String → List EventRow → List EventRow
insert_ignored context_id (event_id, watermark) rows =
    if any (same_event context_id event_id) rows
    then rows
    else rows ++ record { context_id = context_id; event_id = event_id; watermark = watermark } ∷ []

-- `INSERT OR IGNORE INTO context_sync_events`
abbrev pub insert_event : String → String × String → Statement SyncTables
insert_event context_id event t =
    ok (record t { events = insert_ignored context_id event t.events })

pub upsert : String → String → List StateRow → List StateRow
upsert context_id watermark [] =
    record {
      context_id = context_id;
      committed_watermark = watermark;
      ordering_boundary = watermark;
    }
    ∷ []
upsert context_id watermark (r ∷ rs) =
    if str_eq r.context_id context_id
    then record r { committed_watermark = watermark; ordering_boundary = watermark } ∷ rs
    else r ∷ upsert context_id watermark rs

-- `INSERT INTO context_sync_state ... ON CONFLICT(context_id) DO UPDATE`
abbrev pub upsert_state : String → String → Statement SyncTables
upsert_state context_id watermark t =
    ok (record t { states = upsert context_id watermark t.states })

abbrev pub statements : String → String → List (String × String) → List (Statement SyncTables)
statements context_id watermark events =
    map (insert_event context_id) events ++ upsert_state context_id watermark ∷ []

unfoldable pub commit : Faults → String → String → List (String × String) → Exec SyncTables ⊤
unfolding transaction insert_ignored upsert
commit faults context_id watermark events =
    transaction faults (statements context_id watermark events)
