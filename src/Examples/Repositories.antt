-- ===== src/Examples/Repositories.antt =====
-- Contexts that are saved, dropped, loaded and hydrated.
use contextql_server.Prelude.{
  ◌+◌, false, none, some, List, [], ◌∷◌, ◌++◌, length, sorted, filter, map, All, str_eq, ◌==◌,
  if◌then◌else◌, ◌≡◌, refl,
}
use contextql_server.Errors.{Error, ok, err}
use contextql_server.Errors.Exec.{◌>>◌}
use contextql_server.Sql.{no_faults}
use contextql_server.Repository.{Tables}
use contextql_server.Repository.Snapshots.{Codec, Entry, MembershipSnapshot, promote_snapshot}
use contextql_server.Repository.Contexts.{
  CatalogEntry, EngineTypes, save_context, drop_context, load_contexts,
}
use contextql_server.Repository.Contexts.Saved.{Stores, save_context-Stores}
use contextql_server.Repository.Contexts.Dropped.{
  drop_context-keeps_names, load_contexts-drop_context,
}
use contextql_server.Repository.Hydrate.{
  Runtime, Restored, is_published, by_version, published, change_of, hydrate_runtime,
}
use contextql_server.Repository.Hydrate.Digests.{IsChecked}
use contextql_server.Repository.Hydrate.Checked.{
  restore_each, snapshots_of, hydrate_runtime-IsChecked, hydrate_runtime-eq-restore_each,
}
use contextql_server.Repository.Reachable.{
  Reach, start, next, save, promote, empty, Reach-WellFormed,
}
use contextql_server.Repository.Backed.{WellFormed}

abbrev codec : Codec
codec = record {
  sha256 = λ bytes. if length bytes == 0 then "none" else "some";
  uuid5 = λ name. name;
  encode_scores = λ scores. [];
}

abbrev types : EngineTypes
types = record {
  is_key_type = λ t. str_eq t "INT64";
  default_settings = record {
    materialized = false;
    refresh_mode = "manual";
    refresh_interval = none;
  };
}

abbrev late : CatalogEntry
late = record {
  name = "late";
  namespace = "default";
  context_id = "c1";
  version = 1;
  definition_hash = some "d1";
  entity_key_name = "id";
  entity_key_type = "INT64";
  has_score = false;
  is_temporal = false;
  lifecycle_state = "draft";
  materialization = types.default_settings;
  current_snapshot_version = none;
  last_refreshed_at = none;
  data_as_of = none;
  description = none;
  tags = "a" ∷ [];
  dependencies = [];
  definition_sql = some "SELECT id FROM trades";
  composition = none;
  score_expression = none;
  temporal_column = none;
  temporal_granularity = none;
  source_kind = "native";
  history_available_from = none;
  last_refresh_error = none;
}

abbrev saved : Tables
saved = (save_context late (some "CREATE CONTEXT late") 10 empty).1

save_context-Stores_example :
    ((save_context late none 20 saved).0 ≡ ok tt)
    × Stores types late none saved (save_context late none 20 saved).1
unfolding save_context
save_context-Stores_example =
    save_context-Stores late none 20 types saved
      (record {
        has_namespace = refl;
        has_source = refl;
        has_key_type = refl;
        known_key_type = refl;
        temporal_iff = refl;
      })
      refl

-- the same name under another id
abbrev again : CatalogEntry
again = record late { context_id = "c2" }

drop_context-keeps_names_example :
    (x : Error) × (save_context again none 40 (drop_context "c1" 30 saved)
      ≡ (err x, drop_context "c1" 30 saved))
unfolding save_context
drop_context-keeps_names_example = drop_context-keeps_names "c1" 30 again none 40 saved refl

load_contexts-drop_context_example :
    All (λ e. str_eq e.context_id "c1" ≡ false) (load_contexts types (drop_context "c1" 30 saved))
load_contexts-drop_context_example = load_contexts-drop_context "c1" 30 types saved

abbrev entry : Entry
entry = record {
  context_id = "c1";
  version = 1;
  definition_hash = "d1";
  last_refreshed_at = some 60;
  data_as_of = some 50;
}

abbrev snapshot : MembershipSnapshot
snapshot = record {
  version = 1;
  storage_kind = "roaring64";
  member_count = 2;
  computed_at = 60;
  data_as_of = 50;
  valid_from = 50;
  definition_hash = "d1";
  source_watermark = none;
}

abbrev promoted : Tables
promoted = (promote_snapshot codec entry snapshot no_faults (1 ∷ 2 ∷ []) [] [] 70 saved).1

reached : Reach codec promoted
reached =
    next (next start (save late (some "CREATE CONTEXT late") 10 empty))
      (promote no_faults entry snapshot (1 ∷ 2 ∷ []) [] [] 70 saved)

Reach-WellFormed_example : WellFormed codec promoted
Reach-WellFormed_example = Reach-WellFormed codec reached

-- An engine that keeps what it is given and numbers it.
abbrev engine : Runtime (List Restored)
engine = record {
  deserialize = λ r w. (ok (length w + 1), w ++ r ∷ []);
  append = λ changes w. (ok tt, w);
  decode_scores = λ blob. ok [];
}

hydrate_runtime-eq-restore_each_example :
    (hydrate_runtime engine codec promoted []
      ≡ (restore_each engine (published promoted) >> engine.append (map change_of promoted.history))
          [])
    × (snapshots_of (published promoted)
        ≡ sorted by_version (filter (λ s. is_published s.state) promoted.snapshots))
hydrate_runtime-eq-restore_each_example =
    hydrate_runtime-eq-restore_each codec engine promoted [] reached

hydrate_runtime-IsChecked_example : All (IsChecked codec promoted.payloads) promoted.snapshots
unfolding hydrate_runtime promote_snapshot save_context
hydrate_runtime-IsChecked_example = hydrate_runtime-IsChecked codec engine promoted [] refl

-- the one snapshot is restored
restored_one : length (hydrate_runtime engine codec promoted []).1 ≡ 1
unfolding hydrate_runtime promote_snapshot save_context
restored_one = refl
