-- ===== src/Examples/Handlers.antt =====
-- The handlers of contexts and providers, and the paging of the mock, on small inputs.
use contextql_server.Prelude.{
  ℕ, ◌+◌, ◌<◌, ◌&&◌, ◌==◌, any, length, ⊤, String, Bool, true, false, none, some, List, [], ◌∷◌,
  ◌≡◌, ◌≢◌, ◌⊎◌, refl, arith,
}
use contextql_server.Errors.{Error, attribute_error, runtime_error, engine_error, Result, ok, err}
use contextql_server.Services.Audit.{number}
use contextql_server.Repository.{ContextRow, Tables}
use contextql_server.Services.Ddl.{qualified}
use contextql_server.Services.Catalog.{get_context, latest}
use contextql_server.Services.Catalog.Updates.{Changes, update_context, update_texts}
use contextql_server.Services.Catalog.Updates.Sent.{
  Trace, traced, answer, IsTraced, update_context-IsTraced,
}
use contextql_server.Services.Catalog.Listings.{list_contexts}
use contextql_server.Services.Catalog.Listings.Outdated.{live_in_state, list_contexts-outdated}
use contextql_server.Services.Catalog.Listings.Stale.{Answers, listed-Answers}
use contextql_server.Services.Providers.{ProviderArgs, Moment, Registry, new_provider, get, updated}
use contextql_server.Api.{Outcome, answered, refused, crashed}
use contextql_server.Api.Contexts.{put_context, delete_context}
use contextql_server.Api.Contexts.Guards.{delete_context-outcomes, put_context-null_definition}
use contextql_server.Api.Providers.{
  ProviderUpdate, model_dump, update_provider, describe_provider, provider_health,
}
use contextql_server.Api.Providers.Readable.{
  put, handle, IsReadable, handle-IsReadable, update_provider-null,
}

abbrev row_at : ℕ → String → ContextRow
row_at version state = record {
  name = "late";
  namespace = "default";
  version = version;
  definition_text = "SELECT id FROM trades";
  entity_key = "id";
  entity_key_type = some "INT64";
  has_score = false;
  score_column = none;
  description = none;
  tags = none;
  lifecycle_state = state;
  dependency_refs = none;
  context_id = some "c1";
  definition_hash = some "d1";
  raw_ddl = none;
  materialization = none;
  current_snapshot_version = none;
  last_refreshed_at = none;
  data_as_of = none;
  last_refresh_error = none;
  history_available_from = none;
  definition_sql = none;
  score_expression = none;
  composition = none;
  temporal_column = none;
  temporal_granularity = none;
  source_kind = "native";
  dropped_at = none;
  last_executed_at = none;
  updated_at = 3;
}

abbrev one_row : List String → List ContextRow
one_row sent = row_at 1 "active" ∷ []

abbrev before : Trace
before = record { sent = []; logged = [] }

abbrev described : Changes
described = record {
  definition_text = none;
  description = some (some "Late");
  tags = none;
  score_column = none;
}

abbrev texts : List String
texts = "ALTER CONTEXT late SET DESCRIPTION 'Late';" ∷ "ALTER CONTEXT late SET STATE 'draft';" ∷ []

-- the engine refuses the first statement
abbrev refuses : String → Result ⊤
refuses text = err (engine_error "read only")

-- the engine takes every statement, and each adds a version
abbrev takes : String → Result ⊤
takes text = ok tt

abbrev row_per_statement : List String → List ContextRow
row_per_statement sent = row_at (length sent + 1) "draft" ∷ []

update_context-IsTraced_example :
    IsTraced takes row_per_statement "late" "default" before texts
      (update_context (traced takes row_per_statement) "late" "default" described before)
unfolding get_context qualified update_texts
update_context-IsTraced_example =
    update_context-IsTraced takes row_per_statement "late" "default" "late" described before texts
      (row_at 1 "draft") refl refl refl

update_logs_third :
    (update_context (traced takes row_per_statement) "late" "default" described before).1.logged
    ≡ record {
      event_type = "context.updated";
      resource_type = some "context";
      resource_name = some "late";
      detail = some (("version", number 3) ∷ []);
      actor = "system";
      namespace = "default";
      trace_id = none;
    }
      ∷ []
unfolding update_context get_context qualified update_texts
update_logs_third = refl

-- a refused statement is the last that is sent
update_stops :
    (update_context (traced refuses one_row) "late" "default" described before).1.sent
    ≡ "ALTER CONTEXT late SET DESCRIPTION 'Late';" ∷ []
unfolding update_context get_context qualified update_texts
update_stops = refl

abbrev nulled : Changes
nulled = record described { definition_text = some none }

put_context-null_definition_example :
    (text : String) × (put_context (traced refuses one_row) "late" nulled "default" before
      ≡ (crashed (attribute_error text), before))
unfolding get_context qualified
put_context-null_definition_example =
    put_context-null_definition (traced refuses one_row) "late" "default" before (row_at 1 "active")
      nulled (answer refuses) "late" refl refl refl refl

abbrev delete_active : Outcome Bool × Trace
delete_active = delete_context (traced refuses one_row) "late" "default" before

delete_context-outcomes_example :
    (((row_at 1 "active").lifecycle_state ≢ "draft") × (delete_active ≡ (refused 400, before)))
    ⊎ (((row_at 1 "active").lifecycle_state ≡ "draft")
        × ((delete_active.0 ≡ answered 204 true) ⊎ ((e : Error) × (delete_active.0 ≡ crashed e))))
unfolding get_context
delete_context-outcomes_example =
    delete_context-outcomes (traced refuses one_row) "late" "default" before (row_at 1 "active")
      refl

abbrev two_versions : List ContextRow
two_versions = row_at 1 "draft" ∷ row_at 2 "active" ∷ []

-- the newest version has left the state
abbrev many_versions : List ContextRow
many_versions = row_at 1 "draft" ∷ row_at 3 "active" ∷ row_at 2 "draft" ∷ []

abbrev many_tables : Tables
many_tables = record { contexts = many_versions; payloads = []; snapshots = []; history = [] }

listed-Answers_example : Answers two_versions (row_at 2 "active")
listed-Answers_example = listed-Answers (row_at 2 "active") (some "default") two_versions refl

list_contexts-outdated_example :
    (any
        (λ s. live_in_state "draft" (row_at 2 "draft") s && s.version == 2)
        (list_contexts (some "default") (some "draft") 100 0 many_tables).0
      ≡ true)
    × ((best : ContextRow) × (latest "late" "default" many_versions ≡ some best)
        × (2 < best.version))
list_contexts-outdated_example =
    list_contexts-outdated (some "default") "draft" 100 many_tables (row_at 2 "draft") refl
      (refl, refl, refl) (omega arith)

listed_draft :
    list_contexts (some "default") (some "draft") 100 0 many_tables ≡ (row_at 2 "draft" ∷ [], 1)
unfolding list_contexts
listed_draft = refl

abbrev deepsee : ProviderArgs
deepsee = record {
  name = "deepsee";
  provider_type = "MCP";
  namespace = "ops";
  endpoint = none;
  timeout_ms = 30_000;
  entity_key_type = some "INT64";
  trust_tier = "standard";
}

abbrev registry : Registry
registry = record { providers = new_provider deepsee 3 ∷ []; audit = none }

abbrev moment : Moment
moment = record { now = 7; trace_id = "t3" }

abbrev no_updates : ProviderUpdate
no_updates = record {
  endpoint = none;
  timeout_ms = none;
  entity_key_type = none;
  trust_tier = none;
}

handle-IsReadable_example : IsReadable (
    handle (put "deepsee" (record no_updates { timeout_ms = some (some 9) }) "ops" moment) registry)
handle-IsReadable_example =
    handle-IsReadable registry (refl, tt)
      (put "deepsee" (record no_updates { timeout_ms = some (some 9) }) "ops" moment) refl

abbrev null_timeout : ProviderUpdate
null_timeout = record no_updates { timeout_ms = some none }

update_provider-null_example :
    let x = update_provider "deepsee" null_timeout "ops" moment registry in
    let failure = crashed (runtime_error "ResponseValidationError") in
    (x.0 ≡ failure)
    × (get "deepsee" "ops" x.1
        ≡ some (updated (model_dump null_timeout) 7 (new_provider deepsee 3)))
    × (describe_provider "deepsee" "ops" x.1 ≡ failure)
    × (provider_health "deepsee" "ops" x.1 ≡ failure)
unfolding get
update_provider-null_example =
    update_provider-null "deepsee" "ops" null_timeout moment registry (new_provider deepsee 3) refl
      refl
