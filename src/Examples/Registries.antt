-- ===== src/Examples/Registries.antt =====
-- The audit log, the registries and the query service on small inputs.
use contextql_server.Prelude.{◌+◌, ◌≤◌, true, false, none, some, [], ◌∷◌, All, ◌≡◌, refl, arith}
use contextql_server.Errors.{ok}
use contextql_server.Services.Audit.{AuditLog, text, flag}
use contextql_server.Services.Providers.{
  ProviderArgs, Moment, Registry, new_provider, get, Updates, update, set_enabled, record_health,
}
use contextql_server.Services.Providers.Lookups.{IsChanged, provider_changes}
use contextql_server.Services.Identities.{MapArgs}
use contextql_server.Services.Queries.{
  Limits, Answer, QueryResult, value, nan, null, query_model, execute,
}
use contextql_server.Services.Queries.Bounds.{
  IsAdmitted, AreCleaned, IsPlainRow, total, execute-bounds,
}

abbrev empty_log : AuditLog
empty_log = record { rows = []; last_id = 0 }

abbrev deepsee : ProviderArgs
deepsee = record {
  name = "deepsee";
  provider_type = "MCP";
  namespace = "ops";
  endpoint = none;
  timeout_ms = 30_000;
  entity_key_type = some "INT64";
  trust_tier = "standard";
}

abbrev moment : Moment
moment = record { now = 7; trace_id = "t3" }

abbrev with_deepsee : Registry
with_deepsee = record { providers = new_provider deepsee 3 ∷ []; audit = some empty_log }

abbrev slower : Updates
slower = record {
  endpoint = none;
  timeout_ms = some (some 60_000);
  entity_key_type = none;
  trust_tier = none;
  credentials_ref = some none;
  resource_shape = none;
}

provider_changes_example :
    IsChanged "deepsee" "ops" "provider.updated" none moment with_deepsee
      (record (new_provider deepsee 3) { timeout_ms = some 60_000; updated_at = 7 })
      (update "deepsee" "ops" slower moment with_deepsee)
    × IsChanged "deepsee" "ops" "provider.disabled" none moment with_deepsee
        (record (new_provider deepsee 3) { enabled = false; updated_at = 7 })
        (set_enabled "deepsee" "ops" false moment with_deepsee)
    × IsChanged "deepsee" "ops" "provider.health_recorded"
        (some (("success", flag true) ∷ ("health_state", text "healthy") ∷ []))
        moment
        with_deepsee
        (record (new_provider deepsee 3) {
          health_state = "healthy";
          last_success_at = some 7;
          updated_at = 7;
        })
        (record_health "deepsee" "ops" true moment with_deepsee)
    × IsChanged "deepsee" "ops" "provider.health_recorded"
        (some (("success", flag false) ∷ ("health_state", text "unhealthy") ∷ []))
        moment
        with_deepsee
        (record (new_provider deepsee 3) {
          health_state = "unhealthy";
          last_failure_at = some 7;
          updated_at = 7;
        })
        (record_health "deepsee" "ops" false moment with_deepsee)
unfolding get
provider_changes_example =
    provider_changes "deepsee" "ops" slower false moment with_deepsee (new_provider deepsee 3) refl
      refl

abbrev trades : MapArgs
trades = record {
  name = "trades";
  source_system = "oms";
  source_entity_path = "orders.id";
  target_system = "books";
  target_entity_path = "trades.order_id";
  namespace = "default";
  matching_mode = "exact";
  confidence = 10_000;
  description = none;
}

abbrev limits : Limits
limits = record { max_result_rows = 10; max_response_bytes = 100 }

abbrev answer : Answer
answer = record {
  rows = (("id", value "7") ∷ ("score", nan) ∷ []) ∷ [];
  row_count = 1;
  columns = "id" ∷ "score" ∷ [];
  sql = none;
  diagnostics = [];
  trace = none;
}

abbrev cleaned : QueryResult
cleaned = record {
  rows = (("id", value "7") ∷ ("score", null) ∷ []) ∷ [];
  meta = record {
    row_count = 1;
    columns = "id" ∷ "score" ∷ [];
    generated_sql = none;
    diagnostics = [];
  };
  trace = none;
}

execute-bounds_example :
    IsAdmitted limits (query_model (some 5))
    × ((a : Answer) × (ok answer ≡ ok a)
        × AreCleaned a.rows cleaned.rows
        × (cleaned.meta.columns ≡ a.columns)
        × (cleaned.meta.row_count ≡ a.row_count))
    × All IsPlainRow cleaned.rows
    × (2 + total (λ row. 21) cleaned.rows ≤ 100)
unfolding execute
execute-bounds_example =
    execute-bounds (λ row. 21) limits (λ text. query_model (some 5)) (λ text. ok answer)
      "SELECT id, score FROM trades LIMIT 5" cleaned (omega arith) refl
