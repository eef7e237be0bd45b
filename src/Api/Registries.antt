-- ===== src/Api/Registries.antt =====
-- app/api/identity.py, app/api/audit.py and app/api/health.py.
use contextql_server.Prelude.{ℕ, String, Bool, true, Option, none, some, List, length, leb}
use contextql_server.Errors.{Result}
use contextql_server.Repository.{Tables}
use contextql_server.Services.Audit.{AuditRow, AuditFilter, AuditLog, query}
use contextql_server.Services.Providers.{Moment, Registry, list_providers}
use contextql_server.Services.Identities.{
  IdentityMap, IdentityRegistry, MapArgs, get_map, register_map, list_maps,
}
use contextql_server.Services.Catalog.Listings.{list_contexts}
use contextql_server.Api.{Outcome, answered, refused, on_value_error, as_model, when_valid, ends}

-- `response_model=IdentityMapResponse`: every row that `register` writes fits it
abbrev pub any_map : IdentityMap → Bool
any_map m = true

unfoldable pub register_identity_map :
    MapArgs → Moment → IdentityRegistry → Outcome IdentityMap × IdentityRegistry
unfolding register_map
register_identity_map body t s =
    ends (λ (r : Result (Option IdentityMap)). as_model any_map (on_value_error 201 400 r))
      (register_map body t s)

unfoldable pub list_identity_maps :
    Option String → ℕ → ℕ → IdentityRegistry → Outcome (List IdentityMap × ℕ)
unfolding list_maps
list_identity_maps namespace limit offset s =
    when_valid (leb 1 limit) (answered 200 (list_maps namespace limit offset s))

unfoldable pub describe_identity_map : String → String → IdentityRegistry → Outcome IdentityMap
unfolding get_map
describe_identity_map name namespace s = elim (get_map name namespace s) [
  | none ↦ refused 404
  | some m ↦ answered 200 m
]

-- `total=len(entries)`: the entries of the page are counted
unfoldable pub query_audit_log : AuditFilter → ℕ → ℕ → AuditLog → Outcome (List AuditRow × ℕ)
unfolding query
query_audit_log f limit offset l =
    let entries = query f limit offset l in
    when_valid (leb 1 limit) (answered 200 (entries, length entries))

-- `HealthResponse`; the engine's version, tables and contexts are arguments
pub record Health : Type 0 where
  pub status : String
  pub version : String
  pub engine_version : String
  pub tables : List String
  pub contexts : List String
  pub catalog_contexts : ℕ
  pub registered_providers : ℕ
  pub identity_maps : ℕ

unfoldable pub health :
    String → List String → List String → Tables → Registry → IdentityRegistry → Outcome Health
unfolding list_contexts list_providers list_maps
health engine_version tables contexts catalog providers identity = answered 200 (record {
  status = "ok";
  version = "0.3.0";
  engine_version = engine_version;
  tables = tables;
  contexts = contexts;
  catalog_contexts = (list_contexts none none 0 0 catalog).1;
  registered_providers = (list_providers none none 0 0 providers).1;
  identity_maps = (list_maps none 0 0 identity).1;
})
