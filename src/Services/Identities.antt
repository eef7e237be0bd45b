-- ===== src/Services/Identities.antt =====
-- app/services/identity_service.py: the identity map registry over the table `identity_maps`; the
-- column `id` is left out. The engine is an argument of the one function that calls it.
pub mod Registration
use contextql_server.Prelude.{
  ℕ, ⊤, String, Option, none, some, List, [], ◌∷◌, filter, length, take, drop, sorted,
}
use contextql_server.Errors.{Result, ok, err}
use contextql_server.Errors.Exec.{Exec, pure, ◌>>=◌, ◌>>◌}
use contextql_server.Services.Audit.{AuditLog, event, wanted}
use contextql_server.Services.Table.{Keys, find_at, insert_row}
use contextql_server.Services.Providers.{Moment, audited, str_leb}

-- A confidence is in ten-thousandths.
pub record IdentityMap : Type 0 where
  pub name : String
  pub namespace : String
  pub source_system : String
  pub source_entity_path : String
  pub target_system : String
  pub target_entity_path : String
  pub matching_mode : String
  pub confidence : ℕ
  pub description : Option String
  pub version : ℕ
  pub created_at : ℕ
  pub updated_at : ℕ

abbrev pub map_keys : Keys IdentityMap
map_keys = record { name_of = λ m. m.name; namespace_of = λ m. m.namespace }

pub record IdentityRegistry : Type 0 where
  pub maps : List IdentityMap
  pub audit : Option AuditLog

unfoldable pub get_map : String → String → IdentityRegistry → Option IdentityMap
get_map name namespace s = find_at map_keys name namespace s.maps

-- The arguments of `register`.
pub record MapArgs : Type 0 where
  pub name : String
  pub source_system : String
  pub source_entity_path : String
  pub target_system : String
  pub target_entity_path : String
  pub namespace : String
  pub matching_mode : String
  pub confidence : ℕ
  pub description : Option String

abbrev pub new_map : MapArgs → ℕ → IdentityMap
new_map a now = record {
  name = a.name;
  namespace = a.namespace;
  source_system = a.source_system;
  source_entity_path = a.source_entity_path;
  target_system = a.target_system;
  target_entity_path = a.target_entity_path;
  matching_mode = a.matching_mode;
  confidence = a.confidence;
  description = a.description;
  version = 1;
  created_at = now;
  updated_at = now;
}

map_registered :
    MapArgs
    → Moment
    → IdentityRegistry
    → Result (List IdentityMap)
    → Result (Option IdentityMap) × IdentityRegistry
unfolding get_map
map_registered a t s (err e) = (err e, s)
map_registered a t s (ok rows) =
    let s' : IdentityRegistry = record {
      maps = rows;
      audit =
          audited (event "identity_map.registered" "identity_map" a.name a.namespace none) t
            s.audit;
    } in
    (ok (get_map a.name a.namespace s'), s')

unfoldable pub register_map : MapArgs → Moment → Exec IdentityRegistry (Option IdentityMap)
unfolding map_registered
register_map a t s = map_registered a t s (insert_row map_keys (new_map a t.now) s.maps)

-- `list`
unfoldable pub list_maps : Option String → ℕ → ℕ → IdentityRegistry → List IdentityMap × ℕ
list_maps namespace limit offset s =
    let rows = filter (λ m. wanted namespace (some m.namespace)) s.maps in
    (take limit (drop offset (sorted (λ a b. str_leb a.name b.name) rows)), length rows)

-- the loop of `sync_to_engine`: `engine.register_identity_map(name, {source: target})`
module _ {W : Type 0} (register_identity_map : String → List (String × String) → Exec W ⊤) where
  register_all : List IdentityMap → Exec W ⊤
  register_all [] = pure tt
  register_all (m ∷ ms) = do
    register_identity_map m.name ((m.source_entity_path, m.target_entity_path) ∷ [])
    register_all ms

unfoldable pub sync_to_engine :
    {W : Type 0} → Option (String → List (String × String) → Exec W ⊤) → IdentityRegistry → Exec W ⊤
unfolding register_all
sync_to_engine none s = pure tt
sync_to_engine (some register_identity_map) s = register_all register_identity_map s.maps
