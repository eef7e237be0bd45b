-- ===== src/Services/Identities/Registration.antt =====
-- What a registration leaves, and what reaches the engine.
use contextql_server.Prelude.{
  ⊤, String, true, false, none, some, List, [], ◌∷◌, ◌++◌, any, is_some, map, append_assoc,
  append-nil, if◌then◌else◌, ◌≡◌, refl, ap, sym, ◌∙◌,
}
use contextql_server.Errors.{integrity_error, ok, err}
use contextql_server.Errors.Exec.{Exec}
use contextql_server.Services.Audit.{event}
use contextql_server.Services.Table.{at, any-find_at, same_key, same_key_refl, find_at-insert}
use contextql_server.Services.Providers.{Moment, audited}
use contextql_server.Services.Identities.{
  IdentityMap, IdentityRegistry, map_keys, MapArgs, new_map, get_map, register_map, sync_to_engine,
  register_all,
}

-- Registering an identity map under a free name returns it; afterwards a lookup of the name gives
-- it, every other lookup gives what it gave before, and the audit log has one event more.
pub register_map-free :
    (a : MapArgs) (t : Moment) (s : IdentityRegistry)
    → get_map a.name a.namespace s ≡ none
    → let (r, s') = register_map a t s in
      (r ≡ ok (some (new_map a t.now)))
      × ((n ns : String)
          → get_map n ns s'
            ≡ (if same_key n ns a.name a.namespace then some (new_map a t.now) else get_map n ns s))
      × (s'.audit
          ≡ audited
              (event "identity_map.registered" "identity_map" a.name a.namespace none)
              t
              s.audit)
unfolding register_map get_map
register_map-free a t s h =
    let free : any (at map_keys a.name a.namespace) s.maps ≡ false =
      any-find_at map_keys a.name a.namespace s.maps ∙ ap is_some h in
    let found = λ (n ns : String). find_at-insert map_keys n ns s.maps (new_map a t.now) h in
    rw free
      (ap ok (found a.name a.namespace ∙ rw (same_key_refl a.name a.namespace) refl), found, refl)

-- Registering an identity map under a name that is taken raises, and changes nothing.
pub register_map-taken :
    (a : MapArgs) (t : Moment) (s : IdentityRegistry) (m : IdentityMap)
    → get_map a.name a.namespace s ≡ some m
    → register_map a t s ≡ (err (integrity_error "UNIQUE constraint failed"), s)
unfolding register_map get_map
register_map-taken a t s m h =
    let taken : any (at map_keys a.name a.namespace) s.maps ≡ true =
      any-find_at map_keys a.name a.namespace s.maps ∙ ap is_some h in
    rw taken refl

-- What the engine is told of a map.
abbrev pub told : IdentityMap → String × List (String × String)
told m = (m.name, (m.source_entity_path, m.target_entity_path) ∷ [])

-- An engine that records what it is told.
abbrev pub Recorder : Type 0
Recorder = List (String × List (String × String))

abbrev pub recorder : String → List (String × String) → Exec Recorder ⊤
recorder name mapping calls = (ok tt, calls ++ (name, mapping) ∷ [])

register_all-recorder :
    (ms : List IdentityMap) (calls : Recorder)
    → register_all recorder ms calls ≡ (ok tt, calls ++ map told ms)
unfolding register_all
register_all-recorder [] calls = ap (λ (c : Recorder). (ok tt, c)) (sym (append-nil calls))
register_all-recorder (m ∷ ms) calls =
    register_all-recorder ms (calls ++ told m ∷ [])
    ∙ ap (λ (c : Recorder). (ok tt, c)) (append_assoc calls (told m ∷ []) (map told ms))

-- At startup the engine is told every map once, in the order of the table.
pub sync_to_engine-recorder :
    (s : IdentityRegistry) (calls : Recorder)
    → sync_to_engine (some recorder) s calls ≡ (ok tt, calls ++ map told s.maps)
unfolding sync_to_engine
sync_to_engine-recorder s calls = register_all-recorder s.maps calls
