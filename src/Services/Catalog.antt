-- ===== src/Services/Catalog.antt =====
-- app/services/catalog_service.py: the operations of the catalog and the life cycle of a context. The
-- engine, the rows that it keeps in `contexts`, and the audit log act on a world.
pub mod Guards
pub mod Updates
pub mod Listings
pub mod Previews
use contextql_server.Prelude.{
  ⊤, String, Bool, true, false, not, ◌&&◌, Option, none, some, List, [], ◌∷◌, str_eq, ltb, is_some,
  if◌then◌else◌,
}
use contextql_server.Errors.{value_error, runtime_error, ok}
use contextql_server.Errors.Exec.{Exec, pure, raise, lift, ◌>>=◌, ◌>>◌}
use contextql_server.Repository.{ContextRow}
use contextql_server.Services.Audit.{Event, Field, number, event}
use contextql_server.Services.Ddl.{
  concat, NewContext, qualified, score_clause, create_text, state_text,
}

-- What the service calls: `engine.execute` where there is an engine, the rows of `contexts`, and
-- `audit.log` where there is an audit service.
pub record Backend (W : Type 0) : Type 0 where
  pub execute : Option (String → Exec W ⊤)
  pub contexts : W → List ContextRow
  pub log : Option (Event → Exec W ⊤)

-- The highest version of the rows that are not dropped.
abbrev pub higher : ContextRow → Option ContextRow → ContextRow
higher r none = r
higher r (some b) = if ltb b.version r.version then r else b

unfoldable pub latest : String → String → List ContextRow → Option ContextRow
latest name namespace [] = none
latest name namespace (r ∷ rs) =
    let rest = latest name namespace rs in
    if str_eq r.name name && (str_eq r.namespace namespace && not (is_some r.dropped_at))
    then some (higher r rest)
    else rest

module _ {W : Type 0} (b : Backend W) where
  -- `get`
  unfoldable pub get_context : String → String → W → Option ContextRow
  unfolding latest
  get_context name namespace w = latest name namespace (b.contexts w)

  -- `_audit_log`
  abbrev pub log_context : String → String → String → Option (List (String × Field)) → Exec W ⊤
  log_context kind name namespace detail = elim b.log [
    | none ↦ pure tt
    | some log ↦ log (event kind "context" name namespace detail)
  ]

  abbrev pub then_get : String → String → Exec W (Option ContextRow)
  then_get name namespace w = (ok (get_context name namespace w), w)

  create_with : NewContext → (String → Exec W ⊤) → Exec W (Option ContextRow)
  unfolding qualified score_clause create_text
  create_with a execute = do
    name ← lift (qualified a.name a.namespace)
    score ← lift (score_clause a.has_score a.score_column)
    execute (create_text a name score)
    execute (state_text name "draft")
    log_context "context.created" a.name a.namespace (some (("version", number 1) ∷ []))
    then_get a.name a.namespace

  unfoldable pub create : NewContext → Exec W (Option ContextRow)
  unfolding create_with
  create a = elim b.execute [
    | none ↦ raise (runtime_error "Engine is required for context creation")
    | some execute ↦ create_with a execute
  ]

  drop_with : String → String → Option (String → Exec W ⊤) → Exec W Bool
  unfolding qualified
  drop_with name namespace none = raise (runtime_error "Engine is required for context deletion")
  drop_with name namespace (some execute) = do
    target ← lift (qualified name namespace)
    execute (concat ("DROP CONTEXT " ∷ target ∷ ";" ∷ []))
    log_context "context.deleted" name namespace none
    pure true

  delete_found : String → String → Option ContextRow → Exec W Bool
  unfolding drop_with
  delete_found name namespace none = pure false
  delete_found name namespace (some current) =
      if str_eq current.lifecycle_state "draft"
      then drop_with name namespace b.execute
      else raise (value_error "only 'draft' contexts may be deleted")

  unfoldable pub delete : String → String → Exec W Bool
  unfolding delete_found get_context
  delete name namespace w = delete_found name namespace (get_context name namespace w) w

  -- the statements one after the other
  unfoldable pub send_all : (String → Exec W ⊤) → List String → Exec W ⊤
  send_all execute [] = pure tt
  send_all execute (t ∷ ts) = execute t >> send_all execute ts

  -- `engine.execute` where there is an engine, for the statements of a name
  send : Option (String → Exec W ⊤) → String → String → (String → List String) → Exec W ⊤
  unfolding qualified send_all
  send none name namespace statements = pure tt
  send (some execute) name namespace statements = do
    target ← lift (qualified name namespace)
    send_all execute (statements target)

  -- What `validate`, `activate` and `retire` have in common.
  transition_found :
      String
      → (String → List String)
      → String
      → String
      → Option ContextRow
      → Exec W (Option ContextRow)
  unfolding send
  transition_found kind statements name namespace none = raise (value_error "not found")
  transition_found kind statements name namespace (some current) = do
    send b.execute name namespace statements
    log_context kind name namespace (some (("version", number current.version) ∷ []))
    then_get name namespace

  transition : String → (String → List String) → String → String → Exec W (Option ContextRow)
  unfolding transition_found get_context
  transition kind statements name namespace w =
      transition_found kind statements name namespace (get_context name namespace w) w

  unfoldable pub validate : String → String → Exec W (Option ContextRow)
  unfolding transition
  validate =
      transition "context.validated"
        λ name. concat ("VALIDATE CONTEXT " ∷ name ∷ ";" ∷ []) ∷ state_text name "validated" ∷ []

  unfoldable pub activate : String → String → Exec W (Option ContextRow)
  unfolding transition
  activate = transition "context.activated" λ name. state_text name "active" ∷ []

  unfoldable pub retire : String → String → Exec W (Option ContextRow)
  unfolding transition
  retire = transition "context.retired" λ name. state_text name "retired" ∷ []
