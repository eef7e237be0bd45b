-- ===== src/Services/Catalog/Updates.antt =====
-- catalog_service.py: `update` and `refresh`.
pub mod Sent
use contextql_server.Prelude.{⊤, String, Bool, true, false, Option, none, some, List, [], ◌∷◌, ◌++◌}
use contextql_server.Errors.{
  value_error, runtime_error, attribute_error, Result, ok, err, ◌>>=◌ as bind,
}
use contextql_server.Errors.Exec.{Exec, pure, raise, lift, ◌>>=◌, ◌>>◌}
use contextql_server.Repository.{ContextRow}
use contextql_server.Services.Audit.{Field, number, null}
use contextql_server.Services.Ddl.{
  concat, comma_join, literal, literals, qualified, is_blank, given, rstrip_semicolons, state_text,
}
use contextql_server.Services.Catalog.{Backend, get_context, log_context, then_get, send_all}

-- The keyword arguments of `update` that it looks at: absent, or a value that may be None. It looks
-- at no others.
pub record Changes : Type 0 where
  pub definition_text : Option (Option String)
  pub description : Option (Option String)
  pub tags : Option (Option (List String))
  pub score_column : Option (Option String)

abbrev pub alter : String → String → List String → String
alter name what rest = concat ("ALTER CONTEXT " ∷ name ∷ " SET " ∷ what ∷ rest)

-- `None.rstrip` raises
abbrev pub definition_texts : String → Option (Option String) → Result (List String)
definition_texts name none = ok []
definition_texts name (some none) =
    err (attribute_error "'NoneType' object has no attribute 'rstrip'")
definition_texts name (some (some text)) =
    ok (alter name "DEFINITION AS " (rstrip_semicolons text ∷ ";" ∷ []) ∷ [])

abbrev pub description_texts : String → Option (Option String) → List String
description_texts name none = []
description_texts name (some d) = alter name "DESCRIPTION " (literal (given d) ∷ ";" ∷ []) ∷ []

abbrev pub tags_or_empty : Option (List String) → List String
tags_or_empty none = []
tags_or_empty (some ts) = ts

abbrev pub tags_texts : String → Option (Option (List String)) → List String
tags_texts name none = []
tags_texts name (some ts) =
    alter name "TAGS (" (comma_join (literals (tags_or_empty ts)) ∷ ");" ∷ []) ∷ []

abbrev pub score_text : String → Option String → Bool → String
score_text name column true = concat ("ALTER CONTEXT " ∷ name ∷ " DROP SCORE;" ∷ [])
score_text name column false = alter name "SCORE " (given column ∷ ";" ∷ [])

abbrev pub score_texts : String → Option (Option String) → List String
score_texts name none = []
score_texts name (some column) = score_text name column (is_blank column) ∷ []

-- The statements of `update`, in order. Only the first can raise, before any is sent.
unfoldable pub update_texts : String → Changes → Result (List String)
unfolding literal literals rstrip_semicolons
update_texts name c = bind (definition_texts name c.definition_text) λ first. ok (
    first
    ++ (description_texts name c.description
        ++ (tags_texts name c.tags
            ++ (score_texts name c.score_column ++ state_text name "draft" ∷ []))))

-- `updated["version"] if updated else None`
abbrev pub version_field : Option ContextRow → Field
version_field none = null
version_field (some r) = number r.version

module _ {W : Type 0} (b : Backend W) where
  update_with : String → String → Changes → Option (String → Exec W ⊤) → Exec W (Option ContextRow)
  unfolding qualified update_texts send_all
  update_with name namespace c none = raise (runtime_error "Engine is required for context updates")
  update_with name namespace c (some execute) = do
    target ← lift (qualified name namespace)
    texts ← lift (update_texts target c)
    send_all b execute texts
    updated ← then_get b name namespace
    log_context b "context.updated" name namespace (some (("version", version_field updated) ∷ []))
    then_get b name namespace

  update_found : String → String → Changes → Option ContextRow → Exec W (Option ContextRow)
  unfolding update_with
  update_found name namespace c none = raise (value_error "not found")
  update_found name namespace c (some current) = update_with name namespace c b.execute

  unfoldable pub update_context : String → String → Changes → Exec W (Option ContextRow)
  unfolding update_found get_context
  update_context name namespace c w =
      update_found name namespace c (get_context b name namespace w) w

  -- `refresh`; that the context exists is left to the engine
  unfoldable pub refresh_context : String → String → Exec W (Option ContextRow)
  unfolding qualified
  refresh_context name namespace = elim b.execute [
    | none ↦ raise (runtime_error "Engine is required for refresh")
    | some execute ↦ do
      target ← lift (qualified name namespace)
      execute (concat ("REFRESH CONTEXT " ∷ target ∷ ";" ∷ []))
      then_get b name namespace
  ]
