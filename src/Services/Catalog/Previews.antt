-- ===== src/Services/Catalog/Previews.antt =====
-- catalog_service.py: `preview`.
use contextql_server.Prelude.{ℕ, ⊤, String, Option, none, some, List, take, if◌then◌else◌}
use contextql_server.Errors.{value_error, runtime_error}
use contextql_server.Errors.Exec.{Exec, pure, raise, ◌>>=◌, ◌>>◌}
use contextql_server.Repository.{ContextRow}
use contextql_server.Services.Ddl.{is_blank, given}
use contextql_server.Services.Catalog.{Backend, get_context}

-- What `preview` calls: `engine.execute(...).to_pandas().to_dict(orient="records")` where there is an
-- engine, and `repository.record_execution` where the repository has it; the time is in the world.
pub record Previewer (W R : Type 0) : Type 0 where
  pub execute_rows : Option (String → Exec W (List R))
  pub record_execution : Option (Option String → ℕ → Exec W ⊤)

module _ {W R : Type 0} (b : Backend W) (p : Previewer W R) where
  record_run : ContextRow → Exec W ⊤
  record_run current = elim p.record_execution [
    | none ↦ pure tt
    | some run ↦ run current.context_id current.version
  ]

  preview_with : ContextRow → ℕ → Option (String → Exec W (List R)) → Exec W (List R)
  unfolding record_run
  preview_with current limit none = raise (runtime_error "Engine is not available for preview")
  preview_with current limit (some execute) =
      if is_blank current.definition_sql
      then raise (value_error "Context has no executable SQL definition")
      else do
        rows ← execute (given current.definition_sql)
        record_run current
        pure (take limit rows)

  preview_found : Option ContextRow → ℕ → Exec W (List R)
  unfolding preview_with
  preview_found none limit = raise (value_error "not found")
  preview_found (some current) limit = preview_with current limit p.execute_rows

  unfoldable pub preview : String → String → ℕ → Exec W (List R)
  unfolding preview_found get_context
  preview name namespace limit w = preview_found (get_context b name namespace w) limit w
