-- ===== src/Api/Contexts.antt =====
-- app/api/catalog.py.
pub mod Guards
use contextql_server.Prelude.{
  ℕ, ⊤, String, Bool, true, false, not, ◌&&◌, Option, none, some, List, str_eq, leb, if◌then◌else◌,
}
use contextql_server.Errors.{Result, ok, err}
use contextql_server.Errors.Exec.{Exec}
use contextql_server.Repository.{SnapshotRow, HistoryRow, ContextRow, Tables}
use contextql_server.Services.Ddl.{NewContext}
use contextql_server.Services.Catalog.{
  Backend, get_context, create, delete, validate, activate, retire,
}
use contextql_server.Services.Catalog.Updates.{Changes, update_context, refresh_context}
use contextql_server.Services.Catalog.Previews.{Previewer, preview}
use contextql_server.Services.Catalog.Listings.{list_contexts, versions, snapshots, history}
use contextql_server.Api.{
  Outcome, answered, refused, uncaught, on_value_error, on_exception, as_model, when_valid, ends,
}

-- `response_model=ContextResponse`: every row of the table fits it
abbrev pub any_row : ContextRow → Bool
any_row r = true

module _ {W : Type 0} (b : Backend W) where
  abbrev pub Reply : Type 0
  Reply = W → Outcome ContextRow × W

  unfoldable pub create_context : NewContext → Reply
  unfolding create
  create_context body w =
      ends (λ (r : Result (Option ContextRow)). as_model any_row (on_exception 201 400 r))
        (create b body w)

  unfoldable pub get_context_reply : String → String → Reply
  unfolding get_context
  get_context_reply name namespace w =
      ((elim (get_context b name namespace w) [ none ↦ refused 404 | some r ↦ answered 200 r ]), w)

  -- `existing is None` before the service is called
  known : {A : Type 0} → Option ContextRow → (W → Outcome A × W) → W → Outcome A × W
  known none reply w = (refused 404, w)
  known (some existing) reply w = reply w

  -- the handlers of PUT and of the three transitions
  changed_by : (String → String → Exec W (Option ContextRow)) → String → String → Reply
  unfolding known get_context
  changed_by operation name namespace w =
      known (get_context b name namespace w)
        (λ w.
          ends (λ (r : Result (Option ContextRow)). as_model any_row (on_value_error 200 400 r))
            (operation name namespace w))
        w

  unfoldable pub put_context : String → Changes → String → Reply
  unfolding changed_by update_context
  put_context name body = λ namespace.
      changed_by (λ name namespace. update_context b name namespace body) name namespace

  unfoldable pub validate_context : String → String → Reply
  unfolding changed_by validate
  validate_context = changed_by (validate b)

  unfoldable pub activate_context : String → String → Reply
  unfolding changed_by activate
  activate_context = changed_by (activate b)

  unfoldable pub retire_context : String → String → Reply
  unfolding changed_by retire
  retire_context = changed_by (retire b)

  delete_known : String → String → Option ContextRow → W → Outcome Bool × W
  unfolding delete
  delete_known name namespace none w = (refused 404, w)
  delete_known name namespace (some r) w =
      if str_eq r.lifecycle_state "draft"
      then ends (uncaught 204) (delete b name namespace w)
      else (refused 400, w)

  unfoldable pub delete_context : String → String → W → Outcome Bool × W
  unfolding delete_known get_context
  delete_context name namespace w = delete_known name namespace (get_context b name namespace w) w

  unfoldable pub post_refresh : String → String → Reply
  unfolding refresh_context
  post_refresh name namespace w =
      ends (λ (r : Result (Option ContextRow)). as_model any_row (on_value_error 200 400 r))
        (refresh_context b name namespace w)

  module _ {R : Type 0} (p : Previewer W R) where
    unfoldable pub preview_context : String → String → ℕ → W → Outcome (List R) × W
    unfolding known get_context preview
    preview_context name namespace limit w =
        if leb 1 limit
        then known (get_context b name namespace w)
            (λ w. ends (on_value_error 200 400) (preview b p name namespace limit w)) w
        else (refused 422, w)

-- `limit: int = Query(100, ge=1)`
unfoldable pub get_contexts :
    Option String → Option String → ℕ → ℕ → Tables → Outcome (List ContextRow × ℕ)
unfolding list_contexts
get_contexts namespace lifecycle_state limit offset t =
    when_valid (leb 1 limit) (answered 200 (list_contexts namespace lifecycle_state limit offset t))

unfoldable pub list_versions : String → String → Tables → Outcome (List ContextRow)
unfolding versions
list_versions name namespace t = answered 200 (versions name namespace t)

-- `limit: int = Query(100, ge=1, le=1000)`
unfoldable pub list_snapshots : String → String → ℕ → ℕ → Tables → Outcome (List SnapshotRow)
unfolding snapshots
list_snapshots name namespace limit offset t =
    when_valid (leb 1 limit && leb limit 1000)
      (on_value_error 200 404 (snapshots name namespace limit offset t))

unfoldable pub list_history :
    String → String → Option ℕ → Option ℕ → ℕ → ℕ → Tables → Outcome (List HistoryRow)
unfolding history
list_history name namespace start end limit offset t =
    when_valid (leb 1 limit && leb limit 1000)
      (on_value_error 200 404 (history name namespace start end limit offset t))
