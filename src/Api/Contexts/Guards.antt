-- ===== src/Api/Contexts/Guards.antt =====
-- Which statuses the handlers of contexts answer with, and when they leave the catalog alone.
use contextql_server.Prelude.{
  ℕ, ⊤, String, true, false, none, some, str_eq, eq_iff, leb, ◌≡◌, ◌≢◌, refl, ◌⊎◌, inl, inr,
  Bool-cases,
}
use contextql_server.Errors.{Error, attribute_error, ok}
use contextql_server.Errors.Exec.{Exec}
use contextql_server.Repository.{ContextRow}
use contextql_server.Services.Ddl.{qualified}
use contextql_server.Services.Catalog.{Backend, get_context, delete}
use contextql_server.Services.Catalog.Guards.{Deleted, delete-draft}
use contextql_server.Services.Catalog.Updates.{Changes}
use contextql_server.Services.Catalog.Updates.Sent.{update_context-null}
use contextql_server.Services.Catalog.Previews.{Previewer}
use contextql_server.Api.{answered, refused, crashed}
use contextql_server.Api.Contexts.{
  put_context, validate_context, activate_context, retire_context, delete_context, delete_known,
  preview_context,
}

str_eq-differs : (s t : String) → str_eq s t ≡ false → s ≢ t
str_eq-differs s t e d = let same = (eq_iff s t).1 d in cc

module _ {W : Type 0} (b : Backend W) (name namespace : String) (w : W) where
  -- A context that is not there: each handler that looks it up first answers 404, and changes
  -- nothing.
  pub unknown_context :
      {R : Type 0} (p : Previewer W R) (body : Changes) (limit : ℕ)
      → get_context b name namespace w ≡ none
      → leb 1 limit ≡ true
      → (put_context b name body namespace w ≡ (refused 404, w))
        × (validate_context b name namespace w ≡ (refused 404, w))
        × (activate_context b name namespace w ≡ (refused 404, w))
        × (retire_context b name namespace w ≡ (refused 404, w))
        × (delete_context b name namespace w ≡ (refused 404, w))
        × (preview_context b p name namespace limit w ≡ (refused 404, w))
  unfolding put_context validate_context activate_context retire_context delete_context delete_known
      preview_context
  unknown_context p body limit h k = rw (h, k) (refl, refl, refl, refl, refl, refl)

  delete_known-other :
      (r : ContextRow)
      → r.lifecycle_state ≢ "draft"
      → delete_known b name namespace (some r) w ≡ (refused 400, w)
  unfolding delete_known
  delete_known-other r h = elim (Bool-cases (str_eq r.lifecycle_state "draft")) [
    | inl e ↦ absurd (h ((eq_iff r.lifecycle_state "draft").0 e))
    | inr e ↦ rw e refl
  ]

  delete_known-draft :
      (r : ContextRow)
      → r.lifecycle_state ≡ "draft"
      → Deleted (delete b name namespace w).0
      → ((delete_known b name namespace (some r) w).0 ≡ answered 204 true)
        ⊎ ((e : Error) × ((delete_known b name namespace (some r) w).0 ≡ crashed e))
  unfolding delete_known
  delete_known-draft r d h =
      rw ((eq_iff r.lifecycle_state "draft").1 d)
        (elim h [ inl done ↦ inl (rw done refl) | inr (e, failed) ↦ inr (e, rw failed refl) ])

  -- How a deletion of a context that is there ends: one that is no draft is refused with 400 and
  -- nothing changes; of a draft, the answer is 204 or an uncaught error, never a refusal.
  pub delete_context-outcomes :
      (r : ContextRow)
      → get_context b name namespace w ≡ some r
      → ((r.lifecycle_state ≢ "draft") × (delete_context b name namespace w ≡ (refused 400, w)))
        ⊎ ((r.lifecycle_state ≡ "draft")
            × (((delete_context b name namespace w).0 ≡ answered 204 true)
                ⊎ ((e : Error) × ((delete_context b name namespace w).0 ≡ crashed e))))
  unfolding delete_context
  delete_context-outcomes r h = elim (Bool-cases (str_eq r.lifecycle_state "draft")) [
    | inl e ↦
        let draft = (eq_iff r.lifecycle_state "draft").0 e in
        inr (draft, rw h (delete_known-draft r draft (delete-draft b name namespace w r h draft)))
    | inr e ↦
        let other = str_eq-differs r.lifecycle_state "draft" e in
        inl (other, rw h (delete_known-other r other))
  ]

  -- A change of the definition to null, of a context that is there and under names that are
  -- identifiers: the error is not caught, where a bad request would be; nothing is sent.
  pub put_context-null_definition :
      (r : ContextRow) (body : Changes) (execute : String → Exec W ⊤) (target : String)
      → get_context b name namespace w ≡ some r
      → b.execute ≡ some execute
      → qualified name namespace ≡ ok target
      → body.definition_text ≡ some none
      → (text : String) × (put_context b name body namespace w
          ≡ (crashed (attribute_error text), w))
  unfolding put_context
  put_context-null_definition r body execute target h x q d =
      let (text, e) = update_context-null b name namespace target body w r execute h x q d in
      (text, rw (h, e) refl)
