-- ===== src/Api/Queries/Statuses.antt =====
-- Which statuses `post_query` and `explain_query` answer with.
use contextql_server.Prelude.{String, not, str_eq, eq_iff, ◌≡◌, ◌≢◌, refl, Bool-cases, inl, inr}
use contextql_server.Errors.{Error, Result, ok, err}
use contextql_server.Services.Queries.{QueryResult}
use contextql_server.Services.Queries.Bounds.{IsUnlimited, execute-unlimited}
use contextql_server.Api.{status, refused, is_value_error}
use contextql_server.Api.Queries.{
  Context, run, query_reply, post_query, is_bad_request, explain_reply, explain_query,
}

module _ (x : Context) (query : String) where
  -- A query without a limit, or with one above the maximum, is a bad request to both handlers,
  -- whatever the engine would do.
  pub unlimited_is_refused :
      query ≢ ""
      → IsUnlimited x.limits (x.analyze_sql query)
      → (post_query x query ≡ refused 400) × (explain_query x query ≡ refused 400)
  unfolding post_query explain_query query_reply explain_reply is_bad_request
  unlimited_is_refused h u =
      let (text, e) = execute-unlimited x.encoded_length x.limits x.analyze_sql x.engine query u in
      elim (Bool-cases (str_eq query "")) [
        | inl blank ↦ absurd (h ((eq_iff query "").0 blank))
        | inr given ↦ rw (given, e) (refl, refl)
      ]

  replies-agree :
      (r : Result QueryResult)
      → ((e : Error) → r ≡ err e → is_bad_request x e ≡ is_value_error e)
      → status (query_reply x r) ≡ status (explain_reply x r)
  unfolding query_reply explain_reply
  replies-agree (ok r) h = refl
  replies-agree (err e) h =
      rw (h e refl) (elim (Bool-cases (is_value_error e)) [ inl v ↦ rw v refl | inr v ↦ rw v refl ])

  -- The two handlers answer with the same status, unless the error is no ValueError and its class is
  -- named after a syntax or parse error.
  pub status-explain_query :
      ((e : Error) → run x query ≡ err e → is_bad_request x e ≡ is_value_error e)
      → status (post_query x query) ≡ status (explain_query x query)
  unfolding post_query explain_query
  status-explain_query h = elim (Bool-cases (not (str_eq query ""))) [
    | inl e ↦ rw e (replies-agree (run x query) h)
    | inr e ↦ rw e refl
  ]
