-- ===== src/DeepSee/Providers/Remote.antt =====
-- What a remote query's rows are known to satisfy.
use contextql_server.Prelude.{
  ⊤, Bool, true, false, Option, none, some, List, [], ◌∷◌, All, ◌≡◌, refl, ap, sym, ◌∙◌, arith,
  Bool-cases, inl, inr,
}
use contextql_server.Prelude.Int.{ℤ}
use contextql_server.Prelude.Dict.{mem_str}
use contextql_server.Errors.{Error, Result, ok, err, contract_error, Result-cases, returned, raised}
use contextql_server.Errors.Exec.{go_on-ok}
use contextql_server.DeepSee.Models.{Row, CaseQuery, EntityFilter}
use contextql_server.DeepSee.Client.{DeepSeeClient, Service, fetch_cases}
use contextql_server.DeepSee.Mock.Cases.{valid_resources}
use contextql_server.DeepSee.Providers.{
  requested_id, id_at, outside, refuse, check_rows, or_none, RemoteResult, query_remote,
}

-- A row whose id was asked for.
abbrev pub IsRequested : EntityFilter → Row → Type 0
IsRequested f row = (n : ℤ) × (id_at f.column row ≡ ok n) × (requested_id f.ids n ≡ true)

abbrev pub AreRequested : Option EntityFilter → List Row → Type 0
AreRequested none rows = ⊤
AreRequested (some f) rows = All (IsRequested f) rows

outside-AreRequested :
    (f : EntityFilter) (rows : List Row)
    → outside f.column f.ids rows ≡ ok false
    → All (IsRequested f) rows
unfolding outside
outside-AreRequested f [] h = tt
outside-AreRequested f (row ∷ rows) h = elim (Result-cases (id_at f.column row)) [
  | raised e r ↦ absurd (ground arith)
  | returned n r ↦ elim (Result-cases (outside f.column f.ids rows)) [
    | raised e q ↦ absurd (ground arith)
    | returned out q ↦
        let both : (requested_id f.ids n ≡ true) × (out ≡ false) = ground arith in
        ((n, r, both.0), outside-AreRequested f rows (q ∙ ap ok both.1))
  ]
]

refuse-ok : (r : Result Bool) → refuse r ≡ ok tt → r ≡ ok false
unfolding refuse
refuse-ok (ok true) h = absurd (ground arith)
refuse-ok (ok false) h = refl
refuse-ok (err e) h = absurd (ground arith)

check_rows-AreRequested :
    (o : Option EntityFilter) (rows : List Row) → check_rows o rows ≡ ok tt → AreRequested o rows
unfolding check_rows
check_rows-AreRequested none rows h = tt
check_rows-AreRequested (some f) rows h =
    outside-AreRequested f rows (refuse-ok (outside f.column f.ids rows) h)

abbrev remote_rows : Result RemoteResult → List Row
remote_rows (ok r) = r.rows
remote_rows (err e) = []

not_ok : (e : Error) (r : RemoteResult) → err e ≡ ok r → ⊥
not_ok e r h = ground arith

module _ {W : Type 0} where
  -- A remote query that returns asked for a resource that exists, and every row of its result has an
  -- id that the entity filter, where there is one, asked for; whatever the service sent.
  pub query_remote-AreRequested :
      (c : DeepSeeClient) (s : Service W) (q : CaseQuery) (w w' : W) (r : RemoteResult)
      → query_remote c s q w ≡ (ok r, w')
      → (mem_str q.resource valid_resources ≡ true) × AreRequested q.entity_filter r.rows
  unfolding query_remote
  query_remote-AreRequested c s q w w' r h =
      elim (Bool-cases (mem_str q.resource valid_resources)) [
        | inr unknown ↦
            absurd (
              not_ok contract_error r (ap (λ (p : Result RemoteResult × W). p.0) (rw unknown at h)))
        | inl known ↦
            let asked = record q { filters = or_none q.filters; columns = or_none q.columns } in
            let fetched = fetch_cases c s asked w in
            let (response, got, h1) = go_on-ok fetched.0 _ fetched.1 w' r (rw known at h) in
            let (u, checked, h2) =
              go_on-ok (check_rows q.entity_filter response.rows) _ fetched.1 w' r h1 in
            let same : response.rows ≡ r.rows =
              ap (λ (p : Result RemoteResult × W). remote_rows p.0) h2 in
            (known, rw (sym same) (check_rows-AreRequested q.entity_filter response.rows checked))
      ]
