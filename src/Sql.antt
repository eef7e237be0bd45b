-- ===== src/Sql.antt =====
-- Transactions as the repositories write them: `BEGIN IMMEDIATE`, statements, `COMMIT`, and on any
-- exception `ROLLBACK` and a re-raise. The database may raise at any of them (locked, full disk).
use contextql_server.Prelude.{ℕ, ◌+◌, ⊤, Option, none, some, List, [], ◌∷◌, ◌≡◌, ap, ◌∙◌, arith}
use contextql_server.Errors.{
  Error, Result, ok, err, ◌>>=◌, >>=-eq-ok, Result-cases, returned, raised,
}

-- A statement changes the tables or raises.
abbrev pub Statement : Type 0 → Type 0
Statement T = T → Result T

-- What the database itself raises, by the place in the transaction: `BEGIN` is 0, `COMMIT` the last.
abbrev pub Faults : Type 0
Faults = ℕ → Option Error

abbrev pub no_faults : Faults
no_faults i = none

module _ {T : Type 0} where
  abbrev pub unless : Option Error → Statement T
  unless none t = ok t
  unless (some e) t = err e

  -- the statements one after the other, without faults
  abbrev pub run_all : List (Statement T) → Statement T
  run_all [] t = ok t
  run_all (s ∷ ss) t = s t >>= run_all ss

  pub run_from : Faults → ℕ → List (Statement T) → Statement T
  run_from faults i [] t = unless (faults i) t
  run_from faults i (s ∷ ss) t = unless (faults i) t >>= λ t. s t >>= run_from faults (i + 1) ss

  -- what a call leaves: the new tables, or the old ones and the error
  unfoldable pub settle : T → Result T → Result ⊤ × T
  settle t (ok t') = (ok tt, t')
  settle t (err e) = (err e, t)

  unfoldable pub transaction : Faults → List (Statement T) → T → Result ⊤ × T
  unfolding run_from settle
  transaction faults ss t = settle t (unless (faults 0) t >>= run_from faults 1 ss)

  -- A transaction that raises leaves the tables as they were.
  pub transaction-rollback :
      (faults : Faults) (ss : List (Statement T)) (t : T) (e : Error)
      → (transaction faults ss t).0 ≡ err e
      → (transaction faults ss t).1 ≡ t
  unfolding transaction
  transaction-rollback faults ss t e h = ground arith

  unless-ok : (o : Option Error) (t u : T) → unless o t ≡ ok u → t ≡ u
  unless-ok none t u h = ground arith
  unless-ok (some e) t u h = absurd (cc)

  run_from-run_all :
      (faults : Faults) (i : ℕ) (ss : List (Statement T)) (t t' : T)
      → run_from faults i ss t ≡ ok t'
      → run_all ss t ≡ ok t'
  unfolding run_from
  run_from-run_all faults i [] t t' h = ground arith
  run_from-run_all faults i (s ∷ ss) t t' h =
      let (u, same, h1) =
        >>=-eq-ok (unless (faults i) t) (λ t. s t >>= run_from faults (i + 1) ss) h in
      let (v, done, h2) = >>=-eq-ok (s u) (run_from faults (i + 1) ss) h1 in
      let here : s t ≡ ok v = ap s (unless-ok (faults i) t u same) ∙ done in
      rw here (run_from-run_all faults (i + 1) ss v t' h2)

  -- A transaction that returns has run every statement.
  pub transaction-committed :
      (faults : Faults) (ss : List (Statement T)) (t : T)
      → (transaction faults ss t).0 ≡ ok tt
      → run_all ss t ≡ ok (transaction faults ss t).1
  unfolding transaction
  transaction-committed faults ss t h =
      elim (Result-cases (unless (faults 0) t >>= run_from faults 1 ss)) [
        | raised e r ↦ absurd (ground arith)
        | returned t' r ↦
            let (u, same, h1) = >>=-eq-ok (unless (faults 0) t) (run_from faults 1 ss) r in
            let start : t ≡ u = unless-ok (faults 0) t u same in
            rw (r, settle) (rw start (run_from-run_all faults 1 ss u t' h1))
      ]
