-- ===== src/Database/Migrated.antt =====
-- What a run of the migrations leaves for the next one.
use contextql_server.Prelude.{
  ℕ, ⊤, ◌≤◌, ◌<◌, true, false, none, some, List, [], ◌∷◌, ◌++◌, any, sorted, ◌==◌, ◌≡◌, refl, ap,
  arith, All, All-sorted, Bool-cases, inl, inr,
}
use contextql_server.Prelude.Int.{pos, ltb_ℤ}
use contextql_server.Errors.{Result, ok, err}
use contextql_server.Errors.Exec.{Exec, pure, ◌>>◌, go_on-ok, go_on-cong}
use contextql_server.Database.{
  Database, Script, file_version, highest, or_ignore, recorded, versions_after, executescript,
  ensure_versions, apply_one, apply_pending, by_file_name, run_migrations,
}

-- The name of each file carries the version that its script records.
abbrev pub IsNamed : {S : Type 0} → Script S → Type 0
IsNamed script = file_version script.stem ≡ ok (pos script.records)

highest-append :
    (v : ℕ) (vs : List ℕ) → (highest vs ≤ highest (vs ++ v ∷ [])) × (v ≤ highest (vs ++ v ∷ []))
highest-append v [] = omega arith
highest-append v (w ∷ vs) = omega (arith, highest-append v vs)

highest-any : (v : ℕ) (vs : List ℕ) → any (λ w. w == v) vs ≡ true → v ≤ highest vs
highest-any v [] h = absurd (ground arith)
highest-any v (w ∷ vs) h = ground (arith, highest-any v vs)

highest-or_ignore :
    (v : ℕ) (vs : List ℕ) → (highest vs ≤ highest (or_ignore v vs)) × (v ≤ highest (or_ignore v vs))
highest-or_ignore v vs = elim (Bool-cases (any (λ w. w == v) vs)) [
  | inl e ↦ rw e (omega arith, highest-any v vs e)
  | inr e ↦ rw e (highest-append v vs)
]

module _ {S : Type 0} where
  abbrev top : Database S → ℕ
  top d = highest (recorded d.schema_version)

  -- the table is there, no version is lost, and that of the script is covered
  abbrev Grows : ℕ → Database S → Database S → Type 0
  Grows v d d' = (top d ≤ top d') × (v ≤ top d') × (ensure_versions d' ≡ d')

  ran-Grows :
      (r : Result ⊤) (tables : S) (v : ℕ) (d d' : Database S)
      → (let x : Result ⊤ × Database S =
            (r, record { schema_version = versions_after r v d.schema_version; tables = tables }) in
          x ≡ (ok tt, d'))
      → Grows v d d'
  ran-Grows (err e) tables v d d' h = absurd (cc)
  ran-Grows (ok u) tables v d d' h =
      let same = ap (λ (x : Result ⊤ × Database S). x.1) h in
      let grows = highest-or_ignore v (recorded d.schema_version) in
      rw (← same) (grows.0, grows.1, refl)

  executescript-Grows :
      (script : Script S) (d d' : Database S)
      → executescript script d ≡ (ok tt, d')
      → Grows script.records d d'
  unfolding executescript
  executescript-Grows script d d' h =
      ran-Grows (script.statements d.tables).0 (script.statements d.tables).1 script.records d d' h

  apply_one-Grows :
      (current : ℕ) (script : Script S) (d d' : Database S)
      → current ≤ top d
      → ensure_versions d ≡ d
      → apply_one current (pos script.records) script d ≡ (ok tt, d')
      → Grows script.records d d'
  unfolding apply_one
  apply_one-Grows current script d d' below there h =
      elim (Bool-cases (ltb_ℤ (pos current) (pos script.records))) [
        | inl e ↦ executescript-Grows script d d' (rw e at h)
        | inr e ↦
            (let same : d ≡ d' = ap (λ (x : Result ⊤ × Database S). x.1) (rw e at h) in
              rw (← same) (omega arith, (let c = below in ground arith), there))
      ]

  apply_pending-Grows :
      (current : ℕ) (scripts : List (Script S)) (d d' : Database S)
      → All IsNamed scripts
      → current ≤ top d
      → ensure_versions d ≡ d
      → apply_pending current scripts d ≡ (ok tt, d')
      → All (λ s. s.records ≤ top d') scripts × (top d ≤ top d') × (ensure_versions d' ≡ d')
  unfolding apply_pending
  apply_pending-Grows current [] d d' names below there h =
      let same : d ≡ d' = ap (λ (x : Result ⊤ × Database S). x.1) h in
      rw (← same) (tt, omega arith, there)
  apply_pending-Grows current (s ∷ rest) d d' names below there h =
      let step = apply_one current (pos s.records) s d in
      let (u, first, after) =
        go_on-ok step.0 (λ _. apply_pending current rest) step.1 d' tt (rw names.0 at h) in
      let grows = apply_one-Grows current s d step.1 below there (λ i. (first i, step.1)) in
      let (covered, above, kept) =
        apply_pending-Grows current rest step.1 d' names.1 (omega (arith, grows.0)) grows.2 after in
      ((omega (arith, grows.1, above), covered), omega (arith, grows.0, above), kept)

  apply_pending-done :
      (current : ℕ) (scripts : List (Script S)) (d : Database S)
      → All IsNamed scripts
      → All (λ s. s.records ≤ current) scripts
      → apply_pending current scripts d ≡ (ok tt, d)
  unfolding apply_pending apply_one
  apply_pending-done current [] d names covered = refl
  apply_pending-done current (s ∷ rest) d names covered =
      let later : ltb_ℤ (pos current) (pos s.records) ≡ false =
        (let c = covered.0 in ground arith) in
      rw (names.0, later) (apply_pending-done current rest d names.1 covered.1)

  -- Migrations that went through are not run again: a second run over the same files returns and
  -- changes nothing, where the name of each file carries the version that its script records.
  pub run_migrations-again :
      (scripts : List (Script S)) (d d' : Database S)
      → All IsNamed scripts
      → run_migrations scripts d ≡ (ok tt, d')
      → run_migrations scripts d' ≡ (ok tt, d')
  unfolding run_migrations
  run_migrations-again scripts d d' names h =
      let sorted_names = All-sorted IsNamed by_file_name scripts names in
      let (covered, above, there) =
        apply_pending-Grows (top d) (sorted by_file_name scripts) (ensure_versions d) d'
          sorted_names (omega arith) refl h in
      rw there (apply_pending-done (top d') (sorted by_file_name scripts) d' sorted_names covered)

  -- every script, one after the other
  abbrev pub run_each : List (Script S) → Exec (Database S) ⊤
  run_each [] = pure tt
  run_each (s ∷ rest) = executescript s >> run_each rest

  apply_pending-every :
      (scripts : List (Script S)) (d : Database S)
      → All (λ s. IsNamed s × (0 < s.records)) scripts
      → apply_pending 0 scripts d ≡ run_each scripts d
  unfolding apply_pending apply_one
  apply_pending-every [] d names = refl
  apply_pending-every (s ∷ rest) d names =
      let later : ltb_ℤ (pos 0) (pos s.records) ≡ true = (let c = names.0.1 in ground arith) in
      rw (names.0.0, later)
        (go_on-cong (executescript s d).0 (apply_pending 0 rest) (run_each rest)
          (executescript s d).1 (λ d. apply_pending-every rest d names.1))

  -- In a database without versions, every script runs, in the order of the names, until one raises.
  pub run_migrations-fresh :
      (scripts : List (Script S)) (tables : S)
      → All (λ s. IsNamed s × (0 < s.records)) scripts
      → run_migrations scripts (record { schema_version = none; tables = tables })
        ≡ run_each
            (sorted by_file_name scripts)
            (record { schema_version = some []; tables = tables })
  unfolding run_migrations
  run_migrations-fresh scripts tables names =
      apply_pending-every (sorted by_file_name scripts) _
        (All-sorted (λ s. IsNamed s × (0 < s.records)) by_file_name scripts names)
