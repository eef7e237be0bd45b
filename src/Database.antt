-- ===== src/Database.antt =====
-- app/db/connection.py: the connection of the server and the migrations. A script is SQL, whose
-- effect on the tables is an argument; each ends by recording a version in `schema_version`.
pub mod Migrated
use Prim.Native.Char.{code}
use Prim.Native.String.{◌++◌ as text_append}
use contextql_server.Prelude.{
  ℕ, ⊤, String, Bool, true, false, Option, none, some, List, [], ◌∷◌, ◌++◌, any, sorted, ◌==◌, max,
  if◌then◌else◌,
}
use contextql_server.Prelude.Int.{ℤ, pos, ltb_ℤ}
use contextql_server.Errors.{value_error, runtime_error, Result, ok, err, or_raise}
use contextql_server.Errors.Exec.{Exec, pure, lift, ◌>>=◌, ◌>>◌}
use contextql_server.DeepSee.Decimal.{int_of_text}
use contextql_server.Repository.Contexts.{text_le}

-- The rows of `schema_version`, where the table is there, and all other tables.
pub record Database (S : Type 0) : Type 0 where
  pub schema_version : Option (List ℕ)
  pub tables : S

-- A file below `migrations`: its name without the suffix, its statements up to the last, and the
-- version of the last one, `INSERT OR IGNORE INTO schema_version (version) VALUES (...)`.
pub record Script (S : Type 0) : Type 0 where
  pub stem : String
  pub statements : Exec S ⊤
  pub records : ℕ

-- `stem.split("_")[0]`
abbrev pub first_part : String → String
first_part String.[] = String.[]
first_part (String.◌∷◌ c s) = if code c == 95 then String.[] else String.◌∷◌ c (first_part s)

-- `int(mf.stem.split("_")[0])`
unfoldable pub file_version : String → Result ℤ
file_version stem =
    or_raise (int_of_text (first_part stem)) (value_error "invalid literal for int()")

-- `row[0] if row[0] is not None else 0`, of MAX(version)
abbrev pub highest : List ℕ → ℕ
highest [] = 0
highest (v ∷ vs) = max v (highest vs)

-- `INSERT OR IGNORE`, under the primary key
abbrev pub or_ignore : ℕ → List ℕ → List ℕ
or_ignore v vs = if any (λ w. w == v) vs then vs else vs ++ v ∷ []

abbrev pub recorded : Option (List ℕ) → List ℕ
recorded none = []
recorded (some vs) = vs

-- the last statement runs if none before it raised
abbrev pub versions_after : Result ⊤ → ℕ → Option (List ℕ) → Option (List ℕ)
versions_after (ok u) v vs = some (or_ignore v (recorded vs))
versions_after (err e) v vs = vs

module _ {S : Type 0} where
  -- `executescript`: what was done before a statement raises stays done
  unfoldable pub executescript : Script S → Exec (Database S) ⊤
  executescript script d =
      let (r, tables) = script.statements d.tables in
      (
        r,
        record {
          schema_version = versions_after r script.records d.schema_version;
          tables = tables;
        },
      )

  -- `CREATE TABLE IF NOT EXISTS schema_version`
  abbrev pub ensure_versions : Database S → Database S
  ensure_versions d = record d { schema_version = some (recorded d.schema_version) }

  apply_one : ℕ → ℤ → Script S → Exec (Database S) ⊤
  unfolding executescript
  apply_one current version script =
      if ltb_ℤ (pos current) version then executescript script else pure tt

  unfoldable pub apply_pending : ℕ → List (Script S) → Exec (Database S) ⊤
  unfolding apply_one file_version
  apply_pending current [] = pure tt
  apply_pending current (script ∷ rest) = do
    version ← lift (file_version script.stem)
    apply_one current version script
    apply_pending current rest

  -- `sorted(_MIGRATIONS_DIR.glob("*.sql"))`
  abbrev pub by_file_name : Script S → Script S → Bool
  by_file_name a b = text_le (text_append a.stem ".sql") (text_append b.stem ".sql")

  -- `_run_migrations`
  unfoldable pub run_migrations : List (Script S) → Exec (Database S) ⊤
  unfolding apply_pending text_le
  run_migrations scripts d =
      apply_pending (highest (recorded d.schema_version)) (sorted by_file_name scripts)
        (ensure_versions d)

  -- `_connection` holds the open database, if there is one
  opened : Result ⊤ × Database S → Option (Database S) → Result (Database S) × Option (Database S)
  opened (ok u, d) old = (ok d, some d)
  opened (err e, d) old = (err e, old)

  -- `init_db`, from the database that `sqlite3.connect` opens
  unfoldable pub init_db : List (Script S) → Database S → Exec (Option (Database S)) (Database S)
  unfolding run_migrations opened
  init_db scripts file = opened (run_migrations scripts file)

  unfoldable pub get_db : Exec (Option (Database S)) (Database S)
  get_db none = (err (runtime_error "Database not initialized"), none)
  get_db (some d) = (ok d, some d)

  unfoldable pub close_db : Exec (Option (Database S)) ⊤
  close_db none = (ok tt, none)
  close_db (some d) = (ok tt, none)
