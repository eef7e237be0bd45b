-- ===== src/Services/Queries/Bounds.antt =====
-- What a query that returns is known to satisfy.
use contextql_server.Prelude.{
  ℕ, ◌+◌, ◌≤◌, ◌<◌, ◌⊎◌, ⊤, true, String, none, some, List, [], ◌∷◌, All, ltb, ◌≡◌, refl, arith,
  Bool-cases, inl, inr, ap, sym,
}
use contextql_server.Errors.{value_error, Result, ok, err, >>=-eq-ok}
use contextql_server.Services.Queries.{
  Cell, value, nan, infinite, null, Record, Limits, Analysis, query_model, unsound, other_statement,
  clean, clean_row, Answer, QueryResult, check_size, respond, execute, validate_limit,
  validate_select_limit,
}

-- The size of the rows as the service counts it: two brackets, and a comma for each row.
abbrev pub total : (Record → ℕ) → List Record → ℕ
total encoded_length [] = 0
total encoded_length (r ∷ rs) = encoded_length r + 1 + total encoded_length rs

-- No special float is left.
abbrev pub IsPlain : Cell → Type 0
IsPlain nan = ⊥
IsPlain infinite = ⊥
IsPlain (value v) = ⊤
IsPlain null = ⊤

abbrev pub IsPlainRow : Record → Type 0
IsPlainRow = All (λ cell. IsPlain cell.1)

-- What an analysis says that lets a text through: it is not sound, or no query, and then nothing is
-- known of a limit; or it is a query with a limit that is allowed.
abbrev pub IsAdmitted : Limits → Analysis → Type 0
IsAdmitted c a =
    (a ≡ unsound)
    ⊎ ((a ≡ other_statement) ⊎ ((n : ℕ) × (a ≡ query_model (some n)) × (n ≤ c.max_result_rows)))

-- A cell that goes out, beside the engine's: the same one, or null for a special float.
abbrev pub IsCleanedCell : Cell → Cell → Type 0
IsCleanedCell (value v) out = out ≡ value v
IsCleanedCell null out = out ≡ null
IsCleanedCell nan out = out ≡ null
IsCleanedCell infinite out = out ≡ null

-- The rows that go out, beside the engine's: as many, in the same order, with the same columns.
abbrev pub IsCleanedRow : Record → Record → Type 0
IsCleanedRow [] [] = ⊤
IsCleanedRow [] (x ∷ out) = ⊥
IsCleanedRow (x ∷ row) [] = ⊥
IsCleanedRow (x ∷ row) (y ∷ out) = (y.0 ≡ x.0) × IsCleanedCell x.1 y.1 × IsCleanedRow row out

abbrev pub AreCleaned : List Record → List Record → Type 0
AreCleaned [] [] = ⊤
AreCleaned [] (r ∷ out) = ⊥
AreCleaned (r ∷ rows) [] = ⊥
AreCleaned (r ∷ rows) (r' ∷ out) = IsCleanedRow r r' × AreCleaned rows out

clean_row-IsCleanedRow : (r : Record) → IsCleanedRow r (clean_row r)
clean_row-IsCleanedRow [] = tt
clean_row-IsCleanedRow ((column, nan) ∷ r) = (refl, refl, clean_row-IsCleanedRow r)
clean_row-IsCleanedRow ((column, infinite) ∷ r) = (refl, refl, clean_row-IsCleanedRow r)
clean_row-IsCleanedRow ((column, value v) ∷ r) = (refl, refl, clean_row-IsCleanedRow r)
clean_row-IsCleanedRow ((column, null) ∷ r) = (refl, refl, clean_row-IsCleanedRow r)

clean-AreCleaned : (rs : List Record) → AreCleaned rs (clean rs)
clean-AreCleaned [] = tt
clean-AreCleaned (r ∷ rs) = (clean_row-IsCleanedRow r, clean-AreCleaned rs)

clean_row-IsPlainRow : (r : Record) → IsPlainRow (clean_row r)
clean_row-IsPlainRow [] = tt
clean_row-IsPlainRow ((column, nan) ∷ r) = (tt, clean_row-IsPlainRow r)
clean_row-IsPlainRow ((column, infinite) ∷ r) = (tt, clean_row-IsPlainRow r)
clean_row-IsPlainRow ((column, value v) ∷ r) = (tt, clean_row-IsPlainRow r)
clean_row-IsPlainRow ((column, null) ∷ r) = (tt, clean_row-IsPlainRow r)

clean-IsPlain : (rs : List Record) → All IsPlainRow (clean rs)
clean-IsPlain [] = tt
clean-IsPlain (r ∷ rs) = (clean_row-IsPlainRow r, clean-IsPlain rs)

check_size-le :
    (encoded_length : Record → ℕ) (c : Limits) (size : ℕ) (rs : List Record)
    → size ≤ c.max_response_bytes
    → check_size encoded_length c size rs ≡ ok tt
    → size + total encoded_length rs ≤ c.max_response_bytes
unfolding check_size
check_size-le encoded_length c size [] b h = omega arith
check_size-le encoded_length c size (r ∷ rs) b h =
    elim (Bool-cases (ltb c.max_response_bytes (size + (encoded_length r + 1)))) [
      | inl over ↦ absurd (ground arith)
      | inr fits ↦
          let rest : check_size encoded_length c (size + (encoded_length r + 1)) rs ≡ ok tt =
            rw fits at h in
          let within : size + (encoded_length r + 1) ≤ c.max_response_bytes = ground arith in
          omega
            (arith, check_size-le encoded_length c (size + (encoded_length r + 1)) rs within rest)
    ]

validate_select_limit-IsAdmitted :
    (c : Limits) (a : Analysis) → validate_select_limit c a ≡ ok tt → IsAdmitted c a
unfolding validate_select_limit
validate_select_limit-IsAdmitted c unsound h = inl refl
validate_select_limit-IsAdmitted c other_statement h = inr (inl refl)
validate_select_limit-IsAdmitted c (query_model none) h = absurd (ground arith)
validate_select_limit-IsAdmitted c (query_model (some n)) h = inr (inr (n, refl, ground arith))

abbrev rows_in : Result QueryResult → List Record
rows_in (ok r) = r.rows
rows_in (err e) = []

abbrev columns_in : Result QueryResult → List String
columns_in (ok r) = r.meta.columns
columns_in (err e) = []

abbrev count_in : Result QueryResult → ℕ
count_in (ok r) = r.meta.row_count
count_in (err e) = 0

-- Where the byte limit allows two bytes, of a text that returns a result: the analysis found it not
-- sound, or no query, or a query whose limit is allowed; the result has the engine's rows, all of
-- them, in order and with their columns, cell by cell the same but null for every special float; its
-- columns and its row count are the engine's; and the counted size is within the byte limit.
pub execute-bounds :
    (encoded_length : Record → ℕ) (c : Limits) (analyze_sql : String → Analysis)
    (engine : String → Result Answer) (text : String) (r : QueryResult)
    → 2 ≤ c.max_response_bytes
    → execute encoded_length c analyze_sql engine text ≡ ok r
    → IsAdmitted c (analyze_sql text)
      × ((a : Answer) × (engine text ≡ ok a)
          × AreCleaned a.rows r.rows
          × (r.meta.columns ≡ a.columns)
          × (r.meta.row_count ≡ a.row_count))
      × All IsPlainRow r.rows
      × (2 + total encoded_length r.rows ≤ c.max_response_bytes)
unfolding execute
execute-bounds encoded_length c analyze_sql engine text r b h =
    let (u, valid, h1) = >>=-eq-ok (validate_select_limit c (analyze_sql text)) _ h in
    let (a, answered, h2) = >>=-eq-ok (engine text) (respond encoded_length c) h1 in
    let (v, sized, h3) = >>=-eq-ok (check_size encoded_length c 2 (clean a.rows)) _ h2 in
    let same : clean a.rows ≡ r.rows = ap rows_in h3 in
    (
      validate_select_limit-IsAdmitted c (analyze_sql text) valid,
      (
        a,
        answered,
        rw (sym same) (clean-AreCleaned a.rows),
        sym (ap columns_in h3),
        sym (ap count_in h3),
      ),
      rw (sym same) (clean-IsPlain a.rows),
      rw (sym same) (check_size-le encoded_length c 2 (clean a.rows) b sized),
    )

-- The limit that a query has is missing, or above what the server allows.
abbrev pub IsUnlimited : Limits → Analysis → Type 0
IsUnlimited c a =
    (a ≡ query_model none)
    ⊎ ((limit : ℕ) × (a ≡ query_model (some limit)) × (c.max_result_rows < limit))

-- Such a query is refused before the engine sees it.
pub execute-unlimited :
    (encoded_length : Record → ℕ) (c : Limits) (analyze_sql : String → Analysis)
    (engine : String → Result Answer) (query : String)
    → IsUnlimited c (analyze_sql query)
    → (text : String) × (execute encoded_length c analyze_sql engine query ≡ err (value_error text))
unfolding execute validate_select_limit validate_limit
execute-unlimited encoded_length c analyze_sql engine query (inl none_given) =
    rw none_given (_, refl)
execute-unlimited encoded_length c analyze_sql engine query (inr (limit, given, above)) =
    let test : ltb c.max_result_rows limit ≡ true = ground arith in rw (given, test) (_, refl)
