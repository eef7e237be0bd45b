-- ===== src/Services/Queries.antt =====
-- app/services/query_service.py. A cell is a number, an IEEE special or anything else; what
-- `analyze_sql`, the engine and `json.dumps` give are arguments. The measured time is left out.
pub mod Bounds
use contextql_server.Prelude.{
  ℕ, ◌+◌, ⊤, String, Option, none, some, List, [], ◌∷◌, ltb, if◌then◌else◌,
}
use contextql_server.Errors.{value_error, Result, ok, err, ◌>>=◌, ◌>>◌, raise_if}

pub data Cell : Type 0 where
  value : String → Cell
  nan : Cell
  infinite : Cell
  null : Cell

abbrev pub Record : Type 0
Record = List (String × Cell)

-- `QueryService.__init__`
pub record Limits : Type 0 where
  pub max_result_rows : ℕ
  pub max_response_bytes : ℕ

-- What `analyze_sql` says of a text: no statement that is sound, a statement that is no query, or a
-- query with the limit that it has.
pub data Analysis : Type 0 where
  unsound : Analysis
  other_statement : Analysis
  query_model : Option ℕ → Analysis

validate_limit : Limits → Option ℕ → Result ⊤
validate_limit c none = err (value_error "[E305] server SELECT queries require an explicit LIMIT.")
validate_limit c (some limit) =
    raise_if (ltb c.max_result_rows limit)
      (value_error "[E305] query LIMIT exceeds the configured maximum")

-- `_validate_select_limit`
unfoldable pub validate_select_limit : Limits → Analysis → Result ⊤
unfolding validate_limit
validate_select_limit c unsound = ok tt
validate_select_limit c other_statement = ok tt
validate_select_limit c (query_model limit) = validate_limit c limit

-- a NaN or an infinity is None
abbrev pub clean_cell : Cell → Cell
clean_cell nan = null
clean_cell infinite = null
clean_cell (value v) = value v
clean_cell null = null

abbrev pub clean_row : Record → Record
clean_row [] = []
clean_row ((column, cell) ∷ row) = (column, clean_cell cell) ∷ clean_row row

abbrev pub clean : List Record → List Record
clean [] = []
clean (r ∷ rs) = clean_row r ∷ clean rs

-- What the engine gives for a query, by what is read of it.
pub record Answer : Type 0 where
  pub rows : List Record
  pub row_count : ℕ
  pub columns : List String
  pub sql : Option String
  pub diagnostics : List String
  pub trace : Option String

pub record QueryMeta : Type 0 where
  pub row_count : ℕ
  pub columns : List String
  pub generated_sql : Option String
  pub diagnostics : List String

pub record QueryResult : Type 0 where
  pub rows : List Record
  pub meta : QueryMeta
  pub trace : Option String

module _ (encoded_length : Record → ℕ) where
  -- the loop over the encoded size
  pub check_size : Limits → ℕ → List Record → Result ⊤
  check_size c size [] = ok tt
  check_size c size (r ∷ rs) =
      let rest = check_size c (size + (encoded_length r + 1)) rs in
      if ltb c.max_response_bytes (size + (encoded_length r + 1))
      then err (value_error "[E306] encoded query response exceeds the configured maximum")
      else rest

  -- `execute`, from the engine's answer on
  unfoldable pub respond : Limits → Answer → Result QueryResult
  unfolding check_size
  respond c answer = do
    check_size c 2 (clean answer.rows)
    ok (record {
      rows = clean answer.rows;
      meta = record {
        row_count = answer.row_count;
        columns = answer.columns;
        generated_sql = answer.sql;
        diagnostics = answer.diagnostics;
      };
      trace = answer.trace;
    })

  unfoldable pub execute :
      Limits → (String → Analysis) → (String → Result Answer) → String → Result QueryResult
  unfolding respond validate_select_limit
  execute c analyze_sql engine query = do
    validate_select_limit c (analyze_sql query)
    answer ← engine query
    respond c answer
