-- ===== src/Api/Queries.antt =====
-- app/api/query.py and app/api/explain.py.
pub mod Statuses
use Prim.Native.Char.{code}
use contextql_server.Prelude.{
  ℕ, String, Bool, true, false, not, ◌&&◌, ◌||◌, Option, none, some, List, [], str_eq, ◌==◌,
  if◌then◌else◌,
}
use contextql_server.Errors.{Error, Result, ok, err}
use contextql_server.Services.Queries.{
  Limits, Analysis, Answer, Record, QueryMeta, QueryResult, execute,
}
use contextql_server.Api.{Outcome, answered, refused, is_value_error, when_valid}

-- `word in text`
starts_with : String → String → Bool
starts_with String.[] text = true
starts_with (String.◌∷◌ c w) String.[] = false
starts_with (String.◌∷◌ c w) (String.◌∷◌ d text) = code c == code d && starts_with w text

unfoldable pub is_in : String → String → Bool
unfolding starts_with
is_in word String.[] = str_eq word ""
is_in word (String.◌∷◌ c text) = starts_with word (String.◌∷◌ c text) || is_in word text

-- `QueryResponse`, and `ExplainResponse` with its trace
pub record QueryResponse : Type 0 where
  pub rows : List Record
  pub meta : QueryMeta

pub record ProviderCall : Type 0 where
  pub provider_name : String
  pub provider_type : String
  pub entity_count : ℕ
  pub elapsed_ms : ℕ
  pub data_as_of : Option String

pub record TraceResponse : Type 0 where
  pub contexts_resolved : List String
  pub provider_calls : List ProviderCall
  pub identity_maps_used : List String
  pub score_breakdown : List (String × String)

abbrev pub empty_trace : TraceResponse
empty_trace = record {
  contexts_resolved = [];
  provider_calls = [];
  identity_maps_used = [];
  score_breakdown = [];
}

pub record ExplainResponse : Type 0 where
  pub rows : List Record
  pub meta : QueryMeta
  pub trace : TraceResponse

-- The limits, the analyzer, the engine, the size of an encoded row; what a trace of the engine holds
-- and the name of an exception's class.
pub record Context : Type 0 where
  pub limits : Limits
  pub analyze_sql : String → Analysis
  pub engine : String → Result Answer
  pub encoded_length : Record → ℕ
  pub read_trace : String → TraceResponse
  pub class_name : Error → String

module _ (x : Context) where
  abbrev pub run : String → Result QueryResult
  run = execute x.encoded_length x.limits x.analyze_sql x.engine

  query_reply : Result QueryResult → Outcome QueryResponse
  query_reply (ok r) = answered 200 (record { rows = r.rows; meta = r.meta })
  query_reply (err e) = if is_value_error e then refused 400 else refused 500

  -- `query: str = Field(..., min_length=1)`
  unfoldable pub post_query : String → Outcome QueryResponse
  unfolding query_reply
  post_query query = when_valid (not (str_eq query "")) (query_reply (run query))

  abbrev pub trace_of : Option String → TraceResponse
  trace_of none = empty_trace
  trace_of (some t) = x.read_trace t

  -- `isinstance(exc, ValueError) or "Syntax" in exc_name or "Parse" in exc_name`
  unfoldable pub is_bad_request : Error → Bool
  unfolding is_in
  is_bad_request e =
      is_value_error e || (is_in "Syntax" (x.class_name e) || is_in "Parse" (x.class_name e))

  explain_reply : Result QueryResult → Outcome ExplainResponse
  unfolding is_bad_request
  explain_reply (ok r) =
      answered 200 (record { rows = r.rows; meta = r.meta; trace = trace_of r.trace })
  explain_reply (err e) = if is_bad_request e then refused 400 else refused 500

  unfoldable pub explain_query : String → Outcome ExplainResponse
  unfolding explain_reply
  explain_query query = when_valid (not (str_eq query "")) (explain_reply (run query))
