-- ===== src/DeepSee/Mock/Cases.antt =====
-- The evidence rows of mock_service.py: `cases` and `_case_row`.
use Prim.Native.String.{◌++◌ as text_append}
use contextql_server.Prelude.{
  ℕ, zero, suc, ◌+◌, ◌*◌, ◌%◌, String, Bool, true, false, not, Option, none, some, List, [], ◌∷◌,
  str_eq, ◌==◌, take, sorted, filter, any, leb, if◌then◌else◌, map,
}
use contextql_server.Prelude.Dict.{mem_num, mem_str}
use contextql_server.Errors.{ErrorClass, deepsee_error, Result, ok, err, ◌>>◌}
use contextql_server.Errors.Exec.{Exec}
use contextql_server.DeepSee.Decimal.{str_of}
use contextql_server.DeepSee.Models.{
  Score, one, Value, null, int, text, float, time, Row, CasesResponse, Wanted, exactly, one_of,
  EntityFilter, CaseQuery,
}
use contextql_server.DeepSee.Mock.{
  MockService, enter_call, data_as_of, watermark, evidence_ref, base_time,
}

abbrev pub settlement_cases : String
settlement_cases = "settlement_cases"

abbrev pub reconciliation_evidence : String
reconciliation_evidence = "reconciliation_evidence"

abbrev pub valid_resources : List String
valid_resources = settlement_cases ∷ reconciliation_evidence ∷ []

abbrev pub case_schema : List (String × String)
case_schema =
    ("transaction_id", "INT64")
    ∷ ("break_type", "VARCHAR")
    ∷ ("recommended_action", "VARCHAR")
    ∷ ("agent_decision", "VARCHAR")
    ∷ ("confidence", "DOUBLE")
    ∷ ("explanation", "VARCHAR")
    ∷ ("evidence_ref", "VARCHAR")
    ∷ ("case_status", "VARCHAR")
    ∷ ("owner", "VARCHAR")
    ∷ ("last_reviewed_at", "VARCHAR")
    ∷ []

-- `_BREAK_TYPES[i]`, `_ACTIONS[i]`, `_CASE_STATUSES[i]`, `_OWNERS[i]`, for an index in range
abbrev pub break_types : ℕ → String
break_types zero = "quantity_mismatch"
break_types (suc zero) = "price_mismatch"
break_types (suc (suc zero)) = "missing_confirmation"
break_types _ = "ssi_mismatch"

abbrev pub actions : ℕ → String
actions zero = "amend_and_resubmit"
actions (suc zero) = "affirm_with_counterparty"
actions (suc (suc zero)) = "escalate_to_desk"
actions _ = "cancel_and_rebook"

abbrev pub case_statuses : ℕ → String
case_statuses zero = "open"
case_statuses (suc zero) = "investigating"
case_statuses _ = "resolved"

abbrev pub owners : ℕ → String
owners zero = "ops-alice"
owners (suc zero) = "ops-bob"
owners _ = "ops-carol"

explanation : String → ℕ → String
unfolding str_of
explanation resource entity_id =
    text_append (if str_eq resource reconciliation_evidence then "Reconciliation" else "Settlement")
      (text_append " break on transaction " (
        text_append (str_of entity_id)
          (text_append ": " (text_append (break_types (entity_id % 4)) " detected."))))

-- `_case_row`
unfoldable pub case_row : String → ℕ → Score → Row
unfolding explanation evidence_ref
case_row resource entity_id score =
    ("transaction_id", int entity_id)
    ∷ ("break_type", text (break_types (entity_id % 4)))
    ∷ ("recommended_action", text (actions (entity_id % 4)))
    ∷ ("agent_decision", text (if entity_id % 2 == 0 then "auto_resolve" else "route_to_human"))
    ∷ ("confidence", float score)
    ∷ ("explanation", text (explanation resource entity_id))
    ∷ ("evidence_ref", text (evidence_ref entity_id))
    ∷ ("case_status", text (case_statuses (entity_id % 3)))
    ∷ ("owner", text (owners (entity_id % 3)))
    ∷ ("last_reviewed_at", time (base_time + 60 * (entity_id % 60)))
    ∷ []

-- `==` of two values: a number equals a number of the other type
abbrev pub value_eq : Value → Value → Bool
value_eq null null = true
value_eq (int a) (int b) = a == b
value_eq (int a) (float b) = a * one == b
value_eq (float a) (int b) = a == b * one
value_eq (float a) (float b) = a == b
value_eq (text a) (text b) = str_eq a b
value_eq (time a) (time b) = a == b
value_eq _ _ = false

-- `row.get(key)`
abbrev pub get : String → Row → Value
get key [] = null
get key ((k, v) ∷ row) = if str_eq k key then v else get key row

-- whether a row passes a filter
abbrev pub passes : String × Wanted → Row → Bool
passes (key, exactly value) row = value_eq (get key row) value
passes (key, one_of allowed) row = any (value_eq (get key row)) allowed

abbrev pub filter_all : List (String × Wanted) → List Row → List Row
filter_all [] rows = rows
filter_all (f ∷ fs) rows = filter_all fs (filter (passes f) rows)

-- `{c: row.get(c) for c in columns}`
abbrev pub pick : List String → Row → Row
pick [] row = []
pick (c ∷ cs) row = (c, get c row) ∷ pick cs row

-- `if columns:`, where an empty list and `None` ask for every column
abbrev pub project : Option (List String) → List Row → List Row
project none rows = rows
project (some []) rows = rows
project (some (c ∷ cs)) rows = map (pick (c ∷ cs)) rows

abbrev pub schema_of : Option (List String) → List (String × String)
schema_of none = case_schema
schema_of (some []) = case_schema
schema_of (some (c ∷ cs)) = filter (λ entry. mem_str entry.0 (c ∷ cs)) case_schema

abbrev pub limited {ℓ} : {A : Type ℓ} → Option ℕ → List A → List A
limited none rows = rows
limited (some n) rows = take n rows

abbrev pub requested : Option EntityFilter → ℕ → Bool
requested none entity_id = true
requested (some f) entity_id = mem_num entity_id f.ids

abbrev pub or_empty {ℓ} : {A : Type ℓ} → Option (List A) → List A
or_empty none = []
or_empty (some xs) = xs

-- `sorted(self._members.items())`: the keys of a dict are distinct
abbrev pub by_id : ℕ × Score → ℕ × Score → Bool
by_id a b = leb a.0 b.0

unfoldable pub member_rows : MockService → CaseQuery → List Row
unfolding case_row
member_rows m q =
    map (λ e. case_row q.resource e.0 e.1)
      (filter (λ e. requested q.entity_filter e.0) (sorted by_id m.members))

cases_response : MockService → CaseQuery → Result CasesResponse
unfolding member_rows data_as_of watermark
cases_response m q =
    if not (mem_str q.resource valid_resources)
    then err (
        deepsee_error ErrorClass.terminal
          (record { code = "UNKNOWN_RESOURCE"; retryable = false; retry_after_ms = none }))
    else ok (record {
      resource = q.resource;
      rows =
          limited q.limit (project q.columns (filter_all (or_empty q.filters) (member_rows m q)));
      schema = schema_of q.columns;
      data_as_of = data_as_of m;
      watermark = watermark m;
      next_cursor = none;
    })

-- the request that an admitted call leaves behind
noted : Result (Unit {0}) → CaseQuery → MockService → MockService
noted (err e) q m = m
noted (ok _) q m = record m { last_case_request = some q }

unfoldable pub cases : CaseQuery → Option String → Exec MockService CasesResponse
unfolding enter_call noted cases_response
cases q token m =
    let (admitted, m') = enter_call token m in
    (admitted >> cases_response m' q, noted admitted q m')
