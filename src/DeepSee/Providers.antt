-- ===== src/DeepSee/Providers.antt =====
-- app/connectors/deepsee/mcp_provider.py and remote_provider.py: what the engine asks DeepSee for.
pub mod Limit
pub mod Remote
use contextql_server.Prelude.{
  ℕ, zero, suc, ◌+◌, ⊤, String, Bool, false, not, ◌&&◌, ◌||◌, Option, none, some, List, [], ◌∷◌,
  ◌++◌, length, leb, ltb, ◌==◌, ◌/◌, sorted, take, filter, or_else, str_eq, if◌then◌else◌,
}
use contextql_server.Prelude.Int.{ℤ, pos, negsuc}
use contextql_server.Prelude.Dict.{lookup, update, mem_num, mem_str}
use contextql_server.Errors.{contract_error, engine_error, Result, ok, err, raise_if}
use contextql_server.Errors.Exec.{Exec, pure, raise, lift, ◌>>=◌, ◌>>◌}
use contextql_server.DeepSee.Models.{
  Score, one, Stamp, SnapshotPage, CaseQuery, EntityFilter, Row, Value, int, text, float, null,
  time, supported_entity_key_type, supported_bitmap_encoding,
}
use contextql_server.DeepSee.Decimal.{int_of_text}
use contextql_server.DeepSee.Client.{DeepSeeClient, Service, fetch_snapshot, fetch_cases}
use contextql_server.DeepSee.Sync.{ids_of}
use contextql_server.DeepSee.Mock.Cases.{valid_resources}

-- `contextql.providers.MCPResult`, by the fields that the provider fills.
pub record McpResult : Type 0 where
  pub entity_type : String
  pub entity_ids : Option (List ℕ)
  pub membership_bitmap : Option (List ℕ)
  pub bitmap_encoding : Option String
  pub scores : List (ℕ × Score)
  pub entity_key_type : String
  pub data_as_of : Stamp
  pub source_watermark : String
  pub evidence_refs : List (ℕ × String)

-- The variables of the loop in `_id_list_result`.
pub record Listed : Type 0 where
  pub entity_ids : List ℕ
  pub scores : List (ℕ × Score)
  pub evidence_refs : List (ℕ × String)
  pub data_as_of : Stamp
  pub watermark : String

abbrev pub listed_first : SnapshotPage → Listed
listed_first page = record {
  entity_ids = ids_of page;
  scores = page.scores;
  evidence_refs = page.evidence_refs;
  data_as_of = page.data_as_of;
  watermark = page.watermark;
}

abbrev pub listed_next : Listed → SnapshotPage → Listed
listed_next l page = record {
  entity_ids = l.entity_ids ++ ids_of page;
  scores = update l.scores page.scores;
  evidence_refs = update l.evidence_refs page.evidence_refs;
  data_as_of = page.data_as_of;
  watermark = page.watermark;
}

-- `scores.get(i, 1.0)`
abbrev pub score_of : List (ℕ × Score) → ℕ → Score
score_of scores i = or_else (lookup i scores) one

-- the key `(-scores.get(i, 1.0), i)`
abbrev pub before : List (ℕ × Score) → ℕ → ℕ → Bool
before scores i j =
    ltb (score_of scores j) (score_of scores i)
    || (score_of scores i == score_of scores j && leb i j)

abbrev pub top : ℕ → Listed → List ℕ
top limit l = take limit (sorted (before l.scores) l.entity_ids)

-- the ids cut to the limit, with the scores and references of those that are kept
abbrev pub cut : ℕ → Listed → Listed
cut limit l =
    let kept = top limit l in
    record l {
      entity_ids = kept;
      scores = filter (λ e. mem_num e.0 kept) l.scores;
      evidence_refs = filter (λ e. mem_num e.0 kept) l.evidence_refs;
    }

-- `if limit is not None and len(entity_ids) > limit`
unfoldable pub limited_to : Option ℕ → Listed → Listed
limited_to none l = l
limited_to (some limit) l = if ltb limit (length l.entity_ids) then cut limit l else l

-- `_bitmap_result`
abbrev pub bitmap_result : String → SnapshotPage → McpResult
bitmap_result entity_type page = record {
  entity_type = entity_type;
  entity_ids = none;
  membership_bitmap = page.membership_bitmap;
  bitmap_encoding = page.bitmap_encoding;
  scores = page.scores;
  entity_key_type = supported_entity_key_type;
  data_as_of = page.data_as_of;
  source_watermark = page.watermark;
  evidence_refs = page.evidence_refs;
}

-- The provider's threshold, and `BitMap64(ids).serialize()`.
module _ (bitmap_threshold : ℕ) (serialize : List ℕ → List ℕ) where
  -- the end of `_id_list_result`, and `_encode_as_bitmap`
  unfoldable pub encoded : String → Listed → McpResult
  encoded entity_type l =
      let as_bitmap = leb bitmap_threshold (length l.entity_ids) in
      record {
        entity_type = entity_type;
        entity_ids = if as_bitmap then none else some l.entity_ids;
        membership_bitmap = if as_bitmap then some (serialize l.entity_ids) else none;
        bitmap_encoding = if as_bitmap then some supported_bitmap_encoding else none;
        scores = l.scores;
        entity_key_type = supported_entity_key_type;
        data_as_of = l.data_as_of;
        source_watermark = l.watermark;
        evidence_refs = l.evidence_refs;
      }

  module _ {W : Type 0} (c : DeepSeeClient) (s : Service W) where
    -- the loop of `_id_list_result`; `left` is `MAX_PAGES - pages`
    unfoldable pub list_pages : ℕ → Option String → Listed → Exec W Listed
    unfolding fetch_snapshot
    list_pages left none l = pure l
    list_pages zero (some cursor) l = raise contract_error
    list_pages (suc left) (some cursor) l = do
      page ← fetch_snapshot c s (some cursor)
      list_pages left page.next_cursor (listed_next l page)

    id_list_result : String → SnapshotPage → Option ℕ → Exec W McpResult
    unfolding list_pages limited_to encoded
    id_list_result entity_type first_page limit = do
      l ← list_pages 9_999 first_page.next_cursor (listed_first first_page)
      pure (encoded entity_type (limited_to limit l))

    by_page : String → Option ℕ → SnapshotPage → Exec W McpResult
    unfolding id_list_result
    by_page entity_type limit first_page = elim first_page.membership_bitmap [
      | some payload ↦ pure (bitmap_result entity_type first_page)
      | none ↦ id_list_result entity_type first_page limit
    ]

    unfoldable pub resolve : String → Option ℕ → Exec W McpResult
    unfolding fetch_snapshot by_page
    resolve entity_type limit = fetch_snapshot c s none >>= by_page entity_type limit

-- `contextql.providers.RemoteResult`
pub record RemoteResult : Type 0 where
  pub rows : List Row
  pub schema : List (String × String)
  pub data_as_of : Stamp
  pub source_watermark : String
  pub next_cursor : Option String

abbrev pub value_at : String → Row → Option Value
value_at column [] = none
value_at column ((name, v) ∷ row) = if str_eq name column then some v else value_at column row

-- `int(v)`
abbrev pub int_of_value : Value → Option ℤ
int_of_value (int n) = some (pos n)
int_of_value (text t) = int_of_text t
int_of_value (float x) = some (pos (x / 10_000))
int_of_value null = none
int_of_value (time t) = none

abbrev pub requested_id : List ℕ → ℤ → Bool
requested_id ids (pos n) = mem_num n ids
requested_id ids (negsuc n) = false

-- `int(row[column])`: a missing column and a value that `int` does not take raise
unfoldable pub id_at : String → Row → Result ℤ
unfolding int_of_text
id_at column row = elim (value_at column row) [
  | none ↦ err (engine_error "KeyError")
  | some v ↦ elim (int_of_value v) [ none ↦ err (engine_error "ValueError") | some n ↦ ok n ]
]

-- is a row outside the ids that were asked for
pub outside : String → List ℕ → List Row → Result Bool
unfolding id_at
outside column ids [] = ok false
outside column ids (row ∷ rows) =
    let rest = outside column ids rows in
    elim (id_at column row) [
      | err e ↦ err e
      | ok n ↦ elim rest [ err e ↦ err e | ok out ↦ ok (not (requested_id ids n) || out) ]
    ]

refuse : Result Bool → Result ⊤
refuse (err e) = err e
refuse (ok out) = raise_if out contract_error

unfoldable pub check_rows : Option EntityFilter → List Row → Result ⊤
unfolding outside refuse
check_rows none rows = ok tt
check_rows (some f) rows = refuse (outside f.column f.ids rows)

-- `x or None`, for the filters and the columns
abbrev pub or_none {ℓ} : {A : Type ℓ} → Option (List A) → Option (List A)
or_none none = none
or_none (some []) = none
or_none (some (x ∷ xs)) = some (x ∷ xs)

module _ {W : Type 0} (c : DeepSeeClient) (s : Service W) where
  unfoldable pub query_remote : CaseQuery → Exec W RemoteResult
  unfolding fetch_cases check_rows
  query_remote q = if not (mem_str q.resource valid_resources) then raise contract_error else (do
    response ←
        fetch_cases c s (record q { filters = or_none q.filters; columns = or_none q.columns })
    lift (check_rows q.entity_filter response.rows)
    pure (record {
      rows = response.rows;
      schema = response.schema;
      data_as_of = response.data_as_of;
      source_watermark = response.watermark;
      next_cursor = response.next_cursor;
    }))
