-- ===== src/DeepSee/Models.antt =====
-- app/connectors/deepsee/models.py: the wire contract. Scores are whole numbers of ten-thousandths.
use contextql_server.Prelude.{ℕ, String, List, Option, str_eq, if◌then◌else◌}
use contextql_server.Errors.{Result, ok, err, value_error}

abbrev pub Score : Type 0
Score = ℕ

-- `1.0`
abbrev pub one : Score
one = 10000

-- The text of a time, by what `datetime.fromisoformat` makes of it: an instant in seconds, with
-- UTC where the text has no offset, or nothing.
pub data Stamp : Type 0 where
  instant : ℕ → Stamp
  unreadable : Stamp

abbrev pub supported_entity_key_type : String
supported_entity_key_type = "INT64"

abbrev pub supported_bitmap_encoding : String
supported_bitmap_encoding = "roaring64"

pub data ChangeType : Type 0 where
  added removed score_changed : ChangeType

-- Entity ids of events are not negative: the membership store keeps them in a `BitMap64`.
pub record ChangeEvent : Type 0 where
  pub event_id : String
  pub entity_id : ℕ
  pub change_type : ChangeType
  pub score : Option Score
  pub effective_at : Stamp
  pub watermark : String

-- `ChangeEvent.__post_init__`: no event exists with another change type.
unfoldable pub parse_change_type : String → Result ChangeType
parse_change_type s =
    if str_eq s "added"
    then ok added
    else if str_eq s "removed"
    then ok removed
    else if str_eq s "score_changed"
    then ok score_changed
    else err (value_error "Invalid change_type")

-- An id in a snapshot page: a non-negative integer, or anything else.
pub data WireId : Type 0 where
  num : ℕ → WireId
  other : WireId

pub record SnapshotPage : Type 0 where
  pub entity_key_type : String
  pub data_as_of : Stamp
  pub watermark : String
  pub entity_ids : Option (List WireId)
  pub membership_bitmap : Option (List ℕ)
  pub bitmap_encoding : Option String
  pub scores : List (ℕ × Score)
  pub evidence_refs : List (ℕ × String)
  pub next_cursor : Option String

pub record ChangeBatch : Type 0 where
  pub events : List ChangeEvent
  pub data_as_of : Stamp
  pub watermark : String
  pub next_cursor : Option String

-- A value of an evidence row or of a filter.
pub data Value : Type 0 where
  null : Value
  int : ℕ → Value
  text : String → Value
  float : Score → Value
  -- the text of a time, by its instant
  time : ℕ → Value

abbrev pub Row : Type 0
Row = List (String × Value)

pub record CasesResponse : Type 0 where
  pub resource : String
  pub rows : List Row
  pub schema : List (String × String)
  pub data_as_of : Stamp
  pub watermark : String
  pub next_cursor : Option String

-- What a filter asks of a column: one value, or one of several.
pub data Wanted : Type 0 where
  exactly : Value → Wanted
  one_of : List Value → Wanted

-- `contextql.providers.EntityFilter`, by what is read of it: its column and its `ids()`.
pub record EntityFilter : Type 0 where
  pub column : String
  pub ids : List ℕ

pub record CaseQuery : Type 0 where
  pub resource : String
  pub filters : Option (List (String × Wanted))
  pub columns : Option (List String)
  pub limit : Option ℕ
  pub entity_filter : Option EntityFilter
