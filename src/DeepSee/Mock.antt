-- ===== src/DeepSee/Mock.antt =====
-- app/connectors/deepsee/mock_service.py: the in-process stand-in for a DeepSee endpoint.
pub mod Pages
pub mod Calls
pub mod Log
pub mod Cases
pub mod Bench
pub mod Numbered
use Prim.Native.String.{◌++◌ as text_append}
use contextql_server.Prelude.{
  ℕ, zero, suc, ◌+◌, ◌-◌, ◌*◌, ◌%◌, ⊤, String, Bool, true, false, not, ◌&&◌, Option, none, some,
  List, [], ◌∷◌, ◌++◌, str_eq, replicate, is_some, if◌then◌else◌,
}
use contextql_server.Prelude.Dict.{lookup, insert, erase}
use contextql_server.Errors.{Error, ErrorClass, deepsee_error, value_error, ok, err}
use contextql_server.Errors.Exec.{Exec}
use contextql_server.DeepSee.Decimal.{zero_padded, str_of}
use contextql_server.DeepSee.Models.{
  Score, Stamp, instant, ChangeType, added, removed, score_changed, ChangeEvent, CaseQuery,
  supported_entity_key_type,
}

-- The kinds that `queue_failure` accepts.
pub data FailureKind : Type 0 where
  retryable terminal auth timeout rate_limit : FailureKind

pub record MockService : Type 0 where
  pub members : List (ℕ × Score)
  pub page_size : ℕ
  pub require_auth : Bool
  pub bitmap_snapshot : Bool
  pub malformed_bitmap : Bool
  pub invalid_key_type : Bool
  pub stale_data_as_of : Bool
  pub duplicate_delivery : Bool
  pub out_of_order : Bool
  pub redeliver_from_start : Bool
  pub events : List ChangeEvent
  pub seq : ℕ
  pub failures : List FailureKind
  pub call_count : ℕ
  pub last_case_request : Option CaseQuery

-- `default_membership`; the offsets count up from `offset`
default_from : ℕ → ℕ → ℕ → List (ℕ × Score)
default_from zero start_id offset = []
default_from (suc count) start_id offset =
    (start_id + offset, 5000 + 100 * (offset % 50)) ∷ default_from count start_id (offset + 1)

unfoldable pub default_membership : ℕ → ℕ → List (ℕ × Score)
unfolding default_from
default_membership count start_id = default_from count start_id 0

-- `current_members`
abbrev pub current_members : MockService → List (ℕ × Score)
current_members m = m.members

-- `MockDeepSeeService(members=..., page_size=...)`, every behaviour off
abbrev pub fresh_service : List (ℕ × Score) → ℕ → MockService
fresh_service members page_size = record {
  members = members;
  page_size = page_size;
  require_auth = false;
  bitmap_snapshot = false;
  malformed_bitmap = false;
  invalid_key_type = false;
  stale_data_as_of = false;
  duplicate_delivery = false;
  out_of_order = false;
  redeliver_from_start = false;
  events = [];
  seq = 0;
  failures = [];
  call_count = 0;
  last_case_request = none;
}

-- 2026-07-01 and 2000-01-01, at 00:00 UTC
abbrev pub base_time : ℕ
base_time = 1_782_864_000

abbrev pub stale_time : ℕ
stale_time = 946_684_800

abbrev pub failure_of : String → Option FailureKind
failure_of kind =
    if str_eq kind "retryable"
    then some FailureKind.retryable
    else if str_eq kind "terminal"
    then some FailureKind.terminal
    else if str_eq kind "auth"
    then some FailureKind.auth
    else if str_eq kind "timeout"
    then some FailureKind.timeout
    else if str_eq kind "rate_limit"
    then some FailureKind.rate_limit
    else none

queue : Option FailureKind → ℕ → Exec MockService ⊤
queue none count m = (err (value_error "Unknown failure kind"), m)
queue (some kind) count m = (ok tt, record m { failures = m.failures ++ replicate count kind })

unfoldable pub queue_failure : String → ℕ → Exec MockService ⊤
unfolding queue
queue_failure kind count = queue (failure_of kind) count

-- `_raise_failure`
abbrev pub failure_error : FailureKind → Error
failure_error FailureKind.retryable =
    deepsee_error ErrorClass.retryable
      (record { code = "SERVICE_UNAVAILABLE"; retryable = true; retry_after_ms = none })
failure_error FailureKind.timeout =
    deepsee_error ErrorClass.timeout
      (record { code = "TIMEOUT"; retryable = true; retry_after_ms = none })
failure_error FailureKind.rate_limit =
    deepsee_error ErrorClass.rate_limit
      (record { code = "RATE_LIMITED"; retryable = true; retry_after_ms = some 100 })
failure_error FailureKind.auth =
    deepsee_error ErrorClass.auth
      (record { code = "AUTH_FAILED"; retryable = false; retry_after_ms = none })
failure_error FailureKind.terminal =
    deepsee_error ErrorClass.terminal
      (record { code = "INTERNAL_ERROR"; retryable = false; retry_after_ms = none })

-- `not token`: no token, or an empty one
abbrev pub missing : Option String → Bool
missing none = true
missing (some t) = str_eq t ""

-- `_enter_call`, once the call is counted: a queued failure is taken first
admit : List FailureKind → Option String → Exec MockService ⊤
admit (kind ∷ rest) token m = (err (failure_error kind), record m { failures = rest })
admit [] token m =
    (if m.require_auth && missing token then err (failure_error FailureKind.auth) else ok tt, m)

unfoldable pub enter_call : Option String → Exec MockService ⊤
unfolding admit
enter_call token m = admit m.failures token (record m { call_count = m.call_count + 1 })

-- `_watermark`, which `committed_watermark` gives, `_data_as_of`, `_entity_key_type`
unfoldable pub watermark : MockService → String
watermark m = zero_padded 12 m.seq

unfoldable pub data_as_of : MockService → Stamp
data_as_of m = if m.stale_data_as_of then instant stale_time else instant (base_time + m.seq)

unfoldable pub entity_key_type : MockService → String
entity_key_type m = if m.invalid_key_type then "STRING" else supported_entity_key_type

-- The event that `_record_event` makes under the number `seq`.
abbrev pub event_at : ℕ → ℕ → ChangeType → Option Score → ChangeEvent
event_at seq entity_id kind score = record {
  event_id = text_append "evt-" (zero_padded 8 seq);
  entity_id = entity_id;
  change_type = kind;
  score = score;
  effective_at = instant (base_time + seq);
  watermark = zero_padded 12 seq;
}

unfoldable pub record_event : ℕ → ChangeType → Option Score → Exec MockService ChangeEvent
record_event entity_id kind score m =
    let event = event_at (m.seq + 1) entity_id kind score in
    (ok event, record m { seq = m.seq + 1; events = m.events ++ event ∷ [] })

unfoldable pub add_member : ℕ → Score → Exec MockService ChangeEvent
unfolding record_event
add_member entity_id score m =
    record_event entity_id added (some score)
      (record m { members = insert entity_id score m.members })

unfoldable pub remove_member : ℕ → Exec MockService ChangeEvent
unfolding record_event
remove_member entity_id m =
    record_event entity_id removed none (record m { members = erase entity_id m.members })

unfoldable pub change_score : ℕ → Score → Exec MockService ChangeEvent
unfolding record_event
change_score entity_id score m =
    if is_some (lookup entity_id m.members)
    then record_event entity_id score_changed (some score)
        (record m { members = insert entity_id score m.members })
    else (err (value_error "is not a current member"), m)

-- `f"deepsee://case/{entity_id}"`
unfoldable pub evidence_ref : ℕ → String
unfolding str_of
evidence_ref entity_id = text_append "deepsee://case/" (str_of entity_id)
