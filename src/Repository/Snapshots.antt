-- ===== src/Repository/Snapshots.antt =====
-- `promote_snapshot` and `prune_history`, statement by statement.
pub mod Anchor
pub mod Current
pub mod Published
pub mod Prune
use contextql_server.Prelude.{
  ℕ, ⊤, String, Bool, not, ◌&&◌, ◌||◌, Option, none, some, List, [], ◌∷◌, ◌++◌, map, filter, any,
  count, length, str_eq, ◌==◌, ltb, leb, if◌then◌else◌,
}
use contextql_server.Prelude.Dict.{mem_str}
use contextql_server.Errors.{integrity_error, Result, ok, err}
use contextql_server.Sql.{Statement, Faults, transaction}
use contextql_server.DeepSee.Decimal.{str_of}
use Prim.Native.String.{◌++◌ as text_append}
use contextql_server.Repository.{
  building, current, superseded, PayloadRow, SnapshotRow, HistoryRow, ContextRow, Tables,
  context_at, snapshot_at, payload_at, current_of,
}

-- What `promote_snapshot` reads of the catalog entry.
pub record Entry : Type 0 where
  pub context_id : String
  pub version : ℕ
  pub definition_hash : String
  pub last_refreshed_at : Option ℕ
  pub data_as_of : Option ℕ

-- What it reads of the engine's `MembershipSnapshot`.
pub record MembershipSnapshot : Type 0 where
  pub version : ℕ
  pub storage_kind : String
  pub member_count : ℕ
  pub computed_at : ℕ
  pub data_as_of : ℕ
  pub valid_from : ℕ
  pub definition_hash : String
  pub source_watermark : Option String

-- `contextql.history.MembershipChange`
pub record MembershipChange : Type 0 where
  pub entity_id : ℕ
  pub change_type : String
  pub recorded_at : ℕ
  pub effective_at : ℕ
  pub context_version : ℕ
  pub source : String
  pub evidence_ref : Option String
  pub previous_score : Option ℕ
  pub new_score : Option ℕ

-- `INSERT INTO context_snapshot_payloads`, whose key is (context_id, version)
abbrev pub insert_payload : PayloadRow → Statement Tables
insert_payload row t =
    if any (payload_at row.context_id row.version) t.payloads
    then err (integrity_error "UNIQUE constraint failed")
    else ok (record t { payloads = t.payloads ++ row ∷ [] })

-- `INSERT INTO context_snapshots`, which is unique in (context_id, version)
abbrev pub insert_snapshot : SnapshotRow → Statement Tables
insert_snapshot row t =
    if any (snapshot_at row.context_id row.version) t.snapshots
    then err (integrity_error "UNIQUE constraint failed")
    else ok (record t { snapshots = t.snapshots ++ row ∷ [] })

abbrev pub supersede_row : String → ℕ → SnapshotRow → SnapshotRow
supersede_row context_id at r =
    if current_of context_id r then record r { state = superseded; valid_to = some at } else r

-- `SET state = 'superseded', valid_to = ? WHERE context_id = ? AND state = 'current'`
abbrev pub supersede : String → ℕ → Statement Tables
supersede context_id at t =
    ok (record t { snapshots = map (supersede_row context_id at) t.snapshots })

abbrev pub make_current_row : String → ℕ → SnapshotRow → SnapshotRow
make_current_row context_id version r =
    if snapshot_at context_id version r then record r { state = current } else r

-- `SET state = 'current' WHERE context_id = ? AND version = ?`, under the unique index over the
-- current snapshots of a context
abbrev pub make_current : String → ℕ → Statement Tables
make_current context_id version t =
    let rows = map (make_current_row context_id version) t.snapshots in
    if ltb 1 (count (current_of context_id) rows)
    then err (integrity_error "UNIQUE constraint failed")
    else ok (record t { snapshots = rows })

abbrev pub point_row : Entry → ℕ → ℕ → ContextRow → ContextRow
point_row e version now r =
    if context_at e.context_id e.version r
    then record r {
      current_snapshot_version = some version;
      last_refreshed_at = e.last_refreshed_at;
      data_as_of = e.data_as_of;
      last_refresh_error = none;
      updated_at = now;
    }
    else r

-- `UPDATE contexts SET current_snapshot_version = ? ...`
abbrev pub point_context : Entry → ℕ → ℕ → Statement Tables
point_context e version now t =
    ok (record t { contexts = map (point_row e version now) t.contexts })

-- the name that `uuid.uuid5` hashes
abbrev pub event_name : String → ℕ → MembershipChange → String
event_name context_id version event = text_append context_id (
    text_append ":" (
      text_append (str_of version) (
        text_append ":"
          (text_append (str_of event.entity_id) (text_append ":" event.change_type)))))

abbrev pub same_event : String → String → HistoryRow → Bool
same_event context_id event_id r = str_eq r.context_id context_id && str_eq r.event_id event_id

abbrev pub change_types : List String
change_types = "added" ∷ "removed" ∷ "score_changed" ∷ []

-- `INSERT OR IGNORE INTO context_membership_history`: a row that breaks the unique index on
-- (context_id, event_id) or the check of the change type is skipped
abbrev pub insert_history : HistoryRow → Statement Tables
insert_history row t = ok (
    if any (same_event row.context_id row.event_id) t.history
      || not (mem_str row.change_type change_types)
    then t
    else record t { history = t.history ++ row ∷ [] })

-- What comes from elsewhere: `hashlib.sha256(...).hexdigest()`, `uuid.uuid5(NAMESPACE_URL, ...)` and
-- the engine's `encode_scores`.
pub record Codec : Type 0 where
  pub sha256 : List ℕ → String
  pub uuid5 : String → String
  pub encode_scores : List (ℕ × ℕ) → List ℕ

module _ (codec : Codec) (e : Entry) (snapshot : MembershipSnapshot) where
  abbrev pub history_row : MembershipChange → HistoryRow
  history_row event = record {
    context_id = e.context_id;
    transaction_id = event.entity_id;
    change_type = event.change_type;
    recorded_at = event.recorded_at;
    effective_at = event.effective_at;
    context_version = event.context_version;
    definition_version = e.version;
    definition_hash = e.definition_hash;
    event_id = codec.uuid5 (event_name e.context_id snapshot.version event);
    source = event.source;
    evidence_ref = event.evidence_ref;
    previous_score = event.previous_score;
    new_score = event.new_score;
  }

  abbrev pub snapshot_row : List ℕ → List ℕ → SnapshotRow
  snapshot_row membership scores = record {
    context_id = e.context_id;
    version = snapshot.version;
    storage_kind = snapshot.storage_kind;
    member_count = snapshot.member_count;
    serialized_bytes = length membership;
    computed_at = snapshot.computed_at;
    data_as_of = snapshot.data_as_of;
    valid_from = snapshot.valid_from;
    valid_to = none;
    definition_hash = snapshot.definition_hash;
    definition_version = e.version;
    source_watermark = snapshot.source_watermark;
    membership_sha256 = codec.sha256 membership;
    score_sha256 = codec.sha256 scores;
    state = building;
  }

  abbrev pub payload_row : List ℕ → List ℕ → PayloadRow
  payload_row membership scores = record {
    context_id = e.context_id;
    version = snapshot.version;
    membership_blob = membership;
    score_blob = some scores;
  }

  -- the statements between BEGIN and COMMIT
  abbrev pub promotion : List ℕ → List ℕ → List MembershipChange → ℕ → List (Statement Tables)
  promotion membership scores events now =
      insert_payload (payload_row membership scores)
      ∷ insert_snapshot (snapshot_row membership scores)
      ∷ supersede e.context_id snapshot.computed_at
      ∷ make_current e.context_id snapshot.version
      ∷ point_context e snapshot.version now
      ∷ map (λ event. insert_history (history_row event)) events

  -- `promote_snapshot`; `now` is `datetime('now')`
  unfoldable pub promote_snapshot :
      Faults → List ℕ → List (ℕ × ℕ) → List MembershipChange → ℕ → Tables → Result ⊤ × Tables
  unfolding transaction
  promote_snapshot faults membership scores events now =
      transaction faults (promotion membership (codec.encode_scores scores) events now)

-- `ORDER BY data_as_of DESC, version DESC`
abbrev pub later : SnapshotRow → SnapshotRow → Bool
later a b =
    ltb b.data_as_of a.data_as_of || (a.data_as_of == b.data_as_of && ltb b.version a.version)

abbrev pub prefer : SnapshotRow → Option SnapshotRow → SnapshotRow
prefer r none = r
prefer r (some b) = if later b r then b else r

-- `WHERE context_id = ? AND data_as_of <= ?`, the first in that order
pub anchor_of : String → ℕ → List SnapshotRow → Option SnapshotRow
anchor_of context_id cutoff [] = none
anchor_of context_id cutoff (r ∷ rs) =
    let best = anchor_of context_id cutoff rs in
    if str_eq r.context_id context_id && leb r.data_as_of cutoff then some (prefer r best) else best

abbrev pub pruning : String → ℕ → ℕ → List (Statement Tables)
pruning context_id version cutoff =
    (λ t. ok (record t {
      payloads =
          filter (λ r. not (str_eq r.context_id context_id && ltb r.version version)) t.payloads;
    }))
    ∷ (λ t. ok (record t {
      snapshots =
          filter (λ r. not (str_eq r.context_id context_id && ltb r.version version)) t.snapshots;
    }))
    ∷ (λ t. ok (record t {
      history =
          filter (λ r. not (str_eq r.context_id context_id && ltb r.effective_at cutoff)) t.history;
    }))
    ∷ []

prune_from : Faults → String → ℕ → Option SnapshotRow → Tables → Result ⊤ × Tables
unfolding transaction
prune_from faults context_id cutoff none t = (ok tt, t)
prune_from faults context_id cutoff (some anchor) t =
    transaction faults (pruning context_id anchor.version cutoff) t

unfoldable pub prune_history : Faults → String → ℕ → Tables → Result ⊤ × Tables
unfolding anchor_of prune_from
prune_history faults context_id cutoff t =
    prune_from faults context_id cutoff (anchor_of context_id cutoff t.snapshots) t
