-- ===== src/Examples/Catalog.antt =====
-- Promotions and prunes on small tables.
use contextql_server.Prelude.{
  String, some, none, [], ◌∷◌, ◌≡◌, ◌≢◌, refl, ℕ, if◌then◌else◌, ◌==◌, count, find, length, ◌+◌,
  ◌*◌,
}
use contextql_server.Errors.{err, engine_error, Error}
use contextql_server.DeepSee.Decimal.{str_of}
use contextql_server.Sql.{no_faults}
use contextql_server.Repository.{
  current, PayloadRow, SnapshotRow, HistoryRow, Tables, current_of, payload_at,
}
use contextql_server.Repository.Snapshots.{
  Codec, Entry, MembershipSnapshot, MembershipChange, snapshot_row, payload_row, promote_snapshot,
  prune_history,
}
use contextql_server.Repository.Snapshots.Published.{
  rows_of, promote_snapshot-publishes, promote_snapshot-taken,
}
use contextql_server.Repository.Snapshots.Prune.{IsPruned, prune_history-keeps}

abbrev codec : Codec
codec = record {
  sha256 = λ bytes. if length bytes == 0 then "none" else "some";
  uuid5 = λ name. name;
  encode_scores = λ scores. [];
}

abbrev entry : Entry
entry = record {
  context_id = "late";
  version = 1;
  definition_hash = "d1";
  last_refreshed_at = some 60;
  data_as_of = some 50;
}

abbrev snapshot_of : ℕ → ℕ → MembershipSnapshot
snapshot_of v at = record {
  version = v;
  storage_kind = "roaring64";
  member_count = 2;
  computed_at = at + 10;
  data_as_of = at;
  valid_from = at;
  definition_hash = "d1";
  source_watermark = some "000000000009";
}

-- the first version of the context, and a snapshot of another one
abbrev row_of : String → ℕ → SnapshotRow
row_of c v = record (snapshot_row codec entry (snapshot_of v (10 * v)) (1 ∷ 2 ∷ []) []) {
  context_id = c;
  state = current;
}

abbrev tables : Tables
tables = record {
  contexts = [];
  payloads =
      record {
        context_id = "late";
        version = 1;
        membership_blob = 1 ∷ 2 ∷ [];
        score_blob = some [];
      }
      ∷ [];
  snapshots = row_of "late" 1 ∷ row_of "paid" 1 ∷ [];
  history = [];
}

abbrev event : MembershipChange
event = record {
  entity_id = 7;
  change_type = "removed";
  recorded_at = 60;
  effective_at = 50;
  context_version = 2;
  source = "deepsee";
  evidence_ref = none;
  previous_score = some 8000;
  new_score = none;
}

abbrev promoted : Tables
promoted =
    (promote_snapshot codec entry (snapshot_of 2 50) no_faults (1 ∷ 2 ∷ []) [] (event ∷ []) 70
      tables).1

promote_snapshot-publishes_example :
    (count (current_of "late") promoted.snapshots ≡ 1)
    × (find (current_of "late") promoted.snapshots
        ≡ some (record (snapshot_row codec entry (snapshot_of 2 50) (1 ∷ 2 ∷ []) []) {
          state = current;
        }))
    × (find (payload_at "late" 2) promoted.payloads
        ≡ some (payload_row codec entry (snapshot_of 2 50) (1 ∷ 2 ∷ []) []))
    × ((d : String) → d ≢ "late" → rows_of d promoted.snapshots ≡ rows_of d tables.snapshots)
unfolding promote_snapshot str_of
promote_snapshot-publishes_example =
    promote_snapshot-publishes codec no_faults entry (snapshot_of 2 50) (1 ∷ 2 ∷ []) [] (event ∷ [])
      70 tables refl

-- the disk is full at the fifth statement
abbrev no_space : Error
no_space = engine_error "database or disk is full"

promote_snapshot-taken_example :
    (x : Error) × (promote_snapshot codec entry
        (snapshot_of 1 50)
        no_faults
        (1 ∷ 2 ∷ [])
        []
        (event ∷ [])
        70
        tables
      ≡ (err x, tables))
promote_snapshot-taken_example =
    promote_snapshot-taken codec no_faults entry (snapshot_of 1 50) (1 ∷ 2 ∷ []) [] (event ∷ []) 70
      tables refl

abbrev payload_of : String → ℕ → PayloadRow
payload_of c v = record { context_id = c; version = v; membership_blob = v ∷ []; score_blob = none }

abbrev event_of : ℕ → HistoryRow
event_of at = record {
  context_id = "late";
  change_type = "added";
  recorded_at = at;
  effective_at = at;
  context_version = 1;
  definition_version = 1;
  definition_hash = "d1";
  event_id = "e";
  source = "deepsee";
  evidence_ref = none;
  previous_score = none;
  new_score = some 8000;
  transaction_id = at;
}

abbrev longer : Tables
longer = record tables {
  payloads =
      payload_of "late" 1 ∷ payload_of "late" 2 ∷ payload_of "paid" 1 ∷ payload_of "late" 3 ∷ [];
  history = event_of 10 ∷ event_of 30 ∷ [];
  snapshots = row_of "late" 1 ∷ row_of "late" 2 ∷ row_of "late" 3 ∷ row_of "paid" 1 ∷ [];
}

prune_history-keeps_example : IsPruned "late" 25 longer (prune_history no_faults "late" 25 longer).1
unfolding prune_history
prune_history-keeps_example = prune_history-keeps no_faults "late" 25 longer refl

-- the first version and its payload and event are gone
pruned_payloads : (prune_history no_faults "late" 25 longer).1 ≡ record longer {
  payloads = payload_of "late" 2 ∷ payload_of "paid" 1 ∷ payload_of "late" 3 ∷ [];
  snapshots = row_of "late" 2 ∷ row_of "late" 3 ∷ row_of "paid" 1 ∷ [];
  history = event_of 30 ∷ [];
}
unfolding prune_history
pruned_payloads = refl
