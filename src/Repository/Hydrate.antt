-- ===== src/Repository/Hydrate.antt =====
-- context_catalog.py: `hydrate_runtime`, which restores the engine's stores from the tables.
pub mod Checked
pub mod Digests
use contextql_server.Prelude.{
  ℕ, ⊤, String, Bool, true, false, not, Option, none, some, List, [], ◌∷◌, map, filter, find,
  sorted, str_eq, ◌==◌, leb, if◌then◌else◌,
}
use contextql_server.Errors.{Error, value_error, Result, ok, err, raise_if, ◌>>◌ as andThen}
use contextql_server.Errors.Exec.{Exec, pure, lift, ◌>>=◌, ◌>>◌}
use contextql_server.Repository.{
  SnapshotState, building, current, superseded, PayloadRow, SnapshotRow, HistoryRow, Tables,
  payload_at,
}
use contextql_server.Repository.Snapshots.{Codec, MembershipChange}
use contextql_server.Repository.Contexts.{text_le}

-- The arguments of the engine's `membership.deserialize`.
pub record Restored : Type 0 where
  pub context_id : String
  pub payload : List ℕ
  pub computed_at : ℕ
  pub data_as_of : ℕ
  pub definition_hash : String
  pub source_watermark : Option String
  pub scores : List (ℕ × ℕ)
  pub storage_kind : String

-- The engine's stores, as they change: `membership.deserialize` answers with the version that it
-- gives, and `history.append` takes the events with their contexts.
pub record Runtime (W : Type 0) : Type 0 where
  pub deserialize : Restored → Exec W ℕ
  pub append : List (String × MembershipChange) → Exec W ⊤
  pub decode_scores : Option (List ℕ) → Result (List (ℕ × ℕ))

abbrev pub corrupt_membership : Error
corrupt_membership = value_error "[E201] corrupt membership payload"

abbrev pub corrupt_scores : Error
corrupt_scores = value_error "[E201] corrupt score payload"

abbrev pub not_contiguous : Error
not_contiguous = value_error "[E201] non-contiguous snapshot versions"

-- `state IN ('current', 'superseded')`
abbrev pub is_published : SnapshotState → Bool
is_published SnapshotState.building = false
is_published _ = true

-- `ORDER BY s.context_id, s.version`
abbrev pub by_version : SnapshotRow → SnapshotRow → Bool
by_version a b =
    if str_eq a.context_id b.context_id
    then leb a.version b.version
    else text_le a.context_id b.context_id

-- the join with the payloads, whose key is (context_id, version)
abbrev pub with_payload :
    Option PayloadRow
    → SnapshotRow
    → List (SnapshotRow × PayloadRow)
    → List (SnapshotRow × PayloadRow)
with_payload none s rest = rest
with_payload (some p) s rest = (s, p) ∷ rest

abbrev pub joined : List PayloadRow → List SnapshotRow → List (SnapshotRow × PayloadRow)
joined payloads [] = []
joined payloads (s ∷ rows) =
    with_payload (find (payload_at s.context_id s.version) payloads) s (joined payloads rows)

abbrev pub published : Tables → List (SnapshotRow × PayloadRow)
published t = joined t.payloads (sorted by_version (filter (λ s. is_published s.state) t.snapshots))

abbrev pub change_of : HistoryRow → String × MembershipChange
change_of r = (
  r.context_id,
  record {
    entity_id = r.transaction_id;
    change_type = r.change_type;
    recorded_at = r.recorded_at;
    effective_at = r.effective_at;
    context_version = r.context_version;
    source = r.source;
    evidence_ref = r.evidence_ref;
    previous_score = r.previous_score;
    new_score = r.new_score;
  },
)

-- the checksum of the scores, where there are any
abbrev pub scores_match : Codec → Option (List ℕ) → String → Bool
scores_match codec none digest = true
scores_match codec (some blob) digest = str_eq (codec.sha256 blob) digest

abbrev pub verify : Codec → SnapshotRow → PayloadRow → Result ⊤
verify codec s p =
    andThen
      (raise_if (not (str_eq (codec.sha256 p.membership_blob) s.membership_sha256))
        corrupt_membership)
      (raise_if (not (scores_match codec p.score_blob s.score_sha256)) corrupt_scores)

module _ {W : Type 0} (engine : Runtime W) where
  -- the body of the loop, after the checksums
  unfoldable pub restore : SnapshotRow → PayloadRow → Exec W ⊤
  restore s p = do
    scores ← lift (engine.decode_scores p.score_blob)
    version ← engine.deserialize (record {
      context_id = s.context_id;
      payload = p.membership_blob;
      computed_at = s.computed_at;
      data_as_of = s.data_as_of;
      definition_hash = s.definition_hash;
      source_watermark = s.source_watermark;
      scores = scores;
      storage_kind = s.storage_kind;
    })
    lift (raise_if (not (version == s.version)) not_contiguous)

  unfoldable pub restore_all : Codec → List (SnapshotRow × PayloadRow) → Exec W ⊤
  restore_all codec [] = pure tt
  restore_all codec ((s, p) ∷ rows) = do
    lift (verify codec s p)
    restore s p
    restore_all codec rows

  -- `hydrate_runtime`
  unfoldable pub hydrate_runtime : Codec → Tables → Exec W ⊤
  unfolding restore_all restore
  hydrate_runtime codec t = do
    restore_all codec (published t)
    engine.append (map change_of t.history)
