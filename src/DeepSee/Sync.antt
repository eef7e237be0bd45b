-- ===== src/DeepSee/Sync.antt =====
-- app/connectors/deepsee/synchronizer.py. The membership store of the contextql engine and the
-- durable state repository act on the same world `W` as the client.
pub mod Changes
pub mod Run
use contextql_server.Prelude.{ℕ, zero, suc, ◌+◌, String, Option, none, some, List, [], ◌∷◌, ◌++◌, ⊤}
use contextql_server.Prelude.Dict.{update}
use contextql_server.Errors.{value_error, contract_error, Result, ok, err}
use contextql_server.Errors.Exec.{Exec, pure, raise, ◌>>=◌, ◌>>◌}
use contextql_server.DeepSee.Models.{
  Score, Stamp, instant, unreadable, WireId, num, other, ChangeEvent, SnapshotPage,
}
use contextql_server.DeepSee.Client.{DeepSeeClient, Service, fetch_snapshot, fetch_changes}

-- The keyword arguments of `stage_snapshot` and `put_snapshot`, and of `stage_delta` and
-- `apply_delta`.
pub record SnapshotArgs : Type 0 where
  pub members : List ℕ
  pub computed_at : ℕ
  pub data_as_of : ℕ
  pub source_watermark : String
  pub scores : List (ℕ × Score)

pub record DeltaArgs : Type 0 where
  pub additions : List ℕ
  pub removals : List ℕ
  pub score_changes : List (ℕ × Score)
  pub computed_at : ℕ
  pub data_as_of : ℕ
  pub source_watermark : String

-- `contextql.membership.ContextMembershipStore`; a store without the staged path has `none` there.
pub record MembershipStore (W Staged Snapshot : Type 0) : Type 0 where
  pub stage_snapshot : Option (String → SnapshotArgs → Exec W Staged)
  pub put_snapshot : String → SnapshotArgs → Exec W Snapshot
  pub stage_delta : Option (String → DeltaArgs → Exec W Staged)
  pub apply_delta : String → DeltaArgs → Exec W Snapshot
  pub commit_snapshot : Staged → Exec W Snapshot

pub record StateRepository (W : Type 0) : Type 0 where
  pub load : String → Exec W (Option String × List String)
  pub commit : String → String → List (String × String) → Exec W ⊤

pub record SyncReport : Type 0 where
  pub applied_additions : ℕ
  pub applied_removals : ℕ
  pub applied_score_changes : ℕ
  pub duplicates_skipped : ℕ
  pub out_of_order_rejected : ℕ
  pub committed_watermark : String

pub applied_total : SyncReport → ℕ
applied_total r = r.applied_additions + r.applied_removals + r.applied_score_changes

-- The synchronizer's two attributes that change, beside the world.
pub record Session (W : Type 0) : Type 0 where
  pub world : W
  pub committed_watermark : Option String
  pub seen_event_ids : List String

abbrev pub on_world : {W A : Type 0} → Exec W A → Exec (Session W) A
on_world call n = let (r, w) = call n.world in (r, record n { world = w })

-- `MAX_PAGES`
abbrev pub max_pages : ℕ
max_pages = 10_000

abbrev pub nums : List WireId → List ℕ
nums [] = []
nums (num n ∷ ids) = n ∷ nums ids
nums (other ∷ ids) = nums ids

-- `page.entity_ids or ()`, which the client has checked to be numbers
abbrev pub ids_of : SnapshotPage → List ℕ
ids_of page = elim page.entity_ids [ none ↦ [] | some ids ↦ nums ids ]

-- The variables of the loop in `_collect_id_pages`.
pub record Collected : Type 0 where
  pub members : List ℕ
  pub scores : List (ℕ × Score)
  pub data_as_of : Stamp
  pub watermark : String

abbrev pub first_of_page : SnapshotPage → Collected
first_of_page page = record {
  members = ids_of page;
  scores = page.scores;
  data_as_of = page.data_as_of;
  watermark = page.watermark;
}

abbrev pub add_page : Collected → SnapshotPage → Collected
add_page seen page = record {
  members = seen.members ++ ids_of page;
  scores = update seen.scores page.scores;
  data_as_of = page.data_as_of;
  watermark = page.watermark;
}

-- `parse_iso`
abbrev pub parse_iso : Stamp → Result ℕ
parse_iso (instant t) = ok t
parse_iso unreadable = err (value_error "Invalid isoformat string")

module _ {W : Type 0} (c : DeepSeeClient) (s : Service W) where
  -- the loop of `_collect_id_pages`; `left` is `MAX_PAGES - pages`
  unfoldable pub collect_pages : ℕ → Option String → Collected → Exec W Collected
  collect_pages left none seen = pure seen
  collect_pages zero (some cursor) seen = raise contract_error
  collect_pages (suc left) (some cursor) seen = do
    page ← fetch_snapshot c s (some cursor)
    collect_pages left page.next_cursor (add_page seen page)

  -- the loop of `_fetch_all_changes`; `left` is `MAX_PAGES - pages`
  unfoldable pub fetch_pages :
      ℕ → String → Option String → List ChangeEvent → Exec W (List ChangeEvent × Stamp)
  fetch_pages zero since cursor events = raise contract_error
  fetch_pages (suc left) since cursor events = do
    batch ← fetch_changes c s since cursor
    elim batch.next_cursor [
      | none ↦ pure (events ++ batch.events, batch.data_as_of)
      | some next ↦ fetch_pages left since (some next) (events ++ batch.events)
    ]
