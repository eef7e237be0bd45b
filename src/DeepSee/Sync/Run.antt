-- ===== src/DeepSee/Sync/Run.antt =====
-- `DeepSeeSynchronizer`: its constructor, `bootstrap` and `sync_once`.
pub mod Delta
pub mod Safety
pub mod Marks
pub mod CaughtUp
pub mod Returns
use contextql_server.Prelude.{
  ℕ, String, Option, none, some, List, [], ◌∷◌, ◌++◌, ⊤, length, leb, sorted, map,
}
use contextql_server.Prelude.Dict.{update, keys}
use contextql_server.Errors.{contract_error, Result, ok, err}
use contextql_server.Errors.Exec.{Exec, pure, lift, gets, ◌>>=◌, ◌>>◌}
use contextql_server.DeepSee.Models.{Stamp, ChangeEvent, SnapshotPage}
use contextql_server.DeepSee.Client.{
  DeepSeeClient, Service, fetch_snapshot, decode_membership_bitmap,
}
use contextql_server.DeepSee.Sync.{
  DeltaArgs, MembershipStore, StateRepository, SyncReport, Session, on_world, max_pages, Collected,
  first_of_page, collect_pages, fetch_pages, parse_iso,
}
use contextql_server.DeepSee.Sync.Changes.{
  Filtered, filter_events, by_watermark, FoldedChanges, fold_events, last_watermark, event_ids,
}

-- `{event.event_id: event.watermark for event in ordered}`
abbrev pub event_watermarks : List ChangeEvent → List (String × String)
event_watermarks = map (λ e. (e.event_id, e.watermark))

-- the keyword arguments of the delta
abbrev pub delta_args : FoldedChanges → ℕ → ℕ → String → DeltaArgs
delta_args folded computed_at data_as_of watermark = record {
  additions = sorted leb (keys folded.additions);
  removals = sorted leb folded.removals;
  score_changes = update folded.additions folded.score_changes;
  computed_at = computed_at;
  data_as_of = data_as_of;
  source_watermark = watermark;
}

abbrev pub report : FoldedChanges → Filtered → String → SyncReport
report folded filtered watermark = record {
  applied_additions = length folded.additions;
  applied_removals = length folded.removals;
  applied_score_changes = length folded.score_changes;
  duplicates_skipped = filtered.duplicates;
  out_of_order_rejected = filtered.out_of_order;
  committed_watermark = watermark;
}

abbrev pub no_folded : FoldedChanges
no_folded = record { additions = []; removals = []; score_changes = [] }

module _ {W Staged Snapshot : Type 0} (m : MembershipStore W Staged Snapshot) where
  -- stage and commit where the store can stage, and a plain call where it cannot
  abbrev pub publish :
      {Args : Type 0}
      → Option (String → Args → Exec W Staged)
      → (String → Args → Exec W Snapshot)
      → String
      → Args
      → Exec W Snapshot
  publish none plain context_id args = plain context_id args
  publish (some stage) plain context_id args = do
    staged ← stage context_id args
    m.commit_snapshot staged

-- the durable commit, where there is a repository
abbrev pub commit_state :
    {W : Type 0} → Option (StateRepository W) → String → String → List (String × String) → Exec W ⊤
commit_state none context_id watermark events = pure tt
commit_state (some r) context_id watermark events = r.commit context_id watermark events

-- `__init__`
unfoldable pub start :
    {W : Type 0} → Option (StateRepository W) → String → W → Result (Session W) × W
start none context_id w =
    (ok (record { world = w; committed_watermark = none; seen_event_ids = [] }), w)
start (some r) context_id w =
    let (loaded, w') = r.load context_id w in
    elim loaded [
      | err e ↦ (err e, w')
      | ok (watermark, seen) ↦
          (ok (record { world = w'; committed_watermark = watermark; seen_event_ids = seen }), w')
    ]

module _ {W Staged Snapshot : Type 0} (s : Service W) (m : MembershipStore W Staged Snapshot)
    (repository : Option (StateRepository W)) (context_id : String) where
  -- the part of `sync_once` after the empty case: what is applied, and its watermark
  unfoldable pub apply_changes : List ChangeEvent → Stamp → Exec W (FoldedChanges × String)
  unfolding fold_events
  apply_changes ordered data_as_of = do
    folded ← lift (fold_events ordered)
    now ← gets s.now
    as_of ← lift (parse_iso data_as_of)
    publish m m.stage_delta m.apply_delta context_id
        (delta_args folded now as_of (last_watermark "" ordered))
    commit_state repository context_id (last_watermark "" ordered) (event_watermarks ordered)
    pure (folded, last_watermark "" ordered)

-- the last assignment of `bootstrap`
adopt : {W Snapshot : Type 0} → Result (Snapshot × String) × Session W → Result Snapshot × Session W
adopt (ok (snapshot, watermark), n) =
    (ok snapshot, record n { committed_watermark = some watermark })
adopt (err e, n) = (err e, n)

-- the last two assignments of `sync_once`, and its report
pub conclude :
    {W : Type 0}
    → Filtered
    → List ChangeEvent
    → Result (FoldedChanges × String) × Session W
    → Result SyncReport × Session W
conclude filtered ordered (err e, n) = (err e, n)
conclude filtered ordered (ok (folded, watermark), n) = (
  ok (report folded filtered watermark),
  record n {
    committed_watermark = some watermark;
    seen_event_ids = event_ids ordered ++ n.seen_event_ids;
  },
)

module _ {W Staged Snapshot : Type 0} (c : DeepSeeClient) (s : Service W)
    (m : MembershipStore W Staged Snapshot) (repository : Option (StateRepository W))
    (context_id : String) (deserialize : List ℕ → Option (List ℕ)) where
  -- the first page's bitmap, or the ids of all pages
  gather : SnapshotPage → Exec W Collected
  unfolding collect_pages decode_membership_bitmap
  gather page = elim page.membership_bitmap [
    | some payload ↦ do
      members ← lift (decode_membership_bitmap c deserialize page)
      pure (record (first_of_page page) { members = members })
    | none ↦ collect_pages c s 9_999 page.next_cursor (first_of_page page)
  ]

  -- `bootstrap`, as far as it acts on the world
  bootstrap_world : Exec W (Snapshot × String)
  unfolding fetch_snapshot gather
  bootstrap_world = do
    first_page ← fetch_snapshot c s none
    seen ← gather first_page
    now ← gets s.now
    data_as_of ← lift (parse_iso seen.data_as_of)
    snapshot ← publish m m.stage_snapshot m.put_snapshot context_id (record {
      members = seen.members;
      computed_at = now;
      data_as_of = data_as_of;
      source_watermark = seen.watermark;
      scores = seen.scores;
    })
    commit_state repository context_id seen.watermark []
    pure (snapshot, seen.watermark)

  unfoldable pub bootstrap : Exec (Session W) Snapshot
  unfolding bootstrap_world adopt
  bootstrap n = adopt (on_world bootstrap_world n)

  pub apply_filtered : String → Stamp → Filtered → List ChangeEvent → Exec (Session W) SyncReport
  unfolding apply_changes conclude by_watermark
  apply_filtered committed data_as_of filtered [] n = (ok (report no_folded filtered committed), n)
  apply_filtered committed data_as_of filtered (e ∷ es) n =
      let ordered = by_watermark (e ∷ es) in
      conclude filtered ordered
        (on_world (apply_changes s m repository context_id ordered data_as_of) n)

  sync_from : Option String → Exec (Session W) SyncReport
  unfolding fetch_pages filter_events apply_filtered
  sync_from none n = (err contract_error, n)
  sync_from (some committed) n =
      (do
        (events, data_as_of) ← on_world (fetch_pages c s max_pages committed none [])
        filtered ← lift (filter_events n.seen_event_ids committed events)
        apply_filtered committed data_as_of filtered filtered.applicable)
        n

  unfoldable pub sync_once : Exec (Session W) SyncReport
  unfolding sync_from
  sync_once n = sync_from n.committed_watermark n
