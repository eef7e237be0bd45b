-- ===== src/Examples/Sync.antt =====
-- The synchronizer's theorems, and whole runs of it, on the bench.
use contextql_server.Prelude.{ℕ, ⊤, none, some, List, [], ◌∷◌, ◌++◌, ◌≡◌, refl, sym, ap}
use contextql_server.Prelude.Int.{pos}
use contextql_server.Errors.{Result, ok}
use contextql_server.SyncState.{commit}
use contextql_server.DeepSee.Decimal.{int_of_text, zero_padded}
use contextql_server.DeepSee.Auth.{strip}
use contextql_server.DeepSee.Models.{ChangeEvent, added, removed, score_changed, instant}
use contextql_server.DeepSee.Client.{fetch_changes}
use contextql_server.DeepSee.Mock.{FailureKind, base_time, event_at}
use contextql_server.DeepSee.Mock.Log.{Coherent, change-Coherent}
use contextql_server.Prelude.Dict.{lookup}
use contextql_server.DeepSee.Mock.{add_member, remove_member, change_score}
use contextql_server.DeepSee.Mock.Bench.{mock}
use contextql_server.DeepSee.Sync.{Session, DeltaArgs}
use contextql_server.DeepSee.Sync.Changes.{
  Filtered, filter_events, by_watermark, last_watermark, event_ids, FoldedChanges, fold_events,
}
use contextql_server.DeepSee.Sync.Changes.Filter.{IsFiltered, filter_events-IsFiltered}
use contextql_server.DeepSee.Sync.Changes.Redelivery.{KeepsNone, redelivery_applies_nothing}
use contextql_server.DeepSee.Sync.Changes.Zeros.{with_ones, fold_events-zero_is_one}
use contextql_server.DeepSee.Sync.Changes.Replay.{replay, net, fold_events-eq-replay}
use contextql_server.DeepSee.Sync.Run.{bootstrap, sync_once, apply_changes, publish}
use contextql_server.DeepSee.Sync.Run.Delta.{delta_result, apply_changes-eq-replay}
use contextql_server.DeepSee.Sync.Run.Safety.{
  SameAttributes, sync_once-IfFailed, bootstrap-IfFailed,
}
use contextql_server.Examples.{World, world_of, two_members, service, store, repository, client}

-- An entity comes, is rescored, and another goes.
abbrev feed : List ChangeEvent
feed =
    event_at 1 9 added (some 2000)
    ∷ event_at 2 9 score_changed (some 4000)
    ∷ event_at 3 3 removed none
    ∷ []

abbrev folded : FoldedChanges
folded = record { additions = (9, 4000) ∷ []; removals = 3 ∷ []; score_changes = [] }

fold_events-eq-replay_example : net (λ k. some 1) folded 9 ≡ replay (λ k. some 1) feed 9
unfolding fold_events
fold_events-eq-replay_example =
    fold_events-eq-replay feed folded (λ k. some 1) 9 ((refl, λ h. cc), (tt, (tt, tt))) refl

-- an addition with a score of zero, of which the fold keeps one
abbrev zeros : List ChangeEvent
zeros =
    event_at 1 9 added (some 0) ∷ event_at 2 7 removed none ∷ event_at 3 4 added (some 5000) ∷ []

abbrev zeros_folded : FoldedChanges
zeros_folded = record {
  additions = (9, 10_000) ∷ (4, 5000) ∷ [];
  removals = 7 ∷ [];
  score_changes = [];
}

fold_events-zero_is_one_example :
    net (λ k. none) zeros_folded 9 ≡ replay (λ k. none) (with_ones zeros) 9
unfolding fold_events
fold_events-zero_is_one_example =
    fold_events-zero_is_one zeros zeros_folded (λ k. none) 9 (refl, (tt, (refl, tt))) refl

zero_without_fold : replay (λ k. none) zeros 9 ≡ some 0
unfolding replay
zero_without_fold = refl

-- The last event is late, and the second is delivered twice.
abbrev messy : List ChangeEvent
messy =
    event_at 12 9 added (some 2000)
    ∷ event_at 11 7 removed none
    ∷ event_at 11 7 removed none
    ∷ event_at 4 3 removed none
    ∷ []

abbrev kept : Filtered
kept = record {
  applicable = event_at 12 9 added (some 2000) ∷ event_at 11 7 removed none ∷ [];
  duplicates = 1;
  out_of_order = 1;
}

filter_events-IsFiltered_example : IsFiltered ("evt-00000002" ∷ []) (pos 5) [] messy kept
unfolding filter_events int_of_text zero_padded
filter_events-IsFiltered_example =
    filter_events-IsFiltered ("evt-00000002" ∷ []) "000000000005" messy (pos 5) kept refl refl

redelivery_applies_nothing_example : KeepsNone (
    filter_events
      (event_ids (by_watermark kept.applicable) ++ "evt-00000002" ∷ [])
      (last_watermark "" (by_watermark kept.applicable))
      messy)
unfolding filter_events int_of_text zero_padded
redelivery_applies_nothing_example =
    redelivery_applies_nothing ("evt-00000002" ∷ []) "000000000005" messy (pos 5) kept refl refl
      (λ h. cc)

-- A session that has committed the watermark "0".
abbrev synced : World → Session World
synced w = record { world = w; committed_watermark = some "0"; seen_event_ids = [] }

-- Applying the feed to a store with two members.
abbrev before : World
before = record (world_of two_members) { members = λ k. some 1 }

abbrev after : World
after = (apply_changes service store (some repository) "late" feed (instant base_time) before).1

the_documented_effect :
    (args : DeltaArgs) (w w' : World) (x : ⊤)
    → publish store store.stage_delta store.apply_delta "late" args w ≡ (ok x, w')
    → (k : ℕ) → w'.members k ≡ delta_result w.members args k
the_documented_effect args w w' x h k = sym (ap (λ (p : Result ⊤ × World). p.1.members k) h)

apply_changes-eq-replay_example : after.members 9 ≡ replay (λ k. some 1) feed 9
unfolding apply_changes zero_padded commit
apply_changes-eq-replay_example =
    apply_changes-eq-replay service store (some repository) "late" (λ w. w.members)
      the_documented_effect (λ watermark events w k. refl) feed (instant base_time) before after
      (folded, "000000000003") 9 ((refl, λ h. cc), (tt, (tt, tt))) refl

-- the service denies the first call
abbrev broken : Session World
broken = synced (world_of (record two_members { failures = FailureKind.auth ∷ [] }))

sync_once-IfFailed_example :
    SameAttributes broken
      (sync_once client service store (some repository) "late" (λ b. some b) broken).1
unfolding sync_once mock strip fetch_changes
sync_once-IfFailed_example =
    sync_once-IfFailed client service store (some repository) "late" (λ b. some b) broken

bootstrap-IfFailed_example :
    SameAttributes broken
      (bootstrap client service store (some repository) "late" (λ b. some b) broken).1
unfolding bootstrap mock strip
bootstrap-IfFailed_example =
    bootstrap-IfFailed client service store (some repository) "late" (λ b. some b) broken

change-Coherent_example :
    Coherent (λ k. lookup k two_members.members) (add_member 9 2000 two_members).1
    × Coherent (λ k. lookup k two_members.members) (remove_member 9 two_members).1
    × Coherent (λ k. lookup k two_members.members) (change_score 9 2000 two_members).1
unfolding replay
change-Coherent_example =
    change-Coherent (λ k. lookup k two_members.members) two_members 9 2000 (λ k. refl, tt, refl)
