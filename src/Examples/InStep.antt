-- ===== src/Examples/InStep.antt =====
-- A synchronization that catches up with the mock: the service gets a member, and the store follows.
use contextql_server.Prelude.{ℕ, ⊤, some, none, [], ◌≡◌, refl, sym, ap, ◌+◌, arith}
use contextql_server.Prelude.Dict.{lookup}
use contextql_server.Errors.{Result, ok}
use contextql_server.SyncState.{commit}
use contextql_server.DeepSee.Decimal.{int_of_text, str_of_ℤ, zero_padded}
use contextql_server.DeepSee.Auth.{strip}
use contextql_server.DeepSee.Models.{instant}
use contextql_server.DeepSee.Client.{fetch_changes}
use contextql_server.DeepSee.Mock.{MockService, base_time, add_member}
use contextql_server.DeepSee.Mock.Bench.{mock}
use contextql_server.DeepSee.Mock.Log.{change-Coherent}
use contextql_server.DeepSee.Mock.Numbered.{change-Numbered}
use contextql_server.DeepSee.Mock.Pages.{pending_since, events_after}
use contextql_server.DeepSee.Sync.{Session, SyncReport, DeltaArgs, fetch_pages, max_pages}
use contextql_server.DeepSee.Sync.Changes.Replay.{Membership, replay}
use contextql_server.DeepSee.Sync.Run.{sync_once, publish}
use contextql_server.DeepSee.Sync.Run.Delta.{delta_result}
use contextql_server.DeepSee.Sync.Run.CaughtUp.{InStep}
use contextql_server.DeepSee.Sync.Run.Returns.{sync_once-catches_up}
use contextql_server.Examples.{World, world_of, two_members, service, store, client}

abbrev start : Membership
start k = lookup k two_members.members

abbrev serving : MockService
serving = (add_member 9 6000 two_members).1

abbrev behind : Session World
behind = record {
  world = record (world_of serving) { members = start };
  committed_watermark = some "000000000000";
  seen_event_ids = [];
}

abbrev fetched : World
fetched = (fetch_pages client service max_pages "000000000000" none [] behind.world).1

abbrev synced : Session World
synced = (sync_once client service store none "late" (λ payload. some payload) behind).1

the_effect :
    (args : DeltaArgs) (w w' : World) (x : ⊤)
    → publish store store.stage_delta store.apply_delta "late" args w ≡ (ok x, w')
    → (k : ℕ) → w'.members k ≡ delta_result w.members args k
the_effect args w w' x h k = sym (ap (λ (p : Result ⊤ × World). p.1.members k) h)

sync_once-catches_up_example :
    (r : SyncReport) × ((sync_once client service store none "late"
        (λ payload. some payload)
        behind).0
      ≡ ok r)
    × InStep (λ w. w.members) start serving.events 1 synced
    × ((i : ℕ) → synced.world.members i ≡ lookup i serving.members)
unfolding sync_once mock strip str_of_ℤ zero_padded commit int_of_text add_member fetch_changes
    pending_since events_after replay
sync_once-catches_up_example =
    sync_once-catches_up client service store none "late" (λ payload. some payload) (λ w. w.members)
      the_effect (λ watermark events w k. refl) (λ args w. (tt, refl)) (λ watermark events w. refl)
      start serving 0 behind (("000000000000", refl, refl, λ j l. refl), λ j. refl) serving.events
      (instant (base_time + 1)) (base_time + 1) fetched
      (record {
        coherent = (change-Coherent start two_members 9 6000 (λ k. refl, tt, refl)).0;
        numbered = (change-Numbered two_members 9 6000 refl tt).0;
        once = refl;
      })
      (omega arith) refl refl refl (λ j. refl) ((refl, λ h. cc), tt) (refl, tt)
