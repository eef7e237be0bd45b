-- ===== src/Examples/Runs.antt =====
-- A whole run: a bootstrap from the mock in two pages, a change there, and a synchronization.
use contextql_server.Prelude.{some, none, [], ◌≡◌, refl}
use contextql_server.Errors.{ok}
use contextql_server.SyncState.{commit}
use contextql_server.DeepSee.Decimal.{int_of_text, str_of_ℤ, zero_padded}
use contextql_server.DeepSee.Auth.{strip}
use contextql_server.DeepSee.Client.{fetch_changes}
use contextql_server.DeepSee.Mock.{add_member}
use contextql_server.DeepSee.Mock.Bench.{mock}
use contextql_server.DeepSee.Sync.{Session}
use contextql_server.DeepSee.Sync.Run.{bootstrap, sync_once}
use contextql_server.Examples.{World, world_of, two_members, service, store, repository, client}

abbrev fresh : Session World
fresh = record { world = world_of two_members; committed_watermark = none; seen_event_ids = [] }

abbrev loaded : Session World
loaded = (bootstrap client service store (some repository) "late" (λ payload. some payload) fresh).1

bootstrapped_members :
    (loaded.world.members 3 ≡ some 5000)
    × (loaded.world.members 7 ≡ some 8000)
    × (loaded.world.members 9 ≡ none)
    × (loaded.committed_watermark ≡ some "000000000000")
unfolding bootstrap mock strip str_of_ℤ zero_padded commit int_of_text
bootstrapped_members = (refl, refl, refl, refl)

-- The service gets a member after the bootstrap.
abbrev changed : Session World
changed = record loaded {
  world = record loaded.world {
    bench = record loaded.world.bench {
      service = (add_member 9 6000 loaded.world.bench.service).1;
    };
  };
}

synced_report :
    (sync_once client service store (some repository) "late" (λ payload. some payload) changed).0
    ≡ ok (record {
      applied_additions = 1;
      applied_removals = 0;
      applied_score_changes = 0;
      duplicates_skipped = 0;
      out_of_order_rejected = 0;
      committed_watermark = "000000000001";
    })
unfolding bootstrap sync_once mock strip str_of_ℤ zero_padded commit int_of_text add_member
    fetch_changes
synced_report = refl
