-- ===== src/Examples.antt =====
-- A bench for the examples: the mock service, a membership store that stages its deltas, and the
-- durable state of the synchronizer, in one world.
mod Client
mod Sync
mod Store
mod Catalog
mod Evidence
mod Contexts
mod Runs
mod Registries
mod Refreshing
mod Repositories
mod Handlers
mod Migrating
mod Paging
mod InStep
use contextql_server.Prelude.{
  refl, ℕ, ⊤, String, Option, none, some, [], ◌∷◌, ◌+◌, ◌≡◌, str_eq, if◌then◌else◌,
}
use contextql_server.Prelude.Dict.{lookup, mem_num}
use contextql_server.Errors.{ok}
use contextql_server.Errors.Exec.{Exec}
use contextql_server.Sql.{no_faults}
use contextql_server.DeepSee.Client.{DeepSeeClient, Service}
use contextql_server.DeepSee.Mock.{MockService, fresh_service, base_time}
use contextql_server.DeepSee.Mock.Calls.{changes-calls}
use contextql_server.DeepSee.Mock.Bench.{Bench, mock, default_client}
use contextql_server.DeepSee.Sync.{SnapshotArgs, DeltaArgs, MembershipStore, StateRepository}
use contextql_server.DeepSee.Sync.Changes.Replay.{Membership}
use contextql_server.DeepSee.Sync.Run.Delta.{delta_result}
use contextql_server.SyncState.{SyncTables, load, commit}

pub record World : Type 0 where
  pub bench : Bench
  pub members : Membership
  pub saved : SyncTables

abbrev pub on_bench : {A : Type 0} → Exec Bench A → Exec World A
on_bench call w = let (r, b) = call w.bench in (r, record w { bench = b })

abbrev pub on_saved : {A : Type 0} → Exec SyncTables A → Exec World A
on_saved call w = let (r, t) = call w.saved in (r, record w { saved = t })

-- a serialization that keeps the ids
abbrev pub plain : Service Bench
plain = mock (λ ids. ids)

abbrev pub service : Service World
service = record {
  snapshot = λ cursor t. on_bench (plain.snapshot cursor t);
  changes = λ since cursor t. on_bench (plain.changes since cursor t);
  cases = λ query t. on_bench (plain.cases query t);
  sleep = λ d w. record w { bench = plain.sleep d w.bench };
  now = λ w. plain.now w.bench;
  environ = λ w. plain.environ w.bench;
}

abbrev pub bootstrapped : SnapshotArgs → Membership
bootstrapped args k =
    if mem_num k args.members
    then some (elim (lookup k args.scores) [ none ↦ 10000 | some s ↦ s ])
    else none

abbrev pub store : MembershipStore World DeltaArgs ⊤
store = record {
  stage_snapshot = none;
  put_snapshot = λ name args w. (ok tt, record w { members = bootstrapped args });
  stage_delta = some (λ name args w. (ok args, w));
  apply_delta = λ name args w. (ok tt, record w { members = delta_result w.members args });
  commit_snapshot = λ args w. (ok tt, record w { members = delta_result w.members args });
}

abbrev pub repository : StateRepository World
repository = record {
  load = λ context_id. on_saved (load context_id);
  commit = λ context_id watermark events. on_saved (commit no_faults context_id watermark events);
}

abbrev pub client : DeepSeeClient
client = record (default_client 1000) {
  credential_reference = some "env: TOKEN";
  max_data_age = some 60;
}

abbrev pub variables : String → Option String
variables name = if str_eq name "TOKEN" then some "s3cret" else none

-- Two members in pages of one, the clock ten seconds behind the service's base time.
abbrev pub bench_of : MockService → Bench
bench_of m = record { service = m; slept = []; clock = base_time + 10; variables = variables }

abbrev pub two_members : MockService
two_members = fresh_service ((3, 5000) ∷ (7, 8000) ∷ []) 1

abbrev pub world_of : MockService → World
world_of m = record {
  bench = bench_of m;
  members = λ k. none;
  saved = record { states = []; events = [] };
}

abbrev pub calls : World → ℕ
calls w = w.bench.service.call_count

-- every call of the change feed is counted once
pub feed-calls :
    (since : String) (cursor t : Option String) (w : World)
    → calls (service.changes since cursor t w).1 ≡ calls w + 1
unfolding mock
feed-calls since cursor t w = changes-calls since cursor t w.bench.service

-- sleeping calls nothing
pub naps-calls : (d : ℕ) (w : World) → calls (service.sleep d w) ≡ calls w
unfolding mock
naps-calls d w = refl
