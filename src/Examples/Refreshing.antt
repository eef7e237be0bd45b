-- ===== src/Examples/Refreshing.antt =====
-- The scheduler on a world that counts its refreshes, with an engine whose every refresh fails.
use contextql_server.Prelude.{
  ℕ, ◌+◌, ◌*◌, ◌≤◌, ◌<◌, String, true, none, some, [], ◌∷◌, ◌≡◌, ◌≢◌, refl,
}
use contextql_server.Errors.{engine_error, ok, err}
use contextql_server.Services.Scheduler.{
  Scheduled, Engine, Scheduler, due_of, spread, refresh, tick_one, tick,
}
use contextql_server.Services.Scheduler.Timing.{IsRefreshed, tick_one-schedules}

abbrev Counter : Type 0
Counter = ℕ

abbrev late : Scheduled
late = record {
  context_id = "00a1f2c4-0000-4000-8000-000000000001";
  qualified_name = "ops.late_trades";
  namespace = "ops";
  materialized = true;
  refresh_mode = "scheduled";
  refresh_interval = some "60s";
}

abbrev failing : Engine Counter
failing = record {
  list_contexts = λ n. late ∷ [];
  execute = λ text n. (err (engine_error "no such table"), n + 1);
  record_refresh_failure = λ name e n. (ok tt, n);
  log = some (λ e n. (ok tt, n));
  monotonic = λ n. 500;
  parse_duration_seconds = λ text. some 60;
}

abbrev idle : Scheduler Counter
idle = record { world = 0; next_due = []; held = [] }

spread_of_late : spread late.context_id ≡ some 161
unfolding spread
spread_of_late = refl

one_tick : (tick failing idle).1.world ≡ 1
unfolding tick refresh spread
one_tick = refl

abbrev ticked : Scheduler Counter
ticked = (tick_one failing 500 late idle).1

tick_one-schedules_example :
    IsRefreshed failing late 0 ticked.world
    × ((due : ℕ) × (due_of late.context_id ticked.next_due ≡ some due)
        × (due ≡ 500 + 60 * 10_000 + 60 * 161)
        × (500 + 60 * 10_000 ≤ due)
        × (due ≤ 500 + 60 * 11_000)
        × ((later : ℕ) → later < due → tick_one failing later late ticked ≡ (ok tt, ticked)))
    × ((id : String) → id ≢ late.context_id → due_of id ticked.next_due ≡ none)
    × (ticked.held ≡ [])
unfolding spread
tick_one-schedules_example =
    tick_one-schedules failing 500 60 161 late idle (refl, refl, refl) refl refl refl
