-- ===== src/Examples/Migrating.antt =====
-- Migrations of a database that notes the scripts it ran, and a scheduler's threads.
use contextql_server.Prelude.{
  ℕ, ⊤, ◌≤◌, String, false, none, some, List, [], ◌∷◌, ◌++◌, count, sorted, ◌≡◌, ◌⊎◌, refl, arith,
}
use contextql_server.Errors.{ok}
use contextql_server.Errors.Exec.{Exec}
use contextql_server.DeepSee.Decimal.{int_of_text}
use contextql_server.Database.{Database, Script, file_version, by_file_name, run_migrations}
use contextql_server.Database.Migrated.{run_each, run_migrations-again, run_migrations-fresh}
use contextql_server.Services.Scheduler.Threads.{
  Phase, waiting, ticking, ended, Threads, is_alive, start, stop, calls_start, runs, newest,
  MovesOne, timed_out, raised, stopped, created, Reach, start_up, next, Reach-one_alive, one_more,
  none_left, stop-MovesFor,
}

abbrev note : String → Exec (List String) ⊤
note stem ran = (ok tt, ran ++ stem ∷ [])

abbrev script : String → ℕ → Script (List String)
script stem version = record { stem = stem; statements = note stem; records = version }

-- the files, in no order
abbrev scripts : List (Script (List String))
scripts = script "002_context_snapshots" 2 ∷ script "001_initial" 1 ∷ []

abbrev blank : Database (List String)
blank = record { schema_version = none; tables = [] }

abbrev migrated : Database (List String)
migrated = (run_migrations scripts blank).1

migrated_in_order : migrated.tables ≡ "001_initial" ∷ "002_context_snapshots" ∷ []
unfolding run_migrations int_of_text
migrated_in_order = refl

run_migrations-again_example : run_migrations scripts migrated ≡ (ok tt, migrated)
unfolding run_migrations int_of_text file_version
run_migrations-again_example = run_migrations-again scripts blank migrated (refl, (refl, tt)) refl

run_migrations-fresh_example :
    run_migrations scripts blank
    ≡ run_each (sorted by_file_name scripts) (record { schema_version = some []; tables = [] })
unfolding int_of_text file_version
run_migrations-fresh_example =
    run_migrations-fresh scripts [] ((refl, omega arith), ((refl, omega arith), tt))

-- A thread whose tick raises ends, and the next start makes another one.
abbrev crashed : Threads
crashed = record { stop_set = false; threads = ended ∷ [] }

crashed_reached : Reach crashed
unfolding start
crashed_reached =
    next
      (next (next start_up (calls_start created))
        (runs (record { stop_set = false; threads = waiting ∷ [] }) (newest [] (timed_out refl))))
      (runs (record { stop_set = false; threads = ticking ∷ [] }) (newest [] raised))

abbrev restarted : Threads
restarted = record { stop_set = false; threads = waiting ∷ ended ∷ [] }

restarted_reached : Reach restarted
unfolding start
restarted_reached = next crashed_reached (calls_start crashed)

Reach-one_alive_example : count is_alive restarted.threads ≤ 1
Reach-one_alive_example = Reach-one_alive restarted restarted_reached

stop-MovesFor_example :
    (1 ≤ 2)
    × ((count is_alive (ended ∷ ended ∷ []) ≡ 0)
        ⊎ ((qs : List Phase) × MovesOne (stop restarted).stop_set (ended ∷ ended ∷ []) qs))
unfolding stop
stop-MovesFor_example =
    stop-MovesFor restarted 1 (ended ∷ ended ∷ []) restarted_reached
      (one_more (newest (ended ∷ []) (stopped refl)) (none_left (ended ∷ ended ∷ [])))
