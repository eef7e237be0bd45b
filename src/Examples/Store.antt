-- ===== src/Examples/Store.antt =====
-- The durable stores' theorems on small tables.
use contextql_server.Prelude.{String, some, List, [], ◌∷◌, ◌≡◌, refl, true}
use contextql_server.Prelude.Dict.{mem_str}
use contextql_server.Errors.{ok}
use contextql_server.Sql.{no_faults}
use contextql_server.SyncState.{SyncTables, load, commit, ids_in}
use contextql_server.SyncState.Durable.{load-commit}

abbrev saved : SyncTables
saved = record {
  states =
      record {
        context_id = "late";
        committed_watermark = "000000000004";
        ordering_boundary = "000000000004";
      }
      ∷ [];
  events =
      record { context_id = "late"; event_id = "evt-4"; watermark = "000000000004" }
      ∷ record { context_id = "paid"; event_id = "evt-9"; watermark = "000000000009" }
      ∷ [];
}

-- the same id of another context, and an id that is there already
abbrev events : List (String × String)
events = ("evt-9", "000000000009") ∷ ("evt-4", "000000000004") ∷ []

abbrev resaved : SyncTables
resaved = (commit no_faults "late" "000000000009" events saved).1

load-commit_example :
    ((load "late" resaved).0 ≡ ok (some "000000000009", ids_in "late" resaved.events))
    × (mem_str "evt-9" (ids_in "late" resaved.events) ≡ true)
unfolding commit
load-commit_example = load-commit no_faults "late" "late" "000000000009" "evt-9" events saved refl
