-- ===== src/Examples/Paging.antt =====
-- The change feed of the mock, read in pages of two, with every event delivered twice.
use contextql_server.Prelude.{◌+◌, true, none, [], ◌∷◌, ◌≡◌, refl, arith}
use contextql_server.Prelude.Int.{pos}
use contextql_server.Errors.{ok}
use contextql_server.DeepSee.Decimal.{int_of_text, zero_padded}
use contextql_server.DeepSee.Models.{instant, added, removed}
use contextql_server.DeepSee.Mock.{MockService, fresh_service, base_time, event_at, data_as_of}
use contextql_server.DeepSee.Mock.Pages.{delivered, twice, pending_since, events_after}
use contextql_server.DeepSee.Mock.Pages.Complete.{fetch_pages-Delivers}
use contextql_server.DeepSee.Mock.Bench.{Bench, mock, default_client}
use contextql_server.DeepSee.Sync.{fetch_pages}

abbrev service : MockService
service = record (fresh_service [] 2) {
  duplicate_delivery = true;
  events = event_at 1 7 added none ∷ event_at 2 7 removed none ∷ event_at 3 9 added none ∷ [];
  seq = 3;
}

abbrev bench : Bench
bench = record { service = service; slept = []; clock = base_time; variables = λ name. none }

fetch_pages-Delivers_example :
    (fetch_pages (default_client 1_000) (mock (λ ids. ids)) 10_000 "000000000001" none [] bench).0
    ≡ ok (twice (event_at 2 7 removed none ∷ event_at 3 9 added none ∷ []), instant (base_time + 3))
unfolding int_of_text zero_padded delivered pending_since events_after data_as_of
fetch_pages-Delivers_example =
    fetch_pages-Delivers (λ ids. ids) (default_client 1_000) "000000000001" (pos 1)
      (twice (event_at 2 7 removed none ∷ event_at 3 9 added none ∷ [])) 2 (instant (base_time + 3))
      refl 10_000 bench (refl, refl, refl, refl)
      ((event_at 2 7 removed none ∷ event_at 3 9 added none ∷ [], refl, refl), refl, refl)
      (omega arith) (omega arith)
