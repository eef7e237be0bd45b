-- ===== src/Examples/Client.antt =====
-- The client's theorems, and its own functions, on the bench.
use contextql_server.Prelude.{none, some, List, [], ◌∷◌, ◌+◌, ◌≡◌, refl}
use contextql_server.Prelude.Int.{pos, negate}
use contextql_server.DeepSee.Decimal.{zero_padded, int_of_text, str_of_ℤ}
use contextql_server.DeepSee.Auth.{strip}
use contextql_server.DeepSee.Models.{SnapshotPage, num, instant}
use contextql_server.DeepSee.Client.{call_with_retry, fetch_snapshot}
use contextql_server.DeepSee.Client.Retry.{call_with_retry_calls, Outcome}
use contextql_server.DeepSee.Client.Contract.{IsValidPage, fetch_snapshot-IsValidPage}
use contextql_server.DeepSee.Mock.{FailureKind, base_time}
use contextql_server.DeepSee.Mock.Bench.{mock}
use contextql_server.Examples.{
  World, world_of, two_members, service, client, calls, feed-calls, naps-calls,
}

padded_seven : zero_padded 12 7 ≡ "000000000007"
unfolding zero_padded
padded_seven = refl

int_texts :
    (int_of_text " -1_2 " ≡ some (negate 12))
    × (int_of_text "1__2" ≡ none)
    × (int_of_text "" ≡ none)
    × (int_of_text "+007" ≡ some (pos 7))
unfolding int_of_text
int_texts = (refl, refl, refl, refl)

abbrev failing : List FailureKind → World
failing fs = world_of (record two_members { failures = fs })

-- two failures that are retried, and then an answer
abbrev busy : World
busy = failing (FailureKind.timeout ∷ FailureKind.rate_limit ∷ [])

call_with_retry_calls_example :
    Outcome client service
      (service.changes "0" none none)
      calls
      (feed-calls "0" none none)
      naps-calls
      3
      busy
      (call_with_retry client service (service.changes "0" none none) busy)
call_with_retry_calls_example =
    call_with_retry_calls client service (service.changes "0" none none) calls
      (feed-calls "0" none none) naps-calls busy

abbrev first_page : SnapshotPage
first_page = record {
  entity_key_type = "INT64";
  data_as_of = instant base_time;
  watermark = "000000000000";
  entity_ids = some (num 3 ∷ []);
  membership_bitmap = none;
  bitmap_encoding = none;
  scores = (3, 5000) ∷ [];
  evidence_refs = (3, "deepsee://case/3") ∷ [];
  next_cursor = some "1";
}

fetch_snapshot-IsValidPage_example : IsValidPage client (base_time + 10) first_page
unfolding mock fetch_snapshot strip str_of_ℤ
fetch_snapshot-IsValidPage_example =
    fetch_snapshot-IsValidPage client service none busy (fetch_snapshot client service none busy).1
      first_page refl
