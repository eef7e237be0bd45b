-- ===== src/Examples/Evidence.antt =====
-- The two providers on the bench.
use contextql_server.Prelude.{true, none, some, [], ◌∷◌, ◌≡◌, refl}
use contextql_server.Prelude.Dict.{mem_str}
use contextql_server.DeepSee.Auth.{strip}
use contextql_server.DeepSee.Models.{CaseQuery, instant, int, text}
use contextql_server.DeepSee.Mock.{base_time}
use contextql_server.DeepSee.Mock.Cases.{valid_resources}
use contextql_server.DeepSee.Mock.Bench.{mock}
use contextql_server.DeepSee.Providers.{Listed, limited_to, RemoteResult, query_remote}
use contextql_server.DeepSee.Providers.Remote.{AreRequested, query_remote-AreRequested}
use contextql_server.Examples.{world_of, two_members, service, client}

abbrev three : Listed
three = record {
  entity_ids = 5 ∷ 3 ∷ 9 ∷ [];
  scores = (5, 2000) ∷ (9, 8000) ∷ [];
  evidence_refs = [];
  data_as_of = instant 0;
  watermark = "1";
}

two_best : (limited_to (some 2) three).entity_ids ≡ 3 ∷ 9 ∷ []
unfolding limited_to
two_best = refl

abbrev asked : CaseQuery
asked = record {
  resource = "settlement_cases";
  filters = none;
  columns = some ("transaction_id" ∷ "owner" ∷ []);
  limit = none;
  entity_filter = some (record { column = "transaction_id"; ids = 7 ∷ [] });
}

abbrev evidence : RemoteResult
evidence = record {
  rows = (("transaction_id", int 7) ∷ ("owner", text "ops-bob") ∷ []) ∷ [];
  schema = ("transaction_id", "INT64") ∷ ("owner", "VARCHAR") ∷ [];
  data_as_of = instant base_time;
  source_watermark = "000000000000";
  next_cursor = none;
}

query_remote-AreRequested_example :
    (mem_str "settlement_cases" valid_resources ≡ true)
    × AreRequested (some (record { column = "transaction_id"; ids = 7 ∷ [] })) evidence.rows
unfolding query_remote mock strip
query_remote-AreRequested_example =
    query_remote-AreRequested client service asked (world_of two_members)
      (query_remote client service asked (world_of two_members)).1 evidence refl
