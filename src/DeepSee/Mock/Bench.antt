-- ===== src/DeepSee/Mock/Bench.antt =====
-- The mock as the world of a client: the service, a sleeper that records, a clock, an environment.
use contextql_server.Prelude.{ℕ, String, Option, none, List, [], ◌∷◌, ◌++◌}
use contextql_server.Errors.Exec.{Exec}
use contextql_server.DeepSee.Client.{Service, DeepSeeClient}
use contextql_server.DeepSee.Mock.{MockService}
use contextql_server.DeepSee.Mock.Pages.{snapshot, changes}
use contextql_server.DeepSee.Mock.Cases.{cases}

pub record Bench : Type 0 where
  pub service : MockService
  pub slept : List ℕ
  pub clock : ℕ
  pub variables : String → Option String

-- a call of the service inside the world
abbrev pub on_service : {A : Type 0} → Exec MockService A → Exec Bench A
on_service call b = let (r, m) = call b.service in (r, record b { service = m })

unfoldable pub mock : (List ℕ → List ℕ) → Service Bench
unfolding snapshot changes cases
mock serialize = record {
  snapshot = λ cursor token. on_service (snapshot serialize cursor token);
  changes = λ since cursor token. on_service (changes since cursor token);
  cases = λ query token. on_service (cases query token);
  sleep = λ ms b. record b { slept = b.slept ++ ms ∷ [] };
  now = λ b. b.clock;
  environ = λ b. b.variables;
}

-- `DeepSeeClient(service)`, with the defaults of its constructor; the payload limit is the engine's
-- `MAX_BITMAP_PAYLOAD_BYTES`
abbrev pub default_client : ℕ → DeepSeeClient
default_client max_payload_bytes = record {
  credential_reference = none;
  max_retries = 3;
  backoff_base_ms = 50;
  backoff_cap_ms = 1000;
  max_payload_bytes = max_payload_bytes;
  max_data_age = none;
}
