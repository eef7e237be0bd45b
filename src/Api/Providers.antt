-- ===== src/Api/Providers.antt =====
-- app/api/providers.py.
pub mod Readable
use contextql_server.Prelude.{
  ℕ, String, Bool, true, false, ◌&&◌, Option, none, some, List, all, leb, is_some, str_eq, ◌||◌,
  if◌then◌else◌,
}
use contextql_server.Errors.{runtime_error, Result}
use contextql_server.Services.Providers.{
  Provider, Registry, ProviderArgs, Moment, Updates, get, register, update, set_enabled,
  list_providers,
}
use contextql_server.Api.{
  Outcome, answered, refused, crashed, uncaught, on_value_error, on_exception, as_model, when_valid,
  ends,
}

-- `ProviderResponse`: `timeout_ms: int` and `trust_tier: str` do not take None
abbrev pub fits_model : Provider → Bool
fits_model p = is_some p.timeout_ms && is_some p.trust_tier

abbrev pub Reply : Type 0
Reply = Registry → Outcome Provider × Registry

-- `provider_type: Literal["MCP", "REMOTE"]`
abbrev pub is_provider_type : String → Bool
is_provider_type t = str_eq t "MCP" || str_eq t "REMOTE"

unfoldable pub register_provider : ProviderArgs → Moment → Reply
unfolding register
register_provider body t s =
    if is_provider_type body.provider_type
    then ends (λ (r : Result (Option Provider)). as_model fits_model (on_exception 201 400 r))
        (register body t s)
    else (refused 422, s)

unfoldable pub get_providers :
    Option String → Option String → ℕ → ℕ → Registry → Outcome (List Provider × ℕ)
unfolding list_providers
get_providers namespace provider_type limit offset s =
    let found = list_providers namespace provider_type limit offset s in
    when_valid (leb 1 limit) (
      if all fits_model found.0
      then answered 200 found
      else crashed (runtime_error "ResponseValidationError"))

-- a lookup, and 404 where there is none: `describe_provider`, and `provider_health`
abbrev pub found_or_404 : Option Provider → Outcome (Option Provider)
found_or_404 none = refused 404
found_or_404 (some p) = answered 200 (some p)

unfoldable pub describe_provider : String → String → Registry → Outcome Provider
unfolding get
describe_provider name namespace s = as_model fits_model (found_or_404 (get name namespace s))

unfoldable pub provider_health : String → String → Registry → Outcome Provider
unfolding get
provider_health name namespace s = as_model fits_model (found_or_404 (get name namespace s))

known : Option Provider → Reply → Reply
known none reply s = (refused 404, s)
known (some existing) reply s = reply s

-- The body of an update: a field may be absent, null or given.
pub record ProviderUpdate : Type 0 where
  pub endpoint : Option (Option String)
  pub timeout_ms : Option (Option ℕ)
  pub entity_key_type : Option (Option String)
  pub trust_tier : Option (Option String)

-- `body.model_dump(exclude_unset=True)`, as keyword arguments of the service's `update`
abbrev pub model_dump : ProviderUpdate → Updates
model_dump body = record {
  endpoint = body.endpoint;
  timeout_ms = body.timeout_ms;
  entity_key_type = body.entity_key_type;
  trust_tier = body.trust_tier;
  credentials_ref = none;
  resource_shape = none;
}

unfoldable pub update_provider : String → ProviderUpdate → String → Moment → Reply
unfolding known get update
update_provider name body namespace t s =
    known (get name namespace s)
      (λ s.
        ends (λ (r : Result (Option Provider)). as_model fits_model (on_value_error 200 400 r))
          (update name namespace (model_dump body) t s))
      s

-- `enable_provider` and `disable_provider`
switched : Bool → String → String → Moment → Reply
unfolding known get set_enabled
switched enabled name namespace t s =
    known (get name namespace s)
      (λ s.
        ends (λ (r : Result (Option Provider)). as_model fits_model (uncaught 200 r))
          (set_enabled name namespace enabled t s))
      s

unfoldable pub enable_provider : String → String → Moment → Reply
unfolding switched
enable_provider = switched true

unfoldable pub disable_provider : String → String → Moment → Reply
unfolding switched
disable_provider = switched false
