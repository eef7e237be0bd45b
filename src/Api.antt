-- ===== src/Api.antt =====
-- app/api: how the handlers turn what a service returns or raises into a status. A body is what the
-- service returned; of a problem only the status is kept. An engine error that is a ValueError is a
-- `value_error` here.
pub mod Contexts
pub mod Providers
pub mod Registries
pub mod Queries
use contextql_server.Prelude.{
  ℕ, String, Bool, true, false, not, ◌&&◌, ◌||◌, Option, none, some, List, ltb, if◌then◌else◌,
}
use contextql_server.Errors.{Error, value_error, runtime_error, Result, ok, err}

-- How a request ends: with a body under a status, with a status that the handler chose, or with an
-- exception that no handler catches, which the server answers with 500.
pub data Outcome {ℓ} (A : Type ℓ) : Type ℓ where
  answered : ℕ → A → Outcome A
  refused : ℕ → Outcome A
  crashed : Error → Outcome A

abbrev pub status {ℓ} : {A : Type ℓ} → Outcome A → ℕ
status (answered code body) = code
status (refused code) = code
status (crashed e) = 500

-- `isinstance(exc, ValueError)`
abbrev pub is_value_error : Error → Bool
is_value_error (value_error text) = true
is_value_error _ = false

module _ {ℓ} {A : Type ℓ} where
  -- no `try`
  abbrev pub uncaught : ℕ → Result A → Outcome A
  uncaught code (ok a) = answered code a
  uncaught code (err e) = crashed e

  -- `except ValueError as exc: raise HTTPException(status_code=problem)`
  abbrev pub on_value_error : ℕ → ℕ → Result A → Outcome A
  on_value_error code problem (ok a) = answered code a
  on_value_error code problem (err e) = if is_value_error e then refused problem else crashed e

  -- `except Exception as exc: raise HTTPException(status_code=problem)`
  abbrev pub on_exception : ℕ → ℕ → Result A → Outcome A
  on_exception code problem (ok a) = answered code a
  on_exception code problem (err e) = refused problem

  -- A response model that the body does not fit is a ResponseValidationError; None fits no model.
  abbrev pub as_model : (A → Bool) → Outcome (Option A) → Outcome A
  as_model fits (answered code none) = crashed (runtime_error "ResponseValidationError")
  as_model fits (answered code (some a)) =
      if fits a then answered code a else crashed (runtime_error "ResponseValidationError")
  as_model fits (refused code) = refused code
  as_model fits (crashed e) = crashed e

  -- `Query(..., ge=low)`: a parameter out of its range is refused before the handler runs
  abbrev pub when_valid : Bool → Outcome A → Outcome A
  when_valid true outcome = outcome
  when_valid false outcome = refused 422

-- A call on a service, and what its end becomes.
abbrev pub ends {ℓ} : {A B W : Type ℓ} → (Result A → Outcome B) → Result A × W → Outcome B × W
ends f (r, w) = (f r, w)
