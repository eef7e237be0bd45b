-- ===== src/Errors.antt =====
-- app/connectors/deepsee/models.py, its error types, and the exceptions that the services raise.
-- A raised exception is a value; of a message, only the code or the words that name it are kept.
pub mod Exec
use contextql_server.Prelude.{ℕ, String, ◌≡◌, refl, Bool, true, false, Option, none}

-- The classes below `DeepSeeError`.
pub data ErrorClass : Type 0 where
  deepsee retryable timeout rate_limit terminal auth contract stale_data : ErrorClass

-- `isinstance(exc, DeepSeeRetryableError)`
abbrev pub is_retryable : ErrorClass → Bool
is_retryable ErrorClass.retryable = true
is_retryable ErrorClass.timeout = true
is_retryable ErrorClass.rate_limit = true
is_retryable _ = false

-- `isinstance(exc, DeepSeeRateLimitError)`
abbrev pub is_rate_limit : ErrorClass → Bool
is_rate_limit ErrorClass.rate_limit = true
is_rate_limit _ = false

-- `message` is for a reader only, and is left out.
pub record ErrorEnvelope : Type 0 where
  pub code : String
  pub retryable : Bool
  pub retry_after_ms : Option ℕ

pub data Error : Type 0 where
  deepsee_error : ErrorClass → ErrorEnvelope → Error
  credential_error : String → Error
  value_error : String → Error
  runtime_error : String → Error
  attribute_error : String → Error
  -- `sqlite3.IntegrityError`
  integrity_error : String → Error
  -- anything that the contextql engine or its stores raise
  engine_error : String → Error

-- Every contract violation has this class and envelope.
abbrev pub contract_error : Error
contract_error =
    deepsee_error ErrorClass.contract
      (record { code = "CONTRACT_VIOLATION"; retryable = false; retry_after_ms = none })

abbrev pub stale_data_error : Error
stale_data_error =
    deepsee_error ErrorClass.stale_data
      (record { code = "STALE_DATA"; retryable = false; retry_after_ms = none })

-- `except DeepSeeRetryableError`
abbrev pub retries : Error → Bool
retries (deepsee_error c e) = is_retryable c
retries _ = false

pub data Result {ℓ} (V : Type ℓ) : Type ℓ where
  ok : V → Result V
  err : Error → Result V

-- `if test: raise error`
abbrev pub raise_if : Bool → Error → Result (Unit {0})
raise_if true e = err e
raise_if false e = ok tt

abbrev pub or_raise {ℓ} : {V : Type ℓ} → Option V → Error → Result V
or_raise Option.none e = err e
or_raise (Option.some v) e = ok v

-- A raise ends the block.
infixl 5 ◌>>=◌
abbrev pub ◌>>=◌ {ℓ κ} : {V : Type ℓ} {U : Type κ} → Result V → (V → Result U) → Result U
err e >>= next = err e
ok v >>= next = next v

-- To split on how a call ended, with the equation.
pub data Ended {ℓ} {V : Type ℓ} (r : Result V) : Type ℓ where
  returned : (v : V) → r ≡ ok v → Ended r
  raised : (e : Error) → r ≡ err e → Ended r

pub Result-cases {ℓ} : {V : Type ℓ} (r : Result V) → Ended r
Result-cases (err e) = raised e refl
Result-cases (ok v) = returned v refl

-- the second part of a block whose value is not named
infixl 5 ◌>>◌
abbrev pub ◌>>◌ {ℓ} : {U : Type ℓ} → Result (Unit {0}) → Result U → Result U
first >> second = first >>= λ _. second

-- A block that returned went through its first part.
pub >>=-eq-ok {ℓ κ} :
    {V : Type ℓ} {U : Type κ} (r : Result V) (next : V → Result U) {u : U}
    → (r >>= next) ≡ ok u
    → (v : V) × (r ≡ ok v) × (next v ≡ ok u)
>>=-eq-ok (err e) next h = cc
>>=-eq-ok (ok v) next h = (v, refl, h)
