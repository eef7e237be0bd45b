-- ===== src/DeepSee/Client.antt =====
-- app/connectors/deepsee/client.py. The service, the clock, the sleeper and the environment act on
-- a world `W` that the client does not see into; the mock is one instance.
pub mod Retry
pub mod Contract
pub mod Calls
use contextql_server.Prelude.{
  ℕ, zero, suc, ◌+◌, ◌*◌, ◌^◌, min, String, not, Option, none, some, List, [], ◌∷◌, ⊤, str_eq,
  length, ltb, opt_eq, if◌then◌else◌,
}
use contextql_server.Errors.{
  Error, deepsee_error, value_error, Result, ok, err, contract_error, stale_data_error,
  is_rate_limit, retries, raise_if,
}
use contextql_server.Errors.Exec.{Exec, pure, lift, ◌>>=◌, ◌>>◌}
use contextql_server.DeepSee.Models.{
  Stamp, instant, unreadable, WireId, num, other, SnapshotPage, ChangeBatch, CasesResponse,
  CaseQuery, supported_entity_key_type, supported_bitmap_encoding,
}
use contextql_server.DeepSee.Auth.{resolve_credential}

-- What the client calls: the wire operations, `time.sleep` in milliseconds, the clock in seconds,
-- and `os.environ`.
pub record Service (W : Type 0) : Type 0 where
  pub snapshot : Option String → Option String → Exec W SnapshotPage
  pub changes : String → Option String → Option String → Exec W ChangeBatch
  pub cases : CaseQuery → Option String → Exec W CasesResponse
  pub sleep : ℕ → W → W
  pub now : W → ℕ
  pub environ : W → String → Option String

pub record DeepSeeClient : Type 0 where
  pub credential_reference : Option String
  pub max_retries : ℕ
  pub backoff_base_ms : ℕ
  pub backoff_cap_ms : ℕ
  pub max_payload_bytes : ℕ
  pub max_data_age : Option ℕ

-- the delay before the cap, by the exception
uncapped_delay : DeepSeeClient → Error → ℕ → ℕ
uncapped_delay c (deepsee_error k e) attempt = elim e.retry_after_ms [
  | none ↦ c.backoff_base_ms * 2 ^ attempt
  | some ms ↦ if is_rate_limit k then ms else c.backoff_base_ms * 2 ^ attempt
]
uncapped_delay c e attempt = c.backoff_base_ms * 2 ^ attempt

-- `_retry_delay_seconds`, in milliseconds
unfoldable pub retry_delay : DeepSeeClient → Error → ℕ → ℕ
unfolding uncapped_delay
retry_delay c e attempt = min (uncapped_delay c e attempt) c.backoff_cap_ms

module _ {W : Type 0} (c : DeepSeeClient) (s : Service W) where
  module _ {A : Type 0} (operation : Exec W A) where
    -- `_call_with_retry`, from its loop's `attempt` on; `left` is `max_retries - attempt`, so that
    -- the test `attempt >= max_retries` is `left` at zero.
    pub retry_from : ℕ → ℕ → Exec W A
    retry_from zero attempt w = operation w
    retry_from (suc left) attempt w =
        let (r, w') = operation w in
        elim r [
          | ok a ↦ (ok a, w')
          | err e ↦
              let again = retry_from left (attempt + 1) (s.sleep (retry_delay c e attempt) w') in
              if retries e then again else (err e, w')
        ]

    unfoldable pub call_with_retry : Exec W A
    unfolding retry_from
    call_with_retry = retry_from c.max_retries 0

  resolve_in : Option String → W → Result (Option String)
  unfolding resolve_credential
  resolve_in none w = ok none
  resolve_in (some reference) w = elim (resolve_credential (s.environ w) reference) [
    | ok t ↦ ok (some t)
    | err e ↦ err e
  ]

  -- `_token`
  pub token : Exec W (Option String)
  unfolding resolve_in
  token w = (resolve_in c.credential_reference w, w)

  -- `now() - parse_iso(data_as_of) > max_data_age`
  stale_after : ℕ → Stamp → ℕ → Result ⊤
  stale_after age (instant t) now = raise_if (ltb (t + age) now) stale_data_error
  stale_after age unreadable now = err (value_error "Invalid isoformat string")

  -- `_validate_freshness`
  unfoldable pub validate_freshness : Stamp → W → Result ⊤
  unfolding stale_after
  validate_freshness data_as_of w = elim c.max_data_age [
    | none ↦ ok tt
    | some age ↦ stale_after age data_as_of (s.now w)
  ]

-- `_validate_bitmap_payload`
unfoldable pub validate_bitmap_payload : DeepSeeClient → List ℕ → Option String → Result ⊤
validate_bitmap_payload c payload encoding =
    if ltb c.max_payload_bytes (length payload)
    then err contract_error
    else raise_if (not (opt_eq encoding (some supported_bitmap_encoding))) contract_error

-- `_validate_key_type`
unfoldable pub validate_key_type : String → Result ⊤
validate_key_type t = raise_if (not (str_eq t supported_entity_key_type)) contract_error

check_ids : List WireId → Result ⊤
check_ids [] = ok tt
check_ids (num n ∷ ids) = check_ids ids
check_ids (other ∷ ids) = err contract_error

-- `_validate_entity_ids`
unfoldable pub validate_entity_ids : Option (List WireId) → Result ⊤
unfolding check_ids
validate_entity_ids none = err contract_error
validate_entity_ids (some ids) = check_ids ids

check_membership : DeepSeeClient → Option (List ℕ) → Option String → Option (List WireId) → Result ⊤
unfolding validate_bitmap_payload validate_entity_ids
check_membership c (some payload) encoding ids = validate_bitmap_payload c payload encoding
check_membership c none encoding ids = validate_entity_ids ids

-- the test of the membership in `fetch_snapshot`: a bitmap, or else ids
unfoldable pub validate_membership : DeepSeeClient → SnapshotPage → Result ⊤
unfolding check_membership
validate_membership c page =
    check_membership c page.membership_bitmap page.bitmap_encoding page.entity_ids

-- `decode_membership_bitmap`, where `deserialize` is that of `pyroaring.BitMap64`
unfoldable pub decode_membership_bitmap :
    DeepSeeClient → (List ℕ → Option (List ℕ)) → SnapshotPage → Result (List ℕ)
unfolding validate_bitmap_payload
decode_membership_bitmap c deserialize page = elim page.membership_bitmap [
  | none ↦ err contract_error
  | some payload ↦ elim (validate_bitmap_payload c payload page.bitmap_encoding) [
    | err e ↦ err e
    | ok _ ↦ elim (deserialize payload) [ none ↦ err contract_error | some ids ↦ ok ids ]
  ]
]

module _ {W : Type 0} (c : DeepSeeClient) (s : Service W) where
  -- the checks of a page that has come, in their order
  checked_page : SnapshotPage → Exec W SnapshotPage
  checked_page page = do
    (λ w. (validate_freshness c s page.data_as_of w, w))
    lift (validate_key_type page.entity_key_type)
    lift (validate_membership c page)
    pure page

  unfoldable pub fetch_snapshot : Option String → Exec W SnapshotPage
  unfolding call_with_retry token checked_page validate_freshness validate_key_type
      validate_membership
  fetch_snapshot cursor = do
    t ← token c s
    page ← call_with_retry c s (s.snapshot cursor t)
    checked_page page

  -- likewise for a batch of changes
  checked_batch : ChangeBatch → Exec W ChangeBatch
  checked_batch batch = do (λ w. (validate_freshness c s batch.data_as_of w, w)); pure batch

  unfoldable pub fetch_changes : String → Option String → Exec W ChangeBatch
  unfolding call_with_retry token checked_batch validate_freshness
  fetch_changes since_watermark cursor = do
    t ← token c s
    batch ← call_with_retry c s (s.changes since_watermark cursor t)
    checked_batch batch

  unfoldable pub fetch_cases : CaseQuery → Exec W CasesResponse
  unfolding call_with_retry token validate_freshness
  fetch_cases query = do
    t ← token c s
    response ← call_with_retry c s (s.cases query t)
    (λ w. (validate_freshness c s response.data_as_of w, w))
    pure response
