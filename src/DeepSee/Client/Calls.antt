-- ===== src/DeepSee/Client/Calls.antt =====
-- How many calls of the service a fetch makes.
use contextql_server.Prelude.{
  ℕ, zero, suc, ◌+◌, ◌≤◌, String, Option, none, ◌≡◌, refl, ap, ◌∙◌, arith,
}
use contextql_server.Errors.{Result, ok, err}
use contextql_server.Errors.Exec.{Exec, ◌>>=◌, go_on}
use contextql_server.DeepSee.Models.{ChangeBatch, Stamp}
use contextql_server.DeepSee.Client.{
  DeepSeeClient, Service, token, call_with_retry, checked_batch, fetch_changes, validate_freshness,
  retry_from, resolve_in,
}
use contextql_server.DeepSee.Client.Retry.{call_with_retry_calls}

module _ {W : Type 0} (c : DeepSeeClient) (s : Service W) where
  -- checking a batch does nothing to the world
  checked-world :
      (r : Result Unit) (batch : ChangeBatch) (w : W)
      → (go_on {A = Unit} {B = ChangeBatch} r (λ _ w. (ok batch, w)) w).1 ≡ w
  checked-world (ok _) batch w = refl
  checked-world (err e) batch w = refl

  batch-world : (r : Result ChangeBatch) (w : W) → (go_on r (checked_batch c s) w).1 ≡ w
  unfolding checked_batch
  batch-world (ok b) w = checked-world (validate_freshness c s b.data_as_of w) b w
  batch-world (err e) w = refl

  module _ (calls : W → ℕ)
      (counts : (since : String) (cursor t : Option String) (w : W)
        → calls (s.changes since cursor t w).1 ≡ calls w + 1)
      (sleeps : (d : ℕ) (w : W) → calls (s.sleep d w) ≡ calls w) where
    token-calls :
        (since : String) (cursor : Option String) (t : Result (Option String)) (w : W)
        → calls
            (go_on t
              (λ t. call_with_retry c s (s.changes since cursor t) >>= checked_batch c s)
              w).1
          ≤ calls w + (c.max_retries + 1)
    token-calls since cursor (err e) w = omega arith
    token-calls since cursor (ok t) w =
        let call = call_with_retry c s (s.changes since cursor t) w in
        let bound =
          call_with_retry_calls c s (s.changes since cursor t) calls (counts since cursor t) sleeps
            w in
        rw (batch-world call.0 call.1) (omega (arith, bound.1))

    -- One fetch of changes makes at most `max_retries + 1` calls.
    pub fetch_changes-calls :
        (since : String) (cursor : Option String) (w : W)
        → calls (fetch_changes c s since cursor w).1 ≤ calls w + (c.max_retries + 1)
    fetch_changes-calls since cursor w =
        unfold fetch_changes in token-calls since cursor (token c s w).0 w

  retry_from-ok :
      {A : Type 0} (operation : Exec W A) (left attempt : ℕ) (w w' : W) (a : A)
      → operation w ≡ (ok a, w')
      → retry_from c s operation left attempt w ≡ (ok a, w')
  unfolding retry_from
  retry_from-ok operation zero attempt w w' a h = h
  retry_from-ok operation (suc left) attempt w w' a h =
      let value = ap (λ (x : Result _ × W). x.0) h in rw (value, retry_from) (λ i. (ok a, (h i).1))

  token-none : (w : W) → c.credential_reference ≡ none → token c s w ≡ (ok none, w)
  unfolding token resolve_in
  token-none w r = rw (r, resolve_in) refl

  fresh : (d : Stamp) (w : W) → c.max_data_age ≡ none → validate_freshness c s d w ≡ ok tt
  unfolding validate_freshness
  fresh d w age = rw (age, validate_freshness) refl

  checked_batch-ok :
      (batch : ChangeBatch) (w : W)
      → c.max_data_age ≡ none
      → checked_batch c s batch w ≡ (ok batch, w)
  unfolding checked_batch
  checked_batch-ok batch w age = rw (fresh batch.data_as_of w age) refl

  module _ (since : String) (cursor : Option String) (w w' : W) (batch : ChangeBatch)
      (no_reference : c.credential_reference ≡ none) (any_age : c.max_data_age ≡ none)
      (answers : s.changes since cursor none w ≡ (ok batch, w')) where
    call_with_retry-ok : call_with_retry c s (s.changes since cursor none) w ≡ (ok batch, w')
    unfolding call_with_retry
    call_with_retry-ok =
        retry_from-ok (s.changes since cursor none) c.max_retries 0 w w' batch answers

    token-ok :
        (t : Result (Option String))
        → t ≡ ok none
        → go_on t (λ t. call_with_retry c s (s.changes since cursor t) >>= checked_batch c s) w
          ≡ (ok batch, w')
    token-ok t e = rw e (
        ap (λ (x : Result ChangeBatch × W). go_on x.0 (checked_batch c s) x.1) call_with_retry-ok
        ∙ checked_batch-ok batch w' any_age)

    -- A call that the service answers is the fetch, where no credential is configured and no age is
    -- too high.
    pub fetch_changes-ok : fetch_changes c s since cursor w ≡ (ok batch, w')
    fetch_changes-ok =
        unfold fetch_changes in
        token-ok (token c s w).0
          (ap (λ (x : Result (Option String) × W). x.0) (token-none w no_reference))
