-- ===== src/DeepSee/Client/Retry.antt =====
-- The retry loop of client.py: how often it calls, when it gives up, how long it waits.
use contextql_server.Prelude.{
  ℕ, zero, suc, ◌+◌, ◌≤◌, ◌<◌, ◌≡◌, true, false, arith, Bool-cases, inl, inr,
}
use contextql_server.Errors.{Error, Result, ok, err, retries, Result-cases, returned, raised}
use contextql_server.Errors.Exec.{Exec}
use contextql_server.DeepSee.Client.{
  DeepSeeClient, Service, retry_delay, retry_from, call_with_retry,
}

-- No wait is longer than the configured cap, whatever the service asks for.
pub retry_delay-le-cap :
    (c : DeepSeeClient) (e : Error) (attempt : ℕ) → retry_delay c e attempt ≤ c.backoff_cap_ms
unfolding retry_delay
retry_delay-le-cap c e attempt = omega arith

module _ {W A : Type 0} (c : DeepSeeClient) (s : Service W) (operation : Exec W A) where
  -- one round of the loop, by how the call ended
  retry_from-returned :
      (left attempt : ℕ) (w : W) (a : A)
      → (operation w).0 ≡ ok a
      → retry_from c s operation (suc left) attempt w ≡ (ok a, (operation w).1)
  unfolding retry_from
  retry_from-returned left attempt w a h = ground arith

  retry_from-terminal :
      (left attempt : ℕ) (w : W) (e : Error)
      → (operation w).0 ≡ err e
      → retries e ≡ false
      → retry_from c s operation (suc left) attempt w ≡ (err e, (operation w).1)
  unfolding retry_from
  retry_from-terminal left attempt w e h k = ground arith

  retry_from-again :
      (left attempt : ℕ) (w : W) (e : Error)
      → (operation w).0 ≡ err e
      → retries e ≡ true
      → retry_from c s operation (suc left) attempt w
        ≡ retry_from c s operation left
            (attempt + 1)
            (s.sleep (retry_delay c e attempt) (operation w).1)
  unfolding retry_from
  retry_from-again left attempt w e h k = ground arith

  -- A call that raises what is not retryable is made once, and its error is passed on unchanged.
  pub call_with_retry-terminal :
      (w : W) (e : Error)
      → (operation w).0 ≡ err e
      → retries e ≡ false
      → call_with_retry c s operation w ≡ (err e, (operation w).1)
  unfolding call_with_retry
  call_with_retry-terminal w e h k = go c.max_retries
    where
      go : (left : ℕ) → retry_from c s operation left 0 w ≡ (err e, (operation w).1)
      go zero = λ i. (h i, (operation w).1)
      go (suc left) = retry_from-terminal left 0 w e h k

  module _ (calls : W → ℕ) (counts : (w : W) → calls (operation w).1 ≡ calls w + 1)
      (sleeps : (d : ℕ) (w : W) → calls (s.sleep d w) ≡ calls w) where
    abbrev pub Outcome : ℕ → W → Result A × W → Type 0
    Outcome left w x =
        (calls w < calls x.1)
        × (calls x.1 ≤ calls w + left + 1)
        × ((e : Error) → x.0 ≡ err e → retries e ≡ true → calls x.1 ≡ calls w + left + 1)

    retry_from-Outcome :
        (left attempt : ℕ) (w : W) → Outcome left w (retry_from c s operation left attempt w)
    unfolding retry_from
    retry_from-Outcome zero attempt w =
        (omega (arith, counts w), omega (arith, counts w), λ e h k. omega (arith, counts w))
    retry_from-Outcome (suc left) attempt w = elim (Result-cases (operation w).0) [
      | returned a h ↦
          rw (retry_from-returned left attempt w a h)
            (omega (arith, counts w), omega (arith, counts w), λ e p k. cc)
      | raised e h ↦ elim (Bool-cases (retries e)) [
        | inr stop ↦
            rw (retry_from-terminal left attempt w e h stop)
              (omega (arith, counts w), omega (arith, counts w), λ e' p k. cc)
        | inl go ↦
            let w' = s.sleep (retry_delay c e attempt) (operation w).1 in
            let ih = retry_from-Outcome left (attempt + 1) w' in
            let slept = sleeps (retry_delay c e attempt) (operation w).1 in
            rw (retry_from-again left attempt w e h go) (
              omega (arith, counts w, slept, ih.0),
              omega (arith, counts w, slept, ih.1),
              λ e' p k. omega (arith, counts w, slept, ih.2 e' p k),
            )
      ]
    ]

    -- Where `calls` counts the calls and sleeping makes none: there is at least one call and at
    -- most `max_retries + 1`, and a retryable error is passed on only after that many.
    pub call_with_retry_calls : (w : W) → Outcome c.max_retries w (call_with_retry c s operation w)
    unfolding call_with_retry
    call_with_retry_calls w = retry_from-Outcome c.max_retries 0 w
