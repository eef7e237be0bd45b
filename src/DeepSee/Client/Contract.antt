-- ===== src/DeepSee/Client/Contract.antt =====
-- What a response that the client hands on is known to satisfy, whatever the service sent.
use contextql_server.Prelude.{
  ℕ, ◌+◌, ◌≤◌, String, ◌≡◌, refl, ap, true, Option, none, some, List, [], ◌∷◌, ⊤, All, length,
  arith, eq_iff, opt_eq, inl, inr, ◌⊎◌,
}
use contextql_server.Errors.{ok}
use contextql_server.Errors.Exec.{◌>>=◌, go_on-ok}
use contextql_server.DeepSee.Models.{
  Stamp, instant, unreadable, WireId, num, other, SnapshotPage, ChangeBatch,
  supported_entity_key_type, supported_bitmap_encoding,
}
use contextql_server.DeepSee.Client.{
  DeepSeeClient, Service, call_with_retry, token, fetch_snapshot, fetch_changes, validate_freshness,
  validate_key_type, validate_membership, checked_page, checked_batch, check_ids, check_membership,
  validate_bitmap_payload,
}

-- Not older than the configured bound, where there is one.
abbrev pub IsFresh : DeepSeeClient → ℕ → Stamp → Type 0
IsFresh c now data_as_of =
    (age : ℕ) → c.max_data_age ≡ some age → (t : ℕ) × (data_as_of ≡ instant t) × (now ≤ t + age)

abbrev pub IsNum : WireId → Type 0
IsNum (num n) = ⊤
IsNum other = ⊥

-- A bitmap within the limit and in the encoding that is supported, or else ids that are numbers.
abbrev pub HasMembership :
    DeepSeeClient → Option (List ℕ) → Option String → Option (List WireId) → Type 0
HasMembership c bitmap encoding entity_ids =
    ((payload : List ℕ) × (bitmap ≡ some payload)
      × (length payload ≤ c.max_payload_bytes)
      × (encoding ≡ some supported_bitmap_encoding))
    ⊎ ((ids : List WireId) × (bitmap ≡ none) × (entity_ids ≡ some ids) × All IsNum ids)

abbrev pub IsValidPage : DeepSeeClient → ℕ → SnapshotPage → Type 0
IsValidPage c now page =
    (page.entity_key_type ≡ supported_entity_key_type)
    × IsFresh c now page.data_as_of
    × HasMembership c page.membership_bitmap page.bitmap_encoding page.entity_ids

module _ {W : Type 0} (c : DeepSeeClient) (s : Service W) where
  validate_freshness-IsFresh :
      (t : Stamp) (w : W) → validate_freshness c s t w ≡ ok tt → IsFresh c (s.now w) t
  unfolding validate_freshness
  validate_freshness-IsFresh (instant t) w h age e = (t, refl, ground arith)
  validate_freshness-IsFresh unreadable w h age e = absurd (ground arith)

validate_key_type-eq : (t : String) → validate_key_type t ≡ ok tt → t ≡ "INT64"
unfolding validate_key_type
validate_key_type-eq t h = ground (arith, eq_iff t "INT64")

check_ids-All : (ids : List WireId) → check_ids ids ≡ ok tt → All IsNum ids
unfolding check_ids
check_ids-All [] h = tt
check_ids-All (num n ∷ ids) h = (tt, check_ids-All ids h)
check_ids-All (other ∷ ids) h = absurd (cc)

opt_eq-some : (a : Option String) (b : String) → opt_eq a (some b) ≡ true → a ≡ some b
opt_eq-some none b h = cc
opt_eq-some (some a) b h = ap some ((eq_iff a b).0 h)

validate_bitmap_payload-ok :
    (c : DeepSeeClient) (payload : List ℕ) (encoding : Option String)
    → validate_bitmap_payload c payload encoding ≡ ok tt
    → (length payload ≤ c.max_payload_bytes) × (encoding ≡ some supported_bitmap_encoding)
unfolding validate_bitmap_payload
validate_bitmap_payload-ok c payload encoding h =
    ground (arith, opt_eq-some encoding supported_bitmap_encoding)

check_membership-HasMembership :
    (c : DeepSeeClient) (bitmap : Option (List ℕ)) (encoding : Option String)
    (ids : Option (List WireId))
    → check_membership c bitmap encoding ids ≡ ok tt
    → HasMembership c bitmap encoding ids
unfolding check_membership
check_membership-HasMembership c (some payload) encoding ids h =
    let valid = validate_bitmap_payload-ok c payload encoding h in
    inl (payload, refl, valid.0, valid.1)
check_membership-HasMembership c none encoding none h = absurd (ground arith)
check_membership-HasMembership c none encoding (some ids) h =
    inr (ids, refl, refl, check_ids-All ids h)

validate_membership-HasMembership :
    (c : DeepSeeClient) (page : SnapshotPage)
    → validate_membership c page ≡ ok tt
    → HasMembership c page.membership_bitmap page.bitmap_encoding page.entity_ids
unfolding validate_membership
validate_membership-HasMembership c page h =
    check_membership-HasMembership c page.membership_bitmap page.bitmap_encoding page.entity_ids h

module _ {W : Type 0} (c : DeepSeeClient) (s : Service W) where
  checked_page-parts :
      (w w' : W) (sent page : SnapshotPage)
      → checked_page c s sent w ≡ (ok page, w')
      → (validate_freshness c s page.data_as_of w' ≡ ok tt)
        × (validate_key_type page.entity_key_type ≡ ok tt)
        × (validate_membership c page ≡ ok tt)
  unfolding checked_page
  checked_page-parts w w' sent page h = ground arith

  checked_page-IsValidPage :
      (w w' : W) (sent page : SnapshotPage)
      → checked_page c s sent w ≡ (ok page, w')
      → IsValidPage c (s.now w') page
  checked_page-IsValidPage w w' sent page h =
      let parts = checked_page-parts w w' sent page h in
      (
        validate_key_type-eq page.entity_key_type parts.1,
        validate_freshness-IsFresh c s page.data_as_of w' parts.0,
        validate_membership-HasMembership c page parts.2,
      )

  checked_batch-fresh :
      (w w' : W) (sent batch : ChangeBatch)
      → checked_batch c s sent w ≡ (ok batch, w')
      → validate_freshness c s batch.data_as_of w' ≡ ok tt
  unfolding checked_batch
  checked_batch-fresh w w' sent batch h = ground arith

  -- A snapshot page that the client returns has INT64 keys, is not staler than the configured
  -- bound at the time of the return, and carries a bitmap within the size limit and in the
  -- supported encoding, or else entity ids that are all non-negative integers. This holds for
  -- every service, clock and environment.
  pub fetch_snapshot-IsValidPage :
      (cursor : Option String) (w w' : W) (page : SnapshotPage)
      → fetch_snapshot c s cursor w ≡ (ok page, w')
      → IsValidPage c (s.now w') page
  fetch_snapshot-IsValidPage cursor w w' page h =
      let call = λ (t : Option String). call_with_retry c s (s.snapshot cursor t) in
      let (t, _, fetched) =
        go_on-ok (token c s w).0 (λ t. call t >>= checked_page c s) w w' page
          (unfold fetch_snapshot in h) in
      let (sent, _, checked) =
        go_on-ok (call t w).0 (checked_page c s) (call t w).1 w' page fetched in
      checked_page-IsValidPage (call t w).1 w' sent page checked

  -- A batch of changes that the client returns is not staler than the configured bound.
  pub fetch_changes-IsFresh :
      (since : String) (cursor : Option String) (w w' : W) (batch : ChangeBatch)
      → fetch_changes c s since cursor w ≡ (ok batch, w')
      → IsFresh c (s.now w') batch.data_as_of
  fetch_changes-IsFresh since cursor w w' batch h =
      let call = λ (t : Option String). call_with_retry c s (s.changes since cursor t) in
      let (t, _, fetched) =
        go_on-ok (token c s w).0 (λ t. call t >>= checked_batch c s) w w' batch
          (unfold fetch_changes in h) in
      let (sent, _, checked) =
        go_on-ok (call t w).0 (checked_batch c s) (call t w).1 w' batch fetched in
      validate_freshness-IsFresh c s batch.data_as_of w'
        (checked_batch-fresh (call t w).1 w' sent batch checked)
