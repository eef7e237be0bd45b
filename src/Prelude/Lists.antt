-- ===== src/Prelude/Lists.antt =====
-- Lists measured by native numbers, filters and tests that compute, and a stable sort.
use Prim.Native.Nat.{ℕ, zero, suc, ◌+◌, ◌≤◌, min}
use mathlib.Core.Path.{◌≡◌, refl, ap}
use mathlib.Core.Bool.{Bool, true, false, ◌&&◌, ◌||◌}
use mathlib.Core.List.{List, [], ◌∷◌, ◌++◌}
use mathlib.Core.Option.{Option, none, some}
use native.Mathlib.Omega.{arith}
use mathlib.Core.Logic.{inl, inr}
use contextql_server.Prelude.Tests.{if◌then◌else◌, Bool-cases}

module _ {ℓ} {A : Type ℓ} where
  abbrev pub length : List A → ℕ
  length [] = 0
  length (x ∷ xs) = suc (length xs)

  abbrev pub take : ℕ → List A → List A
  take zero xs = []
  take (suc n) [] = []
  take (suc n) (x ∷ xs) = x ∷ take n xs

  abbrev pub drop : ℕ → List A → List A
  drop zero xs = xs
  drop (suc n) [] = []
  drop (suc n) (x ∷ xs) = drop n xs

  abbrev pub replicate : ℕ → A → List A
  replicate zero a = []
  replicate (suc n) a = a ∷ replicate n a

  -- `[x for x in xs if p(x)]`
  abbrev pub filter : (A → Bool) → List A → List A
  filter p [] = []
  filter p (x ∷ xs) = if p x then x ∷ filter p xs else filter p xs

  abbrev pub any : (A → Bool) → List A → Bool
  any p [] = false
  any p (x ∷ xs) = p x || any p xs

  abbrev pub all : (A → Bool) → List A → Bool
  all p [] = true
  all p (x ∷ xs) = p x && all p xs

  -- the rows that match, counted
  abbrev pub count : (A → Bool) → List A → ℕ
  count p [] = 0
  count p (x ∷ xs) = if p x then suc (count p xs) else count p xs

  -- `fetchone()`: the first row
  abbrev pub find : (A → Bool) → List A → Option A
  find p [] = none
  find p (x ∷ xs) = if p x then some x else find p xs

  abbrev pub All {κ} : (A → Type κ) → List A → Type κ
  All P [] = Unit
  All P (x ∷ xs) = P x × All P xs

  -- insertion behind equal keys: `sorted` is stable
  abbrev pub insert_sorted : (A → A → Bool) → A → List A → List A
  insert_sorted le x [] = x ∷ []
  insert_sorted le x (y ∷ ys) = if le x y then x ∷ y ∷ ys else y ∷ insert_sorted le x ys

  -- `sorted(xs, key=...)`, where `le a b` compares the keys of `a` and `b`
  abbrev pub sorted : (A → A → Bool) → List A → List A
  sorted le [] = []
  sorted le (x ∷ xs) = insert_sorted le x (sorted le xs)

module _ {ℓ} {A : Type ℓ} where
  pub length-append : (xs ys : List A) → length (xs ++ ys) ≡ length xs + length ys
  length-append [] ys = omega arith
  length-append (x ∷ xs) ys = omega (arith, length-append xs ys)

  pub length-take : (n : ℕ) (xs : List A) → length (take n xs) ≡ min n (length xs)
  length-take zero xs = omega arith
  length-take (suc n) [] = omega arith
  length-take (suc n) (x ∷ xs) = omega (arith, length-take n xs)

  pub length-filter_le : (p : A → Bool) (xs : List A) → length (filter p xs) ≤ length xs
  length-filter_le p [] = omega arith
  length-filter_le p (x ∷ xs) = ground (arith, length-filter_le p xs)

  pub length-insert_sorted :
      (le : A → A → Bool) (x : A) (xs : List A) → length (insert_sorted le x xs) ≡ suc (length xs)
  length-insert_sorted le x [] = refl
  length-insert_sorted le x (y ∷ ys) = ground (arith, length-insert_sorted le x ys)

  pub length-sorted : (le : A → A → Bool) (xs : List A) → length (sorted le xs) ≡ length xs
  length-sorted le [] = refl
  length-sorted le (x ∷ xs) =
      omega (arith, length-insert_sorted le x (sorted le xs), length-sorted le xs)

  pub All-append {κ} : (P : A → Type κ) (xs ys : List A) → All P xs → All P ys → All P (xs ++ ys)
  All-append P [] ys hx hy = hy
  All-append P (x ∷ xs) ys hx hy = (hx.0, All-append P xs ys hx.1 hy)

  pub All-insert_sorted {κ} :
      (P : A → Type κ) (le : A → A → Bool) (x : A) (xs : List A)
      → P x
      → All P xs
      → All P (insert_sorted le x xs)
  All-insert_sorted P le x [] h hs = (h, tt)
  All-insert_sorted P le x (y ∷ ys) h hs = elim (Bool-cases (le x y)) [
    | inl e ↦ rw e (h, hs)
    | inr e ↦ rw e (hs.0, All-insert_sorted P le x ys h hs.1)
  ]

  pub All-sorted {κ} :
      (P : A → Type κ) (le : A → A → Bool) (xs : List A) → All P xs → All P (sorted le xs)
  All-sorted P le [] hs = tt
  All-sorted P le (x ∷ xs) hs =
      All-insert_sorted P le x (sorted le xs) hs.0 (All-sorted P le xs hs.1)

  All-uninsert_sorted {κ} :
      (P : A → Type κ) (le : A → A → Bool) (x : A) (xs : List A)
      → All P (insert_sorted le x xs)
      → P x × All P xs
  All-uninsert_sorted P le x [] h = h
  All-uninsert_sorted P le x (y ∷ ys) h = elim (Bool-cases (le x y)) [
    | inl e ↦ rw e at h
    | inr e ↦
        let (own, rest) : P y × All P (insert_sorted le x ys) = rw e at h in
        let (px, pys) = All-uninsert_sorted P le x ys rest in (px, (own, pys))
  ]

  -- what holds of all in order holds of all
  pub All-unsorted {κ} :
      (P : A → Type κ) (le : A → A → Bool) (xs : List A) → All P (sorted le xs) → All P xs
  All-unsorted P le [] h = tt
  All-unsorted P le (x ∷ xs) h =
      let (px, rest) = All-uninsert_sorted P le x (sorted le xs) h in
      (px, All-unsorted P le xs rest)

  pub All-filter : (p : A → Bool) (xs : List A) → All (λ x. p x ≡ true) (filter p xs)
  All-filter p [] = tt
  All-filter p (x ∷ xs) = elim (Bool-cases (p x)) [
    | inl e ↦ rw e (e, All-filter p xs)
    | inr e ↦ rw e (All-filter p xs)
  ]

  pub any_mono :
      (p q : A → Bool) (xs : List A)
      → ((x : A) → p x ≡ true → q x ≡ true)
      → any p xs ≡ true
      → any q xs ≡ true
  any_mono p q [] f h = h
  any_mono p q (x ∷ xs) f h = ground (arith, f x, any_mono p q xs f)

  pub all_mono :
      (p q : A → Bool) (xs : List A)
      → ((x : A) → p x ≡ true → q x ≡ true)
      → all p xs ≡ true
      → all q xs ≡ true
  all_mono p q [] f h = h
  all_mono p q (x ∷ xs) f h = ground (arith, f x, all_mono p q xs f)

  -- what every witness gives
  pub any-elim {κ} :
      (P : Type κ) (p : A → Bool) (xs : List A) → ((x : A) → p x ≡ true → P) → any p xs ≡ true → P
  any-elim P p [] f h = absurd (ground arith)
  any-elim P p (x ∷ xs) f h = elim (Bool-cases (p x)) [
    | inl e ↦ f x e
    | inr e ↦ any-elim P p xs f (rw e at h)
  ]

  pub take-length : (xs : List A) → take (length xs) xs ≡ xs
  take-length [] = refl
  take-length (x ∷ xs) = ap (λ (l : List A). x ∷ l) (take-length xs)

  pub take-drop : (k : ℕ) (xs : List A) → take k xs ++ drop k xs ≡ xs
  take-drop zero xs = refl
  take-drop (suc k) [] = refl
  take-drop (suc k) (x ∷ xs) = ap (λ (l : List A). x ∷ l) (take-drop k xs)

  -- a slice and what follows it
  pub drop-take-append :
      (n k : ℕ) (xs : List A) → drop n (take (n + k) xs) ++ drop (n + k) xs ≡ drop n xs
  drop-take-append zero k xs = let e : 0 + k ≡ k = omega arith in rw e (take-drop k xs)
  drop-take-append (suc n) k [] = let e : suc n + k ≡ suc (n + k) = omega arith in rw e refl
  drop-take-append (suc n) k (x ∷ xs) =
      let e : suc n + k ≡ suc (n + k) = omega arith in rw e (drop-take-append n k xs)
