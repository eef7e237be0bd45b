-- ===== src/Errors/Exec.antt =====
-- A call that changes the world and may raise. What was done before a raise stays done.
use mathlib.Core.Path.{◌≡◌, refl}
use contextql_server.Errors.{Error, Result, ok, err}

abbrev pub Exec {ℓ} : Type ℓ → Type ℓ → Type ℓ
Exec W A = W → Result A × W

module _ {ℓ} {W A : Type ℓ} where
  abbrev pub pure : A → Exec W A
  pure a w = (ok a, w)

  abbrev pub raise : Error → Exec W A
  raise e w = (err e, w)

  abbrev pub lift : Result A → Exec W A
  lift r w = (r, w)

  abbrev pub gets : (W → A) → Exec W A
  gets f w = (ok (f w), w)

module _ {ℓ} {W A B : Type ℓ} where
  abbrev pub go_on : Result A → (A → Exec W B) → Exec W B
  go_on (ok a) f w = f a w
  go_on (err e) f w = (err e, w)

  infixl 5 ◌>>=◌ ◌>>◌
  abbrev pub ◌>>=◌ : Exec W A → (A → Exec W B) → Exec W B
  ◌>>=◌ m f w = let (r, w') = m w in go_on r f w'

  abbrev pub ◌>>◌ : Exec W A → Exec W B → Exec W B
  m >> k = m >>= λ _. k

  -- A block that returned went through its first action.
  pub go_on-ok :
      (r : Result A) (f : A → Exec W B) (w w' : W) (b : B)
      → go_on r f w ≡ (ok b, w')
      → (a : A) × (r ≡ ok a) × (f a w ≡ (ok b, w'))
  go_on-ok (ok a) f w w' b h = (a, refl, h)
  go_on-ok (err e) f w w' b h = cc

  -- Blocks that go on alike from every world are alike.
  pub go_on-cong :
      (r : Result A) (f g : Exec W B) (w : W)
      → ((w : W) → f w ≡ g w)
      → go_on r (λ _. f) w ≡ go_on r (λ _. g) w
  go_on-cong (ok a) f g w h = h w
  go_on-cong (err e) f g w h = refl
