-- ===== src/Prelude/Dict.antt =====
-- Python dicts and sets with number keys, in insertion order, and sets of texts.
use Prim.Native.Nat.{ℕ}
use Prim.Native.String.{String}
use mathlib.Core.Path.{◌≡◌, refl}
use mathlib.Core.Bool.{Bool, false, ◌||◌}
use mathlib.Core.List.{List, [], ◌∷◌, ◌++◌}
use mathlib.Core.Option.{Option, none, some}
use native.Mathlib.Omega.{arith}
use text.Mathlib.Text.{◌==◌ as str_eq}
use contextql_server.Prelude.Tests.{◌==◌, if◌then◌else◌}

-- `x in s`, for a set of numbers
abbrev pub mem_num : ℕ → List ℕ → Bool
mem_num k [] = false
mem_num k (x ∷ xs) = k == x || mem_num k xs

-- `x in s`, for a set of texts
abbrev pub mem_str : String → List String → Bool
mem_str k [] = false
mem_str k (x ∷ xs) = str_eq k x || mem_str k xs

module _ {ℓ} {V : Type ℓ} where
  -- `d.get(k)`
  abbrev pub lookup : ℕ → List (ℕ × V) → Option V
  lookup k [] = none
  lookup k ((j, v) ∷ d) = if k == j then some v else lookup k d

  -- `d[k] = v`
  abbrev pub insert : ℕ → V → List (ℕ × V) → List (ℕ × V)
  insert k v [] = (k, v) ∷ []
  insert k v ((j, w) ∷ d) = if k == j then (k, v) ∷ d else (j, w) ∷ insert k v d

  -- `d.pop(k, None)`: a dict has one entry for a key, and every entry of the key goes
  abbrev pub erase : ℕ → List (ℕ × V) → List (ℕ × V)
  erase k [] = []
  erase k ((j, w) ∷ d) = if k == j then erase k d else (j, w) ∷ erase k d

  -- `d.update(e)`, and `{**d, **e}`
  abbrev pub update : List (ℕ × V) → List (ℕ × V) → List (ℕ × V)
  update d [] = d
  update d ((k, v) ∷ e) = update (insert k v d) e

  abbrev pub keys : List (ℕ × V) → List ℕ
  keys [] = []
  keys ((k, v) ∷ d) = k ∷ keys d

  pub lookup-insert :
      (j k : ℕ) (v : V) (d : List (ℕ × V))
      → lookup j (insert k v d) ≡ (if j == k then some v else lookup j d)
  lookup-insert j k v [] = refl
  lookup-insert j k v (e ∷ d) = ground (arith, lookup-insert j k v d)

  pub lookup-erase :
      (j k : ℕ) (d : List (ℕ × V)) → lookup j (erase k d) ≡ (if j == k then none else lookup j d)
  lookup-erase j k [] = ground arith
  lookup-erase j k (e ∷ d) = ground (arith, lookup-erase j k d)

-- `s.discard(k)`, for a set of numbers
abbrev pub discard : ℕ → List ℕ → List ℕ
discard k [] = []
discard k (x ∷ xs) = if k == x then discard k xs else x ∷ discard k xs

-- `s.add(k)`
abbrev pub add : ℕ → List ℕ → List ℕ
add k xs = if mem_num k xs then xs else k ∷ xs

pub mem_num-discard :
    (j k : ℕ) (xs : List ℕ) → mem_num j (discard k xs) ≡ (if j == k then false else mem_num j xs)
mem_num-discard j k [] = ground arith
mem_num-discard j k (x ∷ xs) = ground (arith, mem_num-discard j k xs)

pub mem_num-add : (j k : ℕ) (xs : List ℕ) → mem_num j (add k xs) ≡ (j == k || mem_num j xs)
mem_num-add j k xs = ground arith

-- the keys of a dict, as a set
pub mem_num-keys {ℓ} :
    {V : Type ℓ} (k : ℕ) (d : List (ℕ × V)) → mem_num k (keys d) ≡ false → lookup k d ≡ none
mem_num-keys k [] h = refl
mem_num-keys k (e ∷ d) h = ground (arith, mem_num-keys k d)

pub mem_str-append :
    (i : String) (a b : List String) → mem_str i (a ++ b) ≡ (mem_str i a || mem_str i b)
mem_str-append i [] b = refl
mem_str-append i (x ∷ a) b = ground (arith, mem_str-append i a b)
