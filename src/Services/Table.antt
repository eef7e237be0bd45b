-- ===== src/Services/Table.antt =====
-- The tables of the registries: rows with a name and a namespace, unique in the two together.
use contextql_server.Prelude.{
  is_some, eq_refl, ◌∙◌, String, Bool, true, ◌&&◌, Option, none, some, List, [], ◌∷◌, ◌++◌, find,
  any, str_eq, eq_iff, if◌then◌else◌, ◌≡◌, refl, arith, Bool-cases, inl, inr,
}
use contextql_server.Errors.{integrity_error, Result, ok, err}

-- How a row is looked up.
pub record Keys (A : Type 0) : Type 0 where
  pub name_of : A → String
  pub namespace_of : A → String

module _ {A : Type 0} (k : Keys A) where
  -- `WHERE name = ? AND namespace = ?`
  abbrev pub at : String → String → A → Bool
  at name namespace r = str_eq (k.name_of r) name && str_eq (k.namespace_of r) namespace

  -- `SELECT ... fetchone()`
  abbrev pub find_at : String → String → List A → Option A
  find_at name namespace = find (at name namespace)

  -- `INSERT`, under UNIQUE(name, namespace)
  abbrev pub insert_row : A → List A → Result (List A)
  insert_row r rows =
      if any (at (k.name_of r) (k.namespace_of r)) rows
      then err (integrity_error "UNIQUE constraint failed")
      else ok (rows ++ r ∷ [])

  -- `UPDATE ... WHERE name = ? AND namespace = ?`
  abbrev pub update_row : String → String → (A → A) → List A → List A
  update_row name namespace f [] = []
  update_row name namespace f (r ∷ rows) =
      let rest = update_row name namespace f rows in
      if at name namespace r then f r ∷ rest else r ∷ rest

-- `x or y`, for the results of two lookups
abbrev pub first_found {ℓ} : {A : Type ℓ} → Option A → Option A → Option A
first_found none b = b
first_found (some a) b = some a

abbrev pub mapped {ℓ} : {A : Type ℓ} → (A → A) → Option A → Option A
mapped f none = none
mapped f (some a) = some (f a)

first_found-none {ℓ} : {A : Type ℓ} (o : Option A) → first_found o none ≡ o
first_found-none none = refl
first_found-none (some a) = refl

module _ {A : Type 0} (k : Keys A) where
  pub find_at-append :
      (n ns : String) (rows : List A) (r : A)
      → find_at k n ns (rows ++ r ∷ [])
        ≡ first_found (find_at k n ns rows) (if at k n ns r then some r else none)
  find_at-append n ns [] r = refl
  find_at-append n ns (x ∷ rows) r = elim (Bool-cases (at k n ns x)) [
    | inl e ↦ rw e refl
    | inr e ↦ rw e (find_at-append n ns rows r)
  ]

  pub any-find_at :
      (n ns : String) (rows : List A) → any (at k n ns) rows ≡ is_some (find_at k n ns rows)
  any-find_at n ns [] = refl
  any-find_at n ns (r ∷ rows) = ground (arith, any-find_at n ns rows)

  -- The row that an update names is the updated one, and the other rows are as before.
  pub find_at-update_row :
      (n ns m ms : String) (f : A → A) (rows : List A)
      → ((r : A) → (k.name_of (f r) ≡ k.name_of r) × (k.namespace_of (f r) ≡ k.namespace_of r))
      → find_at k n ns (update_row k m ms f rows) ≡ (
          if str_eq n m && str_eq ns ms
          then mapped f (find_at k n ns rows)
          else find_at k n ns rows)
  find_at-update_row n ns m ms f [] same = ground arith
  find_at-update_row n ns m ms f (r ∷ rows) same = ground (
    arith,
    find_at-update_row n ns m ms f rows same,
    same r,
    eq_iff (k.name_of r) n,
    eq_iff (k.name_of r) m,
    eq_iff (k.namespace_of r) ns,
    eq_iff (k.namespace_of r) ms,
    eq_iff n m,
    eq_iff ns ms,
  )

-- Two keys are the same.
abbrev pub same_key : String → String → String → String → Bool
same_key n ns m ms = str_eq n m && str_eq ns ms

pub same_key-eq : (n ns m ms : String) → same_key n ns m ms ≡ true → (n ≡ m) × (ns ≡ ms)
same_key-eq n ns m ms h = ground (arith, eq_iff n m, eq_iff ns ms)

pub same_key_refl : (n ns : String) → same_key n ns n ns ≡ true
same_key_refl n ns = ground (arith, eq_refl n, eq_refl ns)

pub same_key_sym : (n ns m ms : String) → same_key n ns m ms ≡ same_key m ms n ns
same_key_sym n ns m ms = ground (arith, eq_iff n m, eq_iff ns ms, eq_iff m n, eq_iff ms ns)

module _ {A : Type 0} (k : Keys A) where
  -- After an insertion under a free key: the new row under its key, and the old rows elsewhere.
  pub find_at-insert :
      (n ns : String) (rows : List A) (r : A)
      → find_at k (k.name_of r) (k.namespace_of r) rows ≡ none
      → find_at k n ns (rows ++ r ∷ [])
        ≡ (if same_key n ns (k.name_of r) (k.namespace_of r) then some r else find_at k n ns rows)
  find_at-insert n ns rows r h =
      find_at-append k n ns rows r
      ∙ elim (Bool-cases (same_key n ns (k.name_of r) (k.namespace_of r))) [
        | inr other ↦
            rw (same_key_sym (k.name_of r) (k.namespace_of r) n ns, other)
              (first_found-none (find_at k n ns rows))
        | inl same ↦
            let e = same_key-eq n ns (k.name_of r) (k.namespace_of r) same in
            rw (e.0, e.1, h, same_key_refl (k.name_of r) (k.namespace_of r)) refl
      ]

  -- After an update of a row that is there: the changed row under its key, the old ones elsewhere.
  pub find_at-update :
      (n ns m ms : String) (f : A → A) (rows : List A) (p : A)
      → ((r : A) → (k.name_of (f r) ≡ k.name_of r) × (k.namespace_of (f r) ≡ k.namespace_of r))
      → find_at k m ms rows ≡ some p
      → find_at k n ns (update_row k m ms f rows)
        ≡ (if same_key n ns m ms then some (f p) else find_at k n ns rows)
  find_at-update n ns m ms f rows p same h =
      find_at-update_row k n ns m ms f rows same ∙ elim (Bool-cases (same_key n ns m ms)) [
        | inr other ↦ rw other refl
        | inl here ↦ let e = same_key-eq n ns m ms here in rw here (rw (e.0, e.1, h) refl)
      ]
