-- ===== src/Services/Catalog/Listings/Outdated.antt =====
-- What `list` answers under a filter on the state, beside `get`.
use contextql_server.Prelude.{
  ℕ, zero, suc, ◌+◌, ◌≤◌, ◌<◌, String, Bool, true, not, ◌&&◌, ◌||◌, Option, some, List, [], ◌∷◌,
  filter, any, all, sorted, insert_sorted, take, length, length-sorted, length-filter_le, str_eq,
  eq_iff, eq_refl, leb, ltb, ◌==◌, ◌≡◌, refl, ap, ◌∙◌, arith, any_mono, all_mono,
}
use contextql_server.Repository.{ContextRow, Tables}
use contextql_server.Services.Catalog.{latest}
use contextql_server.Services.Catalog.Listings.{
  admits, is_wanted, same_name, is_listed, by_context_name, list_contexts,
}
use contextql_server.Services.Catalog.Listings.Stale.{live_in, AtLeast, latest-AtLeast}

-- A live version of the name of this one that is in a state.
abbrev pub live_in_state : String → ContextRow → ContextRow → Bool
live_in_state state r s = live_in r s && str_eq s.lifecycle_state state

-- In this state, the highest live version of the name is that of this row; and there is a live
-- version above it, which is then in another state.
abbrev pub IsOutdated : String → List ContextRow → ContextRow → Type 0
IsOutdated state rows r =
    (any (λ s. live_in_state state r s && s.version == r.version) rows ≡ true)
    × (all (λ s. not (live_in_state state r s) || leb s.version r.version) rows ≡ true)
    × (any (λ s. live_in r s && ltb r.version s.version) rows ≡ true)

any-filter :
    (p q : ContextRow → Bool) (rows : List ContextRow)
    → ((s : ContextRow) → p s ≡ true → q s ≡ true)
    → any p rows ≡ true
    → any p (filter q rows) ≡ true
any-filter p q [] f h = h
any-filter p q (s ∷ rows) f h = ground (arith, f s, any-filter p q rows f)

any-insert_sorted :
    (p : ContextRow → Bool) (le : ContextRow → ContextRow → Bool) (s : ContextRow)
    (rows : List ContextRow)
    → any p (insert_sorted le s rows) ≡ (p s || any p rows)
any-insert_sorted p le s [] = refl
any-insert_sorted p le s (x ∷ rows) = ground (arith, any-insert_sorted p le s rows)

any-sorted :
    (p : ContextRow → Bool) (le : ContextRow → ContextRow → Bool) (rows : List ContextRow)
    → any p (sorted le rows) ≡ any p rows
any-sorted p le [] = refl
any-sorted p le (s ∷ rows) =
    any-insert_sorted p le s (sorted le rows) ∙ rw (any-sorted p le rows) refl

take_all : (n : ℕ) (rows : List ContextRow) → length rows ≤ n → take n rows ≡ rows
take_all zero [] h = refl
take_all zero (s ∷ rows) h = absurd (omega arith)
take_all (suc n) [] h = refl
take_all (suc n) (s ∷ rows) h = ap (λ (l : List ContextRow). s ∷ l) (take_all n rows (omega arith))

module _ (namespace : Option String) (state : String) (rows : List ContextRow) (r : ContextRow)
    (admitted : admits namespace r.namespace ≡ true) (h : IsOutdated state rows r) where
  -- each row of that version and state is listed
  in_state-is_listed :
      (s : ContextRow)
      → (live_in_state state r s && s.version == r.version) ≡ true
      → is_listed (is_wanted namespace (some state)) rows s ≡ true
  in_state-is_listed s own =
      let wanted = is_wanted namespace (some state) in
      let here =
        any_mono (λ x. live_in_state state r x && x.version == r.version)
          (λ x. wanted x && (same_name s x && x.version == s.version)) rows
          (λ x k. ground (
            arith,
            eq_iff x.name r.name,
            eq_iff x.namespace r.namespace,
            eq_iff s.name r.name,
            eq_iff s.namespace r.namespace,
            eq_refl r.name,
            eq_refl r.namespace,
          ))
          h.0 in
      let highest =
        all_mono (λ x. not (live_in_state state r x) || leb x.version r.version)
          (λ x. not (wanted x && same_name s x) || leb x.version s.version) rows
          (λ x k. ground (
            arith,
            eq_iff x.name s.name,
            eq_iff x.namespace s.namespace,
            eq_iff s.name r.name,
            eq_iff s.namespace r.namespace,
          ))
          h.1 in
      ground arith

-- A filter on the state is applied before the versions are compared. In any catalog, whether or not
-- the namespace is given: where the highest live version of a context in the state that is asked for
-- is not the highest live one, a list that is long enough to hold the whole catalog has a row of the
-- context at the outdated version, while `get` answers with a higher version.
pub list_contexts-outdated :
    (namespace : Option String) (state : String) (limit : ℕ) (t : Tables) (r : ContextRow)
    → admits namespace r.namespace ≡ true
    → IsOutdated state t.contexts r
    → length t.contexts ≤ limit
    → (any
          (λ s. live_in_state state r s && s.version == r.version)
          (list_contexts namespace (some state) limit 0 t).0
        ≡ true)
      × ((best : ContextRow) × (latest r.name r.namespace t.contexts ≡ some best)
          × (r.version < best.version))
unfolding list_contexts AtLeast
list_contexts-outdated namespace state limit t r admitted h fits =
    let p = λ (s : ContextRow). live_in_state state r s && s.version == r.version in
    let base = filter (is_listed (is_wanted namespace (some state)) t.contexts) t.contexts in
    let within : length (sorted by_context_name base) ≤ limit = omega (
      arith,
      length-sorted by_context_name base,
      length-filter_le (is_listed (is_wanted namespace (some state)) t.contexts) t.contexts,
    ) in
    let above = latest-AtLeast r (r.version + 1) t.contexts (
      any_mono (λ (s : ContextRow). live_in r s && ltb r.version s.version)
        (λ s. live_in r s && leb (r.version + 1) s.version) t.contexts (λ s k. ground arith) h.2) in
    (
      rw (take_all limit (sorted by_context_name base) within) (
          any-sorted p by_context_name base
          ∙ any-filter p (is_listed (is_wanted namespace (some state)) t.contexts) t.contexts
              (in_state-is_listed namespace state t.contexts r admitted h) h.0),
      (above.0, above.1, omega (arith, above.2)),
    )
