-- ===== src/Services/Catalog/Listings/Stale.antt =====
-- What `list` answers beside `get`.
use contextql_server.Prelude.{
  ℕ, ◌≤◌, String, Bool, true, not, ◌&&◌, ◌||◌, Option, none, some, List, [], ◌∷◌, any, all, str_eq,
  eq_iff, leb, ◌==◌, is_some, ◌≡◌, refl, arith, any_mono, all_mono, any-elim, Bool-cases, inl, inr,
}
use contextql_server.Repository.{ContextRow}
use contextql_server.Services.Catalog.{latest, higher}
use contextql_server.Services.Catalog.Listings.{admits, is_wanted, same_name, is_listed}

-- The latest row of a name is at the version of this one.
abbrev pub Answers : List ContextRow → ContextRow → Type 0
Answers rows r =
    (best : ContextRow) × (latest r.name r.namespace rows ≡ some best) × (best.version ≡ r.version)

abbrev pub live_in : ContextRow → ContextRow → Bool
live_in r s = str_eq s.name r.name && (str_eq s.namespace r.namespace && not (is_some s.dropped_at))

unfoldable pub AtLeast : ℕ → Option ContextRow → Type 0
AtLeast k o = (best : ContextRow) × (o ≡ some best) × (k ≤ best.version)

higher-own :
    (k : ℕ) (x : ContextRow) (o : Option ContextRow) → k ≤ x.version → AtLeast k (some (higher x o))
unfolding AtLeast
higher-own k x none h = (x, refl, h)
higher-own k x (some b) h = (higher x (some b), refl, ground arith)

higher-rest :
    (k : ℕ) (x : ContextRow) (o : Option ContextRow) → AtLeast k o → AtLeast k (some (higher x o))
unfolding AtLeast
higher-rest k x o h = rw h.1 (higher x (some h.0), refl, (let le = h.2 in ground arith))

module _ (r : ContextRow) where
  -- a live row of the name is not above the latest one
  pub latest-AtLeast :
      (k : ℕ) (rows : List ContextRow)
      → any (λ x. live_in r x && leb k x.version) rows ≡ true
      → AtLeast k (latest r.name r.namespace rows)
  unfolding latest
  latest-AtLeast k [] h = absurd (ground arith)
  latest-AtLeast k (x ∷ rows) h = elim (Bool-cases (live_in r x)) [
    | inr other ↦ rw other (latest-AtLeast k rows (rw other at h))
    | inl own ↦ elim (Bool-cases (leb k x.version)) [
      | inl above ↦ rw own (higher-own k x (latest r.name r.namespace rows) (ground arith))
      | inr below ↦ rw own (
          higher-rest k x (latest r.name r.namespace rows)
            (latest-AtLeast k rows (rw (own, below) at h)))
    ]
  ]

  higher-bound :
      (v : ℕ) (x best : ContextRow) (o : Option ContextRow)
      → some (higher x o) ≡ some best
      → x.version ≤ v
      → ((b : ContextRow) → o ≡ some b → b.version ≤ v)
      → best.version ≤ v
  higher-bound v x best none e h k = ground arith
  higher-bound v x best (some b) e h k = let y = k b refl in ground arith

  -- the latest one is live and of the name, so it is not above what bounds these
  latest-bound :
      (v : ℕ) (rows : List ContextRow) (best : ContextRow)
      → all (λ x. not (live_in r x) || leb x.version v) rows ≡ true
      → latest r.name r.namespace rows ≡ some best
      → best.version ≤ v
  unfolding latest
  latest-bound v [] best h e = absurd (ground arith)
  latest-bound v (x ∷ rows) best h e = elim (Bool-cases (live_in r x)) [
    | inr other ↦ latest-bound v rows best (rw other at h) (rw other at e)
    | inl own ↦
        higher-bound v x best (latest r.name r.namespace rows) (rw own at e)
          (let y : (leb x.version v && all (λ x. not (live_in r x) || leb x.version v) rows)
                ≡ true =
              rw own at h in
            ground arith)
          (λ b k.
            latest-bound v rows b
              (let y : (leb x.version v && all (λ x. not (live_in r x) || leb x.version v) rows)
                    ≡ true =
                  rw own at h in
                ground arith)
              k)
  ]

  module _ (namespace state : Option String) (rows : List ContextRow)
      (listed : is_listed (is_wanted namespace state) rows r ≡ true) where
    wanted_here :
        any (λ s. is_wanted namespace state s && (same_name r s && s.version == r.version)) rows
        ≡ true
    wanted_here = ground arith

    listed-AtLeast : AtLeast r.version (latest r.name r.namespace rows)
    listed-AtLeast = latest-AtLeast r.version rows (
        any_mono (λ s. is_wanted namespace state s && (same_name r s && s.version == r.version))
          (λ x. live_in r x && leb r.version x.version) rows (λ x h. ground arith) wanted_here)

    namespace_admitted : admits namespace r.namespace ≡ true
    namespace_admitted =
        any-elim (admits namespace r.namespace ≡ true)
          (λ s. is_wanted namespace state s && (same_name r s && s.version == r.version)) rows
          (λ x h. ground (arith, eq_iff x.namespace r.namespace)) wanted_here

  -- A row that is listed without a filter on the state, whether or not the namespace is given, is at
  -- the version that `get` answers with under its name and namespace.
  pub listed-Answers :
      (namespace : Option String) (rows : List ContextRow)
      → is_listed (is_wanted namespace none) rows r ≡ true
      → Answers rows r
  unfolding AtLeast
  listed-Answers namespace rows listed =
      let above = listed-AtLeast namespace none rows listed in
      let bound =
        latest-bound r.version rows above.0
          (all_mono
            (λ s. not (is_wanted namespace none s && same_name r s) || leb s.version r.version)
            (λ x. not (live_in r x) || leb x.version r.version) rows
            (λ x h. ground (
              arith,
              eq_iff x.namespace r.namespace,
              namespace_admitted namespace none rows listed,
            ))
            (ground arith))
          above.1 in
      (above.0, above.1, omega (arith, above.2, bound))
