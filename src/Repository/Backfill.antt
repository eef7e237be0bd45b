-- ===== src/Repository/Backfill.antt =====
-- context_catalog.py, `_backfill_v2_rows`: rows that an older schema left without an id get one when
-- the repository is constructed. UUIDs and SHA-256 are arguments, and so is which text of its rows a
-- group gives, since SQL leaves that open.
use contextql_server.Prelude.{
  ℕ, ◌+◌, String, Bool, true, false, not, ◌&&◌, ◌||◌, Option, none, some, List, [], ◌∷◌, map, any,
  filter, str_eq, eq_refl, is_some, if◌then◌else◌, ◌≡◌, refl, arith, All, inl, inr, Bool-cases,
}
use contextql_server.Repository.{ContextRow, Tables}

abbrev pub bears : String × String → ContextRow → Bool
bears (name, namespace) r = str_eq r.name name && str_eq r.namespace namespace

-- `SELECT name, namespace ... WHERE context_id IS NULL GROUP BY name, namespace`
unfoldable pub groups : List ContextRow → List (String × String)
groups [] = []
groups (r ∷ rows) =
    let rest = groups rows in
    if is_some r.context_id || any (λ g. bears g r) rest then rest else (r.name, r.namespace) ∷ rest

-- `COALESCE(definition_hash, ?)`
abbrev pub coalesce : Option String → String → Option String
coalesce none fallback = some fallback
coalesce (some t) fallback = some t

-- `UPDATE contexts ... WHERE name = ? AND namespace = ?`; a namespace is not NULL
abbrev pub give_id : String × String → String → String → ContextRow → ContextRow
give_id g context_id hash r =
    if bears g r
    then record r {
      context_id = some context_id;
      definition_hash = coalesce r.definition_hash hash;
    }
    else r

module _ (uuid4 : ℕ → String) (sha256 : String → String) (text_of : List ContextRow → String) where
  -- the loop, of whose `SELECT` the rows are read before it; `n` counts the UUIDs that it has made
  unfoldable pub fill :
      List ContextRow → ℕ → List (String × String) → List ContextRow → List ContextRow
  fill selected n [] rows = rows
  fill selected n (g ∷ gs) rows =
      fill selected (n + 1) gs
        (map (give_id g (uuid4 n) (sha256 (text_of (filter (bears g) selected)))) rows)

  -- `_backfill_v2_rows`
  unfoldable pub backfill_v2_rows : Tables → Tables
  unfolding fill groups
  backfill_v2_rows t =
      let selected = filter (λ r. not (is_some r.context_id)) t.contexts in
      record t { contexts = fill selected 0 (groups t.contexts) t.contexts }

-- The row has an id, or one of the groups to come gives it one.
abbrev pub Awaits : List (String × String) → ContextRow → Type 0
Awaits gs r = (is_some r.context_id || any (λ g. bears g r) gs) ≡ true

Awaits-more :
    (g : String × String) (gs : List (String × String)) (rows : List ContextRow)
    → All (Awaits gs) rows
    → All (Awaits (g ∷ gs)) rows
Awaits-more g gs [] a = tt
Awaits-more g gs (r ∷ rows) a = (ground (arith, a.0), Awaits-more g gs rows a.1)

bears-own : (r : ContextRow) → bears (r.name, r.namespace) r ≡ true
bears-own r = rw (eq_refl r.name, eq_refl r.namespace) refl

is_grouped : ContextRow → List ContextRow → Bool
is_grouped r rows = is_some r.context_id || any (λ g. bears g r) (groups rows)

groups-grouped :
    (r : ContextRow) (rows : List ContextRow)
    → is_grouped r rows ≡ true
    → groups (r ∷ rows) ≡ groups rows
unfolding groups is_grouped
groups-grouped r rows e = rw e refl

groups-new :
    (r : ContextRow) (rows : List ContextRow)
    → is_grouped r rows ≡ false
    → groups (r ∷ rows) ≡ (r.name, r.namespace) ∷ groups rows
unfolding groups is_grouped
groups-new r rows e = rw e refl

Awaits-same :
    (gs gs' : List (String × String)) (rows : List ContextRow)
    → gs' ≡ gs
    → All (Awaits gs) rows
    → All (Awaits gs') rows
Awaits-same gs gs' [] e a = tt
Awaits-same gs gs' (r ∷ rows) e a = (rw e a.0, Awaits-same gs gs' rows e a.1)

groups-Awaits : (rows : List ContextRow) → All (Awaits (groups rows)) rows
unfolding is_grouped
groups-Awaits [] = tt
groups-Awaits (r ∷ rows) = elim (Bool-cases (is_grouped r rows)) [
  | inl e ↦ Awaits-same (groups rows) _ (r ∷ rows) (groups-grouped r rows e) (e, groups-Awaits rows)
  | inr e ↦
      Awaits-same ((r.name, r.namespace) ∷ groups rows) _ (r ∷ rows) (groups-new r rows e)
        (ground (arith, bears-own r), Awaits-more _ (groups rows) rows (groups-Awaits rows))
]

give_id-Awaits :
    (g : String × String) (gs : List (String × String)) (c h : String) (r : ContextRow)
    → Awaits (g ∷ gs) r
    → Awaits gs (give_id g c h r)
give_id-Awaits g gs c h r a = elim (Bool-cases (bears g r)) [
  | inl e ↦ rw e refl
  | inr e ↦ rw e (ground (arith, a, e))
]

map-Awaits :
    (g : String × String) (gs : List (String × String)) (c h : String) (rows : List ContextRow)
    → All (Awaits (g ∷ gs)) rows
    → All (Awaits gs) (map (give_id g c h) rows)
map-Awaits g gs c h [] a = tt
map-Awaits g gs c h (r ∷ rows) a = (give_id-Awaits g gs c h r a.0, map-Awaits g gs c h rows a.1)

has_ids :
    (rows : List ContextRow) → All (Awaits []) rows → All (λ r. is_some r.context_id ≡ true) rows
has_ids [] a = tt
has_ids (r ∷ rows) a = (ground (arith, a.0), has_ids rows a.1)

no_groups :
    (rows : List ContextRow) → All (λ r. is_some r.context_id ≡ true) rows → groups rows ≡ []
unfolding groups
no_groups [] h = refl
no_groups (r ∷ rows) h = rw h.0 (no_groups rows h.1)

module _ (uuid4 : ℕ → String) (sha256 : String → String) (text_of : List ContextRow → String) where
  fill-Awaits :
      (selected : List ContextRow) (n : ℕ) (gs : List (String × String)) (rows : List ContextRow)
      → All (Awaits gs) rows
      → All (Awaits []) (fill uuid4 sha256 text_of selected n gs rows)
  unfolding fill
  fill-Awaits selected n [] rows a = a
  fill-Awaits selected n (g ∷ gs) rows a =
      fill-Awaits selected (n + 1) gs _ (map-Awaits g gs (uuid4 n) _ rows a)

  -- After the backfill every row has an id.
  pub backfill_v2_rows-ids :
      (t : Tables)
      → All (λ r. is_some r.context_id ≡ true) (backfill_v2_rows uuid4 sha256 text_of t).contexts
  unfolding backfill_v2_rows
  backfill_v2_rows-ids t =
      has_ids _ (fill-Awaits _ 0 (groups t.contexts) t.contexts (groups-Awaits t.contexts))

  -- Where every row has an id already, as after a backfill, it changes nothing.
  pub backfill_v2_rows-again :
      (t : Tables)
      → All (λ r. is_some r.context_id ≡ true) t.contexts
      → backfill_v2_rows uuid4 sha256 text_of t ≡ t
  unfolding backfill_v2_rows fill
  backfill_v2_rows-again t h = rw (no_groups t.contexts h) refl
