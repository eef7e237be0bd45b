-- ===== src/Repository/Snapshots/Anchor.antt =====
-- The anchor of `prune_history`: what it is, and that it stays when other rows are left out.
use mathlib.Core.Path.{subst}
use contextql_server.Prelude.{
  ◌==◌, any, all, all_mono, All, not, ◌||◌, ltb, ℕ, ⊤, String, Bool, true, false, ◌&&◌, Option,
  none, some, List, [], ◌∷◌, filter, str_eq, leb, if◌then◌else◌, Bool-cases, inl, inr, ◌≡◌, refl,
  ap, sym, ◌∙◌, arith,
}
use contextql_server.Repository.{SnapshotRow}
use contextql_server.Repository.Snapshots.{later, prefer, anchor_of}

-- A snapshot of the context that was there at the cutoff.
abbrev pub answers : String → ℕ → SnapshotRow → Bool
answers c cutoff r = str_eq r.context_id c && leb r.data_as_of cutoff

-- The data of the one is not newer than that of the other; of the same data, neither is its version.
abbrev pub no_newer : SnapshotRow → SnapshotRow → Bool
no_newer r b =
    ltb r.data_as_of b.data_as_of || (r.data_as_of == b.data_as_of && leb r.version b.version)

abbrev pub is_like : SnapshotRow → SnapshotRow → Bool
is_like b r = r.version == b.version && r.data_as_of == b.data_as_of

-- None where no snapshot answers for the cutoff, else one of those that do, and the newest of them.
abbrev pub IsAnchor : String → ℕ → List SnapshotRow → Option SnapshotRow → Type 0
IsAnchor c cutoff rows none = All (λ r. answers c cutoff r ≡ false) rows
IsAnchor c cutoff rows (some b) =
    (answers c cutoff b ≡ true)
    × (any (λ r. answers c cutoff r && is_like b r) rows ≡ true)
    × (all (λ r. not (answers c cutoff r) || no_newer r b) rows ≡ true)

none-all :
    (c : String) (cutoff : ℕ) (r : SnapshotRow) (rows : List SnapshotRow)
    → All (λ r. answers c cutoff r ≡ false) rows
    → all (λ s. not (answers c cutoff s) || no_newer s r) rows ≡ true
none-all c cutoff r [] h = refl
none-all c cutoff r (x ∷ rows) h = rw h.0 (none-all c cutoff r rows h.1)

no_newer_refl : (r : SnapshotRow) → no_newer r r ≡ true
no_newer_refl r = ground arith

head-all :
    (c : String) (cutoff : ℕ) (r b : SnapshotRow) (rows : List SnapshotRow)
    → no_newer r b ≡ true
    → all (λ s. not (answers c cutoff s) || no_newer s b) rows ≡ true
    → all (λ s. not (answers c cutoff s) || no_newer s b) (r ∷ rows) ≡ true
head-all c cutoff r b rows h k = rw (h, k) (ground arith)

any_rest :
    (c : String) (cutoff : ℕ) (r b : SnapshotRow) (rows : List SnapshotRow)
    → any (λ s. answers c cutoff s && is_like b s) rows ≡ true
    → any (λ s. answers c cutoff s && is_like b s) (r ∷ rows) ≡ true
any_rest c cutoff r b rows h = rw h (ground arith)

none-prefer-IsAnchor :
    (c : String) (cutoff : ℕ) (r : SnapshotRow) (rows : List SnapshotRow)
    → answers c cutoff r ≡ true
    → All (λ s. answers c cutoff s ≡ false) rows
    → IsAnchor c cutoff (r ∷ rows) (some r)
none-prefer-IsAnchor c cutoff r rows m h =
    (m, ground arith, head-all c cutoff r r rows (no_newer_refl r) (none-all c cutoff r rows h))

prefer-IsAnchor :
    (c : String) (cutoff : ℕ) (r : SnapshotRow) (rows : List SnapshotRow) (o : Option SnapshotRow)
    → answers c cutoff r ≡ true
    → IsAnchor c cutoff rows o
    → IsAnchor c cutoff (r ∷ rows) (some (prefer r o))
prefer-IsAnchor c cutoff r rows none m h = none-prefer-IsAnchor c cutoff r rows m h
prefer-IsAnchor c cutoff r rows (some b) m h = elim (Bool-cases (later b r)) [
  | inl l ↦
      let same : b ≡ prefer r (some b) = rw l refl in
      subst (λ x. IsAnchor c cutoff (r ∷ rows) (some x)) same
        (h.0, any_rest c cutoff r b rows h.1, head-all c cutoff r b rows (ground arith) h.2)
  | inr l ↦
      let same : r ≡ prefer r (some b) = rw l refl in
      subst (λ x. IsAnchor c cutoff (r ∷ rows) (some x)) same
        (
          m,
          ground arith,
          head-all c cutoff r r rows (no_newer_refl r) (
              all_mono (λ s. not (answers c cutoff s) || no_newer s b)
                (λ s. not (answers c cutoff s) || no_newer s r) rows (λ s k. ground arith) h.2),
        )
]

other-IsAnchor :
    (c : String) (cutoff : ℕ) (r : SnapshotRow) (rows : List SnapshotRow) (o : Option SnapshotRow)
    → answers c cutoff r ≡ false
    → IsAnchor c cutoff rows o
    → IsAnchor c cutoff (r ∷ rows) o
other-IsAnchor c cutoff r rows none n h = (n, h)
other-IsAnchor c cutoff r rows (some b) n h = (h.0, ground arith, ground arith)

pub anchor_of-IsAnchor :
    (c : String) (cutoff : ℕ) (rows : List SnapshotRow)
    → IsAnchor c cutoff rows (anchor_of c cutoff rows)
unfolding anchor_of
anchor_of-IsAnchor c cutoff [] = tt
anchor_of-IsAnchor c cutoff (r ∷ rows) = elim (Bool-cases (answers c cutoff r)) [
  | inl m ↦ rw m (
      prefer-IsAnchor c cutoff r rows (anchor_of c cutoff rows) m
        (anchor_of-IsAnchor c cutoff rows))
  | inr n ↦ rw n (
      other-IsAnchor c cutoff r rows (anchor_of c cutoff rows) n (anchor_of-IsAnchor c cutoff rows))
]

abbrev NotLater : Option SnapshotRow → Option SnapshotRow → Type 0
NotLater o none = o ≡ none
NotLater none (some b) = ⊤
NotLater (some a) (some b) = later a b ≡ false

both_prefer :
    (r : SnapshotRow) (o o' : Option SnapshotRow)
    → NotLater o' o
    → NotLater (some (prefer r o')) (some (prefer r o))
both_prefer r none o' h = rw h (ground arith)
both_prefer r (some b) none h = ground arith
both_prefer r (some b) (some a) h = ground arith

one_prefers :
    (r : SnapshotRow) (o o' : Option SnapshotRow) → NotLater o' o → NotLater o' (some (prefer r o))
one_prefers r none o' h = rw h tt
one_prefers r (some b) none h = tt
one_prefers r (some b) (some a) h = ground arith

pub some-eq : (a b : SnapshotRow) → some a ≡ some b → a ≡ b
some-eq a b h = ground arith

not_later : (a x r : SnapshotRow) → later a x ≡ false → later x r ≡ false → later a r ≡ false
not_later a x r h k = ground arith

-- a row that is left out is not the one that is kept
dropped :
    (o : Option SnapshotRow) (r b : SnapshotRow) (p : SnapshotRow → Bool) {A : Type 0}
    → prefer r o ≡ b
    → p b ≡ true
    → p r ≡ false
    → (o ≡ some b → A)
    → A
dropped none r b p e k n f = absurd (let t = sym k ∙ ap p (sym e) ∙ n in ground arith)
dropped (some x) r b p e k n f = elim (Bool-cases (later x r)) [
  | inl l ↦ f (ap some (rw l at e))
  | inr l ↦
      let same : r ≡ b = rw l at e in absurd (let t = sym k ∙ ap p (sym same) ∙ n in ground arith)
]

module _ (c : String) (cutoff : ℕ) where
  abbrev matches : SnapshotRow → Bool
  matches r = str_eq r.context_id c && leb r.data_as_of cutoff

  abbrev extend : Bool → SnapshotRow → Option SnapshotRow → Option SnapshotRow
  extend m r o = if m then some (prefer r o) else o

  -- leaving rows out makes nothing later
  filter-NotLater :
      (p : SnapshotRow → Bool) (rows : List SnapshotRow)
      → NotLater (anchor_of c cutoff (filter p rows)) (anchor_of c cutoff rows)
  unfolding anchor_of
  filter-NotLater p [] = refl
  filter-NotLater p (r ∷ rs) = elim (Bool-cases (p r)) [
    | inl keeps ↦ elim (Bool-cases (matches r)) [
      | inl m ↦
          rw (keeps, m)
            (both_prefer r (anchor_of c cutoff rs) (anchor_of c cutoff (filter p rs))
              (filter-NotLater p rs))
      | inr n ↦ rw (keeps, n) (filter-NotLater p rs)
    ]
    | inr drops ↦ elim (Bool-cases (matches r)) [
      | inl m ↦
          rw (drops, m)
            (one_prefers r (anchor_of c cutoff rs) (anchor_of c cutoff (filter p rs))
              (filter-NotLater p rs))
      | inr n ↦ rw (drops, n) (filter-NotLater p rs)
    ]
  ]

  prefer-stays :
      (r : SnapshotRow) (o o' : Option SnapshotRow) (b : SnapshotRow)
      → NotLater o' o
      → prefer r o ≡ b
      → (o ≡ some b → o' ≡ some b)
      → prefer r o' ≡ b
  prefer-stays r none o' b h e k = rw h e
  prefer-stays r (some x) none b h e k = elim (Bool-cases (later x r)) [
    | inl l ↦ let same : x ≡ b = rw l at e in absurd (let n = k (ap some same) in ground arith)
    | inr l ↦ rw l at e
  ]
  prefer-stays r (some x) (some a) b h e k = elim (Bool-cases (later x r)) [
    | inl l ↦
        let same : x ≡ b = rw l at e in
        let there = some-eq a b (k (ap some same)) in rw (there, sym same, l) refl
    | inr l ↦ let same : r ≡ b = rw l at e in rw (not_later a x r h l) same
  ]

  -- leaving other rows out keeps the anchor
  pub filter-anchor :
      (p : SnapshotRow → Bool) (rows : List SnapshotRow) (b : SnapshotRow)
      → anchor_of c cutoff rows ≡ some b
      → p b ≡ true
      → anchor_of c cutoff (filter p rows) ≡ some b
  unfolding anchor_of
  filter-anchor p [] b h k = absurd (ground arith)
  filter-anchor p (r ∷ rs) b h k = elim (Bool-cases (matches r)) [
    | inr n ↦
        let rest : anchor_of c cutoff rs ≡ some b = rw n at h in
        let ih = filter-anchor p rs b rest k in
        elim (Bool-cases (p r)) [ inl keeps ↦ rw (keeps, n) ih | inr drops ↦ rw drops ih ]
    | inl m ↦
        let best : some (prefer r (anchor_of c cutoff rs)) ≡ some b = rw m at h in
        let chosen = some-eq (prefer r (anchor_of c cutoff rs)) b best in
        let stays =
          prefer-stays r (anchor_of c cutoff rs) (anchor_of c cutoff (filter p rs)) b
            (filter-NotLater p rs) chosen (λ e. filter-anchor p rs b e k) in
        elim (Bool-cases (p r)) [
          | inl keeps ↦ rw (keeps, m) (ap some stays)
          | inr drops ↦
              rw drops
                (dropped (anchor_of c cutoff rs) r b p chosen k drops λ e. filter-anchor p rs b e k)
        ]
  ]
