-- ===== src/DeepSee/Sync/Changes/Filter.antt =====
-- `_filter_events`: what is applied, and what is counted.
use contextql_server.Prelude.{
  ◌+◌, String, Bool, true, false, ◌||◌, List, [], ◌∷◌, ⊤, ◌≡◌, refl, arith, All, length, Bool-cases,
  inl, inr,
}
use contextql_server.Prelude.Int.{ℤ, leb_ℤ}
use contextql_server.Prelude.Dict.{mem_str}
use contextql_server.Errors.{Error, Result, ok, err, Result-cases, returned, raised}
use contextql_server.DeepSee.Models.{ChangeEvent}
use contextql_server.DeepSee.Sync.Changes.{
  parse_watermark, Filtered, is_duplicate, filter_from, filter_events, count_duplicate,
  count_out_of_order, keep_event, boundary_text,
}

-- An event that may be applied: its id is new, and its watermark lies behind the boundary.
abbrev pub IsApplicable : List String → ℤ → ChangeEvent → Type 0
IsApplicable seen boundary e =
    (mem_str e.event_id seen ≡ false)
    × ((w : ℤ) × (parse_watermark e.watermark ≡ ok w) × (leb_ℤ w boundary ≡ false))

-- No id occurs twice, or in `batch`.
abbrev pub AreDistinct : List String → List ChangeEvent → Type 0
AreDistinct batch [] = ⊤
AreDistinct batch (e ∷ es) =
    (mem_str e.event_id batch ≡ false) × AreDistinct (e.event_id ∷ batch) es

abbrev pub IsFiltered : List String → ℤ → List String → List ChangeEvent → Filtered → Type 0
IsFiltered seen boundary batch es f =
    All (IsApplicable seen boundary) f.applicable
    × AreDistinct batch f.applicable
    × (length f.applicable + f.duplicates + f.out_of_order ≡ length es)

-- One round of the loop, by the branch that it takes.
pub data Round (seen : List String) (boundary : ℤ) (batch : List String) (e : ChangeEvent)
    : Type 0 where
  duplicate : is_duplicate seen batch e ≡ true → Round seen boundary batch e
  malformed :
      (x : Error)
      → is_duplicate seen batch e ≡ false
      → parse_watermark e.watermark ≡ err x
      → Round seen boundary batch e
  early :
      (w : ℤ)
      → is_duplicate seen batch e ≡ false
      → parse_watermark e.watermark ≡ ok w
      → leb_ℤ w boundary ≡ true
      → Round seen boundary batch e
  fresh :
      (w : ℤ)
      → is_duplicate seen batch e ≡ false
      → parse_watermark e.watermark ≡ ok w
      → leb_ℤ w boundary ≡ false
      → Round seen boundary batch e

pub Round-of :
    (seen : List String) (boundary : ℤ) (batch : List String) (e : ChangeEvent)
    → Round seen boundary batch e
Round-of seen boundary batch e = elim (Bool-cases (is_duplicate seen batch e)) [
  | inl d ↦ duplicate d
  | inr n ↦ elim (Result-cases (parse_watermark e.watermark)) [
    | raised x r ↦ malformed x n r
    | returned w r ↦ elim (Bool-cases (leb_ℤ w boundary)) [
      | inl before ↦ early w n r before
      | inr behind ↦ fresh w n r behind
    ]
  ]
]

abbrev IfOk : (Filtered → Type 0) → Result Filtered → Type 0
IfOk P (ok f) = P f
IfOk P (err x) = ⊤

or_false : (a b : Bool) → (a || b) ≡ false → (a ≡ false) × (b ≡ false)
or_false a b h = ground arith

count_duplicate-IsFiltered :
    (seen : List String) (boundary : ℤ) (batch : List String) (e : ChangeEvent)
    (es : List ChangeEvent) (r : Result Filtered)
    → IfOk (IsFiltered seen boundary batch es) r
    → IfOk (IsFiltered seen boundary batch (e ∷ es)) (count_duplicate r)
count_duplicate-IsFiltered seen boundary batch e es (ok f) h = (h.0, h.1, omega arith)
count_duplicate-IsFiltered seen boundary batch e es (err x) h = tt

count_out_of_order-IsFiltered :
    (seen : List String) (boundary : ℤ) (batch : List String) (e : ChangeEvent)
    (es : List ChangeEvent) (r : Result Filtered)
    → IfOk (IsFiltered seen boundary batch es) r
    → IfOk (IsFiltered seen boundary batch (e ∷ es)) (count_out_of_order r)
count_out_of_order-IsFiltered seen boundary batch e es (ok f) h = (h.0, h.1, omega arith)
count_out_of_order-IsFiltered seen boundary batch e es (err x) h = tt

keep_event-IsFiltered :
    (seen : List String) (boundary : ℤ) (batch : List String) (e : ChangeEvent)
    (es : List ChangeEvent) (r : Result Filtered)
    → IsApplicable seen boundary e
    → mem_str e.event_id batch ≡ false
    → IfOk (IsFiltered seen boundary (e.event_id ∷ batch) es) r
    → IfOk (IsFiltered seen boundary batch (e ∷ es)) (keep_event e r)
keep_event-IsFiltered seen boundary batch e es (ok f) a n h = ((a, h.0), (n, h.1), omega arith)
keep_event-IsFiltered seen boundary batch e es (err x) a n h = tt

module _ (seen : List String) (boundary : ℤ) (batch : List String) (e : ChangeEvent)
    (es : List ChangeEvent) where
  pub filter_duplicate :
      is_duplicate seen batch e ≡ true
      → filter_from seen boundary batch (e ∷ es)
        ≡ count_duplicate (filter_from seen boundary batch es)
  unfolding filter_from
  filter_duplicate d = ground arith

  pub filter_malformed :
      (x : Error)
      → is_duplicate seen batch e ≡ false
      → parse_watermark e.watermark ≡ err x
      → filter_from seen boundary batch (e ∷ es) ≡ err x
  unfolding filter_from
  filter_malformed x n r = ground arith

  pub filter_early :
      (w : ℤ)
      → is_duplicate seen batch e ≡ false
      → parse_watermark e.watermark ≡ ok w
      → leb_ℤ w boundary ≡ true
      → filter_from seen boundary batch (e ∷ es)
        ≡ count_out_of_order (filter_from seen boundary batch es)
  unfolding filter_from
  filter_early w n r before = ground arith

  pub filter_fresh :
      (w : ℤ)
      → is_duplicate seen batch e ≡ false
      → parse_watermark e.watermark ≡ ok w
      → leb_ℤ w boundary ≡ false
      → filter_from seen boundary batch (e ∷ es)
        ≡ keep_event e (filter_from seen boundary (e.event_id ∷ batch) es)
  unfolding filter_from
  filter_fresh w n r behind = ground arith

filter_from-IsFiltered :
    (seen : List String) (boundary : ℤ) (batch : List String) (es : List ChangeEvent)
    → IfOk (IsFiltered seen boundary batch es) (filter_from seen boundary batch es)
unfolding filter_from
filter_from-IsFiltered seen boundary batch [] = (tt, tt, refl)
filter_from-IsFiltered seen boundary batch (e ∷ es) = elim (Round-of seen boundary batch e) [
  | duplicate d ↦ rw (filter_duplicate seen boundary batch e es d) (
      count_duplicate-IsFiltered seen boundary batch e es _
        (filter_from-IsFiltered seen boundary batch es))
  | malformed x n r ↦ rw (filter_malformed seen boundary batch e es x n r) tt
  | early w n r before ↦ rw (filter_early seen boundary batch e es w n r before) (
      count_out_of_order-IsFiltered seen boundary batch e es _
        (filter_from-IsFiltered seen boundary batch es))
  | fresh w n r behind ↦
      let new = or_false (mem_str e.event_id seen) (mem_str e.event_id batch) n in
      rw (filter_fresh seen boundary batch e es w n r behind) (
        keep_event-IsFiltered seen boundary batch e es _ (new.0, (w, r, behind)) new.1
          (filter_from-IsFiltered seen boundary (e.event_id ∷ batch) es))
]

-- What `_filter_events` keeps has new ids, each once, and watermarks behind the committed one; and
-- every event of the feed is kept, counted as a duplicate or counted as out of order.
pub filter_events-IsFiltered :
    (seen : List String) (committed : String) (es : List ChangeEvent) (boundary : ℤ) (f : Filtered)
    → parse_watermark (boundary_text committed) ≡ ok boundary
    → filter_events seen committed es ≡ ok f
    → IsFiltered seen boundary [] es f
unfolding filter_events
filter_events-IsFiltered seen committed es boundary f b h =
    let e : filter_from seen boundary [] es ≡ ok f = rw b at h in
    rw e at (filter_from-IsFiltered seen boundary [] es)
