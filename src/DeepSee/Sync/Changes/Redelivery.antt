-- ===== src/DeepSee/Sync/Changes/Redelivery.antt =====
-- `_filter_events` on a feed that is delivered again after it was committed.
use contextql_server.Prelude.{
  ◌+◌, String, true, false, ◌||◌, List, [], ◌∷◌, ◌++◌, ◌≡◌, ◌≢◌, refl, ap, arith, All, Bool-cases,
  inl, inr, eq_iff, eq_refl, sorted,
}
use contextql_server.Prelude.Int.{ℤ, leb_ℤ}
use contextql_server.Prelude.Dict.{mem_str, mem_str-append}
use contextql_server.Errors.{Result, ok, err}
use contextql_server.DeepSee.Models.{ChangeEvent}
use contextql_server.DeepSee.Sync.Changes.{
  parse_watermark, Filtered, is_duplicate, filter_from, filter_events, count_duplicate,
  count_out_of_order, keep_event, boundary_text, by_watermark, not_after, last_watermark, event_ids,
}
use contextql_server.DeepSee.Sync.Changes.Filter.{
  duplicate, malformed, early, fresh, Round-of, filter_duplicate, filter_malformed, filter_early,
  filter_fresh, filter_events-IsFiltered,
}
use contextql_server.DeepSee.Sync.Changes.Order.{
  id_in-sorted, last-sorted-Behind, All-Behind, boundary_text-parsed,
}

-- The loop returns and keeps nothing.
pub data KeepsNone (r : Result Filtered) : Type 0 where
  none_kept : (f : Filtered) → r ≡ ok f → f.applicable ≡ [] → KeepsNone r

count_duplicate-KeepsNone : (r : Result Filtered) → KeepsNone r → KeepsNone (count_duplicate r)
count_duplicate-KeepsNone r (none_kept f e n) =
    none_kept (record f { duplicates = f.duplicates + 1 }) (ap count_duplicate e) n

count_out_of_order-KeepsNone :
    (r : Result Filtered) → KeepsNone r → KeepsNone (count_out_of_order r)
count_out_of_order-KeepsNone r (none_kept f e n) =
    none_kept (record f { out_of_order = f.out_of_order + 1 }) (ap count_out_of_order e) n

-- every id of the first set is in the second
abbrev Within : List String → List String → Type 0
Within a b = (i : String) → mem_str i a ≡ true → mem_str i b ≡ true

abbrev AreSeen : List String → List ChangeEvent → Type 0
AreSeen seen = All (λ e. mem_str e.event_id seen ≡ true)

mem_str-or :
    (i : String) (a b seen : List String)
    → Within a seen
    → Within b seen
    → (mem_str i a || mem_str i b) ≡ true
    → mem_str i seen ≡ true
mem_str-or i a b seen wa wb h = ground (arith, wa i, wb i)

Within-cons :
    (j : String) (a seen : List String)
    → mem_str j seen ≡ true
    → Within a seen
    → Within (j ∷ a) seen
Within-cons j a seen h w i m = ground (arith, w i, eq_iff i j)

leb_ℤ_trans : (a b c : ℤ) → leb_ℤ a b ≡ true → leb_ℤ b c ≡ true → leb_ℤ a c ≡ true
leb_ℤ_trans a b c h k = ground arith

count_duplicate-ok :
    (r : Result Filtered) (f : Filtered)
    → count_duplicate r ≡ ok f
    → (g : Filtered) × (r ≡ ok g) × (g.applicable ≡ f.applicable)
count_duplicate-ok (ok g) f h = (g, refl, ground arith)
count_duplicate-ok (err x) f h = absurd (cc)

count_out_of_order-ok :
    (r : Result Filtered) (f : Filtered)
    → count_out_of_order r ≡ ok f
    → (g : Filtered) × (r ≡ ok g) × (g.applicable ≡ f.applicable)
count_out_of_order-ok (ok g) f h = (g, refl, ground arith)
count_out_of_order-ok (err x) f h = absurd (cc)

keep_event-ok :
    (e : ChangeEvent) (r : Result Filtered) (f : Filtered)
    → keep_event e r ≡ ok f
    → (g : Filtered) × (r ≡ ok g) × (f.applicable ≡ e ∷ g.applicable)
keep_event-ok e (ok g) f h = (g, refl, ground arith)
keep_event-ok e (err x) f h = absurd (cc)

module _ (seen' : List String) (boundary' : ℤ) where
  skip_seen :
      (e : ChangeEvent) (es : List ChangeEvent)
      → mem_str e.event_id seen' ≡ true
      → KeepsNone (filter_from seen' boundary' [] es)
      → KeepsNone (filter_from seen' boundary' [] (e ∷ es))
  skip_seen e es m k =
      rw (filter_duplicate seen' boundary' [] e es (ground arith)) (count_duplicate-KeepsNone _ k)

  skip_early :
      (e : ChangeEvent) (es : List ChangeEvent) (w : ℤ)
      → parse_watermark e.watermark ≡ ok w
      → leb_ℤ w boundary' ≡ true
      → KeepsNone (filter_from seen' boundary' [] es)
      → KeepsNone (filter_from seen' boundary' [] (e ∷ es))
  skip_early e es w r before k = elim (Bool-cases (is_duplicate seen' [] e)) [
    | inl d ↦ rw (filter_duplicate seen' boundary' [] e es d) (count_duplicate-KeepsNone _ k)
    | inr n ↦
        rw (filter_early seen' boundary' [] e es w n r before) (count_out_of_order-KeepsNone _ k)
  ]

  filter_from_again :
      (seen : List String) (boundary : ℤ) (batch : List String) (es : List ChangeEvent)
      (f : Filtered)
      → filter_from seen boundary batch es ≡ ok f
      → Within seen seen'
      → Within batch seen'
      → AreSeen seen' f.applicable
      → leb_ℤ boundary boundary' ≡ true
      → KeepsNone (filter_from seen' boundary' [] es)
  filter_from_again seen boundary batch [] f h ws wb kept le =
      none_kept (record { applicable = []; duplicates = 0; out_of_order = 0 })
        (unfold filter_from in refl) refl
  filter_from_again seen boundary batch (e ∷ es) f h ws wb kept le =
      elim (Round-of seen boundary batch e) [
        | duplicate d ↦
            let (g, r, same) =
              count_duplicate-ok _ f (rw (filter_duplicate seen boundary batch e es d) at h) in
            skip_seen e es (mem_str-or e.event_id seen batch seen' ws wb d)
              (filter_from_again seen boundary batch es g r ws wb (rw (← same) at kept) le)
        | malformed x n r ↦ absurd (cc (h, filter_malformed seen boundary batch e es x n r))
        | early w n r before ↦
            let (g, q, same) =
              count_out_of_order-ok _ f
                (rw (filter_early seen boundary batch e es w n r before) at h) in
            skip_early e es w r (leb_ℤ_trans w boundary boundary' before le)
              (filter_from_again seen boundary batch es g q ws wb (rw (← same) at kept) le)
        | fresh w n r behind ↦
            let (g, q, same) =
              keep_event-ok e _ f (rw (filter_fresh seen boundary batch e es w n r behind) at h) in
            let kept' : AreSeen seen' (e ∷ g.applicable) = rw same at kept in
            skip_seen e es kept'.0 (
              filter_from_again seen boundary (e.event_id ∷ batch) es g q ws
                (Within-cons e.event_id batch seen' kept'.0 wb) kept'.1 le)
      ]

-- every event of a part of the list has its id in the whole
id_in-All :
    (es : List ChangeEvent) (seen : List String) → Within (event_ids es) seen → AreSeen seen es
id_in-All [] seen w = tt
id_in-All (e ∷ es) seen w =
    (w e.event_id (simp eq_refl), id_in-All es seen (λ i m. w i (ground arith)))

leb_ℤ_of_behind : (a b : ℤ) → leb_ℤ a b ≡ false → leb_ℤ b a ≡ true
leb_ℤ_of_behind a b h = ground arith

-- After a feed of which at least one event was kept has been applied and committed, the same feed is
-- kept out whole: filtering it against the ids and the watermark that the commit left returns, and
-- keeps nothing.
pub redelivery_applies_nothing :
    (seen : List String) (committed : String) (es : List ChangeEvent) (boundary : ℤ) (f : Filtered)
    → parse_watermark (boundary_text committed) ≡ ok boundary
    → filter_events seen committed es ≡ ok f
    → f.applicable ≢ []
    → let ordered = by_watermark f.applicable in
      KeepsNone (filter_events (event_ids ordered ++ seen) (last_watermark "" ordered) es)
unfolding by_watermark filter_events
redelivery_applies_nothing seen committed es boundary f b h n =
    let filtered = filter_events-IsFiltered seen committed es boundary f b h in
    let (w, read, behind) =
      last-sorted-Behind not_after boundary f.applicable n
        (All-Behind seen boundary f.applicable filtered.0) in
    let ordered = sorted not_after f.applicable in
    let seen' = event_ids ordered ++ seen in
    let again : filter_from seen boundary [] es ≡ ok f = rw b at h in
    rw (boundary_text-parsed (last_watermark "" ordered) w read, read)
      (filter_from_again seen' w seen boundary [] es f again
        (λ i m. rw (mem_str-append i (event_ids ordered) seen, m) (ground arith)) (λ i m. cc)
        (id_in-All f.applicable seen' λ i m.
          rw (mem_str-append i (event_ids ordered) seen, id_in-sorted not_after i f.applicable, m)
            refl)
        (leb_ℤ_of_behind w boundary behind))
