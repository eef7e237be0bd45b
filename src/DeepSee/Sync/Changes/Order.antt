-- ===== src/DeepSee/Sync/Changes/Order.antt =====
-- Sorting by the watermark in `sync_once`: the ids, and the last watermark.
use contextql_server.Prelude.{
  String, Bool, false, ◌||◌, List, [], ◌∷◌, ◌≡◌, ◌≢◌, refl, ap, ◌∙◌, arith, All, Bool-cases, inl,
  inr, str_eq, eq_iff, sorted, insert_sorted, All-sorted,
}
use contextql_server.Prelude.Int.{ℤ, leb_ℤ}
use contextql_server.Prelude.Dict.{mem_str}
use contextql_server.Errors.{contract_error, ok, err}
use contextql_server.DeepSee.Models.{ChangeEvent}
use contextql_server.DeepSee.Decimal.{int_of_text}
use contextql_server.DeepSee.Sync.Changes.{
  parse_watermark, boundary_text, last_watermark, event_ids,
}
use contextql_server.DeepSee.Sync.Changes.Filter.{IsApplicable}

-- Sorting the applicable events keeps their ids, and the last of them lies behind the boundary.
abbrev pub id_in : String → List ChangeEvent → Bool
id_in i es = mem_str i (event_ids es)

id_in-insert_sorted :
    (le : ChangeEvent → ChangeEvent → Bool) (i : String) (x : ChangeEvent) (es : List ChangeEvent)
    → id_in i (insert_sorted le x es) ≡ (str_eq i x.event_id || id_in i es)
id_in-insert_sorted le i x [] = refl
id_in-insert_sorted le i x (e ∷ es) = ground (arith, id_in-insert_sorted le i x es)

pub id_in-sorted :
    (le : ChangeEvent → ChangeEvent → Bool) (i : String) (es : List ChangeEvent)
    → id_in i (sorted le es) ≡ id_in i es
id_in-sorted le i [] = refl
id_in-sorted le i (e ∷ es) =
    id_in-insert_sorted le i e (sorted le es)
    ∙ ap (λ b. str_eq i e.event_id || b) (id_in-sorted le i es)

abbrev pub Behind : ℤ → ChangeEvent → Type 0
Behind boundary e = (w : ℤ) × (parse_watermark e.watermark ≡ ok w) × (leb_ℤ w boundary ≡ false)

last_watermark-Behind :
    (boundary : ℤ) (e : ChangeEvent) (es : List ChangeEvent)
    → All (Behind boundary) (e ∷ es)
    → (w : ℤ) × (parse_watermark (last_watermark e.watermark es) ≡ ok w)
      × (leb_ℤ w boundary ≡ false)
last_watermark-Behind boundary e [] h = h.0
last_watermark-Behind boundary e (x ∷ es) h = last_watermark-Behind boundary x es h.1

insert_sorted-cons :
    (le : ChangeEvent → ChangeEvent → Bool) (x : ChangeEvent) (es : List ChangeEvent)
    → (y : ChangeEvent) × (ys : List ChangeEvent) × (insert_sorted le x es ≡ y ∷ ys)
insert_sorted-cons le x [] = (x, [], refl)
insert_sorted-cons le x (e ∷ es) = elim (Bool-cases (le x e)) [
  | inl b ↦ (x, e ∷ es, rw b)
  | inr b ↦ (e, insert_sorted le x es, rw b)
]

pub last-sorted-Behind :
    (le : ChangeEvent → ChangeEvent → Bool) (boundary : ℤ) (es : List ChangeEvent)
    → es ≢ []
    → All (Behind boundary) es
    → (w : ℤ) × (parse_watermark (last_watermark "" (sorted le es)) ≡ ok w)
      × (leb_ℤ w boundary ≡ false)
last-sorted-Behind le boundary [] n h = absurd (n refl)
last-sorted-Behind le boundary (e ∷ es) n h =
    let (y, ys, p) = insert_sorted-cons le e (sorted le es) in
    let behind : All (Behind boundary) (y ∷ ys) =
      rw p at (All-sorted (Behind boundary) le (e ∷ es) h) in
    rw p (last_watermark-Behind boundary y ys behind)

pub All-Behind :
    (seen : List String) (boundary : ℤ) (es : List ChangeEvent)
    → All (IsApplicable seen boundary) es
    → All (Behind boundary) es
All-Behind seen boundary [] h = tt
All-Behind seen boundary (e ∷ es) h = (h.0.1, All-Behind seen boundary es h.1)

-- A watermark that parses is not the empty text.
pub boundary_text-parsed : (w : String) (z : ℤ) → parse_watermark w ≡ ok z → boundary_text w ≡ w
boundary_text-parsed w z h = elim (Bool-cases (str_eq w "")) [
  | inl e ↦
      let none_read : parse_watermark "" ≡ err contract_error =
        unfold parse_watermark int_of_text in refl in
      absurd (cc (h, none_read, (eq_iff w "").0 e))
  | inr e ↦ rw e
]
