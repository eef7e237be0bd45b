-- ===== src/Services/Audit/Growth.antt =====
-- How the audit log grows, and the pages of its queries.
use contextql_server.Prelude.{
  ℕ, zero, suc, ◌+◌, ◌≤◌, ◌<◌, ⊤, String, true, none, List, [], ◌∷◌, ◌++◌, sorted, insert_sorted,
  filter, take, drop, All, All-append, All-sorted, All-filter, ◌≡◌, refl, sym, ap, ◌∙◌, arith,
}
use native.Mathlib.Numerals.{unary_clauses}
use contextql_server.Services.Audit.{
  AuditRow, AuditLog, Event, AuditFilter, audit_row, log, matches, newer, query,
}

-- The rows are in the order of their ids, none of which is behind the counter.
abbrev pub Ascending : List AuditRow → Type 0
Ascending [] = ⊤
Ascending (r ∷ rs) = All (λ x. r.id < x.id) rs × Ascending rs

abbrev pub IsLog : AuditLog → Type 0
IsLog l = Ascending l.rows × All (λ r. r.id ≤ l.last_id) l.rows

Ascending-snoc :
    (rows : List AuditRow) (r : AuditRow) (n : ℕ)
    → n < r.id
    → Ascending rows
    → All (λ x. x.id ≤ n) rows
    → Ascending (rows ++ r ∷ [])
Ascending-snoc [] r n b a h = (tt, tt)
Ascending-snoc (x ∷ xs) r n b a h = (
  All-append (λ y. x.id < y.id) xs (r ∷ []) a.0 (omega (arith, h.0, b), tt),
  Ascending-snoc xs r n b a.1 h.1,
)

All-weaker :
    (n : ℕ) (rows : List AuditRow) → All (λ r. r.id ≤ n) rows → All (λ r. r.id ≤ n + 1) rows
All-weaker n [] h = tt
All-weaker n (r ∷ rs) h = (omega (arith, h.0), All-weaker n rs h.1)

All-below : (n : ℕ) (rows : List AuditRow) → All (λ r. r.id ≤ n) rows → All (λ r. r.id < n + 1) rows
All-below n [] h = tt
All-below n (r ∷ rs) h = (omega (arith, h.0), All-below n rs h.1)

abbrev pub no_filter : AuditFilter
no_filter = record {
  event_type = none;
  namespace = none;
  resource_type = none;
  resource_name = none;
}

-- Every event is one new row behind the old ones, with an id that is larger than all of theirs; and
-- the ids go on ascending.
pub log-IsLog :
    (e : Event) (now : ℕ) (fresh_id : String) (l : AuditLog)
    → IsLog l
    → let (id, l') = log e now fresh_id l in
      IsLog l'
      × (l'.rows ≡ l.rows ++ audit_row e now fresh_id id ∷ [])
      × All (λ r. r.id < id) l.rows
unfolding log
log-IsLog e now fresh_id l h = (
  (
    Ascending-snoc l.rows (audit_row e now fresh_id (l.last_id + 1)) l.last_id (omega arith) h.0
        h.1,
    All-append (λ r. r.id ≤ l.last_id + 1) l.rows _ (All-weaker l.last_id l.rows h.1)
        (omega arith, tt),
  ),
  refl,
  All-below l.last_id l.rows h.1,
)

take_add {ℓ} :
    {A : Type ℓ} (a b : ℕ) (xs : List A) → take (a + b) xs ≡ take a xs ++ take b (drop a xs)
take_add zero b xs = let z : 0 + b ≡ b = omega arith in ap (λ n. take n xs) z
take_add (suc a) zero [] = simp unary_clauses refl
take_add (suc a) (suc b) [] = simp unary_clauses refl
take_add (suc a) b (x ∷ xs) =
    let z : suc a + b ≡ suc (a + b) = omega arith in
    ap (λ n. take n (x ∷ xs)) z ∙ (ap (λ ys. x ∷ ys) (take_add a b xs))

drop_add {ℓ} : {A : Type ℓ} (n a : ℕ) (xs : List A) → drop (n + a) xs ≡ drop a (drop n xs)
drop_add zero a xs = let z : 0 + a ≡ a = omega arith in ap (λ n. drop n xs) z
drop_add (suc n) zero [] = simp unary_clauses refl
drop_add (suc n) (suc a) [] = simp unary_clauses refl
drop_add (suc n) a (x ∷ xs) =
    let z : suc n + a ≡ suc (n + a) = omega arith in ap (λ k. drop k (x ∷ xs)) z ∙ (drop_add n a xs)

All-take {ℓ κ} : {A : Type ℓ} (P : A → Type κ) (n : ℕ) (xs : List A) → All P xs → All P (take n xs)
All-take P zero xs h = tt
All-take P (suc n) [] h = tt
All-take P (suc n) (x ∷ xs) h = (h.0, All-take P n xs h.1)

All-drop {ℓ κ} : {A : Type ℓ} (P : A → Type κ) (n : ℕ) (xs : List A) → All P xs → All P (drop n xs)
All-drop P zero xs h = h
All-drop P (suc n) [] h = tt
All-drop P (suc n) (x ∷ xs) h = All-drop P n xs h.1

-- A page and the page behind it are one larger page, and every row of a page matches the filter.
pub query-pages :
    (f : AuditFilter) (limit more offset : ℕ) (l : AuditLog)
    → (query f limit offset l ++ query f more (offset + limit) l ≡ query f (limit + more) offset l)
      × All (λ r. matches f r ≡ true) (query f limit offset l)
unfolding query
query-pages f limit more offset l =
    let rows = sorted newer (filter (matches f) l.rows) in
    (
      rw (drop_add offset limit rows) (sym (take_add limit more (drop offset rows))),
      All-take (λ r. matches f r ≡ true) limit (drop offset rows)
          (All-drop (λ r. matches f r ≡ true) offset rows
            (All-sorted (λ r. matches f r ≡ true) newer (filter (matches f) l.rows)
              (All-filter (matches f) l.rows))),
    )

filter-no_filter : (rows : List AuditRow) → filter (matches no_filter) rows ≡ rows
filter-no_filter [] = refl
filter-no_filter (r ∷ rs) = ap (λ xs. r ∷ xs) (filter-no_filter rs)

-- where the new row has the largest id, it comes first
insert_sorted-newest :
    (r : AuditRow) (rows : List AuditRow)
    → All (λ x. x.id < r.id) rows
    → insert_sorted newer r rows ≡ r ∷ rows
insert_sorted-newest r [] h = refl
insert_sorted-newest r (x ∷ xs) h = ground arith

insert_sorted-behind :
    (x r : AuditRow) (rows : List AuditRow)
    → x.id < r.id
    → insert_sorted newer x (r ∷ rows) ≡ r ∷ insert_sorted newer x rows
insert_sorted-behind x r rows h = ground arith

sorted-newest :
    (r : AuditRow) (rows : List AuditRow)
    → All (λ x. x.id < r.id) rows
    → sorted newer (rows ++ r ∷ []) ≡ r ∷ sorted newer rows
sorted-newest r [] h = refl
sorted-newest r (x ∷ xs) h =
    ap (insert_sorted newer x) (sorted-newest r xs h.1)
    ∙ insert_sorted-behind x r (sorted newer xs) h.0

-- An event that has been logged is the first row of an unfiltered query, before those that the same
-- query gave.
pub query-log :
    (e : Event) (now limit : ℕ) (fresh_id : String) (l : AuditLog)
    → IsLog l
    → let (id, l') = log e now fresh_id l in
      query no_filter (suc limit) 0 l' ≡ audit_row e now fresh_id id ∷ query no_filter limit 0 l
unfolding query log
query-log e now limit fresh_id l h =
    let r = audit_row e now fresh_id (l.last_id + 1) in
    rw (filter-no_filter (l.rows ++ r ∷ []), filter-no_filter l.rows)
      (ap (take (suc limit)) (sorted-newest r l.rows (All-below l.last_id l.rows h.1)))
