-- ===== src/Repository/Backed.antt =====
-- Snapshots that have their payloads, and what the statements of context_catalog.py leave of them.
use contextql_server.Prelude.{
  ℕ, String, Bool, true, not, ◌&&◌, some, List, [], ◌∷◌, ◌++◌, map, filter, find, count, str_eq,
  eq_iff, ltb, ◌≡◌, refl, arith, ◌≤◌, All, Bool-cases, inl, inr,
}
use contextql_server.Errors.{ok}
use contextql_server.Repository.{PayloadRow, SnapshotRow, Tables, payload_at, current_of}
use contextql_server.Repository.Snapshots.{Codec, supersede_row}
use contextql_server.Repository.Snapshots.Published.{rows_of}
use contextql_server.Repository.Hydrate.{verify}

-- A snapshot has its payload, and the payload the checksums that the snapshot records.
abbrev pub Backed : Codec → List PayloadRow → SnapshotRow → Type 0
Backed codec payloads s =
    (p : PayloadRow) × (find (payload_at s.context_id s.version) payloads ≡ some p)
    × (verify codec s p ≡ ok tt)

pub record WellFormed (codec : Codec) (t : Tables) : Type 0 where
  pub backed : All (Backed codec t.payloads) t.snapshots
  pub one_current : (c : String) → count (current_of c) t.snapshots ≤ 1

find-append :
    (p : PayloadRow → Bool) (rows : List PayloadRow) (x y : PayloadRow)
    → find p rows ≡ some y
    → find p (rows ++ x ∷ []) ≡ some y
find-append p [] x y h = absurd (ground arith)
find-append p (r ∷ rows) x y h = ground (arith, find-append p rows x y)

find-kept :
    (c d : String) (v w : ℕ) (rows : List PayloadRow) (p : PayloadRow)
    → not (str_eq d c && ltb w v) ≡ true
    → find (payload_at d w) rows ≡ some p
    → find (payload_at d w) (filter (λ r. not (str_eq r.context_id c && ltb r.version v)) rows)
      ≡ some p
find-kept c d v w [] p k h = absurd (ground arith)
find-kept c d v w (r ∷ rows) p k h =
    ground (arith, find-kept c d v w rows p k, eq_iff r.context_id d)

pub count-filter :
    (p q : SnapshotRow → Bool) (rows : List SnapshotRow) → count p (filter q rows) ≤ count p rows
count-filter p q [] = omega arith
count-filter p q (r ∷ rows) = ground (arith, count-filter p q rows)

pub count-rows_of :
    (d : String) (rows : List SnapshotRow)
    → count (current_of d) (rows_of d rows) ≡ count (current_of d) rows
count-rows_of d [] = refl
count-rows_of d (r ∷ rows) = ground (arith, count-rows_of d rows)

module _ (codec : Codec) where
  superseded-Backed :
      (c : String) (at : ℕ) (payloads : List PayloadRow) (row : PayloadRow) (r : SnapshotRow)
      → Backed codec payloads r
      → Backed codec (payloads ++ row ∷ []) (supersede_row c at r)
  superseded-Backed c at payloads row r h = elim (Bool-cases (current_of c r)) [
    | inl e ↦ rw e (h.0, find-append _ payloads row h.0 h.1, h.2)
    | inr e ↦ rw e (h.0, find-append _ payloads row h.0 h.1, h.2)
  ]

  pub map-Backed :
      (c : String) (at : ℕ) (payloads : List PayloadRow) (row : PayloadRow)
      (rows : List SnapshotRow)
      → All (Backed codec payloads) rows
      → All (Backed codec (payloads ++ row ∷ [])) (map (supersede_row c at) rows)
  map-Backed c at payloads row [] h = tt
  map-Backed c at payloads row (r ∷ rows) h =
      (superseded-Backed c at payloads row r h.0, map-Backed c at payloads row rows h.1)

  pub filter-Backed :
      (c : String) (v : ℕ) (payloads : List PayloadRow) (rows : List SnapshotRow)
      → All (Backed codec payloads) rows
      → All
          (Backed codec (filter (λ r. not (str_eq r.context_id c && ltb r.version v)) payloads))
          (filter (λ r. not (str_eq r.context_id c && ltb r.version v)) rows)
  filter-Backed c v payloads [] h = tt
  filter-Backed c v payloads (r ∷ rows) h =
      elim (Bool-cases (not (str_eq r.context_id c && ltb r.version v))) [
        | inl k ↦ rw k (
          (h.0.0, find-kept c r.context_id v r.version payloads h.0.0 k h.0.1, h.0.2),
          filter-Backed c v payloads rows h.1,
        )
        | inr n ↦ rw n (filter-Backed c v payloads rows h.1)
      ]
