-- ===== src/Repository/Snapshots/Published.antt =====
-- The laws of a promotion that a reader of the tables relies on.
use contextql_server.Prelude.{
  ℕ, String, Bool, true, false, ◌||◌, some, List, [], ◌∷◌, ◌++◌, map, filter, find, any, count,
  str_eq, eq_iff, eq_refl, ◌≡◌, ◌≢◌, refl, ap, ◌∙◌, arith,
}
use contextql_server.Errors.{Error, ok, err, Result-cases, returned, raised}
use contextql_server.Sql.{Faults, transaction-committed, transaction-rollback}
use contextql_server.Repository.{
  current, PayloadRow, SnapshotRow, Tables, snapshot_at, payload_at, current_of,
}
use contextql_server.Repository.Snapshots.{
  Codec, Entry, MembershipSnapshot, MembershipChange, snapshot_row, payload_row, promotion,
  promote_snapshot, supersede_row,
}
use contextql_server.Repository.Snapshots.Current.{its_own, promotion-tables}

-- The rows of one context.
abbrev pub rows_of : String → List SnapshotRow → List SnapshotRow
rows_of d = filter (λ r. str_eq r.context_id d)

pub count-current :
    (c : String) (at : ℕ) (row : SnapshotRow) (rows : List SnapshotRow)
    → current_of c row ≡ true
    → count (current_of c) (map (supersede_row c at) rows ++ row ∷ []) ≡ 1
count-current c at row [] h = ground arith
count-current c at row (r ∷ rs) h = ground (arith, count-current c at row rs h)

find-current :
    (c : String) (at : ℕ) (row : SnapshotRow) (rows : List SnapshotRow)
    → current_of c row ≡ true
    → find (current_of c) (map (supersede_row c at) rows ++ row ∷ []) ≡ some row
find-current c at row [] h = ground arith
find-current c at row (r ∷ rs) h = ground (arith, find-current c at row rs h)

pub find-payload :
    (c : String) (v : ℕ) (row : PayloadRow) (rows : List PayloadRow)
    → payload_at c v row ≡ true
    → any (payload_at c v) rows ≡ false
    → find (payload_at c v) (rows ++ row ∷ []) ≡ some row
find-payload c v row [] h n = ground arith
find-payload c v row (r ∷ rs) h n = ground (arith, find-payload c v row rs h)

rows_of-others :
    (c d : String) (at : ℕ) (row : SnapshotRow) (rows : List SnapshotRow)
    → row.context_id ≡ c
    → d ≢ c
    → rows_of d (map (supersede_row c at) rows ++ row ∷ []) ≡ rows_of d rows
rows_of-others c d at row [] h n = ground (arith, eq_iff row.context_id d)
rows_of-others c d at row (r ∷ rs) h n =
    ground (arith, rows_of-others c d at row rs h n, eq_iff r.context_id d, eq_iff r.context_id c)

both : (a b : Bool) → a ≡ false → b ≡ false → (a || b) ≡ true → ⊥
both a b h k n = ground arith

module _ (codec : Codec) (faults : Faults) (e : Entry) (s : MembershipSnapshot)
    (membership : List ℕ) (scores : List (ℕ × ℕ)) (events : List MembershipChange) (now : ℕ) where
  -- After a promotion that returned, the context has one current snapshot, the promoted one; its
  -- payload is stored under its version with the checksums that the snapshot records; and the
  -- snapshots of every other context are as before.
  pub promote_snapshot-publishes :
      (t : Tables)
      → (promote_snapshot codec e s faults membership scores events now t).0 ≡ ok tt
      → let t' = (promote_snapshot codec e s faults membership scores events now t).1 in
        let encoded = codec.encode_scores scores in
        (count (current_of e.context_id) t'.snapshots ≡ 1)
        × (find (current_of e.context_id) t'.snapshots
            ≡ some (record (snapshot_row codec e s membership encoded) { state = current }))
        × (find (payload_at e.context_id s.version) t'.payloads
            ≡ some (payload_row codec e s membership encoded))
        × ((d : String) → d ≢ e.context_id → rows_of d t'.snapshots ≡ rows_of d t.snapshots)
  unfolding promote_snapshot
  promote_snapshot-publishes t h =
      let encoded = codec.encode_scores scores in
      let done =
        promotion-tables codec e s membership encoded events now t _
          (transaction-committed faults (promotion codec e s membership encoded events now) t h) in
      let row = record (snapshot_row codec e s membership encoded) { state = current } in
      let c = e.context_id in
      let own : current_of c row ≡ true = ground (arith, eq_refl c) in
      (
        ap (count (current_of c)) done.0 ∙ count-current c s.computed_at row t.snapshots own,
        ap (find (current_of c)) done.0 ∙ find-current c s.computed_at row t.snapshots own,
        ap (find (payload_at c s.version)) done.1
            ∙ find-payload c s.version (payload_row codec e s membership encoded) t.payloads
                (its_own c s.version) done.3,
        λ d n. ap (rows_of d) done.0 ∙ rows_of-others c d s.computed_at row t.snapshots refl n,
      )

  -- The tables after a promotion that returned, each written out.
  pub promote_snapshot-tables :
      (t : Tables)
      → (promote_snapshot codec e s faults membership scores events now t).0 ≡ ok tt
      → let t' = (promote_snapshot codec e s faults membership scores events now t).1 in
        let encoded = codec.encode_scores scores in
        (t'.snapshots
          ≡ map (supersede_row e.context_id s.computed_at) t.snapshots
            ++ record (snapshot_row codec e s membership encoded) { state = current } ∷ [])
        × (t'.payloads ≡ t.payloads ++ payload_row codec e s membership encoded ∷ [])
        × (any (payload_at e.context_id s.version) t.payloads ≡ false)
  unfolding promote_snapshot
  promote_snapshot-tables t h =
      let encoded = codec.encode_scores scores in
      let done =
        promotion-tables codec e s membership encoded events now t _
          (transaction-committed faults (promotion codec e s membership encoded events now) t h) in
      (done.0, done.1, done.3)

  -- A promotion that raises, at whichever statement, changes nothing.
  pub promote_snapshot-rollback :
      (t : Tables) (x : Error)
      → (promote_snapshot codec e s faults membership scores events now t).0 ≡ err x
      → (promote_snapshot codec e s faults membership scores events now t).1 ≡ t
  unfolding promote_snapshot
  promote_snapshot-rollback t x h =
      transaction-rollback faults
        (promotion codec e s membership (codec.encode_scores scores) events now) t x h

  -- A promotion to a version that the context already has, as a snapshot or as a payload, raises
  -- and changes nothing.
  pub promote_snapshot-taken :
      (t : Tables)
      → (any (snapshot_at e.context_id s.version) t.snapshots
          || any (payload_at e.context_id s.version) t.payloads)
        ≡ true
      → (x : Error) × (promote_snapshot codec e s faults membership scores events now t
          ≡ (err x, t))
  promote_snapshot-taken t h =
      elim (Result-cases (promote_snapshot codec e s faults membership scores events now t).0) [
        | raised x r ↦ (x, λ i. (r i, promote_snapshot-rollback t x r i))
        | returned u r ↦
            unfold promote_snapshot in
            (let done =
                promotion-tables codec e s membership (codec.encode_scores scores) events now t _ (
                  transaction-committed faults
                    (promotion codec e s membership (codec.encode_scores scores) events now) t r) in
              absurd (
                both (any (snapshot_at e.context_id s.version) t.snapshots)
                  (any (payload_at e.context_id s.version) t.payloads) done.4 done.3 h))
      ]
