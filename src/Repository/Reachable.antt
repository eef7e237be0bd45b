-- ===== src/Repository/Reachable.antt =====
-- The states that the tables of the catalog can reach, through the operations of
-- SQLiteContextRuntimeRepository and whatever the database raises in them.
use contextql_server.Prelude.{
  ℕ, String, false, Option, List, [], ◌∷◌, ◌++◌, map, count, str_eq, eq_iff, eq_refl, ◌≡◌, ap,
  arith, All-append, Bool-cases, inl, inr,
}
use contextql_server.Errors.{ok, Result-cases, returned, raised}
use contextql_server.Sql.{Faults}
use contextql_server.Repository.{current, ContextRow, Tables, current_of}
use contextql_server.Repository.Snapshots.{
  Codec, Entry, MembershipSnapshot, MembershipChange, snapshot_row, payload_row, promote_snapshot,
  supersede_row, prune_history,
}
use contextql_server.Repository.Snapshots.Current.{its_own}
use contextql_server.Repository.Snapshots.Published.{
  promote_snapshot-tables, promote_snapshot-publishes, promote_snapshot-rollback, find-payload,
}
use contextql_server.Repository.Snapshots.Prune.{pruned, version_kept, prune_history-tables}
use contextql_server.Repository.Contexts.{
  CatalogEntry, save_context, drop_context, record_execution,
}
use contextql_server.Repository.Contexts.Saved.{save_context-keeps}
use contextql_server.Repository.Hydrate.{verify}
use contextql_server.Repository.Backfill.{backfill_v2_rows}
use contextql_server.Repository.Backed.{
  Backed, WellFormed, count-filter, count-rows_of, map-Backed, filter-Backed,
}

-- One call on the repository; whether it returned or raised, the tables are those it left.
pub data Step (codec : Codec) : Tables → Tables → Type 0 where
  save :
      (e : CatalogEntry) (raw_ddl : Option String) (now : ℕ) (t : Tables)
      → Step codec t (save_context e raw_ddl now t).1
  drop : (context_id : String) (now : ℕ) (t : Tables) → Step codec t (drop_context context_id now t)
  execute :
      (context_id : String) (version executed_at now : ℕ) (t : Tables)
      → Step codec t (record_execution context_id version executed_at now t)
  promote :
      (faults : Faults) (e : Entry) (s : MembershipSnapshot) (membership : List ℕ)
      (scores : List (ℕ × ℕ)) (events : List MembershipChange) (now : ℕ) (t : Tables)
      → Step codec t (promote_snapshot codec e s faults membership scores events now t).1
  prune :
      (faults : Faults) (context_id : String) (cutoff : ℕ) (t : Tables)
      → Step codec t (prune_history faults context_id cutoff t).1
  construct :
      (uuid4 : ℕ → String) (sha256 : String → String) (text_of : List ContextRow → String)
      (t : Tables)
      → Step codec t (backfill_v2_rows uuid4 sha256 text_of t)

abbrev pub empty : Tables
empty = record { contexts = []; payloads = []; snapshots = []; history = [] }

pub data Reach (codec : Codec) : Tables → Type 0 where
  start : Reach codec empty
  next : {t u : Tables} → Reach codec t → Step codec t u → Reach codec u

module _ (codec : Codec) where
  pruned-WellFormed :
      (c : String) (v cutoff : ℕ) (t : Tables)
      → WellFormed codec t
      → WellFormed codec (pruned c v cutoff t)
  pruned-WellFormed c v cutoff t h = record {
    backed = filter-Backed codec c v t.payloads t.snapshots h.backed;
    one_current = λ d.
        omega (arith, h.one_current d, count-filter (current_of d) (version_kept c v) t.snapshots);
  }

  prune_history-WellFormed :
      (faults : Faults) (c : String) (cutoff : ℕ) (t : Tables)
      → WellFormed codec t
      → WellFormed codec (prune_history faults c cutoff t).1
  prune_history-WellFormed faults c cutoff t h = elim (prune_history-tables faults c cutoff t) [
    | inl same ↦ rw same h
    | inr (v, left) ↦ rw left (pruned-WellFormed c v cutoff t h)
  ]

  different : (d c : String) → d ≡ c → str_eq d c ≡ false → ⊥
  different d c x h = let y = (eq_iff d c).1 x in ground arith

  own_payload :
      (e : Entry) (s : MembershipSnapshot) (membership encoded : List ℕ)
      → verify codec
          (record (snapshot_row codec e s membership encoded) { state = current })
          (payload_row codec e s membership encoded)
        ≡ ok tt
  own_payload e s membership encoded =
      ground (arith, eq_refl (codec.sha256 membership), eq_refl (codec.sha256 encoded))

  module _ (faults : Faults) (e : Entry) (s : MembershipSnapshot) (membership : List ℕ)
      (scores : List (ℕ × ℕ)) (events : List MembershipChange) (now : ℕ) (t : Tables) where
    promoted-WellFormed :
        WellFormed codec t
        → (promote_snapshot codec e s faults membership scores events now t).0 ≡ ok tt
        → WellFormed codec (promote_snapshot codec e s faults membership scores events now t).1
    promoted-WellFormed h k =
        let tables = promote_snapshot-tables codec faults e s membership scores events now t k in
        let done = promote_snapshot-publishes codec faults e s membership scores events now t k in
        let t' = (promote_snapshot codec e s faults membership scores events now t).1 in
        let encoded = codec.encode_scores scores in
        let c = e.context_id in
        let p = payload_row codec e s membership encoded in
        record {
          backed =
              rw (tables.0, tables.1)
                (All-append (Backed codec (t.payloads ++ p ∷ []))
                  (map (supersede_row c s.computed_at) t.snapshots) _
                  (map-Backed codec c s.computed_at t.payloads p t.snapshots h.backed)
                  (
                    (
                      p,
                      find-payload c s.version p t.payloads (its_own c s.version) tables.2,
                      own_payload e s membership encoded,
                    ),
                    tt,
                  ));
          one_current = λ d. elim (Bool-cases (str_eq d c)) [
            | inl same ↦ rw ((eq_iff d c).0 same) (omega (arith, done.0))
            | inr other ↦
                let others = ap (count (current_of d)) (done.3 d (λ x. different d c x other)) in
                omega (
                  arith,
                  others,
                  h.one_current d,
                  count-rows_of d t'.snapshots,
                  count-rows_of d t.snapshots,
                )
          ];
        }

    promote_snapshot-WellFormed :
        WellFormed codec t
        → WellFormed codec (promote_snapshot codec e s faults membership scores events now t).1
    promote_snapshot-WellFormed h =
        elim (Result-cases (promote_snapshot codec e s faults membership scores events now t).0) [
          | raised x r ↦
              rw (promote_snapshot-rollback codec faults e s membership scores events now t x r) h
          | returned u r ↦ promoted-WellFormed h r
        ]

  Step-WellFormed : {t u : Tables} → Step codec t u → WellFormed codec t → WellFormed codec u
  Step-WellFormed (save e raw now t) h =
      let same = save_context-keeps e raw now t in
      record {
        backed = rw (same.0, same.1) h.backed;
        one_current = λ c. rw same.0 (h.one_current c);
      }
  Step-WellFormed (drop c now t) h =
      unfold drop_context in record { backed = h.backed; one_current = h.one_current }
  Step-WellFormed (execute c v at now t) h =
      unfold record_execution in record { backed = h.backed; one_current = h.one_current }
  Step-WellFormed (promote faults e s membership scores events now t) h =
      promote_snapshot-WellFormed faults e s membership scores events now t h
  Step-WellFormed (prune faults c cutoff t) h = prune_history-WellFormed faults c cutoff t h
  Step-WellFormed (construct uuid4 sha256 text_of t) h =
      unfold backfill_v2_rows in record { backed = h.backed; one_current = h.one_current }

  -- In every state that calls on the repository, its construction among them, can reach from empty
  -- tables, in any order and whatever the database raises in promotions and prunes: each snapshot has a payload whose
  -- checksums are those it records, and no context has two current snapshots.
  pub Reach-WellFormed : {t : Tables} → Reach codec t → WellFormed codec t
  Reach-WellFormed start = record { backed = tt; one_current = λ c. omega arith }
  Reach-WellFormed (next r step) = Step-WellFormed step (Reach-WellFormed r)
