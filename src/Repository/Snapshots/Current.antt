-- ===== src/Repository/Snapshots/Current.antt =====
-- What `promote_snapshot` leaves in the tables.
use contextql_server.Prelude.{
  ℕ, String, true, false, ◌&&◌, List, [], ◌∷◌, ◌++◌, map, any, count, str_eq, eq_refl, ◌==◌, ◌≡◌,
  ap, sym, ◌∙◌, arith, ◌≤◌,
}
use contextql_server.Errors.{ok, >>=-eq-ok}
use contextql_server.Sql.{run_all}
use contextql_server.Repository.{
  current, PayloadRow, SnapshotRow, HistoryRow, Tables, snapshot_at, payload_at, current_of,
}
use contextql_server.Repository.Snapshots.{
  Codec, Entry, MembershipSnapshot, MembershipChange, insert_history, history_row, insert_payload,
  insert_snapshot, supersede, make_current, point_context, snapshot_row, payload_row, promotion,
  supersede_row, make_current_row, point_row,
}

-- the three tables that the history inserts leave alone
abbrev Same : Tables → Tables → Type 0
Same t t' = (t'.snapshots ≡ t.snapshots) × (t'.payloads ≡ t.payloads) × (t'.contexts ≡ t.contexts)

insert_history-Same : (row : HistoryRow) (t t' : Tables) → insert_history row t ≡ ok t' → Same t t'
insert_history-Same row t t' h = ground arith

history-Same :
    (codec : Codec) (e : Entry) (s : MembershipSnapshot) (events : List MembershipChange)
    (t t' : Tables)
    → run_all (map (λ event. insert_history (history_row codec e s event)) events) t ≡ ok t'
    → Same t t'
history-Same codec e s [] t t' h = ground arith
history-Same codec e s (x ∷ xs) t t' h =
    let (u, first, rest) =
      >>=-eq-ok (insert_history (history_row codec e s x) t)
        (run_all (map (λ event. insert_history (history_row codec e s event)) xs)) h in
    let a = insert_history-Same (history_row codec e s x) t u first in
    let b = history-Same codec e s xs u t' rest in (b.0 ∙ a.0, b.1 ∙ a.1, b.2 ∙ a.2)

-- Making a version current touches the new row alone, where no other has its version.
make_current-rows :
    (c : String) (v at : ℕ) (row : SnapshotRow) (rows : List SnapshotRow)
    → snapshot_at c v row ≡ true
    → current_of c row ≡ false
    → any (snapshot_at c v) rows ≡ false
    → map (make_current_row c v) (map (supersede_row c at) (rows ++ row ∷ []))
      ≡ map (supersede_row c at) rows ++ record row { state = current } ∷ []
make_current-rows c v at row [] h k n = ground arith
make_current-rows c v at row (r ∷ rs) h k n = ground (arith, make_current-rows c v at row rs h k)

insert_payload-ok :
    (row : PayloadRow) (t u : Tables)
    → insert_payload row t ≡ ok u
    → (any (payload_at row.context_id row.version) t.payloads ≡ false)
      × (u ≡ record t { payloads = t.payloads ++ row ∷ [] })
insert_payload-ok row t u h = ground arith

insert_snapshot-ok :
    (row : SnapshotRow) (t u : Tables)
    → insert_snapshot row t ≡ ok u
    → (any (snapshot_at row.context_id row.version) t.snapshots ≡ false)
      × (u ≡ record t { snapshots = t.snapshots ++ row ∷ [] })
insert_snapshot-ok row t u h = ground arith

make_current-ok :
    (c : String) (v : ℕ) (t u : Tables)
    → make_current c v t ≡ ok u
    → (count (current_of c) (map (make_current_row c v) t.snapshots) ≤ 1)
      × (u ≡ record t { snapshots = map (make_current_row c v) t.snapshots })
make_current-ok c v t u h = ground arith

pub its_own : (c : String) (v : ℕ) → (str_eq c c && v == v) ≡ true
its_own c v = ground (arith, eq_refl c)

not_yet : (c : String) → (str_eq c c && false) ≡ false
not_yet c = ground arith

module _ (codec : Codec) (e : Entry) (s : MembershipSnapshot) (membership scores : List ℕ)
    (events : List MembershipChange) (now : ℕ) where
  -- The tables after the statements, each written out.
  pub promotion-tables :
      (t t' : Tables)
      → run_all (promotion codec e s membership scores events now) t ≡ ok t'
      → (t'.snapshots
          ≡ map (supersede_row e.context_id s.computed_at) t.snapshots
            ++ record (snapshot_row codec e s membership scores) { state = current } ∷ [])
        × (t'.payloads ≡ t.payloads ++ payload_row codec e s membership scores ∷ [])
        × (t'.contexts ≡ map (point_row e s.version now) t.contexts)
        × (any (payload_at e.context_id s.version) t.payloads ≡ false)
        × (any (snapshot_at e.context_id s.version) t.snapshots ≡ false)
  promotion-tables t t' h =
      let history = map (λ event. insert_history (history_row codec e s event)) events in
      let point = point_context e s.version now ∷ history in
      let switch =
        supersede e.context_id s.computed_at ∷ make_current e.context_id s.version ∷ point in
      let row = snapshot_row codec e s membership scores in
      let (t1, h1, r1) =
        >>=-eq-ok (insert_payload (payload_row codec e s membership scores) t)
          (run_all (insert_snapshot row ∷ switch)) h in
      let (t2, h2, r2) = >>=-eq-ok (insert_snapshot row t1) (run_all switch) r1 in
      let t3 = record t2 {
        snapshots = map (supersede_row e.context_id s.computed_at) t2.snapshots;
      } in
      let (t4, h4, r4) = >>=-eq-ok (make_current e.context_id s.version t3) (run_all point) r2 in
      let stored = insert_payload-ok (payload_row codec e s membership scores) t t1 h1 in
      let added = insert_snapshot-ok row t1 t2 h2 in
      let made = make_current-ok e.context_id s.version t3 t4 h4 in
      let t5 = record t4 { contexts = map (point_row e s.version now) t4.contexts } in
      let same = history-Same codec e s events t5 t' r4 in
      let c = e.context_id in
      let v = s.version in
      let absent : any (snapshot_at c v) t.snapshots ≡ false =
        sym (ap (λ (u : Tables). any (snapshot_at c v) u.snapshots) stored.1) ∙ added.0 in
      let switched = λ (rows : List SnapshotRow).
        map (make_current_row c v) (map (supersede_row c s.computed_at) rows) in
      (
        same.0
            ∙ ap (λ (u : Tables). u.snapshots) made.1
            ∙ ap (λ (u : Tables). switched u.snapshots) added.1
            ∙ ap (λ (u : Tables). switched (u.snapshots ++ row ∷ [])) stored.1
            ∙ make_current-rows c v s.computed_at row t.snapshots (its_own c v) (not_yet c) absent,
        same.1
            ∙ ap (λ (u : Tables). u.payloads) made.1
            ∙ ap (λ (u : Tables). u.payloads) added.1
            ∙ ap (λ (u : Tables). u.payloads) stored.1,
        same.2
            ∙ ap (λ (u : Tables). map (point_row e v now) u.contexts) made.1
            ∙ ap (λ (u : Tables). map (point_row e v now) u.contexts) added.1
            ∙ ap (λ (u : Tables). map (point_row e v now) u.contexts) stored.1,
        stored.0,
        absent,
      )
