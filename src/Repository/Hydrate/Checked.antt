-- ===== src/Repository/Hydrate/Checked.antt =====
-- What the checksums of `hydrate_runtime` do, on tables that the repository wrote and on any others.
use contextql_server.Prelude.{
  ⊤, Bool, List, [], ◌∷◌, map, filter, sorted, ◌≡◌, refl, ap, All, All-sorted, All-unsorted,
  Bool-cases, inl, inr,
}
use contextql_server.Errors.{ok}
use contextql_server.Errors.Exec.{Exec, pure, go_on-ok, go_on-cong, ◌>>◌}
use contextql_server.Repository.{PayloadRow, SnapshotRow, Tables}
use contextql_server.Repository.Snapshots.{Codec}
use contextql_server.Repository.Hydrate.{
  Runtime, is_published, by_version, joined, published, change_of, verify, restore, restore_all,
  hydrate_runtime,
}
use contextql_server.Repository.Reachable.{Reach, Reach-WellFormed}
use contextql_server.Repository.Backed.{Backed}
use contextql_server.Repository.Hydrate.Digests.{
  Passes, JoinChecked, IsChecked, joined-JoinChecked, published-IsChecked,
}

-- every snapshot restored, whatever its checksums
abbrev pub restore_each : {W : Type 0} → Runtime W → List (SnapshotRow × PayloadRow) → Exec W ⊤
restore_each engine [] = pure tt
restore_each engine (x ∷ rows) = restore engine x.0 x.1 >> restore_each engine rows

abbrev pub snapshots_of : List (SnapshotRow × PayloadRow) → List SnapshotRow
snapshots_of [] = []
snapshots_of (x ∷ rows) = x.0 ∷ snapshots_of rows

All-kept :
    (P : SnapshotRow → Type 0) (p : SnapshotRow → Bool) (rows : List SnapshotRow)
    → All P rows
    → All P (filter p rows)
All-kept P p [] h = tt
All-kept P p (r ∷ rows) h = elim (Bool-cases (p r)) [
  | inl e ↦ rw e (h.0, All-kept P p rows h.1)
  | inr e ↦ rw e (All-kept P p rows h.1)
]

module _ (codec : Codec) where
  joined-Passes :
      (payloads : List PayloadRow) (rows : List SnapshotRow)
      → All (Backed codec payloads) rows
      → All (Passes codec) (joined payloads rows) × (snapshots_of (joined payloads rows) ≡ rows)
  joined-Passes payloads [] h = (tt, refl)
  joined-Passes payloads (s ∷ rows) h =
      let rest = joined-Passes payloads rows h.1 in
      rw h.0.1 ((h.0.2, rest.0), ap (λ (x : List SnapshotRow). s ∷ x) rest.1)

  module _ {W : Type 0} (engine : Runtime W) where
    restore_all-Passes :
        (rows : List (SnapshotRow × PayloadRow)) (w : W)
        → All (Passes codec) rows
        → restore_all engine codec rows w ≡ restore_each engine rows w
    unfolding restore_all
    restore_all-Passes [] w h = refl
    restore_all-Passes (x ∷ rows) w h = rw h.0 (
        go_on-cong (restore engine x.0 x.1 w).0 (restore_all engine codec rows)
          (restore_each engine rows) (restore engine x.0 x.1 w).1
          (λ w. restore_all-Passes rows w h.1))

    restore_all-verified :
        (rows : List (SnapshotRow × PayloadRow)) (w w' : W)
        → restore_all engine codec rows w ≡ (ok tt, w')
        → All (Passes codec) rows
    unfolding restore_all
    restore_all-verified [] w w' h = tt
    restore_all-verified (x ∷ rows) w w' h =
        let step = restore engine x.0 x.1 >> restore_all engine codec rows in
        let (u, passes, h1) = go_on-ok (verify codec x.0 x.1) (λ _. step) w w' tt h in
        let (v, done, h2) =
          go_on-ok (restore engine x.0 x.1 w).0 (λ _. restore_all engine codec rows)
            (restore engine x.0 x.1 w).1 w' tt h1 in
        (passes, restore_all-verified rows (restore engine x.0 x.1 w).1 w' h2)

    -- After a hydration that returned, of every snapshot in the tables that is current or superseded
    -- and has a payload: the digest of the payload's bytes is the one that the snapshot records, and
    -- so is that of the scores' bytes, where there are any.
    pub hydrate_runtime-IsChecked :
        (t : Tables) (w : W)
        → (hydrate_runtime engine codec t w).0 ≡ ok tt
        → All (IsChecked codec t.payloads) t.snapshots
    unfolding hydrate_runtime
    hydrate_runtime-IsChecked t w h =
        let rows = filter (λ s. is_published s.state) t.snapshots in
        let after = restore_all engine codec (published t) w in
        let w' = (hydrate_runtime engine codec t w).1 in
        let append = λ (u : ⊤). engine.append (map change_of t.history) in
        let (u, done, h1) = go_on-ok after.0 append after.1 w' tt (λ i. (h i, w')) in
        let passed = restore_all-verified (published t) w after.1 (λ i. (done i, after.1)) in
        published-IsChecked codec t.payloads t.snapshots (
          All-unsorted (JoinChecked codec t.payloads) by_version rows
            (joined-JoinChecked codec t.payloads (sorted by_version rows) passed))

    -- On every state that the repository can reach, the checksums do not stand in the way: the
    -- hydration is that which restores every published snapshot, in the order of contexts and
    -- versions, and then appends the history; and the join leaves out no published snapshot.
    pub hydrate_runtime-eq-restore_each :
        (t : Tables) (w : W)
        → Reach codec t
        → (hydrate_runtime engine codec t w
            ≡ (restore_each engine (published t) >> engine.append (map change_of t.history)) w)
          × (snapshots_of (published t)
              ≡ sorted by_version (filter (λ s. is_published s.state) t.snapshots))
    unfolding hydrate_runtime
    hydrate_runtime-eq-restore_each t w r =
        let rows = sorted by_version (filter (λ s. is_published s.state) t.snapshots) in
        let all = joined-Passes t.payloads rows (
          All-sorted (Backed codec t.payloads) by_version _ (
            All-kept (Backed codec t.payloads) (λ s. is_published s.state) t.snapshots
              (Reach-WellFormed codec r).backed)) in
        (rw (restore_all-Passes (published t) w all.0) refl, all.1)
