-- ===== src/DeepSee/Sync/Run/Marks.antt =====
-- What a synchronization that returns leaves in the synchronizer: its watermark and the seen ids.
use contextql_server.Prelude.{
  ℕ, ◌+◌, false, ◌||◌, String, Option, some, List, [], ◌∷◌, ◌++◌, length, ◌≡◌, refl, sym, ap, ◌∙◌,
  arith,
}
use contextql_server.Prelude.Int.{pos}
use contextql_server.Prelude.Dict.{mem_str}
use contextql_server.Errors.{Result, ok, err}
use contextql_server.Errors.Exec.{go_on-ok}
use contextql_server.DeepSee.Decimal.{int_of_text}
use contextql_server.DeepSee.Models.{Stamp, ChangeEvent}
use contextql_server.DeepSee.Client.{DeepSeeClient, Service}
use contextql_server.DeepSee.Mock.Numbered.{
  Numbered, AreFresh, id_of, last_watermark-Numbered, event_ids-AreFresh,
}
use contextql_server.DeepSee.Sync.{
  MembershipStore, StateRepository, Session, SyncReport, parse_iso, on_world,
}
use contextql_server.DeepSee.Sync.Changes.{
  Filtered, FoldedChanges, fold_events, by_watermark, last_watermark, event_ids,
}
use contextql_server.DeepSee.Sync.Run.{
  delta_args, event_watermarks, conclude, apply_changes, apply_filtered, publish, commit_state,
}

pub conclude-ok :
    {W : Type 0} (f : Filtered) (ordered : List ChangeEvent) (r : SyncReport)
    (x : Result (FoldedChanges × String)) (n : Session W)
    → (conclude f ordered (x, n)).0 ≡ ok r
    → (p : FoldedChanges × String) × (x ≡ ok p)
      × ((conclude f ordered (x, n)).1.world ≡ n.world)
      × ((conclude f ordered (x, n)).1.committed_watermark ≡ some p.1)
      × ((conclude f ordered (x, n)).1.seen_event_ids ≡ event_ids ordered ++ n.seen_event_ids)
unfolding conclude
conclude-ok f ordered r (ok (folded, w)) n h = ((folded, w), refl, refl, refl, refl)
conclude-ok f ordered r (err e) n h = absurd cc

-- the mark of a synchronizer: its watermark reads as the number, and it has seen no later event
abbrev pub MarkedAt : {W : Type 0} → ℕ → Session W → Type 0
MarkedAt k n =
    (text : String) × (n.committed_watermark ≡ some text)
    × (int_of_text text ≡ some (pos k))
    × AreFresh k n.seen_event_ids []

module _ {W Staged Snapshot : Type 0} (c : DeepSeeClient) (s : Service W)
    (m : MembershipStore W Staged Snapshot) (repository : Option (StateRepository W))
    (context_id : String) (deserialize : List ℕ → Option (List ℕ)) where
  apply_changes-last :
      (ordered : List ChangeEvent) (t : Stamp) (w w' : W) (p : FoldedChanges × String)
      → apply_changes s m repository context_id ordered t w ≡ (ok p, w')
      → p.1 ≡ last_watermark "" ordered
  unfolding apply_changes
  apply_changes-last ordered t w w' p h =
      let (f, folded, h1) = go_on-ok (fold_events ordered) _ w w' p h in
      let (as_of, read, h2) = go_on-ok (parse_iso t) _ w w' p h1 in
      let args = delta_args f (s.now w) as_of (last_watermark "" ordered) in
      let published = publish m m.stage_delta m.apply_delta context_id args w in
      let (x, done, h3) = go_on-ok published.0 _ published.1 w' p h2 in
      let committed =
        commit_state repository context_id (last_watermark "" ordered) (event_watermarks ordered)
          published.1 in
      let (y, kept, h4) = go_on-ok committed.0 _ committed.1 w' p h3 in
      ap (λ (z : Result (FoldedChanges × String) × W). elim z.0 [ ok q ↦ q.1 | err error ↦ "" ])
        (sym h4)

  concluded-MarkedAt :
      (n : Session W) (t : Stamp) (f : Filtered) (ordered : List ChangeEvent) (e : ChangeEvent)
      (es : List ChangeEvent) (r : SyncReport) (k : ℕ)
      → ordered ≡ e ∷ es
      → Numbered k (e ∷ es)
      → AreFresh k n.seen_event_ids []
      → (conclude f ordered (on_world (apply_changes s m repository context_id ordered t) n)).0
        ≡ ok r
      → MarkedAt
          (k + length (e ∷ es))
          (conclude f ordered (on_world (apply_changes s m repository context_id ordered t) n)).1
  concluded-MarkedAt n t f ordered e es r k sorts num fresh h =
      let x = apply_changes s m repository context_id ordered t n.world in
      let (p, done, same, marked, seen) =
        conclude-ok f ordered r x.0 (record n { world = x.1 }) h in
      let last = apply_changes-last ordered t n.world x.1 p (λ j. (done j, x.1)) in
      let len : k + 1 + length es ≡ k + length (e ∷ es) = omega arith in
      (
        p.1,
        marked,
        ap int_of_text (last ∙ ap (last_watermark "") sorts)
            ∙ last_watermark-Numbered (k + 1) e.watermark es num.1 num.2
            ∙ ap (λ z. some (pos z)) len,
        λ j l.
            ap (λ ids. mem_str (id_of j) ids || false)
              (seen ∙ ap (λ o. event_ids o ++ n.seen_event_ids) sorts)
            ∙ event_ids-AreFresh k (e ∷ es) n.seen_event_ids num fresh j l,
      )

  pub apply_filtered-MarkedAt :
      (n : Session W) (text : String) (t : Stamp) (f : Filtered) (events : List ChangeEvent)
      (r : SyncReport) (k : ℕ)
      → by_watermark events ≡ events
      → Numbered k events
      → MarkedAt k n
      → (apply_filtered c s m repository context_id deserialize text t f events n).0 ≡ ok r
      → MarkedAt
          (k + length events)
          (apply_filtered c s m repository context_id deserialize text t f events n).1
  unfolding apply_filtered
  apply_filtered-MarkedAt n text t f [] r k sorts num x h =
      let z : k + 0 ≡ k = omega arith in rw z x
  apply_filtered-MarkedAt n text t f (e ∷ es) r k sorts num x h =
      concluded-MarkedAt n t f (by_watermark (e ∷ es)) e es r k sorts num x.3 h
