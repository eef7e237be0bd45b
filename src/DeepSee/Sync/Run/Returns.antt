-- ===== src/DeepSee/Sync/Run/Returns.antt =====
-- When an incremental synchronization returns, and that it then has caught up.
use contextql_server.Prelude.{
  ℕ, ◌≤◌, String, true, Option, none, List, [], ◌∷◌, drop, ◌≡◌, refl, sym, ap, ◌∙◌, All,
}
use contextql_server.Prelude.Int.{pos}
use contextql_server.Prelude.Dict.{lookup}
use contextql_server.Errors.{Result, ok}
use contextql_server.Errors.Exec.{Exec, go_on}
use contextql_server.DeepSee.Models.{Stamp, ChangeEvent}
use contextql_server.DeepSee.Client.{DeepSeeClient, Service}
use contextql_server.DeepSee.Mock.{MockService}
use contextql_server.DeepSee.Mock.Pages.{pending_since}
use contextql_server.DeepSee.Sync.{
  MembershipStore, StateRepository, Session, SyncReport, DeltaArgs, fetch_pages, max_pages,
  parse_iso,
}
use contextql_server.DeepSee.Sync.Changes.{
  Filtered, FoldedChanges, fold_events, by_watermark, last_watermark,
}
use contextql_server.DeepSee.Sync.Changes.Returns.{carries_score, fold_events-returns}
use contextql_server.DeepSee.Mock.Numbered.{Numbered-behind, by_watermark-Numbered}
use contextql_server.DeepSee.Sync.Changes.Replay.{Membership, Regular}
use contextql_server.DeepSee.Sync.Run.{
  delta_args, event_watermarks, conclude, apply_changes, apply_filtered, sync_once, publish,
  commit_state,
}
use contextql_server.DeepSee.Sync.Run.Delta.{delta_result}
use contextql_server.DeepSee.Sync.Run.CaughtUp.{
  InStep, IsServing, sync_once-InStep, sync_once-pending, all_kept, pending-rest,
}

go_on-returns :
    {W A B : Type 0} (r : Result A) (f : A → Exec W B) (w : W) (a : A)
    → r ≡ ok a
    → (b : B) × ((f a w).0 ≡ ok b)
    → (b : B) × ((go_on r f w).0 ≡ ok b)
go_on-returns r f w a e h = (h.0, ap (λ x. (go_on x f w).0) e ∙ h.1)

conclude-returns :
    {W : Type 0} (f : Filtered) (ordered : List ChangeEvent) (n : Session W)
    (x : Result (FoldedChanges × String)) (p : FoldedChanges × String)
    → x ≡ ok p
    → (r : SyncReport) × ((conclude f ordered (x, n)).0 ≡ ok r)
unfolding conclude
conclude-returns f ordered n x p e = (_, ap (λ y. (conclude f ordered (y, n)).0) e)

module _ {W Staged Snapshot : Type 0} (c : DeepSeeClient) (s : Service W)
    (m : MembershipStore W Staged Snapshot) (repository : Option (StateRepository W))
    (context_id : String) (deserialize : List ℕ → Option (List ℕ)) (view : W → Membership)
    (documented : (args : DeltaArgs) (w w' : W) (x : Snapshot)
      → publish m m.stage_delta m.apply_delta context_id args w ≡ (ok x, w')
      → (k : ℕ) → view w' k ≡ delta_result (view w) args k)
    (apart : (watermark : String) (events : List (String × String)) (w : W) (k : ℕ)
      → view (commit_state repository context_id watermark events w).1 k ≡ view w k)
    (publishes : (args : DeltaArgs) (w : W)
      → (x : Snapshot) × ((publish m m.stage_delta m.apply_delta context_id args w).0 ≡ ok x))
    (commits : (watermark : String) (events : List (String × String)) (w : W)
      → (commit_state repository context_id watermark events w).0 ≡ ok tt) where
  apply_changes-returns :
      (ordered : List ChangeEvent) (t : Stamp) (as_of : ℕ) (w : W)
      → parse_iso t ≡ ok as_of
      → All (λ e. carries_score e.change_type e.score ≡ true) ordered
      → (p : FoldedChanges × String) × ((apply_changes s m repository context_id ordered t w).0
          ≡ ok p)
  unfolding apply_changes
  apply_changes-returns ordered t as_of w read carry =
      let (f, folded) = fold_events-returns ordered carry in
      let mark = last_watermark "" ordered in
      let args = delta_args f (s.now w) as_of mark in
      let published = publish m m.stage_delta m.apply_delta context_id args w in
      let (x, done) = publishes args w in
      let committed = commits mark (event_watermarks ordered) published.1 in
      go_on-returns (fold_events ordered) _ w f folded (
        go_on-returns (parse_iso t) _ w as_of read (
          go_on-returns published.0 _ published.1 x done
            (go_on-returns _ _ _ tt committed ((f, mark), refl))))

  apply_filtered-returns :
      (n : Session W) (text : String) (t : Stamp) (as_of : ℕ) (f : Filtered)
      (events : List ChangeEvent)
      → by_watermark events ≡ events
      → parse_iso t ≡ ok as_of
      → All (λ e. carries_score e.change_type e.score ≡ true) events
      → (r : SyncReport) × ((apply_filtered c s m repository context_id deserialize text t f events
            n).0
          ≡ ok r)
  unfolding apply_filtered
  apply_filtered-returns n text t as_of f [] sorts read carry = (_, refl)
  apply_filtered-returns n text t as_of f (e ∷ es) sorts read carry =
      let ordered = by_watermark (e ∷ es) in
      let x = apply_changes s m repository context_id ordered t n.world in
      let (p, done) = apply_changes-returns ordered t as_of n.world read (rw sorts carry) in
      conclude-returns f ordered (record n { world = x.1 }) x.0 p done

  -- Where the store publishes every delta, with its documented effect, and the durable commit
  -- returns and leaves the store alone; the service has a log that is numbered, coherent with its
  -- members and not delivered again from the start; the synchronizer is in step with that log up to
  -- a number; and the pages that it fetches hold what is pending there, with a readable age, leave
  -- the store alone, and are regular, with a score in every rescoring: `sync_once` returns, the
  -- synchronizer is in step with the whole log, and its store holds the members of the service.
  pub sync_once-catches_up :
      (start : Membership) (service : MockService) (k : ℕ) (n : Session W)
      (x : InStep view start service.events k n) (events : List ChangeEvent) (t : Stamp) (as_of : ℕ)
      (w : W)
      → IsServing start service
      → k ≤ service.seq
      → pending_since service (pos k) ≡ ok events
      → fetch_pages c s max_pages x.0.0 none [] n.world ≡ (ok (events, t), w)
      → parse_iso t ≡ ok as_of
      → ((j : ℕ) → view w j ≡ view n.world j)
      → Regular [] events
      → All (λ e. carries_score e.change_type e.score ≡ true) events
      → (r : SyncReport) × ((sync_once c s m repository context_id deserialize n).0 ≡ ok r)
        × InStep view start service.events service.seq
            (sync_once c s m repository context_id deserialize n).1
        × ((i : ℕ)
            → view (sync_once c s m repository context_id deserialize n).1.world i
              ≡ lookup i service.members)
  sync_once-catches_up start service k n x events t as_of w g within pending fetched read kept reg
        carry =
      let eqn = pending-rest service k events g.once g.numbered pending in
      let fetched' = fetched ∙ ap (λ es. (ok (es, t), w)) (sym eqn) in
      let step =
        sync_once-pending c s m repository context_id deserialize view documented apart start
          service k n x t w g fetched' in
      let log = service.events in
      let sorts = by_watermark-Numbered k (drop k log) (Numbered-behind k log g.numbered) in
      let (r, done) =
        apply_filtered-returns (record n { world = w }) x.0.0 t as_of (all_kept (drop k log))
          (drop k log) sorts read (rw eqn carry) in
      let returned = ap (λ (y : Result SyncReport × Session W). y.0) step ∙ done in
      let (reached, members) =
        sync_once-InStep c s m repository context_id deserialize view documented apart start service
          k n x events t w r g within pending fetched kept reg returned in
      (r, returned, reached, members)
