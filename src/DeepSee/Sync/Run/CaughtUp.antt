-- ===== src/DeepSee/Sync/Run/CaughtUp.antt =====
-- An incremental synchronization against the event log of the mock: the synchronizer's state, its
-- membership store and the service, before and after.
use contextql_server.Prelude.{
  ℕ, zero, suc, ◌+◌, false, take-length, ◌≤◌, String, Option, none, some, List, [], ◌∷◌, ◌++◌, take,
  drop, take-drop, length, ◌≡◌, refl, sym, ap, ◌∙◌, arith,
}
use contextql_server.Prelude.Int.{pos}
use contextql_server.Prelude.Dict.{lookup}
use contextql_server.Errors.{Result, ok, err}
use contextql_server.DeepSee.Decimal.{int_of_text}
use contextql_server.DeepSee.Models.{Stamp, ChangeEvent}
use contextql_server.DeepSee.Client.{DeepSeeClient, Service}
use contextql_server.DeepSee.Mock.{MockService}
use contextql_server.DeepSee.Mock.Log.{Coherent}
use contextql_server.DeepSee.Mock.Numbered.{
  Numbered, AreFresh, pending_since-drop, Numbered-behind, filter_from-Numbered,
  by_watermark-Numbered,
}
use contextql_server.DeepSee.Mock.Pages.{pending_since}
use contextql_server.DeepSee.Sync.{
  MembershipStore, StateRepository, Session, SyncReport, DeltaArgs, fetch_pages, max_pages,
  on_world,
}
use contextql_server.DeepSee.Sync.Changes.{Filtered, filter_events, by_watermark, parse_watermark}
use contextql_server.DeepSee.Sync.Changes.Order.{boundary_text-parsed}
use contextql_server.DeepSee.Sync.Changes.Replay.{
  Membership, replay, replay_one, replay-congr, Regular,
}
use contextql_server.DeepSee.Sync.Run.{
  conclude, apply_changes, apply_filtered, sync_from, sync_once, publish, commit_state,
}
use contextql_server.DeepSee.Sync.Run.Delta.{delta_result, apply_changes-eq-replay}
use contextql_server.DeepSee.Sync.Run.Marks.{MarkedAt, conclude-ok, apply_filtered-MarkedAt}

replay-append :
    (m : Membership) (es fs : List ChangeEvent) → replay m (es ++ fs) ≡ replay (replay m es) fs
unfolding replay
replay-append m [] fs = refl
replay-append m (e ∷ es) fs = replay-append (replay_one m e) es fs

abbrev pub all_kept : List ChangeEvent → Filtered
all_kept es = record { applicable = es; duplicates = 0; out_of_order = 0 }

-- the events of a numbered log are all kept
filter_events-Numbered :
    (seen : List String) (text : String) (k : ℕ) (es : List ChangeEvent)
    → int_of_text text ≡ some (pos k)
    → Numbered k es
    → AreFresh k seen []
    → filter_events seen text es ≡ ok (all_kept es)
unfolding filter_events
filter_events-Numbered seen text k es h num fresh =
    let parsed : parse_watermark text ≡ ok (pos k) = unfold parse_watermark in rw h refl in
    rw (boundary_text-parsed text (pos k) parsed, parsed)
      (filter_from-Numbered seen [] k k es num (omega arith) fresh)

of_ok : Result (List ChangeEvent) → List ChangeEvent
of_ok (ok es) = es
of_ok (err e) = []

pub pending-rest :
    (service : MockService) (k : ℕ) (events : List ChangeEvent)
    → service.redeliver_from_start ≡ false
    → Numbered 0 service.events
    → pending_since service (pos k) ≡ ok events
    → drop k service.events ≡ events
unfolding of_ok
pending-rest service k events once num pending =
    ap of_ok (sym (pending_since-drop service k once num) ∙ pending)

length-rest : (k : ℕ) (es : List ChangeEvent) → k ≤ length es → k + length (drop k es) ≡ length es
length-rest zero es l = omega arith
length-rest (suc k) [] l = absurd (omega arith)
length-rest (suc k) (e ∷ es) l = omega (arith, length-rest k es (omega arith))

-- The synchronizer is at the number `k` of a log: that is its watermark, it has seen no later event,
-- and its store holds what the log up to there makes of the members at the start.
abbrev pub InStep :
    {W : Type 0} → (W → Membership) → Membership → List ChangeEvent → ℕ → Session W → Type 0
InStep view start log k n = MarkedAt k n × ((j : ℕ) → view n.world j ≡ replay start (take k log) j)

-- The service's state at a synchronization: a log that is numbered and coherent with the members,
-- which it does not deliver again from the start.
pub record IsServing (start : Membership) (service : MockService) : Type 0 where
  pub coherent : Coherent start service
  pub numbered : Numbered 0 service.events
  pub once : service.redeliver_from_start ≡ false

module _ {W Staged Snapshot : Type 0} (c : DeepSeeClient) (s : Service W)
    (m : MembershipStore W Staged Snapshot) (repository : Option (StateRepository W))
    (context_id : String) (deserialize : List ℕ → Option (List ℕ)) where
  sync_once-applies :
      (n : Session W) (text : String) (events : List ChangeEvent) (t : Stamp) (w : W) (f : Filtered)
      → n.committed_watermark ≡ some text
      → fetch_pages c s max_pages text none [] n.world ≡ (ok (events, t), w)
      → filter_events n.seen_event_ids text events ≡ ok f
      → sync_once c s m repository context_id deserialize n
        ≡ apply_filtered c s m repository context_id deserialize text t f f.applicable
            (record n { world = w })
  unfolding sync_once sync_from
  sync_once-applies n text events t w f h fetched filtered =
      rw (h, sync_from, fetched, filtered) refl

  module _ (view : W → Membership)
      (documented : (args : DeltaArgs) (w w' : W) (x : Snapshot)
        → publish m m.stage_delta m.apply_delta context_id args w ≡ (ok x, w')
        → (k : ℕ) → view w' k ≡ delta_result (view w) args k)
      (apart : (watermark : String) (events : List (String × String)) (w : W) (k : ℕ)
        → view (commit_state repository context_id watermark events w).1 k ≡ view w k) where
    concluded-eq-replay :
        (n : Session W) (t : Stamp) (f : Filtered) (ordered : List ChangeEvent) (r : SyncReport)
        (i : ℕ)
        → Regular [] ordered
        → (conclude f ordered (on_world (apply_changes s m repository context_id ordered t) n)).0
          ≡ ok r
        → view
            (conclude f ordered
              (on_world (apply_changes s m repository context_id ordered t) n)).1.world
            i
          ≡ replay (view n.world) ordered i
    concluded-eq-replay n t f ordered r i reg h =
        let x = apply_changes s m repository context_id ordered t n.world in
        let (p, done, same, marked, seen) =
          conclude-ok f ordered r x.0 (record n { world = x.1 }) h in
        ap (λ w. view w i) same
        ∙ apply_changes-eq-replay s m repository context_id view documented apart ordered t n.world
            x.1 p i reg (λ j. (done j, x.1))

    apply_filtered-eq-replay :
        (n : Session W) (text : String) (t : Stamp) (f : Filtered) (events : List ChangeEvent)
        (r : SyncReport) (i : ℕ)
        → by_watermark events ≡ events
        → Regular [] events
        → (apply_filtered c s m repository context_id deserialize text t f events n).0 ≡ ok r
        → view (apply_filtered c s m repository context_id deserialize text t f events n).1.world i
          ≡ replay (view n.world) events i
    unfolding apply_filtered
    apply_filtered-eq-replay n text t f [] r i sorts reg h = unfold replay in refl
    apply_filtered-eq-replay n text t f (e ∷ es) r i sorts reg h =
        concluded-eq-replay n t f (by_watermark (e ∷ es)) r i (rw sorts reg) h
        ∙ ap (λ ordered. replay (view n.world) ordered i) sorts

    pub sync_once-pending :
        (start : Membership) (service : MockService) (k : ℕ) (n : Session W)
        (x : InStep view start service.events k n) (t : Stamp) (w : W)
        → IsServing start service
        → fetch_pages c s max_pages x.0.0 none [] n.world ≡ (ok (drop k service.events, t), w)
        → sync_once c s m repository context_id deserialize n
          ≡ apply_filtered c s m repository context_id deserialize x.0.0 t
              (all_kept (drop k service.events))
              (drop k service.events)
              (record n { world = w })
    sync_once-pending start service k n x t w g fetched =
        let events = drop k service.events in
        sync_once-applies n x.0.0 events t w (all_kept events) x.0.1 fetched (
          filter_events-Numbered n.seen_event_ids x.0.0 k events x.0.2
            (Numbered-behind k service.events g.numbered) x.0.3)

    sync_once-eq-replay :
        (start : Membership) (service : MockService) (k : ℕ) (n : Session W)
        (x : InStep view start service.events k n) (t : Stamp) (w : W) (r : SyncReport) (i : ℕ)
        → IsServing start service
        → fetch_pages c s max_pages x.0.0 none [] n.world ≡ (ok (drop k service.events, t), w)
        → ((j : ℕ) → view w j ≡ view n.world j)
        → Regular [] (drop k service.events)
        → (sync_once c s m repository context_id deserialize n).0 ≡ ok r
        → view (sync_once c s m repository context_id deserialize n).1.world i
          ≡ replay start service.events i
    sync_once-eq-replay start service k n x t w r i g fetched kept reg h =
        let events = drop k service.events in
        let step = sync_once-pending start service k n x t w g fetched in
        ap (λ (y : Result SyncReport × Session W). view y.1.world i) step
        ∙ apply_filtered-eq-replay (record n { world = w }) x.0.0 t (all_kept events) events r i
            (by_watermark-Numbered k events (Numbered-behind k service.events g.numbered)) reg
            (sym (ap (λ (y : Result SyncReport × Session W). y.0) step) ∙ h)
        ∙ replay-congr (view w) (replay start (take k service.events)) events i (kept i ∙ x.1 i)
        ∙ ap (λ (mem : Membership). mem i)
            (sym (replay-append start (take k service.events) events)
              ∙ ap (replay start) (take-drop k service.events))

    sync_once-MarkedAt :
        (start : Membership) (service : MockService) (k : ℕ) (n : Session W)
        (x : InStep view start service.events k n) (t : Stamp) (w : W) (r : SyncReport)
        → IsServing start service
        → fetch_pages c s max_pages x.0.0 none [] n.world ≡ (ok (drop k service.events, t), w)
        → (sync_once c s m repository context_id deserialize n).0 ≡ ok r
        → MarkedAt
            (k + length (drop k service.events))
            (sync_once c s m repository context_id deserialize n).1
    sync_once-MarkedAt start service k n x t w r g fetched h =
        let events = drop k service.events in
        let numbered = Numbered-behind k service.events g.numbered in
        let step = sync_once-pending start service k n x t w g fetched in
        rw step (
          apply_filtered-MarkedAt c s m repository context_id deserialize (record n { world = w })
            x.0.0 t (all_kept events) events r k (by_watermark-Numbered k events numbered) numbered
            x.0 (sym (ap (λ (y : Result SyncReport × Session W). y.0) step) ∙ h))

    -- Where the synchronizer is in step with the log of the service, the pages that it fetches hold
    -- what is pending there and leave the store alone, the pending events are regular, and
    -- `sync_once` returns: the synchronizer is in step with the whole log, and its store holds the
    -- members of the service.
    pub sync_once-InStep :
        (start : Membership) (service : MockService) (k : ℕ) (n : Session W)
        (x : InStep view start service.events k n) (events : List ChangeEvent) (t : Stamp) (w : W)
        (r : SyncReport)
        → IsServing start service
        → k ≤ service.seq
        → pending_since service (pos k) ≡ ok events
        → fetch_pages c s max_pages x.0.0 none [] n.world ≡ (ok (events, t), w)
        → ((j : ℕ) → view w j ≡ view n.world j)
        → Regular [] events
        → (sync_once c s m repository context_id deserialize n).0 ≡ ok r
        → InStep view start service.events service.seq
            (sync_once c s m repository context_id deserialize n).1
          × ((i : ℕ)
              → view (sync_once c s m repository context_id deserialize n).1.world i
                ≡ lookup i service.members)
    sync_once-InStep start service k n x events t w r g within pending fetched kept reg h =
        let log = service.events in
        let eqn = pending-rest service k events g.once g.numbered pending in
        let fetched' = fetched ∙ ap (λ es. (ok (es, t), w)) (sym eqn) in
        let len : length log ≡ service.seq = g.coherent.2 in
        let reaches : k + length (drop k log) ≡ service.seq =
          length-rest k log (omega (arith, len)) ∙ len in
        let all : take service.seq log ≡ log = ap (λ z. take z log) (sym len) ∙ take-length log in
        let replayed = λ (i : ℕ).
          sync_once-eq-replay start service k n x t w r i g fetched' kept (rw eqn reg) h in
        (
          (
            rw reaches at (sync_once-MarkedAt start service k n x t w r g fetched' h),
            λ i. rw all (replayed i),
          ),
          λ i. replayed i ∙ sym (g.coherent.0 i),
        )
