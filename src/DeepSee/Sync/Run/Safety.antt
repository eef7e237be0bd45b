-- ===== src/DeepSee/Sync/Run/Safety.antt =====
-- What a failing synchronizer leaves behind, and how many calls one synchronization makes.
use contextql_server.Prelude.{
  ℕ, zero, suc, ◌+◌, ◌*◌, ◌≤◌, ◌≡◌, refl, String, Option, none, some, List, [], ◌∷◌, ◌++◌, arith,
}
use contextql_server.Errors.{Result, ok, err}
use contextql_server.Errors.Exec.{Exec, pure, go_on}
use contextql_server.DeepSee.Models.{Stamp, ChangeEvent, ChangeBatch}
use contextql_server.DeepSee.Client.{DeepSeeClient, Service, fetch_changes}
use contextql_server.DeepSee.Client.Calls.{fetch_changes-calls}
use contextql_server.DeepSee.Sync.{
  MembershipStore, StateRepository, Session, fetch_pages, max_pages,
}
use contextql_server.DeepSee.Sync.Changes.{Filtered, FoldedChanges, filter_events, by_watermark}
use contextql_server.DeepSee.Sync.Run.{
  conclude, apply_filtered, sync_from, sync_once, bootstrap, bootstrap_world, adopt,
}

-- The two attributes of the synchronizer that its state consists of.
abbrev pub SameAttributes : {W : Type 0} → Session W → Session W → Type 0
SameAttributes n n' =
    (n'.committed_watermark ≡ n.committed_watermark) × (n'.seen_event_ids ≡ n.seen_event_ids)

abbrev pub IfFailed : {A W : Type 0} → Session W → Result A × Session W → Type 0
IfFailed n (ok a, n') = Unit
IfFailed n (err e, n') = SameAttributes n n'

module _ {W : Type 0} where
  conclude-IfFailed :
      (filtered : Filtered) (ordered : List ChangeEvent) (n n' : Session W)
      (r : Result (FoldedChanges × String))
      → SameAttributes n n'
      → IfFailed n (conclude filtered ordered (r, n'))
  unfolding conclude
  conclude-IfFailed filtered ordered n n' (ok (f, w)) h = tt
  conclude-IfFailed filtered ordered n n' (err e) h = h

  adopt-IfFailed :
      {Snapshot : Type 0} (n n' : Session W) (r : Result (Snapshot × String))
      → SameAttributes n n'
      → IfFailed n (adopt (r, n'))
  unfolding adopt
  adopt-IfFailed n n' (ok (x, w)) h = tt
  adopt-IfFailed n n' (err e) h = h

  go_on-IfFailed :
      {A B : Type 0} (n n' : Session W) (r : Result A) (f : A → Exec (Session W) B)
      → SameAttributes n n'
      → ((a : A) → IfFailed n (f a n'))
      → IfFailed n (go_on r f n')
  go_on-IfFailed n n' (ok a) f h k = k a
  go_on-IfFailed n n' (err e) f h k = h

module _ {W Staged Snapshot : Type 0} (c : DeepSeeClient) (s : Service W)
    (m : MembershipStore W Staged Snapshot) (repository : Option (StateRepository W))
    (context_id : String) (deserialize : List ℕ → Option (List ℕ)) where
  apply_filtered-IfFailed :
      (committed : String) (t : Stamp) (filtered : Filtered) (events : List ChangeEvent)
      (n n' : Session W)
      → SameAttributes n n'
      → IfFailed n
          (apply_filtered c s m repository context_id deserialize committed t filtered events n')
  unfolding apply_filtered
  apply_filtered-IfFailed committed t filtered [] n n' h = tt
  apply_filtered-IfFailed committed t filtered (e ∷ es) n n' h =
      conclude-IfFailed filtered (by_watermark (e ∷ es)) n _ _ h

  sync_from-IfFailed :
      (committed : Option String) (n : Session W)
      → IfFailed n (sync_from c s m repository context_id deserialize committed n)
  unfolding sync_from
  sync_from-IfFailed none n = (refl, refl)
  sync_from-IfFailed (some committed) n =
      go_on-IfFailed n _ (fetch_pages c s max_pages committed none [] n.world).0 _ (refl, refl)
        λ (events, t).
          go_on-IfFailed n _ (filter_events n.seen_event_ids committed events) _ (refl, refl)
            λ filtered.
              apply_filtered-IfFailed committed t filtered filtered.applicable n _ (refl, refl)

  -- Whatever fails in `sync_once`, the watermark and the seen ids stay as they were: the next run
  -- asks for the same changes again, and treats none of them as seen.
  pub sync_once-IfFailed :
      (n : Session W) → IfFailed n (sync_once c s m repository context_id deserialize n)
  unfolding sync_once
  sync_once-IfFailed n = sync_from-IfFailed n.committed_watermark n

  -- Whatever fails in `bootstrap`, the watermark and the seen ids stay as they were.
  pub bootstrap-IfFailed :
      (n : Session W) → IfFailed n (bootstrap c s m repository context_id deserialize n)
  unfolding bootstrap
  bootstrap-IfFailed n =
      adopt-IfFailed n _ (bootstrap_world c s m repository context_id deserialize n.world).0
        (refl, refl)

module _ {W : Type 0} (c : DeepSeeClient) (s : Service W) (calls : W → ℕ)
    (counts : (since : String) (cursor t : Option String) (w : W)
      → calls (s.changes since cursor t w).1 ≡ calls w + 1)
    (sleeps : (d : ℕ) (w : W) → calls (s.sleep d w) ≡ calls w) where
  -- what follows one fetch in the loop
  abbrev rest :
      ℕ
      → String
      → List ChangeEvent
      → ChangeBatch
      → Option String
      → Exec W (List ChangeEvent × Stamp)
  rest left since events batch cursor = elim cursor [
    | none ↦ pure (events ++ batch.events, batch.data_as_of)
    | some next ↦ fetch_pages c s left since (some next) (events ++ batch.events)
  ]

  rest-calls :
      (left : ℕ) (since : String) (events : List ChangeEvent) (r : Result ChangeBatch) (w : W)
      → ((next : String) (seen : List ChangeEvent)
          → calls (fetch_pages c s left since (some next) seen w).1
            ≤ calls w + left * (c.max_retries + 1))
      → calls (go_on r (λ batch. rest left since events batch batch.next_cursor) w).1
        ≤ calls w + left * (c.max_retries + 1)
  rest-calls left since events (err e) w ih = omega arith
  rest-calls left since events (ok batch) w ih =
      elim batch.next_cursor
        as (λ o.
          calls (rest left since events batch o w).1 ≤ calls w + left * (c.max_retries + 1)) [
            | none ↦ omega arith
            | some next ↦ ih next (events ++ batch.events)
          ]

  -- Following the cursors of a change feed for at most `left` pages makes at most
  -- `left * (max_retries + 1)` calls, whatever cursors and errors the service sends.
  pub calls-fetch_pages :
      (left : ℕ) (since : String) (cursor : Option String) (events : List ChangeEvent) (w : W)
      → calls (fetch_pages c s left since cursor events w).1 ≤ calls w + left * (c.max_retries + 1)
  unfolding fetch_pages
  calls-fetch_pages zero since cursor events w = omega arith
  calls-fetch_pages (suc left) since cursor events w =
      let fetched = fetch_changes c s since cursor w in
      omega (
        arith,
        fetch_changes-calls c s calls counts sleeps since cursor w,
        rest-calls left since events fetched.0 fetched.1
            (λ next seen. calls-fetch_pages left since (some next) seen fetched.1),
      )
