-- ===== src/DeepSee/Sync/Run/Delta.antt =====
-- From the folded changes to the membership store: the delta of `sync_once`.
use contextql_server.Prelude.{
  ℕ, ◌||◌, String, Option, none, some, List, [], ◌∷◌, ◌≡◌, refl, sym, ap, ◌∙◌, arith, ◌==◌, leb,
  sorted, insert_sorted, is_some, or_else, if◌then◌else◌,
}
use contextql_server.Prelude.Dict.{lookup, keys, mem_num}
use contextql_server.Errors.{Result, ok}
use contextql_server.Errors.Exec.{go_on-ok}
use contextql_server.DeepSee.Models.{Score, one, Stamp, ChangeEvent}
use contextql_server.DeepSee.Client.{Service}
use contextql_server.DeepSee.Sync.{DeltaArgs, MembershipStore, StateRepository, parse_iso}
use contextql_server.DeepSee.Sync.Changes.{FoldedChanges, fold_events, last_watermark}
use contextql_server.DeepSee.Sync.Changes.Dicts.{IsDict, lookup-update, fold_events-IsDict}
use contextql_server.DeepSee.Sync.Changes.Replay.{
  Membership, replay, rescored, net, Regular, fold_events-eq-replay,
}
use contextql_server.DeepSee.Sync.Run.{
  delta_args, publish, commit_state, event_watermarks, apply_changes,
}

-- What the engine documents of a delta: what it removes is no member, what it adds is one, with a
-- score of one at first, and a score change replaces the score of a member.
abbrev pub delta_result : Membership → DeltaArgs → Membership
delta_result old d k =
    if mem_num k d.removals
    then none
    else rescored (lookup k d.score_changes)
        (if mem_num k d.additions then some (or_else (old k) one) else old k)

mem_num-insert_sorted :
    (k x : ℕ) (xs : List ℕ) → mem_num k (insert_sorted leb x xs) ≡ (k == x || mem_num k xs)
mem_num-insert_sorted k x [] = refl
mem_num-insert_sorted k x (y ∷ ys) = ground (arith, mem_num-insert_sorted k x ys)

mem_num-sorted : (k : ℕ) (xs : List ℕ) → mem_num k (sorted leb xs) ≡ mem_num k xs
mem_num-sorted k [] = refl
mem_num-sorted k (x ∷ xs) =
    mem_num-insert_sorted k x (sorted leb xs) ∙ ap (λ b. k == x || b) (mem_num-sorted k xs)

mem_num-keys : (k : ℕ) (d : List (ℕ × Score)) → mem_num k (keys d) ≡ is_some (lookup k d)
mem_num-keys k [] = refl
mem_num-keys k (e ∷ d) = ground (arith, mem_num-keys k d)

-- The delta that is built from the folded changes has their net effect.
delta_args-eq-net :
    (old : Membership) (f : FoldedChanges) (now as_of : ℕ) (w : String) (k : ℕ)
    → IsDict f.score_changes
    → delta_result old (delta_args f now as_of w) k ≡ net old f k
delta_args-eq-net old f now as_of w k d =
    rw
      (
        mem_num-sorted k f.removals,
        mem_num-sorted k (keys f.additions),
        mem_num-keys k f.additions,
        lookup-update k f.additions f.score_changes d,
      )
      (ground arith)

-- The deltas of one store and one context: `view` is the membership that the store holds, and a
-- published delta has the documented effect on it. Committing the durable state leaves it alone.
module _ {W Staged Snapshot : Type 0} (s : Service W) (m : MembershipStore W Staged Snapshot)
    (repository : Option (StateRepository W)) (context_id : String) (view : W → Membership)
    (documented : (args : DeltaArgs) (w w' : W) (x : Snapshot)
      → publish m m.stage_delta m.apply_delta context_id args w ≡ (ok x, w')
      → (k : ℕ) → view w' k ≡ delta_result (view w) args k)
    (apart : (watermark : String) (events : List (String × String)) (w : W) (k : ℕ)
      → view (commit_state repository context_id watermark events w).1 k ≡ view w k) where
  -- Where `sync_once` applies a regular batch of events and returns, the store holds the membership
  -- that replaying the events one after the other gives.
  pub apply_changes-eq-replay :
      (ordered : List ChangeEvent) (t : Stamp) (w w' : W) (r : FoldedChanges × String) (k : ℕ)
      → Regular [] ordered
      → apply_changes s m repository context_id ordered t w ≡ (ok r, w')
      → view w' k ≡ replay (view w) ordered k
  unfolding apply_changes
  apply_changes-eq-replay ordered t w w' r k reg h =
      let (f, folded, h1) = go_on-ok (fold_events ordered) _ w w' r h in
      let (as_of, read, h2) = go_on-ok (parse_iso t) _ w w' r h1 in
      let args = delta_args f (s.now w) as_of (last_watermark "" ordered) in
      let published = publish m m.stage_delta m.apply_delta context_id args w in
      let (x, done, h3) = go_on-ok published.0 _ published.1 w' r h2 in
      let committed =
        commit_state repository context_id (last_watermark "" ordered) (event_watermarks ordered)
          published.1 in
      let (y, kept, h4) = go_on-ok committed.0 _ committed.1 w' r h3 in
      sym (ap (λ (p : Result (FoldedChanges × String) × W). view p.1 k) h4)
      ∙ apart (last_watermark "" ordered) (event_watermarks ordered) published.1 k
      ∙ documented args w published.1 x (λ i. (done i, published.1)) k
      ∙ delta_args-eq-net (view w) f (s.now w) as_of (last_watermark "" ordered) k
          (fold_events-IsDict f ordered folded)
      ∙ fold_events-eq-replay ordered f (view w) k reg folded
