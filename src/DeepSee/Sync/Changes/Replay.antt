-- ===== src/DeepSee/Sync/Changes/Replay.antt =====
-- `_fold_events` against an event-by-event replay of the change feed.
use contextql_server.Prelude.{
  ℕ, true, false, Option, none, some, List, [], ◌∷◌, ⊤, ◌≡◌, ◌≢◌, refl, ◌∙◌, ap, arith, ◌==◌,
  is_some, or_else, if◌then◌else◌,
}
use contextql_server.Prelude.Dict.{
  lookup, mem_num, discard, add, lookup-insert, lookup-erase, mem_num-discard, mem_num-add,
}
use contextql_server.Errors.{ok, Result-cases, returned, raised}
use contextql_server.DeepSee.Models.{
  Score, one, ChangeType, added, removed, score_changed, ChangeEvent,
}
use contextql_server.DeepSee.Sync.Changes.{
  FoldedChanges, no_changes, score_or_one, fold_score, fold_change, fold_from, fold_events,
}

-- Who is a member, and with which score.
abbrev pub Membership : Type 0
Membership = ℕ → Option Score

-- What one event means for the entity that it names.
abbrev pub changed : ChangeType → Option Score → Option Score → Option Score
changed added score old = some (or_else score one)
changed removed score old = none
changed score_changed score none = none
changed score_changed score (some s) = some (or_else score s)

abbrev pub replay_one : Membership → ChangeEvent → Membership
replay_one m e k = if k == e.entity_id then changed e.change_type e.score (m k) else m k

-- The membership after the events, in their order.
unfoldable pub replay : Membership → List ChangeEvent → Membership
replay m [] = m
replay m (e ∷ es) = replay (replay_one m e) es

abbrev pub rescored : Option Score → Option Score → Option Score
rescored none old = old
rescored (some s) none = none
rescored (some s) (some old) = some s

abbrev after_additions : Option Score → Option Score → Option Score
after_additions none old = old
after_additions (some s) old = some s

-- What a folded delta means: removed entities go, added ones come with their score, and a score
-- change then replaces the score of what is a member.
abbrev pub net : Membership → FoldedChanges → Membership
net old f k =
    if mem_num k f.removals
    then none
    else rescored (lookup k f.score_changes) (after_additions (lookup k f.additions) (old k))

-- No `added` event has a score of zero, and none comes after a `score_changed` event of the same
-- entity unless a `removed` event of it stands between; `pending` holds the entities rescored so far.
abbrev pub RegularAt : List ℕ → ChangeType → ℕ → Option Score → Type 0
RegularAt pending added k score = (mem_num k pending ≡ false) × (score ≢ some 0)
RegularAt pending removed k score = ⊤
RegularAt pending score_changed k score = ⊤

abbrev pub pending_after : List ℕ → ChangeType → ℕ → List ℕ
pending_after pending added k = pending
pending_after pending removed k = discard k pending
pending_after pending score_changed k = add k pending

abbrev pub Regular : List ℕ → List ChangeEvent → Type 0
Regular pending [] = ⊤
Regular pending (e ∷ es) =
    RegularAt pending e.change_type e.entity_id e.score
    × Regular (pending_after pending e.change_type e.entity_id) es

-- The facts about the three collections that hold between two rounds of the loop.
abbrev Inv : List ℕ → FoldedChanges → ℕ → Type 0
Inv pending f k =
    (mem_num k f.removals ≡ true → lookup k f.additions ≡ none)
    × (is_some (lookup k f.additions) ≡ true → lookup k f.score_changes ≡ none)
    × (mem_num k pending ≡ false → lookup k f.score_changes ≡ none)

fold_added :
    (pending : List ℕ) (f f' : FoldedChanges) (j : ℕ) (score : Option Score) (old : Membership)
    (k : ℕ)
    → Inv pending f k
    → RegularAt pending added j score
    → fold_change f j added score ≡ ok f'
    → Inv (pending_after pending added j) f' k
      × (net old f' k ≡ (if k == j then changed added score (net old f k) else net old f k))
unfolding fold_change
fold_added pending f f' j score old k inv reg h =
    ground
      (arith, lookup-insert k j (score_or_one score) f.additions, mem_num-discard k j f.removals)

fold_removed :
    (pending : List ℕ) (f f' : FoldedChanges) (j : ℕ) (score : Option Score) (old : Membership)
    (k : ℕ)
    → Inv pending f k
    → fold_change f j removed score ≡ ok f'
    → Inv (pending_after pending removed j) f' k
      × (net old f' k ≡ (if k == j then changed removed score (net old f k) else net old f k))
unfolding fold_change
fold_removed pending f f' j score old k inv h = ground (
  arith,
  lookup-erase k j f.additions,
  lookup-erase k j f.score_changes,
  mem_num-add k j f.removals,
  mem_num-discard k j pending,
)

fold_scored :
    (pending : List ℕ) (f f' : FoldedChanges) (j : ℕ) (score : Option Score) (old : Membership)
    (k : ℕ)
    → Inv pending f k
    → fold_score f j score ≡ ok f'
    → Inv (pending_after pending score_changed j) f' k
      × (net old f' k ≡ (if k == j then changed score_changed score (net old f k) else net old f k))
unfolding fold_score
fold_scored pending f f' j none old k inv h = absurd (cc)
fold_scored pending f f' j (some s) old k inv h = ground (
  arith,
  lookup-insert k j s f.additions,
  lookup-insert k j s f.score_changes,
  mem_num-add k j pending,
)

-- One round of the loop does to the net effect what the event means.
fold_change-net :
    (pending : List ℕ) (f f' : FoldedChanges) (kind : ChangeType) (j : ℕ) (score : Option Score)
    (old : Membership) (k : ℕ)
    → Inv pending f k
    → RegularAt pending kind j score
    → fold_change f j kind score ≡ ok f'
    → Inv (pending_after pending kind j) f' k
      × (net old f' k ≡ (if k == j then changed kind score (net old f k) else net old f k))
fold_change-net pending f f' added j score old k inv reg h =
    fold_added pending f f' j score old k inv reg h
fold_change-net pending f f' removed j score old k inv reg h =
    fold_removed pending f f' j score old k inv h
fold_change-net pending f f' score_changed j score old k inv reg h =
    fold_scored pending f f' j score old k inv (unfold fold_change in h)

-- Replay looks at one entity at a time.
pub replay-congr :
    (m m' : Membership) (es : List ChangeEvent) (k : ℕ)
    → m k ≡ m' k
    → replay m es k ≡ replay m' es k
unfolding replay
replay-congr m m' [] k h = h
replay-congr m m' (e ∷ es) k h =
    replay-congr (replay_one m e) (replay_one m' e) es k
      (ap (λ (o : Option Score). if k == e.entity_id then changed e.change_type e.score o else o) h)

fold_from-net :
    (pending : List ℕ) (f f' : FoldedChanges) (es : List ChangeEvent) (old : Membership) (k : ℕ)
    → Inv pending f k
    → Regular pending es
    → fold_from f es ≡ ok f'
    → net old f' k ≡ replay (net old f) es k
unfolding fold_from replay
fold_from-net pending f f' [] old k inv reg h = ground arith
fold_from-net pending f f' (e ∷ es) old k inv reg h =
    elim (Result-cases (fold_change f e.entity_id e.change_type e.score)) [
      | raised x r ↦ absurd (ground arith)
      | returned g r ↦
          let one_round =
            fold_change-net pending f g e.change_type e.entity_id e.score old k inv reg.0 r in
          fold_from-net (pending_after pending e.change_type e.entity_id) g f' es old k one_round.0
            reg.1 (rw (r, fold_from) at h)
          ∙ replay-congr (net old g) (replay_one (net old f) e) es k one_round.1
    ]

-- For every feed that is regular, the folded delta has on any membership the effect of the events
-- one after the other.
pub fold_events-eq-replay :
    (es : List ChangeEvent) (f : FoldedChanges) (old : Membership) (k : ℕ)
    → Regular [] es
    → fold_events es ≡ ok f
    → net old f k ≡ replay old es k
unfolding fold_events
fold_events-eq-replay es f old k reg h =
    fold_from-net [] no_changes f es old k (λ e. cc, λ e. refl, λ e. refl) reg h
