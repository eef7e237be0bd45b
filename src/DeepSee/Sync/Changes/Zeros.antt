-- ===== src/DeepSee/Sync/Changes/Zeros.antt =====
-- `_fold_events` on feeds with scores of zero.
use contextql_server.Prelude.{
  ℕ, false, Option, none, some, List, [], ◌∷◌, ⊤, ◌≡◌, ◌≢◌, refl, ◌∙◌, arith, ◌==◌, if◌then◌else◌,
}
use contextql_server.Prelude.Dict.{mem_num}
use contextql_server.Errors.{ok, Result-cases, returned, raised}
use contextql_server.DeepSee.Models.{
  Score, one, ChangeType, added, removed, score_changed, ChangeEvent,
}
use contextql_server.DeepSee.Sync.Changes.{
  FoldedChanges, no_changes, score_or_one, fold_change, fold_from, fold_events,
}
use contextql_server.DeepSee.Sync.Changes.Replay.{
  Membership, replay, net, RegularAt, Regular, pending_after, fold_events-eq-replay,
}

-- The feed that the fold takes for this one: an addition with a score of zero has a score of one.
abbrev pub one_for_zero : Option Score → Option Score
one_for_zero none = none
one_for_zero (some s) = some (if s == 0 then one else s)

abbrev pub raised_score : ChangeType → Option Score → Option Score
raised_score added score = one_for_zero score
raised_score removed score = score
raised_score score_changed score = score

abbrev pub with_ones : List ChangeEvent → List ChangeEvent
with_ones [] = []
with_ones (e ∷ es) = record e { score = raised_score e.change_type e.score } ∷ with_ones es

-- No `added` event comes after a `score_changed` event of the same entity, unless a `removed` event
-- of it stands between.
abbrev pub OrderedAt : List ℕ → ChangeType → ℕ → Type 0
OrderedAt pending added k = mem_num k pending ≡ false
OrderedAt pending removed k = ⊤
OrderedAt pending score_changed k = ⊤

abbrev pub Ordered : List ℕ → List ChangeEvent → Type 0
Ordered pending [] = ⊤
Ordered pending (e ∷ es) =
    OrderedAt pending e.change_type e.entity_id
    × Ordered (pending_after pending e.change_type e.entity_id) es

one_for_zero-ne : (score : Option Score) → one_for_zero score ≢ some 0
one_for_zero-ne none = λ h. ground arith
one_for_zero-ne (some s) = λ h. ground arith

raised_score-RegularAt :
    (pending : List ℕ) (kind : ChangeType) (k : ℕ) (score : Option Score)
    → OrderedAt pending kind k
    → RegularAt pending kind k (raised_score kind score)
raised_score-RegularAt pending added k score h = (h, one_for_zero-ne score)
raised_score-RegularAt pending removed k score h = tt
raised_score-RegularAt pending score_changed k score h = tt

with_ones-Regular :
    (pending : List ℕ) (es : List ChangeEvent) → Ordered pending es → Regular pending (with_ones es)
with_ones-Regular pending [] h = tt
with_ones-Regular pending (e ∷ es) h = (
  raised_score-RegularAt pending e.change_type e.entity_id e.score h.0,
  with_ones-Regular (pending_after pending e.change_type e.entity_id) es h.1,
)

score_or_one-one_for_zero :
    (score : Option Score) → score_or_one (one_for_zero score) ≡ score_or_one score
score_or_one-one_for_zero none = refl
score_or_one-one_for_zero (some s) = ground arith

-- the loop does not see the difference
fold_change-raised_score :
    (f : FoldedChanges) (k : ℕ) (kind : ChangeType) (score : Option Score)
    → fold_change f k kind (raised_score kind score) ≡ fold_change f k kind score
unfolding fold_change
fold_change-raised_score f k added score = rw (score_or_one-one_for_zero score) refl
fold_change-raised_score f k removed score = refl
fold_change-raised_score f k score_changed score = refl

fold_from-with_ones :
    (f : FoldedChanges) (es : List ChangeEvent) → fold_from f (with_ones es) ≡ fold_from f es
unfolding fold_from
fold_from-with_ones f [] = refl
fold_from-with_ones f (e ∷ es) =
    elim (Result-cases (fold_change f e.entity_id e.change_type e.score)) [
      | raised x r ↦
          rw (fold_from, fold_change-raised_score f e.entity_id e.change_type e.score, r) refl
      | returned g r ↦
          rw (fold_from, fold_change-raised_score f e.entity_id e.change_type e.score, r)
            (fold_from-with_ones g es)
    ]

-- For every feed whose additions do not follow a rescoring, with scores of zero or without: the
-- folded delta has on any membership the effect of the events one after the other, where each
-- addition with a score of zero is replaced by one with a score of one.
pub fold_events-zero_is_one :
    (es : List ChangeEvent) (f : FoldedChanges) (old : Membership) (k : ℕ)
    → Ordered [] es
    → fold_events es ≡ ok f
    → net old f k ≡ replay old (with_ones es) k
unfolding fold_events
fold_events-zero_is_one es f old k ordered h =
    fold_events-eq-replay (with_ones es) f old k (with_ones-Regular [] es ordered)
      (fold_from-with_ones no_changes es ∙ h)
