-- ===== src/DeepSee/Sync/Changes/Returns.antt =====
-- `_fold_events` returns where every event that rescores carries a score.
use contextql_server.Prelude.{
  ℕ, Bool, true, false, Option, none, some, List, [], ◌∷◌, ◌≡◌, refl, All,
}
use contextql_server.Errors.{ok}
use contextql_server.DeepSee.Models.{Score, ChangeType, added, removed, score_changed, ChangeEvent}
use contextql_server.DeepSee.Sync.Changes.{
  FoldedChanges, fold_from, fold_change, fold_score, fold_events, no_changes,
}

-- An event that rescores carries a score.
abbrev pub carries_score : ChangeType → Option Score → Bool
carries_score score_changed none = false
carries_score _ _ = true

fold_change-returns :
    (f : FoldedChanges) (i : ℕ) (kind : ChangeType) (score : Option Score)
    → carries_score kind score ≡ true
    → (g : FoldedChanges) × (fold_change f i kind score ≡ ok g)
unfolding fold_change fold_score
fold_change-returns f i added score h = (_, refl)
fold_change-returns f i removed score h = (_, refl)
fold_change-returns f i score_changed (some s) h = (_, refl)
fold_change-returns f i score_changed none h = absurd cc

fold_from-returns :
    (f : FoldedChanges) (es : List ChangeEvent)
    → All (λ e. carries_score e.change_type e.score ≡ true) es
    → (g : FoldedChanges) × (fold_from f es ≡ ok g)
unfolding fold_from
fold_from-returns f [] h = (f, refl)
fold_from-returns f (e ∷ es) h =
    let (g, one) = fold_change-returns f e.entity_id e.change_type e.score h.0 in
    let (last, rest) = fold_from-returns g es h.1 in (last, rw (one, fold_from) rest)

pub fold_events-returns :
    (es : List ChangeEvent)
    → All (λ e. carries_score e.change_type e.score ≡ true) es
    → (g : FoldedChanges) × (fold_events es ≡ ok g)
unfolding fold_events
fold_events-returns = fold_from-returns no_changes
