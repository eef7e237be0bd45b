-- ===== src/DeepSee/Sync/Changes/Dicts.antt =====
-- The dicts of the fold, and their merge in the delta.
use contextql_server.Prelude.{ℕ, Option, none, some, List, [], ◌∷◌, ⊤, ◌≡◌, refl, arith, ==_iff}
use contextql_server.Prelude.Dict.{lookup, insert, erase, update, lookup-insert, lookup-erase}
use contextql_server.Errors.{ok, Result-cases, returned, raised}
use contextql_server.DeepSee.Models.{Score, ChangeType, added, removed, score_changed, ChangeEvent}
use contextql_server.DeepSee.Sync.Changes.{
  FoldedChanges, no_changes, fold_score, fold_change, fold_from, fold_events,
}

-- A dict has one entry for a key.
abbrev pub IsDict : List (ℕ × Score) → Type 0
IsDict [] = ⊤
IsDict ((k, v) ∷ d) = (lookup k d ≡ none) × IsDict d

insert-IsDict : (k : ℕ) (v : Score) (d : List (ℕ × Score)) → IsDict d → IsDict (insert k v d)
insert-IsDict k v [] h = (refl, tt)
insert-IsDict k v (e ∷ d) h = ground (arith, insert-IsDict k v d h.1, lookup-insert e.0 k v d)

erase-IsDict : (k : ℕ) (d : List (ℕ × Score)) → IsDict d → IsDict (erase k d)
erase-IsDict k [] h = tt
erase-IsDict k (e ∷ d) h = ground (arith, erase-IsDict k d h.1, lookup-erase e.0 k d)

abbrev pub first_of : Option Score → Option Score → Option Score
first_of none b = b
first_of (some a) b = some a

pub lookup-update :
    (k : ℕ) (d e : List (ℕ × Score))
    → IsDict e
    → lookup k (update d e) ≡ first_of (lookup k e) (lookup k d)
lookup-update k d [] h = refl
lookup-update k d ((j, v) ∷ e) h =
    ground (arith, lookup-update k (insert j v d) e h.1, lookup-insert k j v d, ==_iff k j)

fold_score-IsDict :
    (f g : FoldedChanges) (j : ℕ) (score : Option Score)
    → IsDict f.score_changes
    → fold_score f j score ≡ ok g
    → IsDict g.score_changes
unfolding fold_score
fold_score-IsDict f g j none d h = absurd (cc)
fold_score-IsDict f g j (some s) d h = ground (arith, insert-IsDict j s f.score_changes d)

fold_change-IsDict :
    (f g : FoldedChanges) (kind : ChangeType) (j : ℕ) (score : Option Score)
    → IsDict f.score_changes
    → fold_change f j kind score ≡ ok g
    → IsDict g.score_changes
unfolding fold_change
fold_change-IsDict f g added j score d h = ground arith
fold_change-IsDict f g removed j score d h = ground (arith, erase-IsDict j f.score_changes d)
fold_change-IsDict f g score_changed j score d h = fold_score-IsDict f g j score d h

pub fold_from-IsDict :
    (f g : FoldedChanges) (es : List ChangeEvent)
    → IsDict f.score_changes
    → fold_from f es ≡ ok g
    → IsDict g.score_changes
unfolding fold_from
fold_from-IsDict f g [] d h = ground arith
fold_from-IsDict f g (e ∷ es) d h =
    elim (Result-cases (fold_change f e.entity_id e.change_type e.score)) [
      | raised x r ↦ absurd (ground arith)
      | returned f' r ↦
          fold_from-IsDict f' g es (fold_change-IsDict f f' e.change_type e.entity_id e.score d r)
            (rw (r, fold_from) at h)
    ]

pub fold_events-IsDict :
    (f : FoldedChanges) (es : List ChangeEvent) → fold_events es ≡ ok f → IsDict f.score_changes
unfolding fold_events
fold_events-IsDict f es h = fold_from-IsDict no_changes f es tt h
