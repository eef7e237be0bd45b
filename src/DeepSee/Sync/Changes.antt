-- ===== src/DeepSee/Sync/Changes.antt =====
-- The pure parts of synchronizer.py: watermarks, `_filter_events` and `_fold_events`.

pub mod Replay
pub mod Zeros
pub mod Dicts
pub mod Filter
pub mod Order
pub mod Redelivery
pub mod Returns
use contextql_server.Prelude.{
  ℕ, ◌+◌, String, Bool, true, false, ◌||◌, Option, none, some, List, [], ◌∷◌, str_eq, ◌==◌, sorted,
  map, is_some, if◌then◌else◌,
}
use contextql_server.Prelude.Int.{ℤ, pos, leb_ℤ}
use contextql_server.Prelude.Dict.{mem_str, lookup, insert, erase, discard, add}
use contextql_server.Errors.{Result, ok, err, contract_error, or_raise, ◌>>=◌}
use contextql_server.DeepSee.Decimal.{int_of_text}
use contextql_server.DeepSee.Models.{
  Score, one, ChangeType, added, removed, score_changed, ChangeEvent,
}

unfoldable pub parse_watermark : String → Result ℤ
parse_watermark value = or_raise (int_of_text value) contract_error

-- The three results of `_filter_events`.
pub record Filtered : Type 0 where
  pub applicable : List ChangeEvent
  pub duplicates : ℕ
  pub out_of_order : ℕ

abbrev pub count_duplicate : Result Filtered → Result Filtered
count_duplicate (ok f) = ok (record f { duplicates = f.duplicates + 1 })
count_duplicate (err e) = err e

abbrev pub count_out_of_order : Result Filtered → Result Filtered
count_out_of_order (ok f) = ok (record f { out_of_order = f.out_of_order + 1 })
count_out_of_order (err e) = err e

abbrev pub keep_event : ChangeEvent → Result Filtered → Result Filtered
keep_event e (ok f) = ok (record f { applicable = e ∷ f.applicable })
keep_event e (err x) = err x

-- `if event.event_id in self._seen_event_ids or event.event_id in batch_event_ids`
abbrev pub is_duplicate : List String → List String → ChangeEvent → Bool
is_duplicate seen batch e = mem_str e.event_id seen || mem_str e.event_id batch

-- The loop of `_filter_events`, from `batch_event_ids` on.
unfoldable pub filter_from : List String → ℤ → List String → List ChangeEvent → Result Filtered
filter_from seen boundary batch [] =
    ok (record { applicable = []; duplicates = 0; out_of_order = 0 })
filter_from seen boundary batch (e ∷ es) = elim (is_duplicate seen batch e) [
  | true ↦ count_duplicate (filter_from seen boundary batch es)
  | false ↦ elim (parse_watermark e.watermark) [
    | err x ↦ err x
    | ok w ↦ elim (leb_ℤ w boundary) [
      | true ↦ count_out_of_order (filter_from seen boundary batch es)
      | false ↦ keep_event e (filter_from seen boundary (e.event_id ∷ batch) es)
    ]
  ]
]

-- `self._committed_watermark or "0"`
abbrev pub boundary_text : String → String
boundary_text committed = if str_eq committed "" then "0" else committed

unfoldable pub filter_events : List String → String → List ChangeEvent → Result Filtered
unfolding filter_from parse_watermark
filter_events seen committed events = do
  boundary ← parse_watermark (boundary_text committed)
  filter_from seen boundary [] events

-- The sort key of an applicable event, whose watermark `_filter_events` has parsed.
abbrev pub watermark_key : ChangeEvent → ℤ
watermark_key e = elim (int_of_text e.watermark) [ none ↦ pos 0 | some z ↦ z ]

abbrev pub not_after : ChangeEvent → ChangeEvent → Bool
not_after a b = leb_ℤ (watermark_key a) (watermark_key b)

-- `sorted(applicable, key=...)`
unfoldable pub by_watermark : List ChangeEvent → List ChangeEvent
by_watermark = sorted not_after

-- `ordered[-1].watermark`
abbrev pub last_watermark : String → List ChangeEvent → String
last_watermark w [] = w
last_watermark w (e ∷ es) = last_watermark e.watermark es

abbrev pub event_ids : List ChangeEvent → List String
event_ids = map (λ e. e.event_id)

pub record FoldedChanges : Type 0 where
  pub additions : List (ℕ × Score)
  pub removals : List ℕ
  pub score_changes : List (ℕ × Score)

abbrev pub no_changes : FoldedChanges
no_changes = record { additions = []; removals = []; score_changes = [] }

-- `float(event.score or 1.0)`: no score, or a score of zero, is `1.0`
abbrev pub score_or_one : Option Score → Score
score_or_one none = one
score_or_one (some s) = if s == 0 then one else s

fold_score : FoldedChanges → ℕ → Option Score → Result FoldedChanges
fold_score f entity_id none = err contract_error
fold_score f entity_id (some s) = ok (
    if is_some (lookup entity_id f.additions)
    then record f { additions = insert entity_id s f.additions }
    else record f { score_changes = insert entity_id s f.score_changes })

-- The body of the loop in `_fold_events`, by the event's change type.
fold_change : FoldedChanges → ℕ → ChangeType → Option Score → Result FoldedChanges
unfolding fold_score
fold_change f entity_id added score = ok (record f {
  additions = insert entity_id (score_or_one score) f.additions;
  removals = discard entity_id f.removals;
})
fold_change f entity_id removed score = ok (record {
  additions = erase entity_id f.additions;
  removals = add entity_id f.removals;
  score_changes = erase entity_id f.score_changes;
})
fold_change f entity_id score_changed score = fold_score f entity_id score

unfoldable pub fold_from : FoldedChanges → List ChangeEvent → Result FoldedChanges
unfolding fold_change
fold_from f [] = ok f
fold_from f (e ∷ es) = elim (fold_change f e.entity_id e.change_type e.score) [
  | ok f' ↦ fold_from f' es
  | err x ↦ err x
]

unfoldable pub fold_events : List ChangeEvent → Result FoldedChanges
unfolding fold_from
fold_events = fold_from no_changes
