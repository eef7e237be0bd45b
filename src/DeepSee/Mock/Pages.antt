-- ===== src/DeepSee/Mock/Pages.antt =====
-- The paged answers of the mock: `snapshot` and `changes`.
pub mod Complete
use mathlib.Core.List.{reverse}
use contextql_server.Prelude.{
  ℕ, String, Bool, Option, none, some, List, [], ◌∷◌, length, take, drop, sorted, leb,
  if◌then◌else◌,
}
use contextql_server.Prelude.Int.{ℤ, pos, add_ℕ, bound, ltb_ℤ}
use contextql_server.Prelude.Dict.{lookup, keys}
use contextql_server.Errors.{value_error, Result, ok, err, or_raise, ◌>>=◌, ◌>>◌}
use contextql_server.Errors.Exec.{Exec}
use contextql_server.DeepSee.Decimal.{codes, int_of_text, str_of_ℤ}
use contextql_server.DeepSee.Models.{
  Score, ChangeEvent, WireId, num, SnapshotPage, ChangeBatch, supported_bitmap_encoding,
}
use contextql_server.DeepSee.Mock.{
  MockService, enter_call, watermark, data_as_of, entity_key_type, evidence_ref,
}

-- `int(cursor) if cursor is not None else 0`
unfoldable pub offset_of : Option String → Result ℤ
offset_of none = ok (pos 0)
offset_of (some cursor) = elim (int_of_text cursor) [
  | none ↦ err (value_error "invalid literal for int()")
  | some z ↦ ok z
]

-- `xs[offset:offset + size]`
abbrev pub page_of {ℓ} : {A : Type ℓ} → ℤ → ℕ → List A → List A
page_of offset size xs =
    let start = bound offset (length xs) in
    let stop = bound (add_ℕ offset size) (length xs) in drop start (take stop xs)

-- `str(offset + size) if has_more else None`
abbrev pub next_of : ℤ → ℕ → ℕ → Option String
next_of offset size len =
    if ltb_ℤ (add_ℕ offset size) (pos len) then some (str_of_ℤ (add_ℕ offset size)) else none

-- `{i: self._members[i] for i in page_ids}`
abbrev pub scores_of : List (ℕ × Score) → List ℕ → List (ℕ × Score)
scores_of members [] = []
scores_of members (i ∷ ids) = elim (lookup i members) [
  | none ↦ scores_of members ids
  | some score ↦ (i, score) ∷ scores_of members ids
]

abbrev pub refs_of : List ℕ → List (ℕ × String)
refs_of [] = []
refs_of (i ∷ ids) = (i, evidence_ref i) ∷ refs_of ids

abbrev pub wire_ids : List ℕ → List WireId
wire_ids [] = []
wire_ids (i ∷ ids) = num i ∷ wire_ids ids

-- the page of `snapshot` at an offset
abbrev pub id_page : MockService → ℤ → SnapshotPage
id_page m offset =
    let ordered = sorted leb (keys m.members) in
    let page_ids = page_of offset m.page_size ordered in
    record {
      entity_key_type = entity_key_type m;
      data_as_of = data_as_of m;
      watermark = watermark m;
      entity_ids = some (wire_ids page_ids);
      membership_bitmap = none;
      bitmap_encoding = none;
      scores = scores_of m.members page_ids;
      evidence_refs = refs_of page_ids;
      next_cursor = next_of offset m.page_size (length ordered);
    }

id_page_at : MockService → Option String → Result SnapshotPage
unfolding offset_of
id_page_at m cursor = do offset ← offset_of cursor; ok (id_page m offset)

-- `b"this-is-not-a-roaring64-bitmap"`
abbrev pub malformed_payload : List ℕ
malformed_payload = codes "this-is-not-a-roaring64-bitmap"

-- `BitMap64(ids).serialize()` is pyroaring's, and is an argument.
module _ (serialize : List ℕ → List ℕ) where
  -- `_bitmap_snapshot_page`
  abbrev pub bitmap_page : MockService → SnapshotPage
  bitmap_page m = record {
    entity_key_type = entity_key_type m;
    data_as_of = data_as_of m;
    watermark = watermark m;
    entity_ids = none;
    membership_bitmap =
        some (if m.malformed_bitmap then malformed_payload else serialize (keys m.members));
    bitmap_encoding = some supported_bitmap_encoding;
    scores = m.members;
    evidence_refs = refs_of (keys m.members);
    next_cursor = none;
  }

  unfoldable pub snapshot : Option String → Option String → Exec MockService SnapshotPage
  unfolding enter_call watermark data_as_of entity_key_type id_page_at
  snapshot cursor token m =
      let (admitted, m') = enter_call token m in
      (admitted >> (if m'.bitmap_snapshot then ok (bitmap_page m') else id_page_at m' cursor), m')

-- `[e for e in events if int(e.watermark) > since]`
abbrev pub keep_later : Bool → ChangeEvent → Result (List ChangeEvent) → Result (List ChangeEvent)
keep_later later e (err x) = err x
keep_later later e (ok es) = ok (if later then e ∷ es else es)

unfoldable pub events_after : ℤ → List ChangeEvent → Result (List ChangeEvent)
events_after since [] = ok []
events_after since (e ∷ es) =
    let rest = events_after since es in
    elim (int_of_text e.watermark) [
      | none ↦ err (value_error "invalid literal for int()")
      | some w ↦ keep_later (ltb_ℤ since w) e rest
    ]

-- `[event for event in pending for _ in (0, 1)]`
abbrev pub twice {ℓ} : {A : Type ℓ} → List A → List A
twice [] = []
twice (x ∷ xs) = x ∷ x ∷ twice xs

-- the order and the multiplicity in which the pending events are delivered
unfoldable pub delivered : MockService → List ChangeEvent → List ChangeEvent
delivered m pending =
    let ordered = if m.out_of_order then reverse pending else pending in
    if m.duplicate_delivery then twice ordered else ordered

abbrev pub change_page : MockService → List ChangeEvent → ℤ → ChangeBatch
change_page m pending offset = record {
  events = page_of offset m.page_size pending;
  data_as_of = data_as_of m;
  watermark = watermark m;
  next_cursor = next_of offset m.page_size (length pending);
}

unfoldable pub pending_since : MockService → ℤ → Result (List ChangeEvent)
unfolding events_after
pending_since m since = if m.redeliver_from_start then ok m.events else events_after since m.events

-- the batch of `changes`, once the call is admitted
batch_of : MockService → String → Option String → Result ChangeBatch
unfolding pending_since delivered offset_of
batch_of m since_watermark cursor = do
  since ← or_raise (int_of_text since_watermark) (value_error "invalid literal for int()")
  pending ← pending_since m since
  offset ← offset_of cursor
  ok (change_page m (delivered m pending) offset)

unfoldable pub changes : String → Option String → Option String → Exec MockService ChangeBatch
unfolding enter_call watermark data_as_of batch_of
changes since_watermark cursor token m =
    let (admitted, m') = enter_call token m in (admitted >> batch_of m' since_watermark cursor, m')
