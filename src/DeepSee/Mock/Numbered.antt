-- ===== src/DeepSee/Mock/Numbered.antt =====
-- The event log of the mock by its numbers: what is pending behind a watermark, and what the
-- synchronizer's filter and its sort make of that.
use Prim.Native.String.{◌++◌ as text_append}
use text.Mathlib.TextLemmas.{append_cancel_left}
use contextql_server.Prelude.{
  or_else, ℕ, zero, suc, ◌+◌, ◌≤◌, ◌<◌, ⊤, String, Bool, true, false, ◌||◌, some, List, [], ◌∷◌,
  Option, none, is_some, ◌++◌, drop, length, str_eq, eq_iff, ◌≡◌, refl, sym, ap, ◌∙◌, arith,
  insert_sorted, Bool-cases, inl, inr,
}
use contextql_server.Prelude.Int.{ℤ, pos, pos_part, leb_ℤ, ltb_ℤ}
use contextql_server.Prelude.Dict.{mem_str, lookup, insert, erase}
use contextql_server.Errors.{ok}
use contextql_server.DeepSee.Decimal.{int_of_text, zero_padded}
use contextql_server.DeepSee.Decimal.RoundTrip.{int_of_text-zero_padded}
use contextql_server.DeepSee.Models.{Score, ChangeType, added, removed, score_changed, ChangeEvent}
use contextql_server.DeepSee.Sync.Changes.{
  parse_watermark, last_watermark, event_ids, filter_from, is_duplicate, keep_event, by_watermark,
  not_after, watermark_key,
}
use contextql_server.DeepSee.Mock.Pages.{keep_later, events_after, pending_since}
use contextql_server.DeepSee.Mock.{
  MockService, event_at, record_event, add_member, remove_member, change_score,
}

abbrev pub id_of : ℕ → String
id_of n = text_append "evt-" (zero_padded 8 n)

-- The events carry the numbers behind `n`, one after the other.
abbrev pub Numbered : ℕ → List ChangeEvent → Type 0
Numbered n [] = ⊤
Numbered n (e ∷ es) =
    (e.event_id ≡ id_of (n + 1))
    × (int_of_text e.watermark ≡ some (pos (n + 1)))
    × Numbered (n + 1) es

events_after-cons :
    (z : ℤ) (n : ℕ) (e : ChangeEvent) (es : List ChangeEvent) (later : Bool)
    → int_of_text e.watermark ≡ some (pos n)
    → ltb_ℤ z (pos n) ≡ later
    → events_after z (e ∷ es) ≡ keep_later later e (events_after z es)
unfolding events_after
events_after-cons z n e es later h l = rw (h, events_after) (rw l refl)

events_after-every :
    (k n : ℕ) (es : List ChangeEvent) → k ≤ n → Numbered n es → events_after (pos k) es ≡ ok es
events_after-every k n [] l h = unfold events_after in refl
events_after-every k n (e ∷ es) l h =
    let later : ltb_ℤ (pos k) (pos (n + 1)) ≡ true = ground arith in
    events_after-cons (pos k) (n + 1) e es true h.1 later
    ∙ rw (events_after-every k (n + 1) es (omega arith) h.2) refl

pub events_after-drop :
    (d n : ℕ) (es : List ChangeEvent)
    → Numbered n es
    → events_after (pos (n + d)) es ≡ ok (drop d es)
events_after-drop zero n es h =
    let z : n + 0 ≡ n = omega arith in rw z (events_after-every n n es (omega arith) h)
events_after-drop (suc d) n [] h = unfold events_after in refl
events_after-drop (suc d) n (e ∷ es) h =
    let past : ltb_ℤ (pos (n + suc d)) (pos (n + 1)) ≡ false = ground arith in
    let m : n + 1 + d ≡ n + suc d = omega arith in
    events_after-cons (pos (n + suc d)) (n + 1) e es false h.1 past
    ∙ rw (rw m at (events_after-drop d (n + 1) es h.2)) refl

pub Numbered-drop : (d n : ℕ) (es : List ChangeEvent) → Numbered n es → Numbered (n + d) (drop d es)
Numbered-drop zero n es h = let z : n + 0 ≡ n = omega arith in rw z h
Numbered-drop (suc d) n [] h = tt
Numbered-drop (suc d) n (e ∷ es) h =
    let m : n + suc d ≡ n + 1 + d = omega arith in rw m (Numbered-drop d (n + 1) es h.2)

id_of-injective : (i j : ℕ) → id_of i ≡ id_of j → i ≡ j
id_of-injective i j e =
    let t = append_cancel_left "evt-" (zero_padded 8 i) (zero_padded 8 j) e in
    let read : some (pos i) ≡ some (pos j) =
      sym (int_of_text-zero_padded 8 i (omega arith))
      ∙ ap int_of_text t
      ∙ int_of_text-zero_padded 8 j (omega arith) in
    ap (λ o. pos_part (or_else o (pos 0))) read

id_of-differs : (i j : ℕ) → i < j → str_eq (id_of j) (id_of i) ≡ false
id_of-differs i j l = elim (Bool-cases (str_eq (id_of j) (id_of i))) [
  | inl e ↦
      let same = id_of-injective j i ((eq_iff (id_of j) (id_of i)).0 e) in absurd (omega arith)
  | inr e ↦ e
]

-- The ids behind a number are neither seen nor in the batch.
abbrev pub AreFresh : ℕ → List String → List String → Type 0
AreFresh n seen batch =
    (j : ℕ) → n < j → (mem_str (id_of j) seen || mem_str (id_of j) batch) ≡ false

AreFresh-next :
    (n : ℕ) (seen batch : List String) (i : String)
    → i ≡ id_of (n + 1)
    → AreFresh n seen batch
    → AreFresh (n + 1) seen (i ∷ batch)
AreFresh-next n seen batch i e h j l = rw (e, id_of-differs (n + 1) j l) (h j (omega arith))

filter_from-cons :
    (seen batch : List String) (k n : ℕ) (e : ChangeEvent) (es : List ChangeEvent)
    → is_duplicate seen batch e ≡ false
    → int_of_text e.watermark ≡ some (pos n)
    → k < n
    → filter_from seen (pos k) batch (e ∷ es)
      ≡ keep_event e (filter_from seen (pos k) (e.event_id ∷ batch) es)
unfolding filter_from parse_watermark
filter_from-cons seen batch k n e es d w l =
    let b : leb_ℤ (pos n) (pos k) ≡ false = ground arith in rw (d, filter_from, w, b) refl

pub filter_from-Numbered :
    (seen batch : List String) (k n : ℕ) (es : List ChangeEvent)
    → Numbered n es
    → k ≤ n
    → AreFresh n seen batch
    → filter_from seen (pos k) batch es
      ≡ ok (record { applicable = es; duplicates = 0; out_of_order = 0 })
filter_from-Numbered seen batch k n [] h l f = unfold filter_from in refl
filter_from-Numbered seen batch k n (e ∷ es) h l f =
    filter_from-cons seen batch k (n + 1) e es (rw h.0 (f (n + 1) (omega arith))) h.1 (omega arith)
    ∙ ap (keep_event e) (
        filter_from-Numbered seen (e.event_id ∷ batch) k (n + 1) es h.2 (omega arith)
          (AreFresh-next n seen batch e.event_id h.0 f))

watermark_key-read :
    (e : ChangeEvent) (k : ℕ) → int_of_text e.watermark ≡ some (pos k) → watermark_key e ≡ pos k
watermark_key-read e k h = rw (h, watermark_key) refl

insert-first :
    (n k : ℕ) (e : ChangeEvent) (es : List ChangeEvent)
    → int_of_text e.watermark ≡ some (pos k)
    → k ≤ n + 1
    → Numbered n es
    → insert_sorted not_after e es ≡ e ∷ es
insert-first n k e [] h l hs = refl
insert-first n k e (x ∷ es) h l hs =
    let first : not_after e x ≡ true =
      let a = watermark_key-read e k h in
      let b = watermark_key-read x (n + 1) hs.1 in rw (a, b) (ground arith) in
    rw first refl

pub by_watermark-Numbered : (n : ℕ) (es : List ChangeEvent) → Numbered n es → by_watermark es ≡ es
unfolding by_watermark
by_watermark-Numbered n [] h = refl
by_watermark-Numbered n (e ∷ es) h =
    ap (insert_sorted not_after e) (by_watermark-Numbered (n + 1) es h.2)
    ∙ insert-first (n + 1) (n + 1) e es h.1 (omega arith) h.2

pub Numbered-behind : (k : ℕ) (es : List ChangeEvent) → Numbered 0 es → Numbered k (drop k es)
Numbered-behind k es h = let z : 0 + k ≡ k = omega arith in rw z at (Numbered-drop k 0 es h)

-- What is pending behind a watermark is the log without the events up to it.
pub pending_since-drop :
    (m : MockService) (k : ℕ)
    → m.redeliver_from_start ≡ false
    → Numbered 0 m.events
    → pending_since m (pos k) ≡ ok (drop k m.events)
unfolding pending_since
pending_since-drop m k r h =
    let z : 0 + k ≡ k = omega arith in rw r (rw z at (events_after-drop k 0 m.events h))

pub last_watermark-Numbered :
    (n : ℕ) (w : String) (es : List ChangeEvent)
    → int_of_text w ≡ some (pos n)
    → Numbered n es
    → int_of_text (last_watermark w es) ≡ some (pos (n + length es))
last_watermark-Numbered n w [] h hs = let z : n + 0 ≡ n = omega arith in rw z h
last_watermark-Numbered n w (e ∷ es) h hs =
    let z : n + length (e ∷ es) ≡ n + 1 + length es = omega arith in
    rw z (last_watermark-Numbered (n + 1) e.watermark es hs.1 hs.2)

mem_str-behind :
    (n j : ℕ) (es : List ChangeEvent) (seen : List String)
    → Numbered n es
    → n + length es < j
    → mem_str (id_of j) (event_ids es ++ seen) ≡ mem_str (id_of j) seen
mem_str-behind n j [] seen h l = refl
mem_str-behind n j (e ∷ es) seen h l =
    let other = id_of-differs (n + 1) j (omega arith) in
    rw (h.0, other) (mem_str-behind (n + 1) j es seen h.2 (omega arith))

pub event_ids-AreFresh :
    (n : ℕ) (es : List ChangeEvent) (seen : List String)
    → Numbered n es
    → AreFresh n seen []
    → AreFresh (n + length es) (event_ids es ++ seen) []
event_ids-AreFresh n es seen h f j l =
    ap (λ b. b || false) (mem_str-behind n j es seen h l) ∙ f j (omega arith)

-- A recorded event carries the next number.
pub Numbered-append :
    (n : ℕ) (es fs : List ChangeEvent)
    → Numbered n es
    → Numbered (n + length es) fs
    → Numbered n (es ++ fs)
Numbered-append n [] fs h hs = let z : n + 0 ≡ n = omega arith in rw z at hs
Numbered-append n (e ∷ es) fs h hs =
    let z : n + length (e ∷ es) ≡ n + 1 + length es = omega arith in
    (h.0, h.1, Numbered-append (n + 1) es fs h.2 (rw z at hs))

recorded-Numbered :
    (m : MockService) (kind : ChangeType) (j : ℕ) (score : Option Score)
    (members : List (ℕ × Score))
    → length m.events ≡ m.seq
    → Numbered 0 m.events
    → Numbered 0 (record_event j kind score (record m { members = members })).1.events
unfolding record_event
recorded-Numbered m kind j score members l h =
    let z : 0 + length m.events ≡ m.seq = omega (arith, l) in
    Numbered-append 0 m.events (event_at (m.seq + 1) j kind score ∷ []) h
      (rw z (refl, int_of_text-zero_padded 12 (m.seq + 1) (omega arith), tt))

-- An operation of the mock keeps the log numbered, where the log is as long as the sequence number.
pub change-Numbered :
    (m : MockService) (j : ℕ) (score : Score)
    → length m.events ≡ m.seq
    → Numbered 0 m.events
    → Numbered 0 (add_member j score m).1.events
      × Numbered 0 (remove_member j m).1.events
      × Numbered 0 (change_score j score m).1.events
unfolding add_member remove_member change_score
change-Numbered m j score l h = (
  recorded-Numbered m added j (some score) (insert j score m.members) l h,
  recorded-Numbered m removed j none (erase j m.members) l h,
  elim (Bool-cases (is_some (lookup j m.members))) [
    | inl there ↦
        rw there (recorded-Numbered m score_changed j (some score) (insert j score m.members) l h)
    | inr absent ↦ rw absent h
  ],
)
