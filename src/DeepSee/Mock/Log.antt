-- ===== src/DeepSee/Mock/Log.antt =====
-- The mock's event log against its members, and its watermarks against its sequence numbers.
use contextql_server.Prelude.{
  ℕ, ◌+◌, ◌≤◌, true, Option, none, some, List, [], ◌∷◌, ◌++◌, ◌≡◌, refl, sym, ap, ◌∙◌, arith,
  length, All, ◌==◌, if◌then◌else◌, is_some, Bool-cases, ==_iff, inl, inr, length-append,
  All-append,
}
use contextql_server.Prelude.Int.{ℤ, pos}
use contextql_server.Prelude.Dict.{lookup, insert, erase, lookup-insert, lookup-erase}
use contextql_server.Errors.{ok, or_raise, contract_error}
use contextql_server.DeepSee.Decimal.RoundTrip.{int_of_text-zero_padded}
use contextql_server.DeepSee.Models.{Score, ChangeType, added, removed, score_changed, ChangeEvent}
use contextql_server.DeepSee.Sync.Changes.{parse_watermark}
use contextql_server.DeepSee.Sync.Changes.Replay.{Membership, replay, replay_one, changed}
use contextql_server.DeepSee.Mock.{
  MockService, watermark, event_at, record_event, add_member, remove_member, change_score,
}

-- The watermark that the mock reports, and that of each event it records, is parsed by the
-- synchronizer as the mock's sequence number.
pub parse_watermark-watermark :
    (m : MockService) (seq k : ℕ) (kind : ChangeType) (score : Option Score)
    → (parse_watermark (watermark m) ≡ ok (pos m.seq))
      × (parse_watermark (event_at seq k kind score).watermark ≡ ok (pos seq))
unfolding watermark parse_watermark
parse_watermark-watermark m seq k kind score =
    let read = λ (n : ℕ).
      ap (λ (o : Option ℤ). or_raise o contract_error)
        (int_of_text-zero_padded 12 n (omega arith)) in
    (read m.seq, read seq)

replay-snoc :
    (m : Membership) (es : List ChangeEvent) (e : ChangeEvent) (k : ℕ)
    → replay m (es ++ e ∷ []) k ≡ replay_one (replay m es) e k
unfolding replay
replay-snoc m [] e k = refl
replay-snoc m (x ∷ es) e k = replay-snoc (replay_one m x) es e k

-- An event carries a sequence number that is at most this one.
abbrev pub WithinSeq : ℕ → ChangeEvent → Type 0
WithinSeq seq e = (n : ℕ) × (n ≤ seq) × (parse_watermark e.watermark ≡ ok (pos n))

-- The members are what the log makes of the members at the start, and no event of the log is
-- numbered behind the current watermark.
abbrev pub Coherent : Membership → MockService → Type 0
Coherent start m =
    ((k : ℕ) → lookup k m.members ≡ replay start m.events k)
    × All (WithinSeq m.seq) m.events
    × (length m.events ≡ m.seq)

All-later :
    (seq : ℕ) (es : List ChangeEvent) → All (WithinSeq seq) es → All (WithinSeq (seq + 1)) es
All-later seq [] h = tt
All-later seq (e ∷ es) h = ((h.0.0, omega (arith, h.0.1), h.0.2), All-later seq es h.1)

recorded-Coherent :
    (start : Membership) (m : MockService) (members : List (ℕ × Score)) (j : ℕ) (kind : ChangeType)
    (score : Option Score)
    → Coherent start m
    → ((k : ℕ)
        → lookup k members
          ≡ replay_one (λ i. lookup i m.members) (event_at (m.seq + 1) j kind score) k)
    → Coherent start (record_event j kind score (record m { members = members })).1
unfolding record_event
recorded-Coherent start m members j kind score h step =
    let e = event_at (m.seq + 1) j kind score in
    (
      λ k.
          step k ∙ ap (λ o. replay_one (λ i. o) e k) (h.0 k) ∙ sym (replay-snoc start m.events e k),
      All-append (WithinSeq (m.seq + 1)) m.events (e ∷ []) (All-later m.seq m.events h.1)
          ((m.seq + 1, omega arith, (parse_watermark-watermark m (m.seq + 1) j kind score).1), tt),
      omega (arith, length-append m.events (e ∷ []), h.2),
    )

rescored-step :
    (d : List (ℕ × Score)) (j : ℕ) (score : Score)
    → is_some (lookup j d) ≡ true
    → (k : ℕ)
    → lookup k (insert j score d)
      ≡ (if k == j then changed score_changed (some score) (lookup k d) else lookup k d)
rescored-step d j score h k = elim (Bool-cases (k == j)) [
  | inr other ↦ rw (lookup-insert k j score d, other) refl
  | inl same ↦
      let e : k ≡ j = (==_iff k j).0 same in
      rw (lookup-insert k j score d, same) (rw e (ground (arith, h)))
]

-- Adding a member, removing one and changing a score, a refused change included, keep the log and
-- the members coherent.
pub change-Coherent :
    (start : Membership) (m : MockService) (j : ℕ) (score : Score)
    → Coherent start m
    → Coherent start (add_member j score m).1
      × Coherent start (remove_member j m).1
      × Coherent start (change_score j score m).1
unfolding add_member remove_member change_score
change-Coherent start m j score h = (
  recorded-Coherent start m (insert j score m.members) j added (some score) h
      (λ k. lookup-insert k j score m.members),
  recorded-Coherent start m (erase j m.members) j removed none h (λ k. lookup-erase k j m.members),
  elim (Bool-cases (is_some (lookup j m.members))) [
    | inl there ↦ rw there (
        recorded-Coherent start m (insert j score m.members) j score_changed (some score) h
          (rescored-step m.members j score there))
    | inr absent ↦ rw absent h
  ],
)
