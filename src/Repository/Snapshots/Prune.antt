-- ===== src/Repository/Snapshots/Prune.antt =====
-- What `prune_history` keeps.
use contextql_server.Prelude.{
  ℕ, String, Bool, true, not, ◌&&◌, Option, none, some, List, [], ◌∷◌, filter, find, str_eq, eq_iff,
  ltb, inl, inr, ◌⊎◌, ◌≡◌, ◌≢◌, refl, arith, ◌≤◌, All, All-filter,
}
use contextql_server.Errors.{ok, Result-cases, returned, raised}
use contextql_server.Sql.{Faults, transaction, transaction-committed, transaction-rollback}
use contextql_server.Repository.{PayloadRow, SnapshotRow, HistoryRow, Tables, payload_at}
use contextql_server.Repository.Snapshots.{anchor_of, prune_from, prune_history, pruning}
use contextql_server.Repository.Snapshots.Published.{rows_of}
use contextql_server.Repository.Snapshots.Anchor.{IsAnchor, anchor_of-IsAnchor, filter-anchor}

rows_of-filter :
    (c d : String) (v : ℕ) (rows : List SnapshotRow)
    → d ≢ c
    → rows_of d (filter (λ r. not (str_eq r.context_id c && ltb r.version v)) rows) ≡ rows_of d rows
rows_of-filter c d v [] n = refl
rows_of-filter c d v (r ∷ rs) n =
    ground (arith, rows_of-filter c d v rs n, eq_iff r.context_id d, eq_iff r.context_id c)

-- Leaving out rows that a test does not accept leaves what it accepts, and the first of it.
filter-filter_sub {ℓ} :
    {A : Type ℓ} (q p : A → Bool) (xs : List A)
    → ((x : A) → q x ≡ true → p x ≡ true)
    → filter q (filter p xs) ≡ filter q xs
filter-filter_sub q p [] sub = refl
filter-filter_sub q p (x ∷ xs) sub = ground (arith, sub x, filter-filter_sub q p xs sub)

find-filter_sub {ℓ} :
    {A : Type ℓ} (q p : A → Bool) (xs : List A)
    → ((x : A) → q x ≡ true → p x ≡ true)
    → find q (filter p xs) ≡ find q xs
find-filter_sub q p [] sub = refl
find-filter_sub q p (x ∷ xs) sub = ground (arith, sub x, find-filter_sub q p xs sub)

-- The rows that a prune with this anchor and cutoff may leave.
abbrev pub version_kept : String → ℕ → SnapshotRow → Bool
version_kept c v r = not (str_eq r.context_id c && ltb r.version v)

abbrev pub payload_kept : String → ℕ → PayloadRow → Bool
payload_kept c v r = not (str_eq r.context_id c && ltb r.version v)

abbrev pub event_kept : String → ℕ → HistoryRow → Bool
event_kept c cutoff r = not (str_eq r.context_id c && ltb r.effective_at cutoff)

-- Of the context, no version below this one is left, neither its snapshot nor its payload, and no
-- event before the cutoff.
abbrev pub HasNoOlder : String → ℕ → ℕ → Tables → Type 0
HasNoOlder c v cutoff t =
    All (λ r. version_kept c v r ≡ true) t.snapshots
    × All (λ r. payload_kept c v r ≡ true) t.payloads
    × All (λ r. event_kept c cutoff r ≡ true) t.history

-- All the rest is there: the contexts, the snapshots and the events in their order, and the payload
-- of each version of another context and of each version of this one from that version on.
abbrev pub KeepsRest : String → ℕ → ℕ → Tables → Tables → Type 0
KeepsRest c v cutoff t t' =
    (t'.contexts ≡ t.contexts)
    × (filter (version_kept c v) t'.snapshots ≡ filter (version_kept c v) t.snapshots)
    × (filter (event_kept c cutoff) t'.history ≡ filter (event_kept c cutoff) t.history)
    × ((d : String) (w : ℕ)
        → d ≢ c
        → find (payload_at d w) t'.payloads ≡ find (payload_at d w) t.payloads)
    × ((w : ℕ) → v ≤ w → find (payload_at c w) t'.payloads ≡ find (payload_at c w) t.payloads)

abbrev pub IsPrunedTo : String → ℕ → Tables → Tables → Option SnapshotRow → Type 0
IsPrunedTo c cutoff t t' none = t' ≡ t
IsPrunedTo c cutoff t t' (some b) =
    (anchor_of c cutoff t'.snapshots ≡ some b)
    × HasNoOlder c b.version cutoff t'
    × KeepsRest c b.version cutoff t t'
    × ((d : String) → d ≢ c → rows_of d t'.snapshots ≡ rows_of d t.snapshots)

abbrev pub IsPruned : String → ℕ → Tables → Tables → Type 0
IsPruned c cutoff t t' =
    let anchor = anchor_of c cutoff t.snapshots in
    IsAnchor c cutoff t.snapshots anchor × IsPrunedTo c cutoff t t' anchor

filter-KeepsRest :
    (c : String) (v cutoff : ℕ) (t : Tables)
    → KeepsRest c v cutoff t (record t {
      payloads = filter (payload_kept c v) t.payloads;
      snapshots = filter (version_kept c v) t.snapshots;
      history = filter (event_kept c cutoff) t.history;
    })
filter-KeepsRest c v cutoff t = (
  refl,
  filter-filter_sub (version_kept c v) (version_kept c v) t.snapshots (λ r h. h),
  filter-filter_sub (event_kept c cutoff) (event_kept c cutoff) t.history (λ r h. h),
  λ d w other.
      find-filter_sub (payload_at d w) (payload_kept c v) t.payloads
        (λ r h. ground (arith, eq_iff r.context_id d, eq_iff r.context_id c)),
  λ w above. find-filter_sub (payload_at c w) (payload_kept c v) t.payloads (λ r h. ground arith),
)

pruning-IsPruned :
    (c : String) (cutoff : ℕ) (t : Tables) (b : SnapshotRow)
    → anchor_of c cutoff t.snapshots ≡ some b
    → IsPrunedTo c cutoff t
        (record t {
          payloads = filter (payload_kept c b.version) t.payloads;
          snapshots = filter (version_kept c b.version) t.snapshots;
          history = filter (event_kept c cutoff) t.history;
        })
        (some b)
pruning-IsPruned c cutoff t b h = (
  filter-anchor c cutoff (version_kept c b.version) t.snapshots b h (ground arith),
  (
    All-filter (version_kept c b.version) t.snapshots,
    All-filter (payload_kept c b.version) t.payloads,
    All-filter (event_kept c cutoff) t.history,
  ),
  filter-KeepsRest c b.version cutoff t,
  λ d n. rows_of-filter c d b.version t.snapshots n,
)

ok-eq : (t u : Tables) → ok t ≡ ok u → u ≡ t
ok-eq t u h = ground arith

prune_from-IsPruned :
    (faults : Faults) (c : String) (cutoff : ℕ) (t : Tables) (o : Option SnapshotRow)
    → anchor_of c cutoff t.snapshots ≡ o
    → (prune_from faults c cutoff o t).0 ≡ ok tt
    → IsPrunedTo c cutoff t (prune_from faults c cutoff o t).1 o
unfolding prune_from
prune_from-IsPruned faults c cutoff t none e h = refl
prune_from-IsPruned faults c cutoff t (some b) e h =
    rw
      (ok-eq _ (transaction faults (pruning c b.version cutoff) t).1
        (transaction-committed faults (pruning c b.version cutoff) t h))
      (pruning-IsPruned c cutoff t b e)

-- A prune that returned, where no snapshot of the context answers for the cutoff, changes nothing.
-- Where one does, the newest of them by its data and then by its version still answers. Of the context
-- no older version is left, neither snapshot nor payload, and no event before the cutoff; all else is
-- there: the later versions with their payloads, the later events, the contexts, and every other
-- context's rows.
pub prune_history-keeps :
    (faults : Faults) (c : String) (cutoff : ℕ) (t : Tables)
    → (prune_history faults c cutoff t).0 ≡ ok tt
    → IsPruned c cutoff t (prune_history faults c cutoff t).1
unfolding prune_history
prune_history-keeps faults c cutoff t h = (
  anchor_of-IsAnchor c cutoff t.snapshots,
  prune_from-IsPruned faults c cutoff t (anchor_of c cutoff t.snapshots) refl h,
)

-- The tables without the rows older than a version and the events before a cutoff.
abbrev pub pruned : String → ℕ → ℕ → Tables → Tables
pruned c v cutoff t = record t {
  payloads = filter (payload_kept c v) t.payloads;
  snapshots = filter (version_kept c v) t.snapshots;
  history = filter (event_kept c cutoff) t.history;
}

prune_from-tables :
    (faults : Faults) (c : String) (cutoff : ℕ) (t : Tables) (o : Option SnapshotRow)
    → ((prune_from faults c cutoff o t).1 ≡ t)
      ⊎ ((v : ℕ) × ((prune_from faults c cutoff o t).1 ≡ pruned c v cutoff t))
unfolding prune_from
prune_from-tables faults c cutoff t none = inl refl
prune_from-tables faults c cutoff t (some b) =
    elim (Result-cases (transaction faults (pruning c b.version cutoff) t).0) [
      | raised e r ↦ inl (transaction-rollback faults (pruning c b.version cutoff) t e r)
      | returned u r ↦ inr (
        b.version,
        ok-eq _ (transaction faults (pruning c b.version cutoff) t).1
            (transaction-committed faults (pruning c b.version cutoff) t r),
      )
    ]

-- A prune leaves the tables, or takes from them what is older than some version.
pub prune_history-tables :
    (faults : Faults) (c : String) (cutoff : ℕ) (t : Tables)
    → ((prune_history faults c cutoff t).1 ≡ t)
      ⊎ ((v : ℕ) × ((prune_history faults c cutoff t).1 ≡ pruned c v cutoff t))
unfolding prune_history
prune_history-tables faults c cutoff t =
    prune_from-tables faults c cutoff t (anchor_of c cutoff t.snapshots)
