-- ===== src/SyncState/Durable.antt =====
-- What a synchronizer loads after a commit.
use contextql_server.Prelude.{
  String, Bool, ◌&&◌, ◌||◌, Option, none, some, List, [], ◌∷◌, ◌++◌, ◌≡◌, refl, sym, ap, ◌∙◌, arith,
  map, any, str_eq, eq_iff, if◌then◌else◌, Bool-cases, inl, inr,
}
use contextql_server.Prelude.Dict.{mem_str, mem_str-append}
use contextql_server.Errors.{Error, Result, ok, err}
use contextql_server.Sql.{Faults, run_all, transaction, transaction-committed, transaction-rollback}
use contextql_server.SyncState.{
  StateRow, EventRow, SyncTables, watermark_in, ids_in, load, same_event, insert_ignored, upsert,
  statements, commit,
}

watermark_in-upsert :
    (c d w : String) (rows : List StateRow)
    → watermark_in d (upsert c w rows) ≡ (if str_eq c d then some w else watermark_in d rows)
unfolding upsert
watermark_in-upsert c d w [] = refl
watermark_in-upsert c d w (r ∷ rs) =
    ground (
      arith,
      watermark_in-upsert c d w rs,
      eq_iff r.context_id c,
      eq_iff r.context_id d,
      eq_iff c d,
    )

ids_in-append :
    (d : String) (rows more : List EventRow)
    → ids_in d (rows ++ more) ≡ ids_in d rows ++ ids_in d more
ids_in-append d [] more = refl
ids_in-append d (r ∷ rs) more = ground (arith, ids_in-append d rs more)

-- the row of an id that is there shows in the ids of its context
mem_str-ids_in :
    (c e : String) (rows : List EventRow) → any (same_event c e) rows ≡ mem_str e (ids_in c rows)
mem_str-ids_in c e [] = refl
mem_str-ids_in c e (r ∷ rs) =
    ground (arith, mem_str-ids_in c e rs, eq_iff e r.event_id, eq_iff r.event_id e)

abbrev seen_at : String → String → SyncTables → Bool
seen_at i d t = mem_str i (ids_in d t.events)

insert_ignored-seen :
    (c d i : String) (event : String × String) (rows : List EventRow)
    → mem_str i (ids_in d (insert_ignored c event rows))
      ≡ ((str_eq c d && str_eq i event.0) || mem_str i (ids_in d rows))
unfolding insert_ignored
insert_ignored-seen c d i (e, w) rows = elim (Bool-cases (any (same_event c e) rows)) [
  | inl there ↦ rw there (ground (arith, mem_str-ids_in c e rows, eq_iff c d, eq_iff i e))
  | inr new ↦
      rw
        (
          new,
          ids_in-append d rows (record { context_id = c; event_id = e; watermark = w } ∷ []),
          mem_str-append i (ids_in d rows)
              (ids_in d (record { context_id = c; event_id = e; watermark = w } ∷ [])),
        )
        (ground arith)
]

-- after the statements of a commit
run_all-seen :
    (c d w i : String) (events : List (String × String)) (t t' : SyncTables)
    → run_all (statements c w events) t ≡ ok t'
    → seen_at i d t' ≡ ((str_eq c d && mem_str i (map (λ e. e.0) events)) || seen_at i d t)
run_all-seen c d w i [] t t' h = ground arith
run_all-seen c d w i (e ∷ es) t t' h =
    run_all-seen c d w i es (record t { events = insert_ignored c e t.events }) t' h
    ∙ rw (insert_ignored-seen c d i e t.events) (ground arith)

abbrev watermark_of : String → Result SyncTables → Option String
watermark_of d (ok t) = watermark_in d t.states
watermark_of d (err e) = none

run_all-watermark :
    (c d w : String) (events : List (String × String)) (t t' : SyncTables)
    → run_all (statements c w events) t ≡ ok t'
    → watermark_in d t'.states ≡ (if str_eq c d then some w else watermark_in d t.states)
run_all-watermark c d w [] t t' h = sym (ap (watermark_of d) h) ∙ watermark_in-upsert c d w t.states
run_all-watermark c d w (e ∷ es) t t' h =
    run_all-watermark c d w es (record t { events = insert_ignored c e t.events }) t' h

-- After a commit that returned, the context's watermark is the committed one and its ids are the old
-- ones with those of the events; every other context loads as before.
pub load-commit :
    (faults : Faults) (c d w i : String) (events : List (String × String)) (t : SyncTables)
    → (commit faults c w events t).0 ≡ ok tt
    → let t' = (commit faults c w events t).1 in
      let ids = ids_in d t'.events in
      ((load d t').0 ≡ ok ((if str_eq c d then some w else watermark_in d t.states), ids))
      × (mem_str i ids
          ≡ ((str_eq c d && mem_str i (map (λ e. e.0) events)) || mem_str i (ids_in d t.events)))
unfolding commit load
load-commit faults c d w i events t h =
    let done = transaction-committed faults (statements c w events) t h in
    let t' = (transaction faults (statements c w events) t).1 in
    (
      ap (λ (o : Option String). ok (o, ids_in d t'.events))
          (run_all-watermark c d w events t t' done),
      run_all-seen c d w i events t t' done,
    )

-- A commit that raises, at whichever statement, leaves both tables as they were.
pub commit-rollback :
    (faults : Faults) (c w : String) (events : List (String × String)) (t : SyncTables) (e : Error)
    → (commit faults c w events t).0 ≡ err e
    → (commit faults c w events t).1 ≡ t
unfolding commit
commit-rollback faults c w events t e h = transaction-rollback faults (statements c w events) t e h
