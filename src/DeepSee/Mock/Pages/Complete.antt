-- ===== src/DeepSee/Mock/Pages/Complete.antt =====
-- The synchronizer's paging loop against the pages of the mock.
use contextql_server.Prelude.{
  ℕ, zero, suc, ◌+◌, ◌*◌, ◌≤◌, ◌<◌, String, true, false, Option, none, some, List, [], ◌++◌,
  append_assoc, length, take, drop, ltb, min, ◌≡◌, refl, ap, ◌∙◌, arith, Bool-cases, inl, inr,
  take-length, drop-take-append,
}
use contextql_server.Prelude.Int.{ℤ, pos, ltb_ℤ}
use contextql_server.Errors.{Result, ok}
use contextql_server.Errors.Exec.{Exec, pure, go_on}
use contextql_server.DeepSee.Decimal.{int_of_text, str_of_ℤ}
use contextql_server.DeepSee.Decimal.RoundTrip.{int_of_text-str_of_ℤ}
use contextql_server.DeepSee.Models.{ChangeEvent, ChangeBatch, Stamp}
use contextql_server.DeepSee.Client.{DeepSeeClient, Service, fetch_changes}
use contextql_server.DeepSee.Client.Calls.{fetch_changes-ok}
use contextql_server.DeepSee.Mock.{MockService, enter_call, admit, watermark, data_as_of}
use contextql_server.DeepSee.Mock.Pages.{
  offset_of, page_of, next_of, changes, delivered, change_page, pending_since, batch_of,
}
use contextql_server.DeepSee.Mock.Bench.{Bench, mock}
use contextql_server.DeepSee.Sync.{fetch_pages}

-- No failure is queued, and no credential is asked for; the client resolves none and accepts any age.
abbrev pub IsQuiet : DeepSeeClient → Bench → Type 0
IsQuiet c b =
    (b.service.failures ≡ [])
    × (b.service.require_auth ≡ false)
    × (c.credential_reference ≡ none)
    × (c.max_data_age ≡ none)

abbrev pub counted : Bench → Bench
counted b = record b { service = record b.service { call_count = b.service.call_count + 1 } }

-- one call that is admitted
changes-admitted :
    (since : String) (cursor t : Option String) (m : MockService)
    → m.failures ≡ []
    → m.require_auth ≡ false
    → changes since cursor t m
      ≡ (batch_of m since cursor, record m { call_count = m.call_count + 1 })
unfolding changes enter_call admit batch_of pending_since delivered watermark data_as_of offset_of
changes-admitted since cursor t m f a = rw (f, a) refl

-- the offset that the cursor of a page carries
CursorAt : Option String → ℕ → Type 0
CursorAt cursor n = offset_of cursor ≡ ok (pos n)

next_cursor-CursorAt : (n : ℕ) → CursorAt (some (str_of_ℤ (pos n))) n
unfolding CursorAt offset_of
next_cursor-CursorAt n = rw (int_of_text-str_of_ℤ n, offset_of) refl

-- the pages that are left, times the size of one
abbrev budget : ℕ → ℕ → ℕ
budget size zero = 0
budget size (suc left) = size + budget size left

budget-mul : (size left : ℕ) → budget size left ≡ left * size
budget-mul size zero = omega arith
budget-mul size (suc left) = grind (arith, budget-mul size left)

page_last :
    (n k : ℕ) (xs : List ChangeEvent)
    → n ≤ length xs
    → length xs ≤ n + k
    → page_of (pos n) k xs ≡ drop n xs
page_last n k xs h l =
    let a : min n (length xs) ≡ n = omega arith in
    let b : min (n + k) (length xs) ≡ length xs = omega arith in rw (a, b, take-length xs) refl

page_more :
    (n k : ℕ) (xs : List ChangeEvent)
    → n + k < length xs
    → page_of (pos n) k xs ≡ drop n (take (n + k) xs)
page_more n k xs l =
    let a : min n (length xs) ≡ n = omega arith in
    let b : min (n + k) (length xs) ≡ n + k = omega arith in rw (a, b) refl

-- one turn of the paging loop, by how the page ends
module _ {W : Type 0} (c : DeepSeeClient) (s : Service W) (left : ℕ) (since : String)
    (cursor : Option String) (events : List ChangeEvent) (w w' : W) (batch : ChangeBatch)
    (fetched : fetch_changes c s since cursor w ≡ (ok batch, w')) where
  after : ChangeBatch → Exec W (List ChangeEvent × Stamp)
  after batch = elim batch.next_cursor [
    | none ↦ pure (events ++ batch.events, batch.data_as_of)
    | some next ↦ fetch_pages c s left since (some next) (events ++ batch.events)
  ]

  turn : fetch_pages c s (suc left) since cursor events w ≡ after batch w'
  unfolding fetch_pages after
  turn = ap (λ (x : Result ChangeBatch × W). go_on x.0 after x.1) fetched

  turn_last :
      batch.next_cursor ≡ none
      → fetch_pages c s (suc left) since cursor events w
        ≡ (ok (events ++ batch.events, batch.data_as_of), w')
  unfolding after
  turn_last e = turn ∙ rw (e, after) refl

  turn_more :
      (next : String)
      → batch.next_cursor ≡ some next
      → fetch_pages c s (suc left) since cursor events w
        ≡ fetch_pages c s left since (some next) (events ++ batch.events) w'
  unfolding after
  turn_more next e = turn ∙ rw (e, after) refl

-- What the mock would deliver, in pages of one size, and the age that it reports: these are as
-- before after a call.
abbrev Delivers : ℤ → List ChangeEvent → ℕ → Stamp → MockService → Type 0
Delivers z all size as_of m =
    ((pending : List ChangeEvent) × (pending_since m z ≡ ok pending) × (delivered m pending ≡ all))
    × (m.page_size ≡ size)
    × (data_as_of m ≡ as_of)

counted-Delivers :
    (z : ℤ) (all : List ChangeEvent) (size : ℕ) (as_of : Stamp) (b : Bench)
    → Delivers z all size as_of b.service
    → Delivers z all size as_of (counted b).service
unfolding pending_since delivered data_as_of
counted-Delivers z all size as_of b h = h

next_last : (n k len : ℕ) → ltb (n + k) len ≡ false → next_of (pos n) k len ≡ none
next_last n k len h = let e : ltb_ℤ (pos (n + k)) (pos len) ≡ false = ground arith in rw e refl

next_more :
    (n k len : ℕ) → ltb (n + k) len ≡ true → next_of (pos n) k len ≡ some (str_of_ℤ (pos (n + k)))
next_more n k len h = let e : ltb_ℤ (pos (n + k)) (pos len) ≡ true = ground arith in rw e refl

some_left_lem : (size left n len : ℕ) → n + size < len → len ≤ n + budget size (suc left) → 0 < left
some_left_lem size zero n len h k = absurd (omega arith)
some_left_lem size (suc left) n len h k = omega arith

module _ (serialize : List ℕ → List ℕ) (c : DeepSeeClient) where
  mock-changes :
      (since : String) (cursor t : Option String) (b : Bench)
      → b.service.failures ≡ []
      → b.service.require_auth ≡ false
      → (mock serialize).changes since cursor t b ≡ (batch_of b.service since cursor, counted b)
  unfolding mock
  mock-changes since cursor t b f a =
      let one = changes-admitted since cursor t b.service f a in
      λ i. ((one i).0, record b { service = (one i).1 })

  fetch_changes-quiet :
      (since : String) (cursor : Option String) (b : Bench) (batch : ChangeBatch)
      → IsQuiet c b
      → batch_of b.service since cursor ≡ ok batch
      → fetch_changes c (mock serialize) since cursor b ≡ (ok batch, counted b)
  fetch_changes-quiet since cursor b batch q h =
      fetch_changes-ok c (mock serialize) since cursor b (counted b) batch q.2 q.3 (
        mock-changes since cursor none b q.0 q.1
        ∙ ap (λ (r : Result ChangeBatch). (r, counted b)) h)

  batch_of-page :
      (since : String) (cursor : Option String) (m : MockService) (z : ℤ) (n : ℕ)
      (pending : List ChangeEvent)
      → int_of_text since ≡ some z
      → pending_since m z ≡ ok pending
      → CursorAt cursor n
      → batch_of m since cursor ≡ ok (change_page m (delivered m pending) (pos n))
  unfolding batch_of CursorAt
  batch_of-page since cursor m z n pending s p o = rw (s, p, o) refl

  module _ (since : String) (z : ℤ) (all : List ChangeEvent) (size : ℕ) (as_of : Stamp)
      (reads : int_of_text since ≡ some z) where
    fetch_page :
        (n : ℕ) (cursor : Option String) (b : Bench)
        → IsQuiet c b
        → Delivers z all size as_of b.service
        → CursorAt cursor n
        → (batch : ChangeBatch) × (fetch_changes c (mock serialize) since cursor b
            ≡ (ok batch, counted b))
          × (batch.events ≡ page_of (pos n) size all)
          × (batch.data_as_of ≡ as_of)
          × (batch.next_cursor ≡ next_of (pos n) size (length all))
    fetch_page n cursor b q d o =
        let m = b.service in
        let batch = change_page m (delivered m d.0.0) (pos n) in
        (
          batch,
          fetch_changes-quiet since cursor b batch q
              (batch_of-page since cursor m z n d.0.0 reads d.0.1 o),
          rw (d.0.2, d.1) refl,
          d.2,
          rw (d.0.2, d.1) refl,
        )

    pages :
        (left n : ℕ) (cursor : Option String) (events : List ChangeEvent) (b : Bench)
        → IsQuiet c b
        → Delivers z all size as_of b.service
        → CursorAt cursor n
        → n ≤ length all
        → length all ≤ n + budget size left
        → 0 < left
        → (fetch_pages c (mock serialize) left since cursor events b).0
          ≡ ok (events ++ drop n all, as_of)
    pages zero n cursor events b q d o low high some_left = absurd (omega arith)
    pages (suc left) n cursor events b q d o low high some_left =
        let page = fetch_page n cursor b q d o in
        elim (Bool-cases (ltb (n + size) (length all))) [
          | inr last ↦
              let stops : page.0.next_cursor ≡ none = page.4 ∙ next_last n size (length all) last in
              ap (λ (x : Result (List ChangeEvent × Stamp) × Bench). x.0)
                (turn_last c (mock serialize) left since cursor events b (counted b) page.0 page.1
                  stops)
              ∙ rw (page.2, page.3, page_last n size all low (ground arith)) refl
          | inl more ↦
              let there : n + size < length all = ground arith in
              let text = str_of_ℤ (pos (n + size)) in
              let goes_on : page.0.next_cursor ≡ some text =
                page.4 ∙ next_more n size (length all) more in
              ap (λ (x : Result (List ChangeEvent × Stamp) × Bench). x.0)
                (turn_more c (mock serialize) left since cursor events b (counted b) page.0 page.1
                  text goes_on)
              ∙ pages left (n + size) (some text) (events ++ page.0.events) (counted b) q
                  (counted-Delivers z all size as_of b d) (next_cursor-CursorAt (n + size))
                  (omega arith) (omega (arith, high))
                  (some_left_lem size left n (length all) there high)
              ∙ rw (page.2, page_more n size all there, append_assoc)
                  (rw (drop-take-append n size all) refl)
        ]

    -- The paging loop of the synchronizer against the mock, where no failure is queued and the client
    -- asks for no credential and no age: if what the mock has to deliver fits on the pages that are
    -- left, the loop ends and returns it all, each event once for each time it is delivered and in
    -- that order, with the age that the mock reports.
    pub fetch_pages-Delivers :
        (left : ℕ) (b : Bench)
        → IsQuiet c b
        → Delivers z all size as_of b.service
        → length all ≤ left * size
        → 0 < left
        → (fetch_pages c (mock serialize) left since none [] b).0 ≡ ok (all, as_of)
    unfolding CursorAt offset_of
    fetch_pages-Delivers left b q d fits some_left =
        pages left 0 none [] b q d refl (omega arith) (omega (arith, fits, budget-mul size left))
          some_left
