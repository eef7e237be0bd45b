-- ===== src/Services/Scheduler/Timing.antt =====
-- When a tick refreshes a context, and what a failing refresh does to the tick.
use Prim.Native.String.{◌++◌ as text_append}
use contextql_server.Prelude.{
  ℕ, ◌+◌, ◌*◌, ◌≤◌, ◌<◌, ⊤, String, true, false, not, ◌||◌, Option, none, some, List, [], ◌∷◌,
  str_eq, eq_iff, eq_refl, ltb, or_else, if◌then◌else◌, ◌≡◌, ◌≢◌, refl, ◌∙◌, arith, Bool-cases, inl,
  inr, is_some, All, ap, ◌⊎◌,
}
use native.Mathlib.Nat.{mul-le-mul_left}
use contextql_server.Prelude.Dict.{mem_str}
use contextql_server.Errors.{Error, Result, ok, err, Result-cases, returned, raised}
use contextql_server.Errors.Exec.{◌>>◌}
use contextql_server.Services.Audit.{Event}
use contextql_server.Services.Scheduler.{
  Scheduled, Engine, Scheduler, due_of, set_due, thousandth, spread, due_after, log_event,
  succeeded, failed, refresh_text, recover, refresh, finish, attempt, tick_interval, tick_one,
  tick_all,
}

due_of-set_due :
    (j k : String) (v : ℕ) (d : List (String × ℕ))
    → due_of j (set_due k v d) ≡ (if str_eq j k then some v else due_of j d)
due_of-set_due j k v [] = refl
due_of-set_due j k v (e ∷ d) =
    ground (arith, due_of-set_due j k v d, eq_iff j k, eq_iff k e.0, eq_iff j e.0)

thousandth-lt : (o : Option ℕ) (part : ℕ) → thousandth o ≡ some part → part < 1000
thousandth-lt none part h = absurd (ground arith)
thousandth-lt (some n) part h = ground arith

spread-lt : (id : String) (part : ℕ) → spread id ≡ some part → part < 1000
unfolding spread
spread-lt id part h = thousandth-lt _ part h

module _ {W : Type 0} (s : Engine W)
    (records : (name : String) (x : Error) (w : W) → (s.record_refresh_failure name x w).0 ≡ ok tt)
    (logs : (e : Event) (w : W) → (log_event s e w).0 ≡ ok tt) where
  recover-returns : (e : Scheduled) (r : Result ⊤) (w : W) → (recover s e r w).0 ≡ ok tt
  unfolding recover
  recover-returns e (ok u) w = refl
  recover-returns e (err x) w =
      rw (records e.qualified_name x w)
        (logs (failed s e) (s.record_refresh_failure e.qualified_name x w).1)

  refresh-returns : (e : Scheduled) (w : W) → (refresh s e w).0 ≡ ok tt
  unfolding refresh
  refresh-returns e w =
      recover-returns e ((s.execute (refresh_text s e) >> log_event s (succeeded s e)) w).0
        ((s.execute (refresh_text s e) >> log_event s (succeeded s e)) w).1

  finish-returns :
      (e : Scheduled) (current interval : ℕ) (held : List String) (due : List (String × ℕ))
      (o : Option ℕ) (x : Result ⊤ × W)
      → is_some o ≡ true
      → x.0 ≡ ok tt
      → (finish s e current interval held due o x).0 ≡ ok tt
  unfolding finish
  finish-returns e current interval held due none x h k = absurd (ground arith)
  finish-returns e current interval held due (some part) x h k = k

  attempt-returns :
      (current interval : ℕ) (e : Scheduled) (n : Scheduler W)
      → is_some (spread e.context_id) ≡ true
      → (attempt s e current interval n).0 ≡ ok tt
  unfolding attempt
  attempt-returns current interval e n h =
      let done =
        finish-returns e current interval n.held n.next_due (spread e.context_id)
          (refresh s e n.world) h (refresh-returns e n.world) in
      elim (Bool-cases (ltb current (or_else (due_of e.context_id n.next_due) current))) [
        | inl early ↦ rw early refl
        | inr due ↦ elim (Bool-cases (mem_str e.context_id n.held)) [
          | inl locked ↦ rw (due, locked) refl
          | inr free ↦ rw (due, free) done
        ]
      ]

  tick_interval-returns :
      (current : ℕ) (e : Scheduled) (o : Option ℕ) (n : Scheduler W)
      → is_some (spread e.context_id) ≡ true
      → (tick_interval s e current o n).0 ≡ ok tt
  unfolding tick_interval
  tick_interval-returns current e none n h = refl
  tick_interval-returns current e (some interval) n h = attempt-returns current interval e n h

  -- every step of a tick returns, where the id is one of a UUID
  tick_one-returns :
      (current : ℕ) (e : Scheduled) (n : Scheduler W)
      → is_some (spread e.context_id) ≡ true
      → (tick_one s current e n).0 ≡ ok tt
  unfolding tick_one
  tick_one-returns current e n h =
      elim (Bool-cases (not e.materialized || not (str_eq e.refresh_mode "scheduled"))) [
        | inl skips ↦ rw skips refl
        | inr looks ↦
            rw looks
              (tick_interval-returns current e (s.parse_duration_seconds e.refresh_interval) n h)
      ]

  -- Where recording a failure and logging an event do not raise, and the ids are UUIDs: a tick
  -- returns and goes over all contexts, whichever of their refreshes raise.
  pub tick_all-returns :
      (current : ℕ) (es : List Scheduled) (n : Scheduler W)
      → All (λ e. is_some (spread e.context_id) ≡ true) es
      → (tick_all s current es n).0 ≡ ok tt
  unfolding tick_all
  tick_all-returns current [] n h = refl
  tick_all-returns current (e ∷ es) n h =
      rw (tick_one-returns current e n h.0)
        (tick_all-returns current es (tick_one s current e n).1 h.1)

-- A context that the scheduler looks after, and the length of its interval.
abbrev pub HasInterval : {W : Type 0} → Engine W → Scheduled → ℕ → Type 0
HasInterval s e interval =
    (e.materialized ≡ true)
    × (str_eq e.refresh_mode "scheduled" ≡ true)
    × (s.parse_duration_seconds e.refresh_interval ≡ some interval)

module _ {W : Type 0} (s : Engine W) where
  tick_one-attempt :
      (current interval : ℕ) (e : Scheduled) (n : Scheduler W)
      → HasInterval s e interval
      → tick_one s current e n ≡ attempt s e current interval n
  unfolding tick_one
  tick_one-attempt current interval e n h = rw (h.0, h.1, h.2) refl

  -- The engine is sent the statement once. Where it takes it and the success is logged, that is all;
  -- an error of either is recorded for the context, and then a failure is logged.
  abbrev pub IsRefreshed : Scheduled → W → W → Type 0
  IsRefreshed e w w' =
      let x = s.execute (text_append "REFRESH CONTEXT " (text_append e.qualified_name ";")) w in
      let y = log_event s (succeeded s e) x.1 in
      ((x.0 ≡ ok tt) × (y.0 ≡ ok tt) × (w' ≡ y.1))
      ⊎ ((z : Error) × (w1 : W) × ((x ≡ (err z, w1)) ⊎ ((x.0 ≡ ok tt) × (y ≡ (err z, w1))))
          × (w' ≡ ((s.record_refresh_failure e.qualified_name z >> log_event s (failed s e)) w1).1))

  refresh-IsRefreshed : (e : Scheduled) (w : W) → IsRefreshed e w (refresh s e w).1
  unfolding refresh recover
  refresh-IsRefreshed e w =
      let x = s.execute (refresh_text s e) w in
      elim (Result-cases x.0) [
        | raised z r ↦ rw r (inr (z, x.1, inl refl, refl))
        | returned u r ↦
            let y = log_event s (succeeded s e) x.1 in
            elim (Result-cases y.0) [
              | raised z r' ↦
                  rw (r, r') (inr (z, y.1, inr (refl, ap (λ (q : Result ⊤). (q, y.1)) r'), refl))
              | returned v r' ↦ rw (r, r') (inl (refl, refl, refl))
            ]
      ]

  attempt-early :
      (current interval due : ℕ) (e : Scheduled) (n : Scheduler W)
      → due_of e.context_id n.next_due ≡ some due
      → current < due
      → attempt s e current interval n ≡ (ok tt, n)
  unfolding attempt
  attempt-early current interval due e n d b = rw d (ground arith)

  attempt-due :
      (current interval part : ℕ) (e : Scheduled) (n : Scheduler W)
      → ltb current (or_else (due_of e.context_id n.next_due) current) ≡ false
      → mem_str e.context_id n.held ≡ false
      → spread e.context_id ≡ some part
      → attempt s e current interval n ≡ (
        (refresh s e n.world).0,
        record {
          world = (refresh s e n.world).1;
          next_due = set_due e.context_id (due_after current interval part) n.next_due;
          held = n.held;
        },
      )
  unfolding attempt finish
  attempt-due current interval part e n d free p = rw (d, free, p) refl

  -- A context that is due and not locked is refreshed once, and a failure is recorded; either way its
  -- next time is then the stored one, which lies one interval ahead and at most a tenth of it later,
  -- by the part of the interval that its id gives; at every time before that, it is left alone; and
  -- the times of the other contexts and the held locks are as before.
  pub tick_one-schedules :
      (current interval part : ℕ) (e : Scheduled) (n : Scheduler W)
      → HasInterval s e interval
      → ltb current (or_else (due_of e.context_id n.next_due) current) ≡ false
      → mem_str e.context_id n.held ≡ false
      → spread e.context_id ≡ some part
      → let (r, n') = tick_one s current e n in
        IsRefreshed e n.world n'.world
        × ((due : ℕ) × (due_of e.context_id n'.next_due ≡ some due)
            × (due ≡ current + interval * 10_000 + interval * part)
            × (current + interval * 10_000 ≤ due)
            × (due ≤ current + interval * 11_000)
            × ((later : ℕ) → later < due → tick_one s later e n' ≡ (ok tt, n')))
        × ((id : String) → id ≢ e.context_id → due_of id n'.next_due ≡ due_of id n.next_due)
        × (n'.held ≡ n.held)
  tick_one-schedules current interval part e n h d free p =
      let step =
        tick_one-attempt current interval e n h ∙ attempt-due current interval part e n d free p in
      let due = due_after current interval part in
      let stored : due_of e.context_id (set_due e.context_id due n.next_due) ≡ some due =
        due_of-set_due e.context_id e.context_id due n.next_due ∙ rw (eq_refl e.context_id) refl in
      rw step (
        refresh-IsRefreshed e n.world,
        (
          due,
          stored,
          refl,
          omega arith,
          let tenth : part ≤ 1000 = (let x = spread-lt e.context_id part p in omega arith) in
              omega (arith, mul-le-mul_left interval tenth),
          λ later b.
              tick_one-attempt later interval e _ h ∙ attempt-early later interval due e _ stored b,
        ),
        λ id other.
            due_of-set_due id e.context_id _ n.next_due ∙ ground (arith, eq_iff id e.context_id),
        refl,
      )
