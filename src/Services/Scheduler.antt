-- ===== src/Services/Scheduler.antt =====
-- app/services/refresh_scheduler.py, its `tick` and `_refresh`; Threads has the thread that calls
-- `tick` again and again. Times are in ten-thousandths of a second: the jitter of an interval is a
-- whole number of them. The engine, the clock and the audit log act on a world.
pub mod Timing
pub mod Threads
use contextql_server.Prelude.{
  ℕ, ◌+◌, ◌*◌, ◌%◌, ◌-◌, ⊤, String, Bool, not, ◌&&◌, ◌||◌, Option, none, some, List, [], ◌∷◌,
  str_eq, ltb, leb, or_else, if◌then◌else◌, take, filter, ◌==◌,
}
use contextql_server.Prelude.Dict.{mem_str}
use contextql_server.Errors.{Error, value_error, Result, ok, err}
use contextql_server.Errors.Exec.{Exec, pure, ◌>>=◌, ◌>>◌}
use contextql_server.Services.Audit.{Event, text, event}
use contextql_server.DeepSee.Decimal.{codes}
use Prim.Native.String.{◌++◌ as text_append}

-- What is read of a catalog entry.
pub record Scheduled : Type 0 where
  pub context_id : String
  pub qualified_name : String
  pub namespace : String
  pub materialized : Bool
  pub refresh_mode : String
  pub refresh_interval : Option String

-- What the scheduler calls: `engine._catalog.list_contexts`, `engine.execute`,
-- `ddl.record_refresh_failure`, `audit.log` where there is an audit service, `monotonic`, and
-- `parse_duration_seconds`.
pub record Engine (W : Type 0) : Type 0 where
  pub list_contexts : W → List Scheduled
  pub execute : String → Exec W ⊤
  pub record_refresh_failure : String → Error → Exec W ⊤
  pub log : Option (Event → Exec W ⊤)
  pub monotonic : W → ℕ
  pub parse_duration_seconds : Option String → Option ℕ

-- `_next_due`, the contexts whose locks are held, and the world.
pub record Scheduler (W : Type 0) : Type 0 where
  pub world : W
  pub next_due : List (String × ℕ)
  pub held : List String

abbrev pub due_of : String → List (String × ℕ) → Option ℕ
due_of k [] = none
due_of k ((j, v) ∷ d) = if str_eq k j then some v else due_of k d

abbrev pub set_due : String → ℕ → List (String × ℕ) → List (String × ℕ)
set_due k v [] = (k, v) ∷ []
set_due k v ((j, w) ∷ d) = if str_eq k j then (k, v) ∷ d else (j, w) ∷ set_due k v d

-- A hexadecimal digit, of either case.
abbrev pub hex_digit : ℕ → Option ℕ
hex_digit c =
    if leb 48 c && leb c 57
    then some (c - 48)
    else if leb 97 c && leb c 102
    then some (c - 87)
    else if leb 65 c && leb c 70
    then some (c - 55)
    else none

hex_from : ℕ → List ℕ → Option ℕ
hex_from n [] = some n
hex_from n (c ∷ cs) = elim (hex_digit c) [ none ↦ none | some d ↦ hex_from (n * 16 + d) cs ]

hex_of : List ℕ → Option ℕ
unfolding hex_from
hex_of [] = none
hex_of (c ∷ cs) = hex_from 0 (c ∷ cs)

abbrev pub thousandth : Option ℕ → Option ℕ
thousandth none = none
thousandth (some n) = some (n % 1000)

-- `int(context_id.replace("-", "")[:4], 16) % 1000`; a context id is a UUID, and of another id all
-- but hexadecimal digits are an error
unfoldable pub spread : String → Option ℕ
unfolding hex_of
spread context_id = thousandth (hex_of (take 4 (filter (λ c. not (c == 45)) (codes context_id))))

-- `current + interval + jitter`
abbrev pub due_after : ℕ → ℕ → ℕ → ℕ
due_after current interval part = current + interval * 10_000 + interval * part

module _ {W : Type 0} (s : Engine W) where
  abbrev pub log_event : Event → Exec W ⊤
  log_event e = elim s.log [ none ↦ pure tt | some log ↦ log e ]

  abbrev pub succeeded : Scheduled → Event
  succeeded e =
      event "context.refresh.succeeded" "context" e.qualified_name e.namespace
        (some (("context_id", text e.context_id) ∷ []))

  -- `str(exc)` is left out of the detail
  abbrev pub failed : Scheduled → Event
  failed e =
      event "context.refresh.failed" "context" e.qualified_name e.namespace
        (some (("context_id", text e.context_id) ∷ []))

  abbrev pub refresh_text : Scheduled → String
  refresh_text e = text_append "REFRESH CONTEXT " (text_append e.qualified_name ";")

  -- the `except` of `_refresh`
  recover : Scheduled → Result ⊤ → Exec W ⊤
  recover e (ok u) w = (ok tt, w)
  recover e (err x) w = (s.record_refresh_failure e.qualified_name x >> log_event (failed e)) w

  unfoldable pub refresh : Scheduled → Exec W ⊤
  unfolding recover
  refresh e w =
      let (r, w') = (s.execute (refresh_text e) >> log_event (succeeded e)) w in recover e r w'

  -- The `finally`: the lock is released, then the next time is computed, and an error there takes
  -- the place of the refresh's.
  finish :
      Scheduled
      → ℕ
      → ℕ
      → List String
      → List (String × ℕ)
      → Option ℕ
      → Result ⊤ × W
      → Result ⊤ × Scheduler W
  finish e current interval held due none (r, w) = (
    err (value_error "invalid literal for int()"),
    record { world = w; next_due = due; held = held },
  )
  finish e current interval held due (some part) (r, w) = (
    r,
    record {
      world = w;
      next_due = set_due e.context_id (due_after current interval part) due;
      held = held;
    },
  )

  attempt : Scheduled → ℕ → ℕ → Exec (Scheduler W) ⊤
  unfolding refresh finish spread
  attempt e current interval n =
      if ltb current (or_else (due_of e.context_id n.next_due) current)
      then (ok tt, n)
      else if mem_str e.context_id n.held
      then (ok tt, n)
      else finish e current interval n.held n.next_due (spread e.context_id) (refresh e n.world)

  tick_interval : Scheduled → ℕ → Option ℕ → Exec (Scheduler W) ⊤
  unfolding attempt
  tick_interval e current none n = (ok tt, n)
  tick_interval e current (some interval) n = attempt e current interval n

  -- the body of the loop
  unfoldable pub tick_one : ℕ → Scheduled → Exec (Scheduler W) ⊤
  unfolding tick_interval
  tick_one current e n =
      if not e.materialized || not (str_eq e.refresh_mode "scheduled")
      then (ok tt, n)
      else tick_interval e current (s.parse_duration_seconds e.refresh_interval) n

  unfoldable pub tick_all : ℕ → List Scheduled → Exec (Scheduler W) ⊤
  unfolding tick_one
  tick_all current [] = pure tt
  tick_all current (e ∷ es) = tick_one current e >> tick_all current es

  unfoldable pub tick : Exec (Scheduler W) ⊤
  unfolding tick_all
  tick n = tick_all (s.monotonic n.world) (s.list_contexts n.world) n
