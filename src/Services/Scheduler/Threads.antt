-- ===== src/Services/Scheduler/Threads.antt =====
-- refresh_scheduler.py: `start`, `stop` and the thread's `_run`. A thread waits for the stop event,
-- runs a tick or has ended; the scheduler holds the newest of those that it started. A call of `start`
-- or of `stop` is one step here: the code takes no lock, so two threads that call `start` at one time
-- are not modelled.
use contextql_server.Prelude.{
  ℕ, suc, ◌+◌, ◌≤◌, Bool, true, false, List, [], ◌∷◌, count, ◌≡◌, ◌⊎◌, inl, inr, refl, arith, All,
  if◌then◌else◌,
}

pub data Phase : Type 0 where
  waiting ticking ended : Phase

-- `_stop`, and the threads, the newest first: `_thread` is the first
pub record Threads : Type 0 where
  pub stop_set : Bool
  pub threads : List Phase

abbrev pub is_alive : Phase → Bool
is_alive ended = false
is_alive _ = true

-- `self._thread is not None and self._thread.is_alive()`
abbrev pub has_live : List Phase → Bool
has_live [] = false
has_live (p ∷ ps) = is_alive p

unfoldable pub start : Threads → Threads
start s =
    if has_live s.threads then s else record { stop_set = false; threads = waiting ∷ s.threads }

-- `stop` up to the join; that the thread ends in time is for the thread
unfoldable pub stop : Threads → Threads
stop s = record s { stop_set = true }

-- What a thread does: `while not self._stop.wait(self.poll_seconds): self.tick()`. A tick that raises
-- ends the thread.
pub data Moves (stop_set : Bool) : Phase → Phase → Type 0 where
  stopped : stop_set ≡ true → Moves stop_set waiting ended
  timed_out : stop_set ≡ false → Moves stop_set waiting ticking
  returned : Moves stop_set ticking waiting
  raised : Moves stop_set ticking ended

-- One of the threads moves.
pub data MovesOne (stop_set : Bool) : List Phase → List Phase → Type 0 where
  newest :
      {p q : Phase} (ps : List Phase) → Moves stop_set p q → MovesOne stop_set (p ∷ ps) (q ∷ ps)
  older :
      (p : Phase) {ps qs : List Phase}
      → MovesOne stop_set ps qs
      → MovesOne stop_set (p ∷ ps) (p ∷ qs)

pub data Step : Threads → Threads → Type 0 where
  calls_start : (s : Threads) → Step s (start s)
  calls_stop : (s : Threads) → Step s (stop s)
  runs :
      (s : Threads) {ps : List Phase}
      → MovesOne s.stop_set s.threads ps
      → Step s (record s { threads = ps })

abbrev pub created : Threads
created = record { stop_set = false; threads = [] }

pub data Reach : Threads → Type 0 where
  start_up : Reach created
  next : {s t : Threads} → Reach s → Step s t → Reach t

-- all but the newest have ended
abbrev OldEnded : List Phase → Type 0
OldEnded [] = Unit
OldEnded (p ∷ ps) = All (λ q. is_alive q ≡ false) ps

no_move : {b : Bool} {ps qs : List Phase} → All (λ q. is_alive q ≡ false) ps → MovesOne b ps qs → ⊥
no_move h (newest ps (stopped e)) = cc (h.0)
no_move h (newest ps (timed_out e)) = cc (h.0)
no_move h (newest ps returned) = cc (h.0)
no_move h (newest ps raised) = cc (h.0)
no_move h (older p m) = no_move h.1 m

MovesOne-OldEnded : {b : Bool} {ps qs : List Phase} → MovesOne b ps qs → OldEnded ps → OldEnded qs
MovesOne-OldEnded (newest ps m) h = h
MovesOne-OldEnded (older p m) h = absurd (no_move h m)

start-OldEnded :
    (b : Bool) (ps : List Phase)
    → OldEnded ps
    → OldEnded (start (record { stop_set = b; threads = ps })).threads
unfolding start
start-OldEnded b [] h = tt
start-OldEnded b (ended ∷ ps) h = (refl, h)
start-OldEnded b (waiting ∷ ps) h = h
start-OldEnded b (ticking ∷ ps) h = h

Step-OldEnded : {s t : Threads} → Step s t → OldEnded s.threads → OldEnded t.threads
Step-OldEnded (calls_start s) h = start-OldEnded s.stop_set s.threads h
Step-OldEnded (calls_stop s) h = unfold stop in h
Step-OldEnded (runs s m) h = MovesOne-OldEnded m h

Reach-OldEnded : {s : Threads} → Reach s → OldEnded s.threads
Reach-OldEnded start_up = tt
Reach-OldEnded (next r step) = Step-OldEnded step (Reach-OldEnded r)

count-ended : (ps : List Phase) → All (λ q. is_alive q ≡ false) ps → count is_alive ps ≡ 0
count-ended [] h = refl
count-ended (p ∷ ps) h = rw h.0 (count-ended ps h.1)

count-alive : (ps : List Phase) → OldEnded ps → count is_alive ps ≤ 1
count-alive [] h = omega arith
count-alive (p ∷ ps) h = ground (arith, count-ended ps h)

-- However calls of start and stop, each of them one step, and the moves of the threads are
-- interleaved, at most one thread is alive: two ticks never run at once.
pub Reach-one_alive : (s : Threads) → Reach s → count is_alive s.threads ≤ 1
Reach-one_alive s r = count-alive s.threads (Reach-OldEnded r)

-- Moves of the threads one after the other, while nobody calls `start` or `stop`.
pub data MovesFor (stop_set : Bool) : ℕ → List Phase → List Phase → Type 0 where
  none_left : (ps : List Phase) → MovesFor stop_set 0 ps ps
  one_more :
      {n : ℕ} {ps qs rs : List Phase}
      → MovesOne stop_set ps qs
      → MovesFor stop_set n qs rs
      → MovesFor stop_set (suc n) ps rs

-- how many moves are left to a thread that is to stop
abbrev rank : Phase → ℕ
rank ticking = 2
rank waiting = 1
rank ended = 0

abbrev ranks : List Phase → ℕ
ranks [] = 0
ranks (p ∷ ps) = rank p + ranks ps

Moves-rank : {p q : Phase} → Moves true p q → rank q + 1 ≤ rank p
Moves-rank (stopped e) = omega arith
Moves-rank (timed_out e) = absurd (cc)
Moves-rank returned = omega arith
Moves-rank raised = omega arith

MovesOne-ranks : {ps qs : List Phase} → MovesOne true ps qs → ranks qs + 1 ≤ ranks ps
MovesOne-ranks (newest ps m) = omega (arith, Moves-rank m)
MovesOne-ranks (older p m) = omega (arith, MovesOne-ranks m)

MovesFor-ranks : {n : ℕ} {ps qs : List Phase} → MovesFor true n ps qs → n ≤ ranks ps
MovesFor-ranks (none_left ps) = omega arith
MovesFor-ranks (one_more m rest) = omega (arith, MovesOne-ranks m, MovesFor-ranks rest)

ranks-ended : (ps : List Phase) → All (λ q. is_alive q ≡ false) ps → ranks ps ≡ 0
ranks-ended [] h = refl
ranks-ended (ended ∷ ps) h = omega (arith, ranks-ended ps h.1)
ranks-ended (waiting ∷ ps) h = absurd (let x = h.0 in ground arith)
ranks-ended (ticking ∷ ps) h = absurd (let x = h.0 in ground arith)

ranks-OldEnded : (ps : List Phase) → OldEnded ps → ranks ps ≤ 2
ranks-OldEnded [] h = omega arith
ranks-OldEnded (ended ∷ ps) h = omega (arith, ranks-ended ps h)
ranks-OldEnded (waiting ∷ ps) h = omega (arith, ranks-ended ps h)
ranks-OldEnded (ticking ∷ ps) h = omega (arith, ranks-ended ps h)

-- a thread that is alive has a move, once it is to stop
can_move : (ps : List Phase) → (count is_alive ps ≡ 0) ⊎ ((qs : List Phase) × MovesOne true ps qs)
can_move [] = inl refl
can_move (waiting ∷ ps) = inr (ended ∷ ps, newest ps (stopped refl))
can_move (ticking ∷ ps) = inr (waiting ∷ ps, newest ps returned)
can_move (ended ∷ ps) = elim (can_move ps) [
  | inl none ↦ inl none
  | inr (qs, m) ↦ inr (ended ∷ qs, older ended m)
]

-- After a stop that no start follows, the threads make at most two moves more (the end of the tick
-- that is under way, and the end of the loop), and as long as one of them is alive, one can move: so
-- the loop ends.
pub stop-MovesFor :
    (s : Threads) (n : ℕ) (ps : List Phase)
    → Reach s
    → MovesFor (stop s).stop_set n (stop s).threads ps
    → (n ≤ 2) × ((count is_alive ps ≡ 0) ⊎ ((qs : List Phase) × MovesOne (stop s).stop_set ps qs))
unfolding stop
stop-MovesFor s n ps r m =
    (omega (arith, MovesFor-ranks m, ranks-OldEnded s.threads (Reach-OldEnded r)), can_move ps)
