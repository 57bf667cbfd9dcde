-- ===== src/Lease.antt =====
-- backend/ml/supervisor/lease.py: `WorkerLease`, who uses the one perception worker next.
-- A critical section under the condition variable is one function of the lease. A ticket, a fresh
-- `object()` in the source, is a number. `wait_for` lets a waiter go on when `may_wake` holds; it
-- tests this when it begins and after each `notify_all`, and `notices` counts those.
-- `System` (Lease/System.antt) adds the threads between their critical sections.
pub mod System
pub mod Tickets
pub mod Invariant
pub mod Turns
pub mod Watched
pub mod Wakeups
pub mod Fairness
pub mod Order
mod Examples
use face_identify.Prelude.{
  ℕ, ◌+◌, Bool, true, false, not, ◌&&◌, ◌||◌, Option, none, some, List, [], ◌∷◌, ◌++◌, ltb, ◌==◌,
  if◌then◌else◌, length, head?,
}

-- The class of a request: `cls` of `held`, which is `is_interactive()`.
pub data RequestClass : Type 0 where
  interactive background : RequestClass

-- The exceptions of this file, and `IndexError` of `background[0]` on an empty deque.
pub data LeaseError : Type 0 where
  value_error worker_closed index_error : LeaseError

pub data Outcome {ℓ} (A : Type ℓ) : Type ℓ where
  done : A → Outcome A
  raised : LeaseError → Outcome A

pub record WorkerLease : Type 0 where
  pub burst : ℕ
  pub held : Bool
  pub closed : Bool
  pub interactive_queue : List ℕ  -- `_waiting[True]`
  pub background_queue : List ℕ  -- `_waiting[False]`
  pub streak : ℕ  -- interactive grants since the last background one
  pub notices : ℕ  -- the calls of `notify_all` on the condition so far

-- `BURST`.
abbrev pub default_burst : ℕ
default_burst = 3

-- `__init__`.
unfoldable pub new_lease : ℕ → Outcome WorkerLease
new_lease burst =
    if ltb burst 1
    then raised value_error
    else done (record {
      burst = burst;
      held = false;
      closed = false;
      interactive_queue = [];
      background_queue = [];
      streak = 0;
      notices = 0;
    })

-- `self._waiting[cls]`.
abbrev pub waiting : WorkerLease → RequestClass → List ℕ
waiting s interactive = s.interactive_queue
waiting s background = s.background_queue

abbrev pub set_waiting : WorkerLease → RequestClass → List ℕ → WorkerLease
set_waiting s interactive q = record s { interactive_queue = q }
set_waiting s background q = record s { background_queue = q }

unfoldable pub queued : WorkerLease → RequestClass → ℕ
queued s cls = length (waiting s cls)

unfoldable pub close : WorkerLease → WorkerLease
close s = record s { closed = true; notices = s.notices + 1 }

abbrev pub is_empty : List ℕ → Bool
is_empty [] = true
is_empty (x ∷ xs) = false

-- What `wait_until_idle` waits for.
unfoldable pub is_idle : WorkerLease → Bool
is_idle s = not s.held

-- `_next`: the ticket to serve next, `none` where `background[0]` raises `IndexError`.
unfoldable pub next : WorkerLease → Option ℕ
next s =
    if not (is_empty s.interactive_queue) && (is_empty s.background_queue || ltb s.streak s.burst)
    then head? s.interactive_queue
    else head? s.background_queue

abbrev pub is_ticket : Option ℕ → ℕ → Bool
is_ticket none ticket = false
is_ticket (some t) ticket = t == ticket

-- The predicate that `held` waits for.
unfoldable pub may_wake : WorkerLease → ℕ → Bool
unfolding next
may_wake s ticket = s.closed || (not s.held && is_ticket (next s) ticket)

-- `deque.remove`: the first occurrence (absent, Python raises; `held` removes its own ticket only).
unfoldable pub remove : ℕ → List ℕ → List ℕ
remove t [] = []
remove t (x ∷ xs) = let rest = remove t xs in if x == t then xs else x ∷ rest

abbrev pub pop_left : List ℕ → List ℕ
pop_left [] = []
pop_left (x ∷ xs) = xs

-- `held` up to the wait: refuse when closed, else join the queue of the class.
unfoldable pub join : WorkerLease → RequestClass → ℕ → Outcome WorkerLease
join s cls ticket =
    if s.closed
    then raised worker_closed
    else done (set_waiting s cls (waiting s cls ++ ticket ∷ []))

-- The `except BaseException` of `held`: the ticket leaves its queue, and the others are notified.
unfoldable pub give_up : WorkerLease → RequestClass → ℕ → WorkerLease
unfolding remove
give_up s cls ticket =
    set_waiting (record s { notices = s.notices + 1 }) cls (remove ticket (waiting s cls))

-- `self._streak + 1 if cls else 0`.
abbrev pub streak_after : RequestClass → ℕ → ℕ
streak_after interactive n = n + 1
streak_after background n = 0

-- `held` after `wait_for` returned: closed while waiting, or granted.
unfoldable pub resume : WorkerLease → RequestClass → ℕ → WorkerLease × Outcome (Unit {0})
unfolding give_up
resume s cls ticket = if s.closed then (give_up s cls ticket, raised worker_closed) else (
  record (set_waiting s cls (pop_left (waiting s cls))) {
    held = true;
    streak = streak_after cls s.streak;
  },
  done tt,
)

-- The `finally` of `held`.
unfoldable pub leave : WorkerLease → WorkerLease
leave s = record s { held = false; notices = s.notices + 1 }
