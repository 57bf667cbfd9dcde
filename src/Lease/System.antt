-- ===== src/Lease/System.antt =====
-- backend/ml/supervisor/lease.py: the threads that call `held` and `close`, as interleavings.
-- A thread waits in `wait_for` or runs the body of the `with` block; every event is one thread's
-- next critical section. Tickets are numbered in the order in which threads join a queue.
use face_identify.Prelude.{
  ℕ, ◌+◌, ◌≡◌, arith, Bool, false, ◌&&◌, ◌||◌, Option, none, some, List, [], ◌∷◌, ◌++◌, ◌==◌,
  if◌then◌else◌,
}
use face_identify.Lease.{
  RequestClass, interactive, background, Outcome, done, raised, WorkerLease, close, join, may_wake,
  remove, give_up, resume, leave,
}

pub record System : Type 0 where
  pub lease : WorkerLease
  pub interactive_waiters : List ℕ  -- the tickets of the threads inside `wait_for`
  pub background_waiters : List ℕ
  pub holders : List ℕ  -- the tickets of the threads inside the body of `held`
  pub fresh : ℕ  -- the next ticket
  pub interactive_served : List ℕ  -- the tickets granted so far, the latest first
  pub background_served : List ℕ

abbrev pub waiters : System → RequestClass → List ℕ
waiters s interactive = s.interactive_waiters
waiters s background = s.background_waiters

abbrev pub set_waiters : System → RequestClass → List ℕ → System
set_waiters s interactive ts = record s { interactive_waiters = ts }
set_waiters s background ts = record s { background_waiters = ts }

abbrev pub serve : System → RequestClass → ℕ → System
serve s interactive t = record s { interactive_served = t ∷ s.interactive_served }
serve s background t = record s { background_served = t ∷ s.background_served }

abbrev pub contains : ℕ → List ℕ → Bool
contains t [] = false
contains t (x ∷ xs) = t == x || contains t xs

pub data Event : Type 0 where
  -- a thread enters `held`
  request : RequestClass → Event
  -- `wait_for` of the thread with this ticket returns
  wake : RequestClass → ℕ → Event
  -- the wait of the thread with this ticket ends by an exception
  interrupt : RequestClass → ℕ → Event
  -- the body of the thread with this ticket ends
  finish : ℕ → Event
  -- `close`
  shut : Event

-- A thread that may not join raises at once and is gone.
pub joined : System → RequestClass → Outcome WorkerLease → System
joined s cls (raised e) = s
joined s cls (done l) =
    set_waiters (record s { lease = l; fresh = s.fresh + 1 }) cls (waiters s cls ++ s.fresh ∷ [])

pub woken : System → RequestClass → ℕ → WorkerLease → Outcome (Unit {0}) → System
unfolding remove
woken s cls t l (raised e) = set_waiters (record s { lease = l }) cls (remove t (waiters s cls))
woken s cls t l (done _) =
    set_waiters (serve (record s { lease = l; holders = t ∷ s.holders }) cls t) cls
      (remove t (waiters s cls))

-- One event; `none` where no thread can do it.
unfoldable pub step : System → Event → Option System
unfolding joined woken join resume may_wake leave close give_up remove
step s (request cls) = some (joined s cls (join s.lease cls s.fresh))
step s (wake cls t) =
    let (l, r) = resume s.lease cls t in
    if contains t (waiters s cls) && may_wake s.lease t then some (woken s cls t l r) else none
step s (interrupt cls t) =
    if contains t (waiters s cls)
    then some
        (set_waiters (record s { lease = give_up s.lease cls t }) cls (remove t (waiters s cls)))
    else none
step s (finish t) =
    if contains t s.holders
    then some (record s { lease = leave s.lease; holders = remove t s.holders })
    else none
step s shut = some (record s { lease = close s.lease })

-- A whole interleaving.
unfoldable pub run : System → List Event → Option System
run s [] = some s
run s (e ∷ es) = elim (step s e) [ none ↦ none | some s' ↦ run s' es ]

-- No thread has come yet.
abbrev pub start : WorkerLease → System
start l = record {
  lease = l;
  interactive_waiters = [];
  background_waiters = [];
  holders = [];
  fresh = 0;
  interactive_served = [];
  background_served = [];
}

-- A run of several events is a step and a run of the rest.
pub run-cons :
    (s s' : System) (e : Event) (es : List Event)
    → run s (e ∷ es) ≡ some s'
    → (m : System) × (step s e ≡ some m) × (run m es ≡ some s')
unfolding run
run-cons s s' e es h = ground arith
