-- ===== src/Lease/Invariant.antt =====
-- What holds of the lease and its threads between two critical sections.
use face_identify.Prelude.{ℕ, ◌≡◌, true, some, List, [], ◌∷◌, arith, if◌then◌else◌, length}
use face_identify.Lease.{
  RequestClass, interactive, background, done, WorkerLease, new_lease, waiting, pop_left, next,
  is_ticket,
}
use face_identify.Lease.System.{
  System, Event, request, wake, interrupt, finish, shut, step, run, start, contains, waiters,
  run-cons,
}
use face_identify.Lease.Tickets.{
  Rising, Apart, Rising-join, Rising-later, Apart-join_left, Apart-join_right, Rising-remove,
  Apart-remove_left, Apart-remove_right, Apart-head, Apart-head_right, remove_head, length-remove,
}

pub record IsSound (s : System) : Type 0 where
  pub interactive_queued : s.lease.interactive_queue ≡ s.interactive_waiters
  pub background_queued : s.lease.background_queue ≡ s.background_waiters
  pub interactive_rising : Rising s.fresh s.interactive_waiters
  pub background_rising : Rising s.fresh s.background_waiters
  pub apart : Apart s.interactive_waiters s.background_waiters
  pub one_holder : length s.holders ≡ (if s.lease.held then 1 else 0)

-- The ticket that `popleft` takes is the ticket of the thread that was woken.
popleft_interactive :
    (l : WorkerLease) (t : ℕ) (xs ys : List ℕ)
    → Apart xs ys
    → contains t xs ≡ true
    → next (record l { interactive_queue = xs; background_queue = ys }) ≡ some t
    → xs ≡ t ∷ pop_left xs
unfolding next
popleft_interactive l t [] ys a c n = cc
popleft_interactive l t (x ∷ xs) [] a c n = ground arith
popleft_interactive l t (x ∷ xs) (y ∷ ys) a c n = ground (arith, Apart-head_right t (x ∷ xs) ys)

popleft_background :
    (l : WorkerLease) (t : ℕ) (xs ys : List ℕ)
    → Apart xs ys
    → contains t ys ≡ true
    → next (record l { interactive_queue = xs; background_queue = ys }) ≡ some t
    → ys ≡ t ∷ pop_left ys
unfolding next
popleft_background l t xs [] a c n = cc
popleft_background l t [] (y ∷ ys) a c n = ground arith
popleft_background l t (x ∷ xs) (y ∷ ys) a c n = ground (arith, Apart-head t xs (y ∷ ys))

pub popleft_own :
    {s : System} (cls : RequestClass) (t : ℕ)
    → IsSound s
    → contains t (waiters s cls) ≡ true
    → next s.lease ≡ some t
    → waiting s.lease cls ≡ t ∷ pop_left (waiting s.lease cls)
popleft_own {s} interactive t h c n =
    let l = s.lease in
    ground (arith, popleft_interactive l t l.interactive_queue l.background_queue)
popleft_own {s} background t h c n =
    let l = s.lease in ground (arith, popleft_background l t l.interactive_queue l.background_queue)

pub next-is_ticket : (l : WorkerLease) (t : ℕ) → is_ticket (next l) t ≡ true → next l ≡ some t
next-is_ticket l t e = ground arith

pub step-IsSound : {s s' : System} (e : Event) → IsSound s → step s e ≡ some s' → IsSound s'
unfolding step
step-IsSound {s} (request interactive) h p = ground (
  arith,
  Rising-join s.fresh s.interactive_waiters,
  Rising-later s.fresh s.background_waiters,
  Apart-join_left s.fresh s.interactive_waiters s.background_waiters,
)
step-IsSound {s} (request background) h p = ground (
  arith,
  Rising-join s.fresh s.background_waiters,
  Rising-later s.fresh s.interactive_waiters,
  Apart-join_right s.fresh s.interactive_waiters s.background_waiters,
)
step-IsSound {s} (wake interactive t) h p = ground (
  arith,
  popleft_own interactive t h,
  next-is_ticket s.lease t,
  remove_head t (pop_left s.interactive_waiters),
  Rising-remove s.fresh t s.interactive_waiters,
  Apart-remove_left t s.interactive_waiters s.background_waiters,
)
step-IsSound {s} (wake background t) h p = ground (
  arith,
  popleft_own background t h,
  next-is_ticket s.lease t,
  remove_head t (pop_left s.background_waiters),
  Rising-remove s.fresh t s.background_waiters,
  Apart-remove_right t s.interactive_waiters s.background_waiters,
)
step-IsSound {s} (interrupt interactive t) h p = ground (
  arith,
  Rising-remove s.fresh t s.interactive_waiters,
  Apart-remove_left t s.interactive_waiters s.background_waiters,
)
step-IsSound {s} (interrupt background t) h p = ground (
  arith,
  Rising-remove s.fresh t s.background_waiters,
  Apart-remove_right t s.interactive_waiters s.background_waiters,
)
step-IsSound {s} (finish t) h p = ground (arith, length-remove t s.holders)
step-IsSound shut h p = ground arith

pub run-IsSound : (s s' : System) (es : List Event) → IsSound s → run s es ≡ some s' → IsSound s'
unfolding run
run-IsSound s s' [] h p = ground arith
run-IsSound s s' (e ∷ es) h p =
    let (m, q, r) = run-cons s s' e es p in run-IsSound m s' es (step-IsSound e h q) r

-- From a new lease of any burst, after any interleaving of callers: at most one thread runs the
-- body of `held`, and one does exactly when `_held` is set; each deque holds the tickets of the
-- threads waiting in its class, in the order of their arrival; no ticket stands in both.
pub run-start-IsSound :
    (burst : ℕ) (es : List Event) {l : WorkerLease} {s : System}
    → new_lease burst ≡ done l
    → run (start l) es ≡ some s
    → IsSound s
unfolding new_lease
run-start-IsSound burst es {l} {s} n p = run-IsSound (start l) s es (ground arith) p
