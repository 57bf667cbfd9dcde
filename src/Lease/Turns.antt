-- ===== src/Lease/Turns.antt =====
-- Whose turn it is: a granted turn, the turn of a waiting thread, and what is granted after `close`.
use face_identify.Prelude.{
  ℕ, ◌+◌, ◌≤◌, ◌≡◌, refl, ◌≢◌, true, false, some, List, [], ◌∷◌, ◌++◌, arith, ltb, length, inl, inr,
  Bool-cases,
}
use face_identify.Lease.{RequestClass, interactive, background, may_wake, resume, waiting}
use face_identify.Lease.System.{
  System, Event, request, wake, interrupt, finish, shut, step, run, contains, waiters, run-cons,
  woken,
}
use face_identify.Lease.Tickets.{length-remove, contains-Apart}
use face_identify.Lease.Invariant.{IsSound, popleft_own, next-is_ticket}

-- A wake of an open lease grants the worker to the woken thread alone, and takes this thread's
-- ticket, and no other, from the front of the deque of its class.
pub wake_takes_own :
    {s s' : System} (cls : RequestClass) (t : ℕ)
    → IsSound s
    → s.lease.closed ≡ false
    → step s (wake cls t) ≡ some s'
    → (s.holders ≡ [])
      × (s'.holders ≡ t ∷ [])
      × (s'.lease.held ≡ true)
      × (waiting s.lease cls ≡ t ∷ waiting s'.lease cls)
unfolding step
wake_takes_own {s} interactive t h o p =
    ground (arith, popleft_own interactive t h, next-is_ticket s.lease t)
wake_takes_own {s} background t h o p =
    ground (arith, popleft_own background t h, next-is_ticket s.lease t)

abbrev pub CanGo : System → RequestClass → ℕ → Type 0
CanGo s cls t = (s' : System) × (step s (wake cls t) ≡ some s')

can_go :
    (s : System) (cls : RequestClass) (t : ℕ)
    → contains t (waiters s cls) ≡ true
    → may_wake s.lease t ≡ true
    → CanGo s cls t
unfolding step
can_go s cls t c m = (woken s cls t (resume s.lease cls t).0 (resume s.lease cls t).1, ground arith)

front_goes :
    (s : System) (xs ys : List ℕ)
    → IsSound s
    → s.lease.held ≡ false
    → s.interactive_waiters ≡ xs
    → s.background_waiters ≡ ys
    → xs ++ ys ≢ []
    → (cls : RequestClass) × (t : ℕ) × CanGo s cls t
unfolding may_wake
front_goes s [] [] h e p q n = absurd (n refl)
front_goes s (x ∷ xs) [] h e p q n =
    (interactive, x, can_go s interactive x (ground arith) (ground arith))
front_goes s [] (y ∷ ys) h e p q n =
    (background, y, can_go s background y (ground arith) (ground arith))
front_goes s (x ∷ xs) (y ∷ ys) h e p q n = elim (Bool-cases (ltb s.lease.streak s.lease.burst)) [
  | inl lead ↦ (interactive, x, can_go s interactive x (ground arith) (ground arith))
  | inr full ↦ (background, y, can_go s background y (ground arith) (ground arith))
]

-- While no thread holds the worker, `may_wake` lets one of the waiting threads, if there are any, go
-- on.
pub idle_serves :
    (s : System)
    → IsSound s
    → s.holders ≡ []
    → s.interactive_waiters ++ s.background_waiters ≢ []
    → (cls : RequestClass) × (t : ℕ) × CanGo s cls t
idle_serves s h e n =
    front_goes s s.interactive_waiters s.background_waiters h (ground arith) refl refl n

-- At most one thread can be granted an open worker at any moment, whichever of the waiting threads
-- the condition variable wakes first.
pub one_can_go :
    {s u v : System} (c d : RequestClass) (t r : ℕ)
    → IsSound s
    → s.lease.closed ≡ false
    → step s (wake c t) ≡ some u
    → step s (wake d r) ≡ some v
    → (t ≡ r) × (u ≡ v)
unfolding step
one_can_go {s} interactive interactive t r h o p q = ground arith
one_can_go {s} background background t r h o p q = ground arith
one_can_go {s} interactive background t r h o p q =
    ground (arith, contains-Apart t s.interactive_waiters s.background_waiters)
one_can_go {s} background interactive t r h o p q =
    ground (arith, contains-Apart t s.interactive_waiters s.background_waiters)

-- the tickets granted so far, in both classes
abbrev pub grants : System → ℕ
grants s = length s.interactive_served + length s.background_served

closed_step :
    (s s' : System) (e : Event)
    → s.lease.closed ≡ true
    → step s e ≡ some s'
    → (s'.lease.closed ≡ true)
      × (grants s' ≡ grants s)
      × (length s'.interactive_waiters + length s'.background_waiters
          ≤ length s.interactive_waiters + length s.background_waiters)
unfolding step
closed_step s s' (request interactive) o p = ground arith
closed_step s s' (request background) o p = ground arith
closed_step s s' (wake interactive t) o p = ground (arith, length-remove t s.interactive_waiters)
closed_step s s' (wake background t) o p = ground (arith, length-remove t s.background_waiters)
closed_step s s' (interrupt interactive t) o p =
    ground (arith, length-remove t s.interactive_waiters)
closed_step s s' (interrupt background t) o p = ground (arith, length-remove t s.background_waiters)
closed_step s s' (finish t) o p = ground arith
closed_step s s' shut o p = ground arith

-- Once closed, the lease stays closed: whatever threads do, none is granted the worker any more,
-- and the number of waiting threads does not grow.
pub closed_grants_nothing :
    (s s' : System) (es : List Event)
    → s.lease.closed ≡ true
    → run s es ≡ some s'
    → (s'.lease.closed ≡ true)
      × (grants s' ≡ grants s)
      × (length s'.interactive_waiters + length s'.background_waiters
          ≤ length s.interactive_waiters + length s.background_waiters)
unfolding run
closed_grants_nothing s s' [] o p = ground arith
closed_grants_nothing s s' (e ∷ es) o p =
    let (m, q, r) = run-cons s s' e es p in
    let a = closed_step s m e o q in let b = closed_grants_nothing m s' es a.0 r in ground arith
