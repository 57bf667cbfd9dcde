-- ===== src/Lease/Order.antt =====
-- First come, first served within a class.
use face_identify.Prelude.{
  ℕ, ◌+◌, ◌≡◌, refl, some, List, [], ◌∷◌, ◌++◌, arith, ◌==◌, All, inl, inr, Bool-cases,
}
use face_identify.Lease.{interactive, background, done, WorkerLease, remove, new_lease, pop_left}
use face_identify.Lease.System.{
  System, Event, request, wake, interrupt, finish, shut, step, run, start, run-cons,
}
use face_identify.Lease.Tickets.{Rising, Rising-join, Rising-later, remove_head}
use face_identify.Lease.Invariant.{IsSound, step-IsSound, popleft_own, next-is_ticket}

-- Each ticket of `xs` before `ys`, the first of `xs` the latest.
abbrev pub oldest_first : List ℕ → List ℕ → List ℕ
oldest_first [] ys = ys
oldest_first (x ∷ xs) ys = oldest_first xs (x ∷ ys)

-- The first list is the second with some tickets left out.
data Sub : List ℕ → List ℕ → Type 0 where
  whole : {xs : List ℕ} → Sub xs xs
  cons : {xs ys : List ℕ} (x : ℕ) → Sub xs ys → Sub (x ∷ xs) (x ∷ ys)
  skip : {xs ys : List ℕ} (x : ℕ) → Sub xs ys → Sub xs (x ∷ ys)

Sub-remove : (t : ℕ) (xs : List ℕ) → Sub (remove t xs) xs
unfolding remove
Sub-remove t [] = whole
Sub-remove t (x ∷ xs) = elim (Bool-cases (x == t)) [
  | inl e ↦ rw e (skip x whole)
  | inr e ↦ rw e (cons x (Sub-remove t xs))
]

All-Sub : (P : ℕ → Type 0) {xs ys : List ℕ} → Sub xs ys → All P ys → All P xs
All-Sub P whole h = h
All-Sub P (cons x s) h = (h.0, All-Sub P s h.1)
All-Sub P (skip x s) h = All-Sub P s h.1

Rising-Sub : (n : ℕ) {xs ys : List ℕ} → Sub xs ys → Rising n ys → Rising n xs
Rising-Sub n whole h = h
Rising-Sub n (cons x s) h = (h.0, All-Sub _ s h.1, Rising-Sub n s h.2)
Rising-Sub n (skip x s) h = Rising-Sub n s h.2

Sub-oldest_first :
    (xs : List ℕ) {ys zs : List ℕ} → Sub ys zs → Sub (oldest_first xs ys) (oldest_first xs zs)
Sub-oldest_first [] s = s
Sub-oldest_first (x ∷ xs) s = Sub-oldest_first xs (cons x s)

oldest_first-join :
    (n : ℕ) (xs ys : List ℕ) → oldest_first xs (ys ++ n ∷ []) ≡ oldest_first xs ys ++ n ∷ []
oldest_first-join n [] ys = refl
oldest_first-join n (x ∷ xs) ys = oldest_first-join n xs (x ∷ ys)

oldest_first_join :
    (n : ℕ) (xs ys : List ℕ)
    → Rising n (oldest_first xs ys)
    → Rising (n + 1) (oldest_first xs (ys ++ n ∷ []))
oldest_first_join n xs ys h = rw oldest_first-join (Rising-join n (oldest_first xs ys) h)

oldest_first-remove :
    (n t : ℕ) (xs ys : List ℕ)
    → Rising n (oldest_first xs ys)
    → Rising n (oldest_first xs (remove t ys))
oldest_first-remove n t xs ys h = Rising-Sub n (Sub-oldest_first xs (Sub-remove t ys)) h

oldest_first_grant :
    (t n : ℕ) (xs ys zs : List ℕ)
    → ys ≡ t ∷ zs
    → Rising n (oldest_first xs ys)
    → Rising n (oldest_first (t ∷ xs) zs)
oldest_first_grant t n xs ys zs e h = rw e at h

pub record InOrder (s : System) : Type 0 where
  pub interactive_order : Rising s.fresh (oldest_first s.interactive_served s.interactive_waiters)
  pub background_order : Rising s.fresh (oldest_first s.background_served s.background_waiters)

step-InOrder : {s s' : System} (e : Event) → IsSound s → InOrder s → step s e ≡ some s' → InOrder s'
unfolding step
step-InOrder {s} (request interactive) h o p = ground (
  arith,
  oldest_first_join s.fresh s.interactive_served s.interactive_waiters,
  Rising-later s.fresh (oldest_first s.background_served s.background_waiters),
)
step-InOrder {s} (request background) h o p = ground (
  arith,
  oldest_first_join s.fresh s.background_served s.background_waiters,
  Rising-later s.fresh (oldest_first s.interactive_served s.interactive_waiters),
)
step-InOrder {s} (wake interactive t) h o p =
    let ws = s.interactive_waiters in
    ground (
      arith,
      popleft_own interactive t h,
      next-is_ticket s.lease t,
      remove_head t (pop_left ws),
      oldest_first_grant t s.fresh s.interactive_served ws (remove t ws),
      oldest_first-remove s.fresh t s.interactive_served ws,
    )
step-InOrder {s} (wake background t) h o p =
    let ws = s.background_waiters in
    ground (
      arith,
      popleft_own background t h,
      next-is_ticket s.lease t,
      remove_head t (pop_left ws),
      oldest_first_grant t s.fresh s.background_served ws (remove t ws),
      oldest_first-remove s.fresh t s.background_served ws,
    )
step-InOrder {s} (interrupt interactive t) h o p =
    ground (arith, oldest_first-remove s.fresh t s.interactive_served s.interactive_waiters)
step-InOrder {s} (interrupt background t) h o p =
    ground (arith, oldest_first-remove s.fresh t s.background_served s.background_waiters)
step-InOrder (finish t) h o p = ground arith
step-InOrder shut h o p = ground arith

run-InOrder :
    (s s' : System) (es : List Event) → IsSound s → InOrder s → run s es ≡ some s' → InOrder s'
unfolding run
run-InOrder s s' [] h o p = ground arith
run-InOrder s s' (e ∷ es) h o p =
    let (m, q, r) = run-cons s s' e es p in
    run-InOrder m s' es (step-IsSound e h q) (step-InOrder e h o q) r

-- First come, first served: after any interleaving from a new lease, the tickets granted so far
-- in a class, in the order of the grants, and after them the tickets still waiting in that class,
-- are strictly increasing, which is the order in which their threads joined.
pub run-start-InOrder :
    (burst : ℕ) (es : List Event) {l : WorkerLease} {s : System}
    → new_lease burst ≡ done l
    → run (start l) es ≡ some s
    → InOrder s
unfolding new_lease
run-start-InOrder burst es {l} {s} n p = run-InOrder (start l) s es (ground arith) (ground arith) p
