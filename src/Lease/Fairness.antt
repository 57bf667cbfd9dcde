-- ===== src/Lease/Fairness.antt =====
-- How long a background request can be passed over.
use face_identify.Prelude.{
  ℕ, suc, ◌+◌, ◌-◌, ◌*◌, ◌≤◌, ◌<◌, ◌≡◌, refl, ◌≢◌, true, false, some, List, [], ◌∷◌, ◌++◌, arith,
  ◌==◌, if◌then◌else◌, All, inl, inr, Bool-cases,
}
use face_identify.Lease.{interactive, background, WorkerLease, remove, pop_left, next}
use face_identify.Lease.System.{
  System, Event, request, wake, interrupt, finish, shut, step, run, contains, run-cons,
}
use face_identify.Lease.Tickets.{Rising, Apart, Apart-head_right, remove_head, All-contains}
use face_identify.Lease.Invariant.{IsSound, step-IsSound, popleft_own, next-is_ticket}
use face_identify.Lease.Turns.{grants}

-- How many tickets stand before `t`.
abbrev pub ahead : ℕ → List ℕ → ℕ
ahead t [] = 0
ahead t (x ∷ xs) = let rest = ahead t xs in if x == t then 0 else suc rest

-- How many grants can still come before the waiting background ticket `t` is granted.
abbrev pub potential : System → ℕ → ℕ
potential s t =
    ahead t s.background_waiters * (s.lease.burst + 1) + (s.lease.burst - s.lease.streak)

ahead-join : (t n : ℕ) (xs : List ℕ) → contains t xs ≡ true → ahead t (xs ++ n ∷ []) ≡ ahead t xs
ahead-join t n [] c = cc
ahead-join t n (x ∷ xs) c = ground (arith, ahead-join t n xs)

ahead-remove-le : (t u : ℕ) (xs : List ℕ) → t ≢ u → ahead t (remove u xs) ≤ ahead t xs
unfolding remove
ahead-remove-le t u [] n = omega arith
ahead-remove-le t u (x ∷ xs) n = ground (arith, ahead-remove-le t u xs)

All-gt : (x : ℕ) (xs : List ℕ) → All (λ y. x < y) xs → All (λ y. x ≢ y) xs
All-gt x [] h = tt
All-gt x (y ∷ ys) h = (omega arith, All-gt x ys h.1)

contains-remove_self : (n t : ℕ) (xs : List ℕ) → Rising n xs → contains t (remove t xs) ≡ false
unfolding remove
contains-remove_self n t [] r = refl
contains-remove_self n t (x ∷ xs) r =
    ground (arith, contains-remove_self n t xs, All-contains x xs, All-gt x xs)

contains-remove : (t u : ℕ) (xs : List ℕ) → contains t (remove u xs) ≡ true → contains t xs ≡ true
unfolding remove
contains-remove t u [] c = c
contains-remove t u (x ∷ xs) c = ground (arith, contains-remove t u xs)

contains-join : (t n : ℕ) (xs : List ℕ) → t < n → contains t (xs ++ n ∷ []) ≡ contains t xs
contains-join t n [] l = ground arith
contains-join t n (x ∷ xs) l = ground (arith, contains-join t n xs)

contains-lt : (t n : ℕ) (xs : List ℕ) → Rising n xs → contains t xs ≡ true → t < n
contains-lt t n [] r c = cc
contains-lt t n (x ∷ xs) r c = ground (arith, contains-lt t n xs)

-- An interactive thread goes before a waiting background one only below the burst.
next_lead :
    (l : WorkerLease) (t u : ℕ) (xs ys : List ℕ)
    → Apart xs ys
    → contains u xs ≡ true
    → contains t ys ≡ true
    → next (record l { interactive_queue = xs; background_queue = ys }) ≡ some u
    → l.streak < l.burst
unfolding next
next_lead l t u [] ys a c d n = cc
next_lead l t u (x ∷ xs) [] a c d n = cc
next_lead l t u (x ∷ xs) (y ∷ ys) a c d n = ground (arith, Apart-head_right u (x ∷ xs) ys)

ahead_front :
    (t u n : ℕ) (ys : List ℕ)
    → Rising n (u ∷ ys)
    → contains t ys ≡ true
    → ahead t (u ∷ ys) ≡ suc (ahead t ys)
ahead_front t u n ys r c = ground (arith, All-contains u ys, All-gt u ys)

leaves_room : (a b k d : ℕ) → a ≤ b → a * k + d ≤ b * k + d
leaves_room a b k d h = grind arith

front_cost : (a b k : ℕ) → a ≡ suc b → a * k ≡ b * k + k
front_cost a b k h = rw h (omega arith)

background_granted :
    (s s' : System) (u : ℕ)
    → IsSound s
    → s.lease.closed ≡ false
    → step s (wake background u) ≡ some s'
    → (s.background_waiters ≡ u ∷ s'.background_waiters)
      × (s'.lease.streak ≡ 0)
      × (s'.lease.burst ≡ s.lease.burst)
      × (grants s' ≡ grants s + 1)
unfolding step
background_granted s s' u h o p = ground (
  arith,
  popleft_own background u h,
  next-is_ticket s.lease u,
  remove_head u (pop_left s.background_waiters),
)

granted_potential :
    (s s' : System) (u t : ℕ)
    → IsSound s
    → s.lease.closed ≡ false
    → step s (wake background u) ≡ some s'
    → contains t s.background_waiters ≡ true
    → contains t s'.background_waiters ≡ true
    → (grants s' + potential s' t ≤ grants s + potential s t) × (s'.lease.burst ≡ s.lease.burst)
granted_potential s s' u t h o p c d =
    let (q, z, b, g) = background_granted s s' u h o p in
    let front = ahead_front t u s.fresh s'.background_waiters (rw q at h.background_rising) d in
    let cost =
      front_cost (ahead t s.background_waiters) (ahead t s'.background_waiters) (s.lease.burst + 1)
        (rw q front) in
    (rw (z, b) (omega arith), b)

refused_potential :
    (s s' : System) (u t : ℕ)
    → IsSound s
    → s.lease.closed ≡ true
    → step s (wake background u) ≡ some s'
    → contains t s.background_waiters ≡ true
    → contains t s'.background_waiters ≡ true
    → (grants s' + potential s' t ≤ grants s + potential s t) × (s'.lease.burst ≡ s.lease.burst)
unfolding step
refused_potential s s' u t h o p c d =
    let rest = remove u s.background_waiters in
    let b = s.lease.burst in
    ground (
      arith,
      ahead-remove-le t u s.background_waiters,
      contains-remove_self s.fresh t s.background_waiters,
      leaves_room (ahead t rest) (ahead t s.background_waiters) (b + 1) (b - s.lease.streak),
    )

-- One step uses up the potential by the grants that it makes, as long as `t` waits.
step-potential :
    (s s' : System) (e : Event) (t : ℕ)
    → IsSound s
    → step s e ≡ some s'
    → contains t s.background_waiters ≡ true
    → contains t s'.background_waiters ≡ true
    → (grants s' + potential s' t ≤ grants s + potential s t) × (s'.lease.burst ≡ s.lease.burst)
unfolding step
step-potential s s' (request interactive) t h p c d = ground arith
step-potential s s' (request background) t h p c d =
    ground (arith, ahead-join t s.fresh s.background_waiters)
step-potential s s' (wake interactive u) t h p c d = ground (
  arith,
  next_lead s.lease t u s.lease.interactive_queue s.lease.background_queue,
  next-is_ticket s.lease u,
)
step-potential s s' (wake background u) t h p c d = elim (Bool-cases s.lease.closed) [
  | inl o ↦ refused_potential s s' u t h o p c d
  | inr o ↦ granted_potential s s' u t h o p c d
]
step-potential s s' (interrupt interactive u) t h p c d = ground arith
step-potential s s' (interrupt background u) t h p c d =
    let rest = remove u s.background_waiters in
    let b = s.lease.burst in
    ground (
      arith,
      ahead-remove-le t u s.background_waiters,
      contains-remove_self s.fresh t s.background_waiters,
      leaves_room (ahead t rest) (ahead t s.background_waiters) (b + 1) (b - s.lease.streak),
    )
step-potential s s' (finish u) t h p c d = ground arith
step-potential s s' shut t h p c d = ground arith

-- A ticket that waits after a step, and is not new, waited before it.
step_waited :
    (s s' : System) (e : Event) (t : ℕ)
    → step s e ≡ some s'
    → t < s.fresh
    → contains t s'.background_waiters ≡ true
    → contains t s.background_waiters ≡ true
unfolding step
step_waited s s' (request interactive) t p l d = ground arith
step_waited s s' (request background) t p l d =
    ground (arith, contains-join t s.fresh s.background_waiters)
step_waited s s' (wake interactive u) t p l d = ground arith
step_waited s s' (wake background u) t p l d =
    ground (arith, contains-remove t u s.background_waiters)
step_waited s s' (interrupt interactive u) t p l d = ground arith
step_waited s s' (interrupt background u) t p l d =
    ground (arith, contains-remove t u s.background_waiters)
step_waited s s' (finish u) t p l d = ground arith
step_waited s s' shut t p l d = ground arith

step_fresh : (s s' : System) (e : Event) (t : ℕ) → step s e ≡ some s' → t < s.fresh → t < s'.fresh
unfolding step
step_fresh s s' (request interactive) t p l = ground arith
step_fresh s s' (request background) t p l = ground arith
step_fresh s s' (wake interactive u) t p l = ground arith
step_fresh s s' (wake background u) t p l = ground arith
step_fresh s s' (interrupt interactive u) t p l = ground arith
step_fresh s s' (interrupt background u) t p l = ground arith
step_fresh s s' (finish u) t p l = ground arith
step_fresh s s' shut t p l = ground arith

still_waited :
    (s s' : System) (es : List Event) (t : ℕ)
    → run s es ≡ some s'
    → t < s.fresh
    → contains t s'.background_waiters ≡ true
    → contains t s.background_waiters ≡ true
unfolding run
still_waited s s' [] t p l d = ground arith
still_waited s s' (e ∷ es) t p l d =
    let (m, q, r) = run-cons s s' e es p in
    let l' = step_fresh s m e t q l in
    let d' = still_waited m s' es t r l' d in step_waited s m e t q l d'

-- A waiting background request is passed over a bounded number of times. While its ticket stays
-- in the queue, whatever the threads do, at most `burst` grants go by for itself and `burst + 1`
-- for each background request before it, less the interactive grants already made in a row.
pub background_passed_le :
    (s s' : System) (es : List Event) (t : ℕ)
    → IsSound s
    → run s es ≡ some s'
    → contains t s.background_waiters ≡ true
    → contains t s'.background_waiters ≡ true
    → grants s'
      ≤ grants s
        + (ahead t s.background_waiters * (s.lease.burst + 1) + (s.lease.burst - s.lease.streak))
unfolding run
background_passed_le s s' [] t h p c d = ground arith
background_passed_le s s' (e ∷ es) t h p c d =
    let (m, q, r) = run-cons s s' e es p in
    let l =
      step_fresh s m e t q (contains-lt t s.fresh s.background_waiters h.background_rising c) in
    let here = still_waited m s' es t r l d in
    omega (
      arith,
      step-potential s m e t h q c here,
      background_passed_le m s' es t (step-IsSound e h q) r here d,
    )
