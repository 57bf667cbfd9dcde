-- ===== src/Lease/Watched.antt =====
-- Who is to test its turn: `wait_for` tests `may_wake` when it begins and after a `notify_all`, and
-- sleeps otherwise. `Watched` adds to a `System` which threads are to test it.
use face_identify.Prelude.{
  ℕ, ◌<◌, ◌≡◌, ◌≢◌, true, false, some, List, [], ◌∷◌, ◌++◌, arith, ltb, if◌then◌else◌, ◌⊎◌, not,
  ◌&&◌, Bool, Option, none, inl, inr, Bool-cases,
}
use face_identify.Lease.{WorkerLease, RequestClass, interactive, background, may_wake, next, remove}
use face_identify.Lease.System.{
  System, Event, request, wake, interrupt, finish, shut, step, contains, waiters,
}
use face_identify.Lease.Tickets.{Rising}
use face_identify.Lease.Invariant.{IsSound, next-is_ticket}

contains-Rising : (n t : ℕ) (ts : List ℕ) → Rising n ts → contains t ts ≡ true → t < n
contains-Rising n t [] r c = cc
contains-Rising n t (x ∷ xs) r c = ground (arith, contains-Rising n t xs)

-- Whose turn it is among the threads that were there, a thread that joins does not change.
next_joined-interactive :
    (l : WorkerLease) (n t : ℕ) (xs ys : List ℕ)
    → t < n
    → next (record l { interactive_queue = xs ++ n ∷ []; background_queue = ys }) ≡ some t
    → next (record l { interactive_queue = xs; background_queue = ys }) ≡ some t
unfolding next
next_joined-interactive l n t [] [] b e = ground arith
next_joined-interactive l n t [] (y ∷ ys) b e = ground arith
next_joined-interactive l n t (x ∷ xs) ys b e = e

next_joined-background :
    (l : WorkerLease) (n t : ℕ) (xs ys : List ℕ)
    → t < n
    → next (record l { interactive_queue = xs; background_queue = ys ++ n ∷ [] }) ≡ some t
    → next (record l { interactive_queue = xs; background_queue = ys }) ≡ some t
unfolding next
next_joined-background l n t [] [] b e = ground arith
next_joined-background l n t (x ∷ xs) [] b e = ground arith
next_joined-background l n t [] (y ∷ ys) b e = e
next_joined-background l n t (x ∷ xs) (y ∷ ys) b e = e

waiter_is_older :
    (s : System) (cls : RequestClass) (t : ℕ)
    → IsSound s
    → contains t (waiters s cls) ≡ true
    → t < s.fresh
waiter_is_older s interactive t h c =
    contains-Rising s.fresh t s.interactive_waiters h.interactive_rising c
waiter_is_older s background t h c =
    contains-Rising s.fresh t s.background_waiters h.background_rising c

-- A step that lets a waiting thread go on, which could not before, calls notify_all.
pub notified :
    (s s' : System) (e : Event) (cls : RequestClass) (t : ℕ)
    → IsSound s
    → step s e ≡ some s'
    → contains t (waiters s cls) ≡ true
    → may_wake s.lease t ≡ false
    → may_wake s'.lease t ≡ true
    → ltb s.lease.notices s'.lease.notices ≡ true
unfolding step may_wake
notified s s' (request interactive) cls t h p c m w =
    let old = waiter_is_older s cls t h c in
    ground (
      arith,
      next-is_ticket s'.lease t,
      next_joined-interactive s.lease s.fresh t s.lease.interactive_queue s.lease.background_queue,
    )
notified s s' (request background) cls t h p c m w =
    let old = waiter_is_older s cls t h c in
    ground (
      arith,
      next-is_ticket s'.lease t,
      next_joined-background s.lease s.fresh t s.lease.interactive_queue s.lease.background_queue,
    )
notified s s' (wake interactive u) cls t h p c m w = ground arith
notified s s' (wake background u) cls t h p c m w = ground arith
notified s s' (interrupt interactive u) cls t h p c m w = ground arith
notified s s' (interrupt background u) cls t h p c m w = ground arith
notified s s' (finish u) cls t h p c m w = ground arith
notified s s' shut cls t h p c m w = ground arith

pub record Watched : Type 0 where
  pub system : System
  pub awake : List ℕ  -- the tickets of the threads that are to test `may_wake`

pub data Move : Type 0 where
  acts : Event → Move
  -- the thread with this ticket finds that it may not go on, and sleeps
  tests : ℕ → Move

-- `wait_for` returns after a test only.
abbrev pub is_awake : Event → List ℕ → Bool
is_awake (wake cls t) awake = contains t awake
is_awake (request cls) awake = true
is_awake (interrupt cls t) awake = true
is_awake (finish t) awake = true
is_awake shut awake = true

-- A thread that joins begins with a test.
abbrev pub begins : Event → ℕ → List ℕ → List ℕ
begins (request cls) fresh awake = fresh ∷ awake
begins (wake cls t) fresh awake = awake
begins (interrupt cls t) fresh awake = awake
begins (finish t) fresh awake = awake
begins shut fresh awake = awake

abbrev pub heard : Watched → Event → System → List ℕ
heard w e s =
    if ltb w.system.lease.notices s.lease.notices
    then s.interactive_waiters ++ s.background_waiters
    else begins e w.system.fresh w.awake

-- One move; `none` where no thread can make it.
unfoldable pub advance : Watched → Move → Option Watched
unfolding step remove
advance w (acts e) = elim (step w.system e) [
  | none ↦ none
  | some s ↦ if is_awake e w.awake then some (record { system = s; awake = heard w e s }) else none
]
advance w (tests t) =
    if contains t w.awake && not (may_wake w.system.lease t)
    then some (record w { awake = remove t w.awake })
    else none

unfoldable pub watch : Watched → List Move → Option Watched
watch w [] = some w
watch w (m ∷ ms) = elim (advance w m) [ none ↦ none | some w' ↦ watch w' ms ]

-- Whoever may go on is to test it.
abbrev pub IsAwake : Watched → Type 0
IsAwake w =
    (cls : RequestClass) (t : ℕ)
    → contains t (waiters w.system cls) ≡ true
    → may_wake w.system.lease t ≡ true
    → contains t w.awake ≡ true

pub contains-remove :
    (t u : ℕ) (xs : List ℕ) → contains t xs ≡ true → u ≢ t → contains t (remove u xs) ≡ true
unfolding remove
contains-remove t u [] c n = absurd (cc)
contains-remove t u (x ∷ xs) c n = ground (arith, contains-remove t u xs)

remove-contains : (t u : ℕ) (xs : List ℕ) → contains t (remove u xs) ≡ true → contains t xs ≡ true
unfolding remove
remove-contains t u [] c = c
remove-contains t u (x ∷ xs) c = ground (arith, remove-contains t u xs)

contains-snoc :
    (t n : ℕ) (xs : List ℕ) → contains t (xs ++ n ∷ []) ≡ true → (contains t xs ≡ true) ⊎ (t ≡ n)
contains-snoc t n [] c = ground arith
contains-snoc t n (x ∷ xs) c = ground (arith, contains-snoc t n xs)

pub contains-append :
    (t : ℕ) (xs ys : List ℕ)
    → (contains t xs ≡ true) ⊎ (contains t ys ≡ true)
    → contains t (xs ++ ys) ≡ true
contains-append t [] ys (inl c) = absurd (cc)
contains-append t [] ys (inr c) = c
contains-append t (x ∷ xs) ys c = ground (arith, contains-append t xs ys)

pub was_waiting :
    (s s' : System) (e : Event) (cls : RequestClass) (t : ℕ)
    → step s e ≡ some s'
    → contains t (waiters s' cls) ≡ true
    → (contains t (waiters s cls) ≡ true)
      ⊎ ((awake : List ℕ) → contains t (begins e s.fresh awake) ≡ true)
unfolding step
was_waiting s s' (request interactive) interactive t p h = elim (Bool-cases s.lease.closed) [
  | inl closed ↦ inl (ground arith)
  | inr still_open ↦
      let q : contains t (s.interactive_waiters ++ s.fresh ∷ []) ≡ true = ground arith in
      elim (contains-snoc t s.fresh s.interactive_waiters q) [
        | inl c ↦ inl c
        | inr e ↦ inr (λ awake. ground arith)
      ]
]
was_waiting s s' (request interactive) background t p h = inl (ground arith)
was_waiting s s' (request background) background t p h = elim (Bool-cases s.lease.closed) [
  | inl closed ↦ inl (ground arith)
  | inr still_open ↦
      let q : contains t (s.background_waiters ++ s.fresh ∷ []) ≡ true = ground arith in
      elim (contains-snoc t s.fresh s.background_waiters q) [
        | inl c ↦ inl c
        | inr e ↦ inr (λ awake. ground arith)
      ]
]
was_waiting s s' (request background) interactive t p h = inl (ground arith)
was_waiting s s' (wake interactive u) interactive t p h =
    inl (ground (arith, remove-contains t u s.interactive_waiters))
was_waiting s s' (wake background u) background t p h =
    inl (ground (arith, remove-contains t u s.background_waiters))
was_waiting s s' (wake interactive u) background t p h = inl (ground arith)
was_waiting s s' (wake background u) interactive t p h = inl (ground arith)
was_waiting s s' (interrupt interactive u) interactive t p h =
    inl (ground (arith, remove-contains t u s.interactive_waiters))
was_waiting s s' (interrupt background u) background t p h =
    inl (ground (arith, remove-contains t u s.background_waiters))
was_waiting s s' (interrupt interactive u) background t p h = inl (ground arith)
was_waiting s s' (interrupt background u) interactive t p h = inl (ground arith)
was_waiting s s' (finish u) cls t p h = inl (ground arith)
was_waiting s s' shut cls t p h = inl (ground arith)
