-- ===== src/Lease/Wakeups.antt =====
-- Who may go on is to test it: what follows for the waiting threads from the notices of the lease.
use mathlib.Core.Option.{some-injective}
use mathlib.Core.Path.{subst}
use face_identify.Prelude.{
  sym, ap, Option-cases, ℕ, ◌≡◌, refl, ◌≢◌, true, false, some, List, [], ◌∷◌, ◌++◌, arith, ltb, ◌⊎◌,
  not, ◌&&◌, Bool, none, inl, inr, Bool-cases,
}
use face_identify.Lease.{
  WorkerLease, new_lease, done, RequestClass, interactive, background, raised, worker_closed,
  may_wake, remove, give_up,
}
use face_identify.Lease.System.{
  System, start, Event, request, wake, interrupt, finish, shut, step, run, contains, waiters, woken,
}
use face_identify.Lease.Turns.{idle_serves}
use face_identify.Lease.Invariant.{IsSound, step-IsSound, run-start-IsSound}
use face_identify.Lease.Watched.{
  notified, Watched, Move, acts, tests, is_awake, begins, heard, advance, watch, IsAwake,
  contains-remove, contains-append, was_waiting,
}

waiters-append :
    (s : System) (cls : RequestClass) (t : ℕ)
    → contains t (waiters s cls) ≡ true
    → contains t (s.interactive_waiters ++ s.background_waiters) ≡ true
waiters-append s interactive t c =
    contains-append t s.interactive_waiters s.background_waiters (inl c)
waiters-append s background t c =
    contains-append t s.interactive_waiters s.background_waiters (inr c)

contains-begins :
    (e : Event) (fresh t : ℕ) (awake : List ℕ)
    → contains t awake ≡ true
    → contains t (begins e fresh awake) ≡ true
contains-begins (request cls) fresh t awake c = ground arith
contains-begins (wake cls u) fresh t awake c = c
contains-begins (interrupt cls u) fresh t awake c = c
contains-begins (finish u) fresh t awake c = c
contains-begins shut fresh t awake c = c

heard-IsAwake :
    (w : Watched) (e : Event) (s : System)
    → IsSound w.system
    → IsAwake w
    → step w.system e ≡ some s
    → IsAwake (record { system = s; awake = heard w e s })
heard-IsAwake w e s h a p cls t c m =
    elim (Bool-cases (ltb w.system.lease.notices s.lease.notices)) [
      | inl told ↦ rw told (waiters-append s cls t c)
      | inr quiet ↦ rw quiet (elim (was_waiting w.system s e cls t p c) [
        | inr new ↦ new w.awake
        | inl old ↦ elim (Bool-cases (may_wake w.system.lease t)) [
          | inl could ↦ contains-begins e w.system.fresh t w.awake (a cls t old could)
          | inr could_not ↦ absurd (both _ (notified w.system s e cls t h p old could_not m) quiet)
        ]
      ])
    ]
  where
    both : (b : Bool) → b ≡ true → b ≡ false → ⊥
    both b x y = absurd (cc)

abbrev IsWatched : Watched → Type 0
IsWatched w = IsSound w.system × IsAwake w

acts-cases :
    (w w' : Watched) (e : Event)
    → advance w (acts e) ≡ some w'
    → (s : System) × (step w.system e ≡ some s) × (w' ≡ record { system = s; awake = heard w e s })
unfolding advance
acts-cases w w' e p = elim (Option-cases (step w.system e)) [
  | inl q ↦ absurd (no_more (rw (q, advance) at p))
  | inr (s, q) ↦ elim (Bool-cases (is_awake e w.awake)) [
    | inl r ↦ (s, q, sym (some-injective _ w' (rw (q, r, advance) at p)))
    | inr r ↦ absurd (no_more (rw (q, r, advance) at p))
  ]
]
  where
    no_more : none ≡ some w' → ⊥
    no_more q = absurd (cc)

advance-IsWatched : (w w' : Watched) (m : Move) → IsWatched w → advance w m ≡ some w' → IsWatched w'
unfolding advance
advance-IsWatched w w' (acts e) (h, a) p =
    let (s, q, r) = acts-cases w w' e p in
    subst IsWatched (sym r) (step-IsSound e h q, heard-IsAwake w e s h a q)
advance-IsWatched w w' (tests u) (h, a) p =
    tested (Bool-cases (contains u w.awake && not (may_wake w.system.lease u)))
  where
    slept :
        contains u w.awake && not (may_wake w.system.lease u) ≡ true
        → IsWatched (record w { awake = remove u w.awake })
    slept q = (
      h,
      λ cls t c m.
          contains-remove t u w.awake (a cls t c m)
            (λ e. let k = ap (may_wake w.system.lease) e in ground (arith, q, k, m)),
    )

    none_left : none ≡ some w' → ⊥
    none_left q = absurd (cc)

    tested :
        (contains u w.awake && not (may_wake w.system.lease u) ≡ true)
          ⊎ (contains u w.awake && not (may_wake w.system.lease u) ≡ false)
        → IsWatched w'
    tested (inl q) = subst IsWatched (some-injective _ w' (rw (q, advance) at p)) (slept q)
    tested (inr q) = absurd (none_left (rw (q, advance) at p))

watch-IsWatched :
    (w w' : Watched) (ms : List Move) → IsWatched w → watch w ms ≡ some w' → IsWatched w'
unfolding watch
watch-IsWatched w w' [] h p = subst IsWatched (some-injective w w' p) h
watch-IsWatched w w' (m ∷ ms) h p = elim (Option-cases (advance w m)) [
  | inl q ↦ absurd (no_more (rw (q, watch) at p))
  | inr (v, q) ↦ watch-IsWatched v w' ms (advance-IsWatched w v m h q) (rw (q, watch) at p)
]
  where
    no_more : none ≡ some w' → ⊥
    no_more q = absurd (cc)

-- No thread is there yet.
abbrev pub none_awake : WorkerLease → Watched
none_awake l = record { system = start l; awake = [] }

reached :
    {l : WorkerLease} {w : Watched} (burst : ℕ) (ms : List Move)
    → new_lease burst ≡ done l
    → watch (none_awake l) ms ≡ some w
    → IsWatched w
reached {l} {w} burst ms n p =
    watch-IsWatched (none_awake l) w ms
      (run-start-IsSound burst [] n (unfold run in refl), λ cls t c m. nobody cls t c) p
  where
    nobody :
        (cls : RequestClass) (t : ℕ)
        → contains t (waiters (start l) cls) ≡ true
        → contains t [] ≡ true
    nobody interactive t c = c
    nobody background t c = c

wake-inverts :
    (s s' : System) (cls : RequestClass) (t : ℕ)
    → step s (wake cls t) ≡ some s'
    → (contains t (waiters s cls) ≡ true) × (may_wake s.lease t ≡ true)
unfolding step
wake-inverts s s' cls t p = ground arith

-- The thread is to test the predicate, and going on it gets to this state.
abbrev pub CanWake : Watched → RequestClass → ℕ → System → Type 0
CanWake w cls t s =
    (contains t w.awake ≡ true)
    × (w' : Watched) × (advance w (acts (wake cls t)) ≡ some w')
    × (w'.system ≡ s)

wakes :
    (w : Watched) (cls : RequestClass) (t : ℕ) (s : System)
    → IsAwake w
    → step w.system (wake cls t) ≡ some s
    → CanWake w cls t s
unfolding advance
wakes w cls t s a p =
    let (c, m) = wake-inverts w.system s cls t p in
    let r = a cls t c m in
    (r, record { system = s; awake = heard w (wake cls t) s }, rw (p, r, advance) refl, refl)

-- No deadlock and no lost wakeup, however threads come, wait, are interrupted, finish, close the
-- lease, test their turn and sleep: while no thread holds the worker and some thread waits, there is
-- a waiting thread that has begun its wait or been notified since it last tested its turn, and whose
-- wait now returns.
pub idle_wakes :
    {l : WorkerLease} {w : Watched} (burst : ℕ) (ms : List Move)
    → new_lease burst ≡ done l
    → watch (none_awake l) ms ≡ some w
    → w.system.holders ≡ []
    → w.system.interactive_waiters ++ w.system.background_waiters ≢ []
    → (cls : RequestClass) × (t : ℕ) × (s : System) × CanWake w cls t s
idle_wakes {l} {w} burst ms n p e some_wait =
    let (h, a) = reached burst ms n p in
    let (cls, t, (s, q)) = idle_serves w.system h e some_wait in (cls, t, s, wakes w cls t s a q)

closed_step :
    (s : System) (cls : RequestClass) (t : ℕ)
    → s.lease.closed ≡ true
    → contains t (waiters s cls) ≡ true
    → (s' : System) × (step s (wake cls t) ≡ some s')
      × (s'.holders ≡ s.holders)
      × (waiters s' cls ≡ remove t (waiters s cls))
unfolding step
closed_step s cls t o c = (
  woken s cls t (give_up s.lease cls t) (raised worker_closed),
  ground arith,
  ground arith,
  ground arith,
)

-- However threads came to wait, once the lease is closed every waiting thread has been notified since
-- it last tested its turn, or has just begun its wait, and its wait returns and it leaves the queue
-- without the worker: none sleeps through the shutdown.
pub closed_wakes :
    {l : WorkerLease} {w : Watched} (burst : ℕ) (ms : List Move) (cls : RequestClass) (t : ℕ)
    → new_lease burst ≡ done l
    → watch (none_awake l) ms ≡ some w
    → w.system.lease.closed ≡ true
    → contains t (waiters w.system cls) ≡ true
    → (s : System) × CanWake w cls t s
      × (s.holders ≡ w.system.holders)
      × (waiters s cls ≡ remove t (waiters w.system cls))
closed_wakes {l} {w} burst ms cls t n p o c =
    let (h, a) = reached burst ms n p in
    let (s, q, x, y) = closed_step w.system cls t o c in (s, wakes w cls t s a q, x, y)
