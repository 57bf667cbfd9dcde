-- ===== src/Supervisor/Soundness.antt =====
-- The state of the supervisor between calls, and the worker processes that it accounts for.
use face_identify.Prelude.{
  ℕ, ◌+◌, ◌-◌, ◌≤◌, ◌<◌, ◌≡◌, ◌≢◌, ◌⊎◌, inl, inr, refl, ap, true, not, ◌&&◌, Option, none, some,
  List, [], ◌∷◌, ◌++◌, length, arith, Bool-cases, Option-cases, if-keeps,
}
use face_identify.Supervisor.{
  WorkerState, starting, ready, busy, stopping, unavailable, failed, WorkerState-discrete, state_is,
  SupervisorPolicy, Answer, came, timed_out, went_away, broke_contract, Hello, World, MlSupervisor,
  Outcome, gives, capability_failed, worker_failed, new_supervisor, discard_worker, drop_old,
  state_after, record_failure, fail, ready_with, handshake, launch, relaunch, ensure_ready,
  ensure_with, release_with, ping_with, start, answer_request, execute_with, execute, stop, reset,
  release_output, ping_answer, ping, Call, starts, executes, releases, pings, stops, resets, step,
  run,
}

abbrev pub live : Option ℕ → List ℕ
live none = []
live (some w) = w ∷ []

-- Every worker that was launched is the current one or was killed, once, in this order.
abbrev pub IsAccounted : MlSupervisor → Type 0
IsAccounted s = live s.worker ++ s.killed ≡ s.launched

-- The times from the oldest failure that is remembered to the latest lie within the window.
abbrev pub last_or : ℕ → List ℕ → ℕ
last_or t [] = t
last_or t (u ∷ us) = last_or u us

abbrev pub IsRecent : ℕ → List ℕ → Type 0
IsRecent window [] = Unit
IsRecent window (t ∷ ts) = last_or t ts - t ≤ window

-- FAILED is for more failures in the window than are tolerated, UNAVAILABLE for no more.
abbrev pub IsCounted : MlSupervisor → Type 0
IsCounted s =
    IsRecent s.policy.restart_window s.failures
    × ((s.state ≡ failed → s.policy.max_restarts < length s.failures)
        × (s.state ≡ unavailable → length s.failures ≤ s.policy.max_restarts))

-- Between calls: a worker is held exactly when the state is READY, and the state is none of those
-- that a call passes through.
abbrev pub IsSettled : MlSupervisor → Type 0
IsSettled s =
    ((s.worker ≡ none) × (s.state ≢ ready) ⊎ ((w : ℕ) × (s.worker ≡ some w) × (s.state ≡ ready)))
    × ((s.state ≢ starting) × ((s.state ≢ busy) × (s.state ≢ stopping)))

abbrev pub IsSound : MlSupervisor → Type 0
IsSound s = IsAccounted s × (IsCounted s × IsSettled s)

discard_worker-lem :
    (s : MlSupervisor)
    → IsAccounted s
    → ((discard_worker s).worker ≡ none)
      × (((discard_worker s).killed ≡ s.launched)
          × (((discard_worker s).launched ≡ s.launched)
              × (((discard_worker s).policy ≡ s.policy)
                  × ((discard_worker s).failures ≡ s.failures))))
unfolding discard_worker
discard_worker-lem s h = ground arith

state_after-lem :
    (m n : ℕ) → ((state_after m n ≡ failed) × (m < n)) ⊎ ((state_after m n ≡ unavailable) × (n ≤ m))
state_after-lem m n = ground arith

last_or-snoc : (t n : ℕ) (ts : List ℕ) → last_or t (ts ++ n ∷ []) ≡ n
last_or-snoc t n [] = refl
last_or-snoc t n (u ∷ us) = last_or-snoc u n us

drop_old-IsRecent :
    (window now : ℕ) (ts : List ℕ) → IsRecent window (drop_old window now (ts ++ now ∷ []))
unfolding drop_old
drop_old-IsRecent window now [] = ground arith
drop_old-IsRecent window now (t ∷ ts) =
    ground (arith, drop_old-IsRecent window now ts, last_or-snoc t now ts)

record_failure-IsSound :
    (now : ℕ) (s : MlSupervisor) → IsAccounted s → IsSound (record_failure now s)
unfolding record_failure
record_failure-IsSound now s h =
    let d = discard_worker-lem s h in
    let recent = drop_old-IsRecent s.policy.restart_window now (discard_worker s).failures in
    let c =
      state_after-lem s.policy.max_restarts
        (length (drop_old s.policy.restart_window now ((discard_worker s).failures ++ now ∷ []))) in
    ground arith

-- What a way of making the worker ready ends with: a worker and a READY state, or an error.
abbrev IsReached : MlSupervisor × Outcome ℕ → Type 0
IsReached r = IsSound r.0 × ((w : ℕ) → r.1 ≡ gives w → (r.0.worker ≡ some w) × (r.0.state ≡ ready))

fail-IsReached : (now : ℕ) (s : MlSupervisor) → IsAccounted s → IsReached (fail {A = ℕ} now s)
unfolding fail
fail-IsReached now s h = (record_failure-IsSound now s h, λ w e. absurd (cc))

handshake-IsReached :
    (now w : ℕ) (h : Answer Hello) (r : Answer (Unit {0})) (s : MlSupervisor)
    → IsAccounted s
    → IsRecent s.policy.restart_window s.failures
    → s.worker ≡ some w
    → IsReached (handshake now w h r s)
unfolding handshake ready_with
handshake-IsReached now w (came body) (came u) s a f e = ground arith
handshake-IsReached now w (came body) timed_out s a f e = fail-IsReached now s a
handshake-IsReached now w (came body) went_away s a f e = fail-IsReached now s a
handshake-IsReached now w (came body) broke_contract s a f e = fail-IsReached now s a
handshake-IsReached now w timed_out r s a f e = fail-IsReached now s a
handshake-IsReached now w went_away r s a f e = fail-IsReached now s a
handshake-IsReached now w broke_contract r s a f e = fail-IsReached now s a

launch-IsReached :
    {R : Type 0} (e : World R) (s : MlSupervisor)
    → IsAccounted s
    → IsRecent s.policy.restart_window s.failures
    → s.worker ≡ none
    → IsReached (launch e s)
unfolding launch
launch-IsReached e s a f n = elim (Option-cases e.spawned) [
  | inl q ↦ rw q (fail-IsReached e.later (record s { state = starting }) a)
  | inr (w, q) ↦ rw q (
      handshake-IsReached e.later w e.hello e.ready_frame
        (record s { state = starting; worker = some w; launched = w ∷ s.launched })
        (let k : s.killed ≡ s.launched = ground arith in cc) f refl)
]

relaunch-IsReached :
    {R : Type 0} (e : World R) (s : MlSupervisor) → IsAccounted s → IsReached (relaunch e s)
unfolding relaunch WorkerState-discrete
relaunch-IsReached e s a =
    let v = record_failure-IsSound e.now s a in
    let d = discard_worker-lem s a in
    let n : (record_failure e.now s).worker ≡ none = unfold record_failure in d.0 in
    let l = launch-IsReached e (record_failure e.now s) v.0 v.1.0.0 n in
    elim (Bool-cases (state_is (record_failure e.now s).state failed)) [
      | inl q ↦ rw q (v, λ w t. absurd (cc))
      | inr q ↦ rw q l
    ]

is_ready : (s : MlSupervisor) → s.state ≡ ready → state_is s.state ready ≡ true
unfolding WorkerState-discrete
is_ready s r = ap (λ (t : WorkerState). state_is t ready) r

ensure_with-IsReached :
    {R : Type 0} (e : World R) (s : MlSupervisor)
    → IsSound s
    → (o : Option ℕ) → s.worker ≡ o
    → IsReached (ensure_with e s o)
ensure_with-IsReached e s v none n = launch-IsReached e s v.0 v.1.0.0 n
ensure_with-IsReached e s v (some w) n = elim v.1.1.0 [
  | inl (m, r) ↦ absurd (cc)
  | inr (x, o, r) ↦ rw (is_ready s r) (
      if-keeps IsReached e.is_alive {x = (s, gives w)} (v, λ y t. (cc, r))
        (relaunch-IsReached e s v.0))
]

ensure_ready-IsReached :
    {R : Type 0} (e : World R) (s : MlSupervisor) → IsSound s → IsReached (ensure_ready e s)
unfolding ensure_ready
ensure_ready-IsReached e s v = elim (Bool-cases (state_is s.state failed)) [
  | inl q ↦ rw q (v, λ w t. absurd (cc))
  | inr q ↦ rw q (ensure_with-IsReached e s v s.worker refl)
]

answer_request-IsSound :
    {R : Type 0} (now : ℕ) (a : Answer R) (w : ℕ) (s : MlSupervisor)
    → IsAccounted s
    → IsRecent s.policy.restart_window s.failures
    → s.worker ≡ some w
    → IsSound (answer_request now a s).0
unfolding answer_request fail
answer_request-IsSound now (came r) w s a f o = ground arith
answer_request-IsSound now timed_out w s a f o = record_failure-IsSound now s a
answer_request-IsSound now went_away w s a f o = record_failure-IsSound now s a
answer_request-IsSound now broke_contract w s a f o = record_failure-IsSound now s a

execute_with-IsSound :
    {R : Type 0} (e : World R) (r : MlSupervisor × Outcome ℕ)
    → IsReached r
    → IsSound (execute_with e r).0
execute_with-IsSound e (s, gives w) h =
    answer_request-IsSound e.later e.response w (record s { state = busy }) h.0.0 h.0.1.0.0
      (h.1 w refl).0
execute_with-IsSound e (s, capability_failed) h = h.0
execute_with-IsSound e (s, worker_failed) h = h.0

ping_answer-IsSound :
    (now : ℕ) (a : Answer (Unit {0})) (s : MlSupervisor)
    → IsSound s
    → IsSound (ping_answer now a s).0
ping_answer-IsSound now (came u) s v = v
ping_answer-IsSound now timed_out s v = record_failure-IsSound now s v.0
ping_answer-IsSound now went_away s v = record_failure-IsSound now s v.0
ping_answer-IsSound now broke_contract s v = record_failure-IsSound now s v.0

release_with-IsSound :
    {R : Type 0} (e : World R) (s : MlSupervisor)
    → IsSound s
    → (o : Option ℕ) → IsSound (release_with e s o)
release_with-IsSound e s v none = v
release_with-IsSound e s v (some w) = elim (Bool-cases (state_is s.state ready && not e.sent)) [
  | inl q ↦ rw q (record_failure-IsSound e.now s v.0)
  | inr q ↦ rw q v
]

ping_with-IsSound :
    {R : Type 0} (e : World R) (s : MlSupervisor)
    → IsSound s
    → (o : Option ℕ) → IsSound (ping_with e s o).0
ping_with-IsSound e s v none = v
ping_with-IsSound e s v (some w) = elim (Bool-cases (state_is s.state ready)) [
  | inl q ↦ rw q (ping_answer-IsSound e.now e.pong (record s { pings = s.pings + 1 }) v)
  | inr q ↦ rw q v
]

stop-IsSound : {R : Type 0} (e : World R) (s : MlSupervisor) → IsSound s → IsSound (stop e s)
unfolding stop WorkerState-discrete
stop-IsSound e s v = let d = discard_worker-lem s v.0 in ground arith

reset-IsSound : (s : MlSupervisor) → IsSound s → IsSound (reset s)
unfolding reset WorkerState-discrete
reset-IsSound s v = ground arith

step-IsSound : {R : Type 0} (s : MlSupervisor) (c : Call × World R) → IsSound s → IsSound (step s c)
unfolding step start execute release_output ping
step-IsSound s (starts, e) v = (ensure_ready-IsReached e s v).0
step-IsSound s (executes, e) v =
    execute_with-IsSound e (ensure_ready e s) (ensure_ready-IsReached e s v)
step-IsSound s (releases, e) v = release_with-IsSound e s v s.worker
step-IsSound s (pings, e) v = ping_with-IsSound e s v s.worker
step-IsSound s (stops, e) v = stop-IsSound e s v
step-IsSound s (resets, e) v = reset-IsSound s v

pub run-IsSound :
    {R : Type 0} (s : MlSupervisor) (cs : List (Call × World R)) → IsSound s → IsSound (run s cs)
unfolding run
run-IsSound s [] v = v
run-IsSound s (c ∷ cs) v = run-IsSound (step s c) cs (step-IsSound s c v)

-- After any calls to a new supervisor, whatever the worker, the system and the clock did in them:
-- every worker process that was launched is the current one or was killed, once and in the order
-- of their launches; a worker is held exactly when the state is READY, and no call leaves
-- STARTING, BUSY or STOPPING behind; the failures that are remembered, from the oldest to the latest,
-- lie within the policy's restart window, and FAILED is only for more of them than the policy
-- tolerates, UNAVAILABLE for no more.
pub run-new_supervisor-IsSound :
    {R : Type 0} (policy : SupervisorPolicy) (cs : List (Call × World R))
    → IsSound (run (new_supervisor policy) cs)
unfolding new_supervisor
run-new_supervisor-IsSound policy cs = run-IsSound (new_supervisor policy) cs (ground arith)
