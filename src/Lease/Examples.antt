-- ===== src/Lease/Examples.antt =====
-- Runs of the lease: the theorems at concrete interleavings.
use face_identify.Prelude.{ℕ, ◌+◌, ◌*◌, ◌-◌, ◌≤◌, ◌≡◌, refl, true, some, List, [], ◌∷◌, false}
use face_identify.Lease.{
  RequestClass, interactive, background, WorkerLease, done, raised, value_error, default_burst,
  new_lease, waiting, queued, remove,
}
use face_identify.Lease.System.{
  System, Event, request, wake, finish, shut, step, run, start, waiters,
}
use face_identify.Lease.Invariant.{IsSound, run-start-IsSound}
use face_identify.Lease.Turns.{grants, wake_takes_own, closed_grants_nothing}
use face_identify.Lease.Watched.{Watched, Move, acts, tests, advance, watch}
use face_identify.Lease.Wakeups.{none_awake, CanWake, idle_wakes, closed_wakes}
use face_identify.Lease.Fairness.{background_passed_le}
use face_identify.Lease.Order.{InOrder, run-start-InOrder}

abbrev idle : WorkerLease
idle = record {
  burst = default_burst;
  held = false;
  closed = false;
  interactive_queue = [];
  background_queue = [];
  streak = 0;
  notices = 0;
}

-- A background request and two interactive ones arrive while nobody holds the worker.
abbrev arrivals : List Event
arrivals = request background ∷ request interactive ∷ request interactive ∷ []

abbrev queued_up : System
queued_up = record {
  lease = record idle { interactive_queue = 1 ∷ 2 ∷ []; background_queue = 0 ∷ [] };
  interactive_waiters = 1 ∷ 2 ∷ [];
  background_waiters = 0 ∷ [];
  holders = [];
  fresh = 3;
  interactive_served = [];
  background_served = [];
}

-- The first interactive thread has been granted.
abbrev granted : System
granted = record {
  lease = record idle {
    interactive_queue = 2 ∷ [];
    background_queue = 0 ∷ [];
    held = true;
    streak = 1;
  };
  interactive_waiters = 2 ∷ [];
  background_waiters = 0 ∷ [];
  holders = 1 ∷ [];
  fresh = 3;
  interactive_served = 1 ∷ [];
  background_served = [];
}

new_lease_refuses : new_lease 0 ≡ raised value_error
unfolding new_lease
new_lease_refuses = refl

new_lease-idle : new_lease 3 ≡ done idle
unfolding new_lease
new_lease-idle = refl

run-arrivals : run (start idle) arrivals ≡ some queued_up
unfolding run step
run-arrivals = refl

step_grants : step queued_up (wake interactive 1) ≡ some granted
unfolding step
step_grants = refl

-- a background thread does not go before an interactive one below the burst
step_waits : queued queued_up.lease interactive ≡ 2
unfolding queued
step_waits = refl

run-start-IsSound_example : IsSound queued_up
run-start-IsSound_example = run-start-IsSound 3 arrivals new_lease-idle run-arrivals

run-start-InOrder_example : InOrder queued_up
run-start-InOrder_example = run-start-InOrder 3 arrivals new_lease-idle run-arrivals

wake_takes_own_example :
    (queued_up.holders ≡ [])
    × (granted.holders ≡ 1 ∷ [])
    × (granted.lease.held ≡ true)
    × (waiting queued_up.lease interactive ≡ 1 ∷ waiting granted.lease interactive)
wake_takes_own_example = wake_takes_own interactive 1 run-start-IsSound_example refl step_grants

-- A thread is granted at once; two arrive, test their turn and sleep; the first one finishes.
abbrev moves : List Move
moves =
    acts (request interactive)
    ∷ acts (wake interactive 0)
    ∷ acts (request background)
    ∷ acts (request interactive)
    ∷ tests 1
    ∷ tests 2
    ∷ acts (finish 0)
    ∷ []

abbrev notified : Watched
notified = record {
  system = record {
    lease = record idle {
      interactive_queue = 2 ∷ [];
      background_queue = 1 ∷ [];
      streak = 1;
      notices = 1;
    };
    interactive_waiters = 2 ∷ [];
    background_waiters = 1 ∷ [];
    holders = [];
    fresh = 3;
    interactive_served = 0 ∷ [];
    background_served = [];
  };
  awake = 2 ∷ 1 ∷ [];
}

watch-moves : watch (none_awake idle) moves ≡ some notified
unfolding watch advance
watch-moves = refl

idle_wakes_example : (cls : RequestClass) × (t : ℕ) × (s : System) × CanWake notified cls t s
idle_wakes_example = idle_wakes 3 moves new_lease-idle watch-moves refl (λ e. cc)

-- As above, but the lease is closed while the first thread holds the worker.
abbrev shut_moves : List Move
shut_moves =
    acts (request interactive)
    ∷ acts (wake interactive 0)
    ∷ acts (request background)
    ∷ tests 1
    ∷ acts shut
    ∷ []

abbrev told : Watched
told = record {
  system = record {
    lease = record idle {
      held = true;
      closed = true;
      background_queue = 1 ∷ [];
      streak = 1;
      notices = 1;
    };
    interactive_waiters = [];
    background_waiters = 1 ∷ [];
    holders = 0 ∷ [];
    fresh = 2;
    interactive_served = 0 ∷ [];
    background_served = [];
  };
  awake = 1 ∷ [];
}

watch-shut_moves : watch (none_awake idle) shut_moves ≡ some told
unfolding watch advance
watch-shut_moves = refl

closed_wakes_example :
    (s : System) × CanWake told background 1 s
    × (s.holders ≡ 0 ∷ [])
    × (waiters s background ≡ remove 1 (1 ∷ []))
closed_wakes_example =
    closed_wakes 3 shut_moves background 1 new_lease-idle watch-shut_moves refl refl

-- Closed while three threads wait, one of which leaves.
abbrev closing : System
closing = record queued_up {
  lease = record idle { interactive_queue = 1 ∷ 2 ∷ []; background_queue = 0 ∷ []; closed = true };
}

abbrev refused : System
refused = record closing {
  lease = record idle {
    interactive_queue = 2 ∷ [];
    background_queue = 0 ∷ [];
    closed = true;
    notices = 1;
  };
  interactive_waiters = 2 ∷ [];
}

run-closing : run closing (wake interactive 1 ∷ request background ∷ []) ≡ some refused
unfolding run step
run-closing = refl

closed_grants_nothing_example :
    (refused.lease.closed ≡ true) × (grants refused ≡ grants closing) × (2 ≤ 3)
closed_grants_nothing_example =
    closed_grants_nothing closing refused (wake interactive 1 ∷ request background ∷ []) refl
      run-closing

run-granted : run queued_up (wake interactive 1 ∷ []) ≡ some granted
unfolding run step
run-granted = refl

background_passed_le_example : grants granted ≤ 0 + (0 * (3 + 1) + (3 - 0))
background_passed_le_example =
    background_passed_le queued_up granted (wake interactive 1 ∷ []) 0 run-start-IsSound_example
      run-granted refl refl
