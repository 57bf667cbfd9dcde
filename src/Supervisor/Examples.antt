-- ===== src/Supervisor/Examples.antt =====
-- The theorems on the supervisor at a worker that keeps dying.
use face_identify.Prelude.{ℕ, ◌≡◌, refl, true, some, List, [], ◌∷◌}
use face_identify.Supervisor.{
  SupervisorPolicy, World, came, went_away, Hello, new_supervisor, failed, Call, starts, executes,
  stops, run, step, start, execute, ensure_ready, launch, handshake, ready_with, fail,
  record_failure, discard_worker, drop_old, WorkerState-discrete, answer_request, capability_failed,
}
use face_identify.Supervisor.Soundness.{IsSound, run-new_supervisor-IsSound}
use face_identify.Supervisor.Failed.{run-failed}

abbrev policy : SupervisorPolicy
policy = record {
  handshake_timeout = 10;
  request_timeout = 10;
  ping_timeout = 1;
  shutdown_timeout = 1;
  max_restarts = 1;
  restart_window = 60;
}

abbrev hello : Hello
hello = record { worker_instance_id = "w"; capabilities = "DETECT_FACES" ∷ [] }

-- a call at a time, in which the worker with this number starts and then dies
abbrev dying : ℕ → ℕ → World ℕ
dying t w = record {
  now = t;
  later = t;
  is_alive = true;
  spawned = some w;
  hello = came hello;
  ready_frame = came tt;
  response = went_away;
  pong = came tt;
  sent = true;
}

abbrev crashes : List (Call × World ℕ)
crashes = (executes, dying 5 1) ∷ (executes, dying 9 2) ∷ []

crashed : (run (new_supervisor policy) crashes).state ≡ failed
unfolding run step start execute ensure_ready launch handshake ready_with fail record_failure
    discard_worker drop_old WorkerState-discrete answer_request new_supervisor
crashed = refl

run-new_supervisor-IsSound_example : IsSound (run (new_supervisor policy) crashes)
run-new_supervisor-IsSound_example = run-new_supervisor-IsSound policy crashes

run-failed_example :
    let s = run (new_supervisor policy) crashes in
    (run s ((starts, dying 20 3) ∷ (stops, dying 21 3) ∷ []) ≡ s)
    × ((execute (dying 30 4) (run s ((starts, dying 20 3) ∷ (stops, dying 21 3) ∷ []))).1
        ≡ capability_failed)
run-failed_example =
    run-failed (run (new_supervisor policy) crashes)
      ((starts, dying 20 3) ∷ (stops, dying 21 3) ∷ []) (dying 30 4)
      (run-new_supervisor-IsSound policy crashes) crashed ((λ e. cc), ((λ e. cc), tt))
