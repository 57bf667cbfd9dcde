-- ===== src/Supervisor.antt =====
-- backend/ml/supervisor/supervisor.py: `MLSupervisor`. The lock makes each method atomic. What the
-- worker process, the operating system and the clock do during a call is an argument of the call
-- (World); a worker is known by a number, and `killed` are those that `kill` was called on, the last
-- first. The texts of failures are left out.
pub mod Soundness
pub mod Failed
mod Examples
use face_identify.Prelude.{
  ℕ, ◌+◌, ◌-◌, String, Bool, true, false, not, ◌&&◌, Option, none, some, List, [], ◌∷◌, ◌++◌, ltb,
  ◌==◌, if◌then◌else◌, length, same,
}

pub data WorkerState : Type 0 where
  stopped starting ready busy stopping unavailable failed : WorkerState

unfoldable pub WorkerState-discrete : Discrete WorkerState
WorkerState-discrete = hlevel

abbrev pub state_is : WorkerState → WorkerState → Bool
state_is s t = same WorkerState-discrete s t

pub record SupervisorPolicy : Type 0 where
  pub handshake_timeout : ℕ
  pub request_timeout : ℕ
  pub ping_timeout : ℕ
  pub shutdown_timeout : ℕ
  pub max_restarts : ℕ
  pub restart_window : ℕ

-- `__post_init__`, of numbers that are not negative: whether it raises nothing.
unfoldable pub is_policy : SupervisorPolicy → Bool
is_policy p =
    (ltb 0 p.handshake_timeout && (ltb 0 p.request_timeout && ltb 0 p.ping_timeout))
    && ltb 0 p.restart_window

-- What comes of waiting for a frame: it came, TimeoutError, OSError or EOFError, ContractError.
pub data Answer (A : Type 0) : Type 0 where
  came : A → Answer A
  timed_out went_away broke_contract : Answer A

-- The body of HELLO.
pub record Hello : Type 0 where
  pub worker_instance_id : String
  pub capabilities : List String

-- What is met during one call: the clock at each failure that is recorded, whether the worker is
-- alive, what `spawn` gives (`none` for OSError), and the answers.
pub record World (R : Type 0) : Type 0 where
  pub now : ℕ
  pub later : ℕ
  pub is_alive : Bool
  pub spawned : Option ℕ
  pub hello : Answer Hello
  pub ready_frame : Answer (Unit {0})
  pub response : Answer R
  pub pong : Answer (Unit {0})  -- with this ping's nonce; another one is `broke_contract`
  pub sent : Bool  -- whether the connection took the frame of `release_output`

pub record MlSupervisor : Type 0 where
  pub policy : SupervisorPolicy
  pub state : WorkerState
  pub worker : Option ℕ
  pub failures : List ℕ
  pub pings : ℕ
  pub worker_instance_id : Option String
  pub capabilities : List String
  pub killed : List ℕ
  pub launched : List ℕ  -- the workers that `spawn` gave, the last first

-- What a method returns, or MLUnavailableError, or WorkerFailedError.
pub data Outcome {ℓ} (A : Type ℓ) : Type ℓ where
  gives : A → Outcome A
  capability_failed worker_failed : Outcome A

unfoldable pub new_supervisor : SupervisorPolicy → MlSupervisor
new_supervisor policy = record {
  policy = policy;
  state = stopped;
  worker = none;
  failures = [];
  pings = 0;
  worker_instance_id = none;
  capabilities = [];
  killed = [];
  launched = [];
}

-- `_discard_worker`.
unfoldable pub discard_worker : MlSupervisor → MlSupervisor
discard_worker s = elim s.worker [
  | none ↦ s
  | some w ↦ record s { worker = none; killed = w ∷ s.killed }
]

-- The loop of `_record_failure`: failures that have left the window are dropped from the front.
unfoldable pub drop_old : ℕ → ℕ → List ℕ → List ℕ
drop_old window now [] = []
drop_old window now (t ∷ ts) = elim (ltb window (now - t)) [
  | true ↦ drop_old window now ts
  | false ↦ t ∷ ts
]

abbrev pub state_after : ℕ → ℕ → WorkerState
state_after max_restarts count = if ltb max_restarts count then failed else unavailable

unfoldable pub record_failure : ℕ → MlSupervisor → MlSupervisor
unfolding drop_old
record_failure now s =
    let d = discard_worker s in
    let failures = drop_old s.policy.restart_window now (d.failures ++ now ∷ []) in
    record d { failures = failures; state = state_after s.policy.max_restarts (length failures) }

-- `raise self._fail(…)`.
unfoldable pub fail : {A : Type 0} → ℕ → MlSupervisor → MlSupervisor × Outcome A
fail now s = (record_failure now s, worker_failed)

-- `_launch` once both frames of the handshake came.
unfoldable pub ready_with : ℕ → Hello → MlSupervisor → MlSupervisor
ready_with w body s = record s {
  worker_instance_id = some body.worker_instance_id;
  capabilities = body.capabilities;
  state = ready;
}

-- The handshake of a worker that was spawned.
unfoldable pub handshake :
    ℕ → ℕ → Answer Hello → Answer (Unit {0}) → MlSupervisor → MlSupervisor × Outcome ℕ
handshake now w (came body) (came _) s = (ready_with w body s, gives w)
handshake now w (came body) timed_out s = fail now s
handshake now w (came body) went_away s = fail now s
handshake now w (came body) broke_contract s = fail now s
handshake now w timed_out r s = fail now s
handshake now w went_away r s = fail now s
handshake now w broke_contract r s = fail now s

-- `_launch`.
unfoldable pub launch : {R : Type 0} → World R → MlSupervisor → MlSupervisor × Outcome ℕ
launch e s = elim e.spawned [
  | none ↦ fail e.later (record s { state = starting })
  | some w ↦
      handshake e.later w e.hello e.ready_frame
        (record s { state = starting; worker = some w; launched = w ∷ s.launched })
]

-- `_ensure_ready` where the worker that was READY is found dead.
unfoldable pub relaunch : {R : Type 0} → World R → MlSupervisor → MlSupervisor × Outcome ℕ
unfolding WorkerState-discrete
relaunch e s =
    let after = record_failure e.now s in
    if state_is after.state failed then (after, capability_failed) else launch e after

abbrev pub ensure_with : {R : Type 0} → World R → MlSupervisor → Option ℕ → MlSupervisor × Outcome ℕ
ensure_with e s none = launch e s
ensure_with e s (some w) =
    if state_is s.state ready
    then (if e.is_alive then (s, gives w) else relaunch e s)
    else launch e s

-- `_ensure_ready`.
unfoldable pub ensure_ready : {R : Type 0} → World R → MlSupervisor → MlSupervisor × Outcome ℕ
unfolding WorkerState-discrete
ensure_ready e s =
    if state_is s.state failed then (s, capability_failed) else ensure_with e s s.worker

-- `start`.
unfoldable pub start : {R : Type 0} → World R → MlSupervisor → MlSupervisor
start e s = (ensure_ready e s).0

-- `execute` once the worker is ready.
unfoldable pub answer_request :
    {R : Type 0} → ℕ → Answer R → MlSupervisor → MlSupervisor × Outcome R
answer_request now (came r) s = (record s { state = ready }, gives r)
answer_request now timed_out s = fail now s
answer_request now went_away s = fail now s
answer_request now broke_contract s = fail now s

abbrev pub execute_with :
    {R : Type 0} → World R → MlSupervisor × Outcome ℕ → MlSupervisor × Outcome R
execute_with e (s, gives w) = answer_request e.later e.response (record s { state = busy })
execute_with e (s, capability_failed) = (s, capability_failed)
execute_with e (s, worker_failed) = (s, worker_failed)

unfoldable pub execute : {R : Type 0} → World R → MlSupervisor → MlSupervisor × Outcome R
unfolding answer_request
execute e s = execute_with e (ensure_ready e s)

abbrev pub stop_with : {R : Type 0} → World R → MlSupervisor → Option ℕ → MlSupervisor
stop_with e s none = if state_is s.state failed then s else record s { state = stopped }
stop_with e s (some w) = record (discard_worker s) { state = stopped }

-- `stop`; whether SHUTDOWN is acknowledged makes no difference, the worker is killed either way.
unfoldable pub stop : {R : Type 0} → World R → MlSupervisor → MlSupervisor
unfolding WorkerState-discrete
stop e s = stop_with e s s.worker

unfoldable pub reset : MlSupervisor → MlSupervisor
unfolding WorkerState-discrete
reset s =
    let cleared = record s { failures = [] } in
    if state_is s.state failed then record cleared { state = stopped } else cleared

abbrev pub release_with : {R : Type 0} → World R → MlSupervisor → Option ℕ → MlSupervisor
release_with e s none = s
release_with e s (some w) =
    if state_is s.state ready && not e.sent then record_failure e.now s else s

unfoldable pub release_output : {R : Type 0} → World R → MlSupervisor → MlSupervisor
unfolding WorkerState-discrete
release_output e s = release_with e s s.worker

abbrev pub ping_answer : ℕ → Answer (Unit {0}) → MlSupervisor → MlSupervisor × Bool
ping_answer now (came _) s = (s, true)
ping_answer now timed_out s = (record_failure now s, false)
ping_answer now went_away s = (record_failure now s, false)
ping_answer now broke_contract s = (record_failure now s, false)

abbrev pub ping_with : {R : Type 0} → World R → MlSupervisor → Option ℕ → MlSupervisor × Bool
ping_with e s none = (s, false)
ping_with e s (some w) =
    if state_is s.state ready
    then ping_answer e.now e.pong (record s { pings = s.pings + 1 })
    else (s, false)

unfoldable pub ping : {R : Type 0} → World R → MlSupervisor → MlSupervisor × Bool
unfolding WorkerState-discrete
ping e s = ping_with e s s.worker

-- The methods, as the calls that other threads make.
pub data Call : Type 0 where
  starts executes releases pings stops resets : Call

unfoldable pub step : {R : Type 0} → MlSupervisor → Call × World R → MlSupervisor
unfolding start execute release_output ping stop reset
step s (starts, e) = start e s
step s (executes, e) = (execute e s).0
step s (releases, e) = release_output e s
step s (pings, e) = (ping e s).0
step s (stops, e) = stop e s
step s (resets, e) = reset s

unfoldable pub run : {R : Type 0} → MlSupervisor → List (Call × World R) → MlSupervisor
run s [] = s
run s (c ∷ cs) = run (step s c) cs
