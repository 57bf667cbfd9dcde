-- ===== src/Jobs/Leases.antt =====
-- What holds of every row of the table, and that every operation keeps it: a job has a lease only
-- in a state that a worker holds, and an end once it is over.
use mathlib.Core.List.{foldl}
use face_identify.Prelude.{
  ℕ, String, ◌+◌, ◌≡◌, refl, ◌≢◌, Bool, true, false, not, Option, none, List, [], ◌∷◌, ◌++◌, ◌==◌,
  All, arith, inl, inr, Option-cases,
}
use face_identify.Database.{update_where, UniqueKeys}
use face_identify.Database.Keys.{
  by_key, UniqueKeys-update_where, UniqueKeys-insert, All-update_where,
}
use face_identify.Jobs.Model.{
  Uuid, Datetime, Job, JobType, JobState, JobState-discrete, running, state_in, finished_states,
  leased_states,
}
use face_identify.Jobs.Claiming.{claim_row-id}
use face_identify.Jobs.{
  Result, ok, err, add, claim_row, claim_next, chosen, move_row, in_states, transition,
  progress_row, unfinished_row, set_progress,
}

pub record IsTidy (j : Job) : Type 0 where
  -- a worker holds the job, or there is no lease
  pub owned : state_in j.state leased_states ≡ true → j.lease_owner ≢ none
  pub no_owner : state_in j.state leased_states ≡ false → j.lease_owner ≡ none
  pub no_expiry : state_in j.state leased_states ≡ false → j.lease_expires_at ≡ none
  pub no_heartbeat : state_in j.state leased_states ≡ false → j.heartbeat_at ≡ none
  -- a job that is over has an end
  pub ended : state_in j.state finished_states ≡ true → j.ended_at ≢ none

pub record IsTidyTable (table : List Job) : Type 0 where
  pub keys : UniqueKeys (λ (j : Job). j.id) table
  pub rows : All IsTidy table

-- A move into a state that a worker holds comes from such a state.
abbrev pub KeepsLease : List JobState → JobState → Type 0
KeepsLease from to =
    state_in to leased_states ≡ true → All (λ s. state_in s leased_states ≡ true) from

claim_row-IsTidy :
    (owner : String) (now expires : Datetime) (j : Job) → IsTidy (claim_row owner now expires j)
unfolding claim_row state_in
claim_row-IsTidy owner now expires j = ground arith

leased_before :
    (s : JobState) (from : List JobState)
    → All (λ s. state_in s leased_states ≡ true) from
    → state_in s from ≡ true
    → state_in s leased_states ≡ true
unfolding state_in
leased_before s [] h i = absurd (cc)
leased_before s (x ∷ xs) h i = elim (JobState-discrete s x) [
  | yes e ↦ rw e h.0
  | no n ↦ leased_before s xs h.1 (ground arith)
]

move_row-IsTidy :
    (from : List JobState) (to : JobState) (now : Datetime) (code detail : Option String) (j : Job)
    → KeepsLease from to
    → state_in j.state from ≡ true
    → IsTidy j
    → IsTidy (move_row to now code detail j)
unfolding move_row
move_row-IsTidy from to now code detail j k i h = ground (arith, leased_before j.state from, k)

pub move_row-id :
    (to : JobState) (now : Datetime) (code detail : Option String) (j : Job)
    → (move_row to now code detail j).id ≡ j.id
unfolding move_row
move_row-id to now code detail j = ground arith

update_where-IsTidyTable :
    (q : Job → Bool) (f : Job → Job) (table : List Job)
    → ((j : Job) → (f j).id ≡ j.id)
    → ((j : Job) → q j ≡ true → IsTidy j → IsTidy (f j))
    → IsTidyTable table
    → IsTidyTable (update_where q f table).0
update_where-IsTidyTable q f table keeps tidy h = record {
  keys = UniqueKeys-update_where (λ (j : Job). j.id) q f table keeps h.keys;
  rows = All-update_where IsTidy q f table tidy h.rows;
}

pub transition_inversion :
    (id : Uuid) (from : List JobState) (to : JobState) (now : Datetime)
    (code detail : Option String) (table after : List Job) (moved : Bool)
    → transition id from to now code detail table ≡ ok (after, moved)
    → let (rows, n) = update_where (in_states id from) (move_row to now code detail) table in
      (after ≡ rows) × (moved ≡ not (n == 0)) × (to ≢ running)
unfolding transition
transition_inversion id from to now code detail table after moved e = ground arith

in_states_lem :
    (id : Uuid) (from : List JobState) (j : Job)
    → in_states id from j ≡ true
    → state_in j.state from ≡ true
unfolding in_states
in_states_lem id from j h = ground arith

transition-IsTidyTable :
    (id : Uuid) (from : List JobState) (to : JobState) (now : Datetime)
    (code detail : Option String) (table after : List Job) (moved : Bool)
    → KeepsLease from to
    → IsTidyTable table
    → transition id from to now code detail table ≡ ok (after, moved)
    → IsTidyTable after
transition-IsTidyTable id from to now code detail table after moved k h e =
    rw (transition_inversion id from to now code detail table after moved e).0 (
      update_where-IsTidyTable (in_states id from) (move_row to now code detail) table
        (move_row-id to now code detail)
        (λ j q. move_row-IsTidy from to now code detail j k (in_states_lem id from j q)) h)

claim_next-IsTidyTable :
    (owner : String) (now : Datetime) (m : ℕ) (types : Option (List JobType)) (table : List Job)
    → IsTidyTable table
    → IsTidyTable (claim_next owner now m types table).0
unfolding claim_next
claim_next-IsTidyTable owner now m types table h = elim (Option-cases (chosen types table)) [
  | inl e ↦ rw (e, claim_next) h
  | inr (c, e) ↦
      rw (e, claim_next)
        (update_where-IsTidyTable (λ j. j.id == c.id) (claim_row owner now (now + m)) table
          (claim_row-id owner now (now + m)) (λ j _ _. claim_row-IsTidy owner now (now + m) j) h)
]

progress_row-IsTidy :
    (done : ℕ) (total : Option ℕ) (now : Datetime) (j : Job)
    → IsTidy j
    → IsTidy (progress_row done total now j)
progress_row-IsTidy done total now j h = ground arith

progress_inversion :
    (id : Uuid) (done : ℕ) (total : Option ℕ) (now : Datetime) (table after : List Job)
    (moved : Bool)
    → set_progress id done total now table ≡ ok (after, moved)
    → after ≡ (update_where (unfinished_row id) (progress_row done total now) table).0
unfolding set_progress
progress_inversion id done total now table after moved e = ground arith

set_progress-IsTidyTable :
    (id : Uuid) (done : ℕ) (total : Option ℕ) (now : Datetime) (table after : List Job)
    (moved : Bool)
    → IsTidyTable table
    → set_progress id done total now table ≡ ok (after, moved)
    → IsTidyTable after
set_progress-IsTidyTable id done total now table after moved h e =
    rw (progress_inversion id done total now table after moved e) (
      update_where-IsTidyTable (unfinished_row id) (progress_row done total now) table (λ j. refl)
        (λ j _ t. progress_row-IsTidy done total now j t) h)

add_inversion :
    (job : Job) (table after : List Job)
    → add job table ≡ ok after
    → (after ≡ table ++ job ∷ []) × (by_key (λ (j : Job). j.id) job.id table ≡ none)
unfolding add
add_inversion job table after e = ground arith

All-snoc : (P : Job → Type 0) (x : Job) (xs : List Job) → P x → All P xs → All P (xs ++ x ∷ [])
All-snoc P x [] p h = (p, tt)
All-snoc P x (y ∷ ys) p h = (h.0, All-snoc P x ys p h.1)

add-IsTidyTable :
    (job : Job) (table after : List Job)
    → IsTidy job
    → IsTidyTable table
    → add job table ≡ ok after
    → IsTidyTable after
add-IsTidyTable job table after t h e =
    let (a, fresh) = add_inversion job table after e in
    rw a (record {
      keys = UniqueKeys-insert (λ (j : Job). j.id) job table h.keys fresh;
      rows = All-snoc IsTidy job table t h.rows;
    })

-- The operations of the repository that write.
pub data Operation : Type 0 where
  add_job : Job → Operation
  claim : String → Datetime → ℕ → Option (List JobType) → Operation
  move : Uuid → List JobState → JobState → Datetime → Option String → Option String → Operation
  progress : Uuid → ℕ → Option ℕ → Datetime → Operation

abbrev table_of : List Job → Result (List Job × Bool) → List Job
table_of table (ok (after, _)) = after
table_of table (err _) = table

abbrev added : List Job → Result (List Job) → List Job
added table (ok after) = after
added table (err _) = table

-- The table after an operation, which leaves it as it was where it raises.
pub apply : List Job → Operation → List Job
apply table (add_job job) = added table (add job table)
apply table (claim owner now m types) = (claim_next owner now m types table).0
apply table (move id from to now code detail) =
    table_of table (transition id from to now code detail table)
apply table (progress id done total now) = table_of table (set_progress id done total now table)

-- What callers owe: a new row is tidy, and a move into a state that a worker holds is from one.
abbrev pub IsAllowed : Operation → Type 0
IsAllowed (add_job job) = IsTidy job
IsAllowed (move id from to now code detail) = KeepsLease from to
IsAllowed _ = Unit

table_of-IsTidyTable :
    (table : List Job) (r : Result (List Job × Bool))
    → IsTidyTable table
    → ((after : List Job) (moved : Bool) → r ≡ ok (after, moved) → IsTidyTable after)
    → IsTidyTable (table_of table r)
table_of-IsTidyTable table (ok (after, moved)) h k = k after moved refl
table_of-IsTidyTable table (err _) h k = h

added-IsTidyTable :
    (table : List Job) (r : Result (List Job))
    → IsTidyTable table
    → ((after : List Job) → r ≡ ok after → IsTidyTable after)
    → IsTidyTable (added table r)
added-IsTidyTable table (ok after) h k = k after refl
added-IsTidyTable table (err _) h k = h

apply-IsTidyTable :
    (table : List Job) (op : Operation)
    → IsAllowed op
    → IsTidyTable table
    → IsTidyTable (apply table op)
unfolding apply
apply-IsTidyTable table (add_job job) a h =
    added-IsTidyTable table (add job table) h (λ after e. add-IsTidyTable job table after a h e)
apply-IsTidyTable table (claim owner now m types) a h =
    claim_next-IsTidyTable owner now m types table h
apply-IsTidyTable table (move id from to now code detail) a h =
    table_of-IsTidyTable table (transition id from to now code detail table) h
      (λ after moved e. transition-IsTidyTable id from to now code detail table after moved a h e)
apply-IsTidyTable table (progress id done total now) a h =
    table_of-IsTidyTable table (set_progress id done total now table) h
      (λ after moved e. set_progress-IsTidyTable id done total now table after moved h e)

-- Whatever allowed operations are applied, in any order, whether they succeed, find no row or
-- raise: ids stay unique, a job has a lease owner exactly in the states that a worker holds,
-- outside these it has no expiry and no heartbeat, and a job that is over has an end.
pub operations-IsTidyTable :
    (table : List Job) (ops : List Operation)
    → All IsAllowed ops
    → IsTidyTable table
    → IsTidyTable (foldl apply table ops)
operations-IsTidyTable table [] a h = h
operations-IsTidyTable table (op ∷ ops) a h =
    operations-IsTidyTable (apply table op) ops a.1 (apply-IsTidyTable table op a.0 h)
