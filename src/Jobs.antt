-- ===== src/Jobs.antt =====
-- backend/app/jobs/repository.py: `JobRepository`, over the rows of the table `jobs`. An
-- integrity error leaves the table as it was, since the statement that raises it does nothing.
pub mod Model
pub mod Claiming
pub mod Leases
pub mod Moves
pub mod Contract
mod Examples
use face_identify.Prelude.{
  ℕ, String, ◌+◌, ◌≡◌, Bool, true, false, not, ◌&&◌, ◌||◌, Option, none, some, List, [], ◌∷◌, ◌++◌,
  ltb, leb, ◌==◌, if◌then◌else◌, same, head?, keep,
}
use face_identify.Database.{update_where, find_where}
use face_identify.Database.Ordering.{order_by}
use Model.{
  Uuid, Datetime, Job, JobType, JobState, running, JobType-discrete, JobState-discrete, queued,
  state_in, finished_states, leased_states, checks_hold,
}

pub data JobError : Type 0 where
  value_error integrity_error : JobError

pub data Result {ℓ} (A : Type ℓ) : Type ℓ where
  ok : A → Result A
  err : JobError → Result A

pub record ClaimedJob : Type 0 where
  pub id : Uuid
  pub type : JobType
  pub processing_run_id : Option Uuid
  pub payload_schema_version : ℕ
  pub payload_json : Option String
  pub attempt_number : ℕ
  pub lease_owner : String
  pub lease_expires_at : Datetime

-- `add`: the flush refuses a row whose key is there or that a check refuses.
unfoldable pub add : Job → List Job → Result (List Job)
add job table = elim (find_where (λ j. j.id == job.id) table) [
  | some _ ↦ err integrity_error
  | none ↦ if checks_hold job then ok (table ++ job ∷ []) else err integrity_error
]

unfoldable pub get : Uuid → List Job → Option Job
unfolding find_where
get job_id = find_where (λ j. j.id == job_id)

-- `ORDER BY priority_rank, created_at, id`.
unfoldable pub more_urgent : Job → Job → Bool
more_urgent a b =
    ltb a.rank b.rank
    || a.rank == b.rank
      && (ltb a.created_at b.created_at || a.created_at == b.created_at && ltb a.id b.id)

-- `Job.type.in_(types)`.
abbrev pub type_in : JobType → List JobType → Bool
type_in t [] = false
type_in t (x ∷ xs) = same JobType-discrete t x || type_in t xs

abbrev pub wanted : Option (List JobType) → JobType → Bool
wanted none t = true
wanted (some ts) t = type_in t ts

-- The conditions `eligible`. An empty `types` makes `claim_next` return at once; no row is
-- eligible then either.
unfoldable pub eligible : Option (List JobType) → Job → Bool
unfolding JobState-discrete JobType-discrete
eligible types j = same JobState-discrete j.state queued && wanted types j.type

-- The subquery `chosen`.
unfoldable pub chosen : Option (List JobType) → List Job → Option Job
unfolding eligible order_by more_urgent
chosen types table = head? (order_by more_urgent (keep (eligible types) table))

-- The assignments of the claiming `UPDATE`.
unfoldable pub claim_row : String → Datetime → Datetime → Job → Job
claim_row owner now expires j = record j {
  state = running;
  lease_owner = some owner;
  lease_expires_at = some expires;
  heartbeat_at = some now;
  started_at = some now;
  updated_at = now;
}

unfoldable pub claimed : String → Datetime → Job → ClaimedJob
claimed owner expires j = record {
  id = j.id;
  type = j.type;
  processing_run_id = j.processing_run_id;
  payload_schema_version = j.payload_schema_version;
  payload_json = j.payload_json;
  attempt_number = j.attempt_number;
  lease_owner = owner;
  lease_expires_at = expires;
}

-- `claim_next`: one `UPDATE … RETURNING` of the row with the chosen id.
unfoldable pub claim_next :
    String → Datetime → ℕ → Option (List JobType) → List Job → List Job × Option ClaimedJob
claim_next owner now lease_for types table =
    let expires = now + lease_for in
    elim (chosen types table) [
      | none ↦ (table, none)
      | some c ↦ (
        (update_where (λ j. j.id == c.id) (claim_row owner now expires) table).0,
        some (claimed owner expires c),
      )
    ]

abbrev or_else {ℓ} : {A : Type ℓ} → Option A → Option A → Option A
or_else none old = old
or_else (some new) old = some new

-- The values of the `UPDATE` in `transition`.
unfoldable pub move_row : JobState → Datetime → Option String → Option String → Job → Job
unfolding state_in
move_row to now code detail j =
    let moved = record j {
      state = to;
      updated_at = now;
      failure_code = or_else code j.failure_code;
      failure_detail = or_else detail j.failure_detail;
    } in
    let released =
      if state_in to leased_states
      then moved
      else record moved { lease_owner = none; lease_expires_at = none; heartbeat_at = none } in
    if state_in to finished_states then record released { ended_at = some now } else released

-- The `WHERE` of `transition`.
unfoldable pub in_states : Uuid → List JobState → Job → Bool
unfolding state_in
in_states job_id from_states j = j.id == job_id && state_in j.state from_states

-- `transition`.
unfoldable pub transition :
    Uuid
    → List JobState
    → JobState
    → Datetime
    → Option String
    → Option String
    → List Job
    → Result (List Job × Bool)
transition job_id from_states to_state now code detail table =
    if same JobState-discrete to_state running
    then err value_error
    else let (after, n) =
        update_where (in_states job_id from_states) (move_row to_state now code detail) table in
      ok (after, not (n == 0))

abbrev pub progress_row : ℕ → Option ℕ → Datetime → Job → Job
progress_row completed total now j = record j {
  progress_completed = some completed;
  progress_total = total;
  updated_at = now;
}

abbrev pub all_checks : List Job → Bool
all_checks [] = true
all_checks (j ∷ js) = let rest = all_checks js in checks_hold j && rest

-- The `WHERE` of `set_progress`: the update keeps the columns that it reads.
unfoldable pub unfinished_row : Uuid → Job → Bool
unfolding state_in
unfinished_row job_id j = j.id == job_id && not (state_in j.state finished_states)

-- `set_progress`: an update that a check of the table refuses raises.
unfoldable pub set_progress : Uuid → ℕ → Option ℕ → Datetime → List Job → Result (List Job × Bool)
set_progress job_id completed total now table =
    let (after, n) =
      update_where (unfinished_row job_id) (progress_row completed total now) table in
    if all_checks (keep (unfinished_row job_id) after)
    then ok (after, not (n == 0))
    else err integrity_error

-- `ORDER BY created_at, id`.
unfoldable pub older : Job → Job → Bool
older a b = ltb a.created_at b.created_at || a.created_at == b.created_at && ltb a.id b.id

-- `transient`.
unfoldable pub transient : List Job → List Job
unfolding older order_by state_in
transient table = order_by older (keep (λ j. not (state_in j.state finished_states)) table)
