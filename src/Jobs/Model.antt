-- ===== src/Jobs/Model.antt =====
-- backend/app/jobs/models.py: the enumerations, the row, and the checks of the table.
pub use face_identify.Database.{Uuid, Datetime}
use face_identify.Prelude.{
  ℕ, String, Bool, true, false, ◌&&◌, Option, some, List, [], ◌∷◌, leb, ◌==◌, same, ◌||◌,
}

pub data JobType : Type 0 where
  process_source reprocess_source rebuild_index retrain_model install_runtime clean_storage :
      JobType

pub data JobState : Type 0 where
  queued running pausing paused cancelling cancelled completed failed interrupted : JobState

pub data JobPriority : Type 0 where
  interactive high normal low maintenance : JobPriority

pub data ProgressMode : Type 0 where
  determinate indeterminate : ProgressMode

unfoldable pub JobState-discrete : Discrete JobState
JobState-discrete = hlevel

unfoldable pub JobType-discrete : Discrete JobType
JobType-discrete = hlevel

-- `PRIORITY_RANK`, which `_rank_of_priority` puts in a row.
unfoldable pub priority_rank : JobPriority → ℕ
priority_rank interactive = 0
priority_rank high = 1
priority_rank normal = 2
priority_rank low = 3
priority_rank maintenance = 4

-- One row. The JSON payload is the text that is stored.
pub record Job : Type 0 where
  pub id : Uuid
  pub type : JobType
  pub processing_run_id : Option Uuid
  pub previous_job_id : Option Uuid
  pub state : JobState
  pub priority : JobPriority
  pub rank : ℕ  -- `priority_rank`
  pub payload_schema_version : ℕ
  pub payload_json : Option String
  pub progress_mode : ProgressMode
  pub progress_completed : Option ℕ
  pub progress_total : Option ℕ
  pub lease_owner : Option String
  pub lease_expires_at : Option Datetime
  pub heartbeat_at : Option Datetime
  pub attempt_number : ℕ
  pub failure_code : Option String
  pub failure_detail : Option String
  pub created_at : Datetime
  pub updated_at : Datetime
  pub started_at : Option Datetime
  pub ended_at : Option Datetime

-- `state in states`.
unfoldable pub state_in : JobState → List JobState → Bool
unfolding JobState-discrete
state_in s [] = false
state_in s (x ∷ xs) = same JobState-discrete s x || state_in s xs

-- `FINISHED_JOB_STATES` and `LEASED_JOB_STATES` of repository.py.
abbrev pub finished_states : List JobState
finished_states = completed ∷ failed ∷ cancelled ∷ []

abbrev pub leased_states : List JobState
leased_states = running ∷ pausing ∷ cancelling ∷ []

-- `progress_completed` is at most `progress_total` where both are there.
abbrev within_total : Option ℕ → Option ℕ → Bool
within_total (some done) (some total) = leb done total
within_total _ _ = true

-- The check constraints of the table on values that the columns' types leave open.
unfoldable pub checks_hold : Job → Bool
unfolding priority_rank
checks_hold j =
    within_total j.progress_completed j.progress_total
    && leb 1 j.attempt_number
    && j.rank == priority_rank j.priority
