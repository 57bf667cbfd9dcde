-- ===== src/Processing/Examples.antt =====
-- Cancelling, and optimistic locking, at a library of two runs.
use face_identify.Prelude.{◌≡◌, refl, none, some, List, [], ◌∷◌, arith}
use face_identify.Database.{optimistic_locked_update, UniqueKeys}
use face_identify.Processing.Ordinals.{IsRunTable, claim-IsRunTable}
use face_identify.Processing.Segments.{append_segment, next_ordinal, new_segment}
use face_identify.Processing.Scheduler.{
  StartedProcessingJob, claim, start_next, start_claimed, start_locked, start_run,
}
use face_identify.Database.Ordering.{order_by}
use face_identify.Database.Locking.{stale_update_refused}
use face_identify.Jobs.Model.{
  Uuid, Job, JobType, JobState, JobPriority, ProgressMode, JobState-discrete,
}
use face_identify.Jobs.{
  chosen, eligible, more_urgent, claim_row, claimed, claim_next, move_row, transition, in_states,
}
use face_identify.Processing.Model.{
  RunState, RunState-discrete, ProcessingRun, ExecutionSegment, run_versioned, Library, Failure, ok,
  err,
}
use face_identify.Processing.Cancel.{
  requested, already, state_row, any_row, lock, jobs_of_run, settle, cancel_job, cancel_run,
  cancel_in, cancel,
}
use face_identify.Processing.Cancel.Safety.{HasKeys, CancelEnd, cancel_ends, cancel_twice}

abbrev run : Uuid → RunState → ProcessingRun
run id state = record {
  id = id;
  source_id = 1;
  configuration_snapshot_id = id;
  parent_run_id = none;
  state = state;
  requested_at = 100;
  started_at = none;
  completed_at = none;
  failed_at = none;
  failure_code = none;
  failure_detail = none;
  current_checkpoint_id = none;
  revision = 2;
  created_at = 100;
  updated_at = 100;
}

abbrev job : Uuid → Uuid → JobState → Job
job id run state = record {
  id = id;
  type = JobType.process_source;
  processing_run_id = some run;
  previous_job_id = none;
  state = state;
  priority = JobPriority.normal;
  rank = 2;
  payload_schema_version = 1;
  payload_json = none;
  progress_mode = ProgressMode.indeterminate;
  progress_completed = none;
  progress_total = none;
  lease_owner = some "w";
  lease_expires_at = some 400;
  heartbeat_at = some 300;
  attempt_number = 1;
  failure_code = none;
  failure_detail = none;
  created_at = 100;
  updated_at = 300;
  started_at = some 300;
  ended_at = none;
}

abbrev runs : List ProcessingRun
runs = run 1 RunState.running ∷ run 2 RunState.finalizing ∷ []

abbrev library : Library
library = record {
  jobs = job 11 1 JobState.running ∷ job 12 2 JobState.running ∷ [];
  runs = runs;
  segments = [];
}

abbrev stopping : Library
stopping = record library {
  jobs =
      move_row JobState.cancelling 500 none none (job 11 1 JobState.running)
      ∷ job 12 2 JobState.running
      ∷ [];
  runs =
      record (run 1 RunState.running) {
        state = RunState.cancelling;
        updated_at = 500;
        revision = 3;
      }
      ∷ run 2 RunState.finalizing
      ∷ [];
}

library-HasKeys : HasKeys library
library-HasKeys = omega arith

cancels_running : cancel 500 1 library ≡ (stopping, ok requested)
unfolding cancel cancel_in cancel_run cancel_job lock jobs_of_run settle transition in_states
    move_row optimistic_locked_update RunState-discrete JobState-discrete
cancels_running = refl

-- a run whose result is being made authoritative cannot be cancelled
refuses_finalizing : cancel 500 2 library ≡ (library, err Failure.cannot_cancel)
unfolding cancel cancel_in cancel_run cancel_job lock jobs_of_run settle RunState-discrete
    JobState-discrete
refuses_finalizing = refl

cancel_ends_example : CancelEnd 500 1 library (cancel_in 500 1 library)
cancel_ends_example = cancel_ends 500 1 library library-HasKeys

cancel_twice_example : cancel 600 1 stopping ≡ (stopping, ok already)
cancel_twice_example =
    cancel_twice 500 600 1 library stopping requested library-HasKeys cancels_running

runs_keys : UniqueKeys (λ (r : ProcessingRun). r.id) runs
runs_keys = omega arith

updated_once : (optimistic_locked_update 1 2 (state_row RunState.paused 500) any_row runs).1 ≡ 1
unfolding optimistic_locked_update
updated_once = refl

stale_update_refused_example :
    let after = (optimistic_locked_update 1 2 (state_row RunState.paused 500) any_row runs).0 in
    optimistic_locked_update 1 2 (state_row RunState.failed 501) any_row after ≡ (after, 0)
stale_update_refused_example =
    stale_update_refused 1 2 (state_row RunState.paused 500) (state_row RunState.failed 501) any_row
      any_row runs runs_keys (λ a. refl) updated_once

-- a queued job of a pending run
abbrev waiting_library : Library
waiting_library = record {
  jobs = job 13 3 JobState.queued ∷ [];
  runs = run 3 RunState.pending ∷ [];
  segments = [];
}

abbrev first_segment : ExecutionSegment
first_segment = new_segment 3 77 none 0 500

abbrev started_library : Library
started_library = record {
  jobs = claim_row "v" 500 560 (job 13 3 JobState.queued) ∷ [];
  runs =
      record (run 3 RunState.pending) {
        state = RunState.running;
        started_at = some 500;
        updated_at = 500;
        revision = 3;
      }
      ∷ [];
  segments = first_segment ∷ [];
}

abbrev started_job : StartedProcessingJob
started_job = record { job = claimed "v" 560 (job 13 3 JobState.queued); execution_segment_id = 77 }

claims_waiting : claim "v" 500 60 77 waiting_library ≡ ok (started_library, some started_job)
unfolding claim start_next start_claimed start_locked start_run append_segment next_ordinal
    new_segment claim_next chosen eligible order_by more_urgent claim_row lock
    optimistic_locked_update RunState-discrete JobState-discrete claimed
claims_waiting = refl

claim-IsRunTable_example : IsRunTable started_library.segments
claim-IsRunTable_example =
    claim-IsRunTable "v" 500 60 77 waiting_library started_library (some started_job) claims_waiting
      tt
