-- ===== src/Recovery/Examples.antt =====
-- A crash with a running job, a cancelled one and a run that was being finalized.
use face_identify.Prelude.{◌≡◌, none, some, [], ◌∷◌}
use face_identify.Jobs.Model.{Uuid, Job, JobType, JobState, JobPriority, ProgressMode}
use face_identify.Processing.Model.{RunState, SegmentState, ProcessingRun, Library}
use face_identify.Recovery.{interrupt, no_work}
use face_identify.Recovery.Convergence.{IsSettled, interrupt-IsSettled, interrupt_twice}

abbrev run : Uuid → RunState → ProcessingRun
run id state = record {
  id = id;
  source_id = 1;
  configuration_snapshot_id = id;
  parent_run_id = none;
  state = state;
  requested_at = 100;
  started_at = none;
  completed_at = none;
  failed_at = none;
  failure_code = none;
  failure_detail = none;
  current_checkpoint_id = none;
  revision = 2;
  created_at = 100;
  updated_at = 100;
}

abbrev job : Uuid → Uuid → JobState → Job
job id run state = record {
  id = id;
  type = JobType.process_source;
  processing_run_id = some run;
  previous_job_id = none;
  state = state;
  priority = JobPriority.normal;
  rank = 2;
  payload_schema_version = 1;
  payload_json = none;
  progress_mode = ProgressMode.indeterminate;
  progress_completed = none;
  progress_total = none;
  lease_owner = some "w";
  lease_expires_at = some 400;
  heartbeat_at = some 300;
  attempt_number = 1;
  failure_code = none;
  failure_detail = none;
  created_at = 100;
  updated_at = 300;
  started_at = some 300;
  ended_at = none;
}

abbrev crashed : Library
crashed = record {
  jobs = job 11 1 JobState.running ∷ job 12 2 JobState.running ∷ job 13 3 JobState.cancelling ∷ [];
  runs = run 1 RunState.running ∷ run 2 RunState.finalizing ∷ run 3 RunState.cancelling ∷ [];
  segments =
      record {
        id = 21;
        processing_run_id = 1;
        runtime_variant_id = none;
        ordinal = 0;
        state = SegmentState.running;
        started_at = 300;
        ended_at = none;
        ended_reason = none;
        created_at = 300;
      }
      ∷ [];
}

interrupt-IsSettled_example : IsSettled (interrupt 500 crashed).0
interrupt-IsSettled_example = interrupt-IsSettled 500 crashed

interrupt_twice_example :
    interrupt 600 (interrupt 500 crashed).0 ≡ ((interrupt 500 crashed).0, no_work)
interrupt_twice_example = interrupt_twice 500 600 crashed
