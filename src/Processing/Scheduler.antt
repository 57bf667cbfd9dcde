-- ===== src/Processing/Scheduler.antt =====
-- backend/app/processing/scheduler.py: `ProcessingScheduler`.
use face_identify.Prelude.{ℕ, String, Bool, Option, none, some, [], ◌∷◌, ◌==◌, if◌then◌else◌}
use face_identify.Database.{Uuid, Datetime, optimistic_locked_update}
use face_identify.Jobs.Model.{JobState, JobType}
use face_identify.Jobs.{ClaimedJob, claim_next, transition}
use face_identify.Processing.Model.{
  RunState, run_is, ProcessingRun, run_versioned, Library, Result, ok, err, value_error, ◌>>=◌,
  ◌>>◌, assert, write,
}
use face_identify.People.Names.{is_empty_name}
use face_identify.Processing.Cancel.{lift, lock}
use face_identify.Processing.Segments.{append_segment}

pub record StartedProcessingJob : Type 0 where
  pub job : ClaimedJob
  pub execution_segment_id : Uuid

abbrev pub claim_detail : String
claim_detail = "the claimed job cannot start a pending processing run"

-- `_fail`, after which `_claim` returns `None`.
unfoldable pub fail :
    ClaimedJob → Datetime → String → Library → Result (Library × Option StartedProcessingJob)
fail job now code l = do
  (jobs, changed) ← lift (
      transition job.id (JobState.running ∷ []) JobState.failed now (some code) (some claim_detail)
        l.jobs)
  assert changed
  ok (record l { jobs = jobs }, none)

abbrev pub start_row : Datetime → ProcessingRun → ProcessingRun
start_row now r = record r { state = RunState.running; started_at = some now; updated_at = now }

abbrev pub is_pending_run : ProcessingRun → Bool
is_pending_run r = run_is r.state RunState.pending

-- `_claim` from the optimistic update of a pending run on.
unfoldable pub start_run :
    Datetime
    → Uuid
    → ClaimedJob
    → ProcessingRun
    → Library
    → Result (Library × Option StartedProcessingJob)
start_run now new_id job run l = do
  let (runs, changed) =
      optimistic_locked_update run.id run.revision (start_row now) is_pending_run l.runs
  assert (changed == 1)
  (segments, segment) ← append_segment run.id new_id none now l.segments
  ok (
    record l { runs = runs; segments = segments },
    some (record { job = job; execution_segment_id = segment.id }),
  )

unfoldable pub start_locked :
    Datetime
    → Uuid
    → ClaimedJob
    → Option ProcessingRun
    → Library
    → Result (Library × Option StartedProcessingJob)
start_locked now new_id job none l = fail job now "PROCESSING_RUN_NOT_PENDING" l
start_locked now new_id job (some run) l =
    if is_pending_run run
    then start_run now new_id job run l
    else fail job now "PROCESSING_RUN_NOT_PENDING" l

-- `_claim` once a job is claimed, by the run it names.
unfoldable pub start_claimed :
    Datetime
    → Uuid
    → ClaimedJob
    → Option Uuid
    → Library
    → Result (Library × Option StartedProcessingJob)
start_claimed now new_id job none l = fail job now "PROCESSING_RUN_MISSING" l
start_claimed now new_id job (some run_id) l = start_locked now new_id job (lock run_id l.runs) l

unfoldable pub start_next :
    Datetime → Uuid → Option ClaimedJob → Library → Result (Library × Option StartedProcessingJob)
start_next now new_id none l = ok (l, none)
start_next now new_id (some job) l = start_claimed now new_id job job.processing_run_id l

-- `_claim`; `new_id` is the identifier that `_new_id` gives next.
unfoldable pub claim :
    String → Datetime → ℕ → Uuid → Library → Result (Library × Option StartedProcessingJob)
claim owner now lease_for new_id l =
    let (jobs, job) = claim_next owner now lease_for (some (JobType.process_source ∷ [])) l.jobs in
    start_next now new_id job (record l { jobs = jobs })

-- `claim_source_job`; `err value_error` for a blank owner.
unfoldable pub claim_source_job :
    String → Datetime → ℕ → Uuid → Library → Library × Result (Option StartedProcessingJob)
claim_source_job owner now lease_for new_id l =
    if is_empty_name owner then (l, err value_error) else write (claim owner now lease_for new_id) l
