-- ===== src/Processing/Cancel.antt =====
-- backend/app/processing/cancel.py: `CancelProcessingUseCase`.
pub mod Safety
use face_identify.Prelude.{
  ℕ, ◌+◌, Bool, true, false, ◌&&◌, ◌||◌, Option, none, some, List, [], ◌∷◌, ◌==◌, if◌then◌else◌,
  keep, same,
}
use face_identify.Database.{find_where, optimistic_locked_update}
use face_identify.Jobs.Model.{Uuid, Datetime, Job, JobState, JobState-discrete}
use face_identify.Jobs as JobsModule
use face_identify.Jobs.{transition}
use face_identify.Processing.Model.{
  RunState, RunState-discrete, run_is, ProcessingRun, run_versioned, Library, Failure,
  run_not_found, cannot_cancel, multiple_results, assertion_error, value_error, integrity_error,
  Result, ok, err, ◌>>=◌, ◌>>◌, assert, write,
}

pub data CancelOutcome : Type 0 where
  cancelled requested already : CancelOutcome

-- `ProcessingRunRepository.lock`: the update that takes the lock sets `revision` to itself.
unfoldable pub lock : Uuid → List ProcessingRun → Option ProcessingRun
unfolding find_where
lock run_id = find_where (λ r. r.id == run_id)

abbrev pub is_of_run : Uuid → Option Uuid → Bool
is_of_run run_id none = false
is_of_run run_id (some r) = r == run_id

-- `one_or_none` of the jobs of a run.
abbrev pub one_or_none : {A : Type 0} → List A → Result (Option A)
one_or_none [] = ok none
one_or_none (x ∷ []) = ok (some x)
one_or_none (x ∷ y ∷ zs) = err multiple_results

unfoldable pub jobs_of_run : Uuid → List Job → List Job
jobs_of_run run_id = keep (λ j. is_of_run run_id j.processing_run_id)

-- What the job repository raises, as a failure of the use case.
abbrev pub lift {ℓ} : {A : Type ℓ} → JobsModule.Result A → Result A
lift (JobsModule.Result.ok a) = ok a
lift (JobsModule.Result.err JobsModule.value_error) = err value_error
lift (JobsModule.Result.err JobsModule.integrity_error) = err integrity_error

abbrev pub state_row : RunState → Datetime → ProcessingRun → ProcessingRun
state_row to now r = record r { state = to; updated_at = now }

abbrev pub any_row : ProcessingRun → Bool
any_row r = true

-- `_settle`.
unfoldable pub settle :
    Datetime → ProcessingRun → Job → JobState → JobState → RunState → Library → Result Library
settle now run job job_from job_to run_to l = do
  (jobs, moved) ← lift (transition job.id (job_from ∷ []) job_to now none none l.jobs)
  let (runs, updated) =
      optimistic_locked_update run.id run.revision (state_row run_to now) any_row l.runs
  assert moved
  assert (updated == 1)
  ok (record l { jobs = jobs; runs = runs })

-- The job of a locked run that is neither CANCELLING nor CANCELLED.
unfoldable pub cancel_job :
    Datetime → ProcessingRun → Option Job → Library → Result (Library × CancelOutcome)
cancel_job now run none l = err cannot_cancel
cancel_job now run (some job) l =
    if same JobState-discrete job.state JobState.queued
    then (do
      after ← settle now run job JobState.queued JobState.cancelled RunState.cancelled l
      ok (after, CancelOutcome.cancelled))
    else if run_is run.state RunState.running && same JobState-discrete job.state JobState.running
    then (do
      after ← settle now run job JobState.running JobState.cancelling RunState.cancelling l
      ok (after, requested))
    else err cannot_cancel

unfoldable pub cancel_run :
    Datetime → Uuid → Option ProcessingRun → Library → Result (Library × CancelOutcome)
cancel_run now run_id none l = err run_not_found
cancel_run now run_id (some run) l =
    if run_is run.state RunState.cancelling || run_is run.state RunState.cancelled
    then ok (l, already)
    else do job ← one_or_none (jobs_of_run run_id l.jobs); cancel_job now run job l

-- `_cancel` and `cancel`; `now` is what the clock says in `_settle`.
unfoldable pub cancel_in : Datetime → Uuid → Library → Result (Library × CancelOutcome)
cancel_in now run_id l = cancel_run now run_id (lock run_id l.runs) l

unfoldable pub cancel : Datetime → Uuid → Library → Library × Result CancelOutcome
cancel now run_id = write (cancel_in now run_id)
