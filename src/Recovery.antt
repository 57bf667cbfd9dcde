-- ===== src/Recovery.antt =====
-- backend/app/recovery/startup.py: `_interrupt`, the transaction that ends the work of a process
-- that died, with `_move_jobs`, `_move_runs`, `mark_run_not_resumable` and `jobs_that_may_resume`.
-- The lists of ids that `_interrupt` returns are the ids of the rows that each `UPDATE` matches.
pub mod Convergence
mod Examples
use face_identify.Prelude.{
  ℕ, String, ◌+◌, Bool, true, false, not, ◌&&◌, ◌||◌, Option, none, some, List, [], ◌∷◌, map, ltb,
  ◌==◌, if◌then◌else◌, keep, same,
}
use face_identify.Database.{update_where, find_where}
use face_identify.Database.Ordering.{order_by}
use face_identify.Jobs.Model.{
  Uuid, Datetime, Job, JobState, JobState-discrete, state_in, finished_states,
}
use face_identify.Processing.Model.{
  RunState, RunState-discrete, run_is, run_state_in, transient_run_states, SegmentState,
  SegmentState-discrete, ProcessingRun, ExecutionSegment, Library,
}

abbrev pub job_is : JobState → Job → Bool
job_is s j = same JobState-discrete j.state s

abbrev pub run_in : RunState → ProcessingRun → Bool
run_in s r = run_is r.state s

-- `InterruptedWork`.
pub record InterruptedWork : Type 0 where
  pub jobs : List Uuid
  pub runs : List Uuid
  pub segments : List Uuid
  pub leases_cleared : List Uuid
  pub jobs_paused : List Uuid
  pub jobs_cancelled : List Uuid
  pub runs_paused : List Uuid
  pub runs_cancelled : List Uuid

-- `processing_run_id IN (SELECT id … WHERE state = FINALIZING)`.
unfoldable pub finalizing_run : Uuid → List ProcessingRun → Bool
finalizing_run id [] = false
finalizing_run id (r ∷ rs) = r.id == id && run_in RunState.finalizing r || finalizing_run id rs

abbrev pub of_finalizing_run : Option Uuid → List ProcessingRun → Bool
of_finalizing_run none runs = false
of_finalizing_run (some id) runs = finalizing_run id runs

-- The `WHERE` of the first statement.
abbrev pub is_interrupted : List ProcessingRun → Job → Bool
is_interrupted runs j =
    job_is JobState.running j && not (of_finalizing_run j.processing_run_id runs)

abbrev pub interrupt_job : Datetime → Job → Job
interrupt_job now j = record j {
  state = JobState.interrupted;
  lease_owner = none;
  lease_expires_at = none;
  updated_at = now;
}

abbrev pub interrupt_segment : Datetime → ExecutionSegment → ExecutionSegment
interrupt_segment now s = record s { state = SegmentState.interrupted; ended_at = some now }

abbrev pub is_running_segment : ExecutionSegment → Bool
is_running_segment s = same SegmentState-discrete s.state SegmentState.running

-- The values of `_move_jobs` and `_move_runs`.
abbrev pub moved_job : JobState → Datetime → Job → Job
moved_job to now j =
    let moved = record j {
      state = to;
      lease_owner = none;
      lease_expires_at = none;
      updated_at = now;
    } in
    if state_in to finished_states then record moved { ended_at = some now } else moved

abbrev pub moved_run : RunState → Datetime → ProcessingRun → ProcessingRun
moved_run to now r = record r { state = to; revision = r.revision + 1; updated_at = now }

-- `_move_jobs` and `_move_runs`.
unfoldable pub move_jobs : JobState → JobState → Datetime → List Job → List Job
move_jobs from to now jobs = (update_where (job_is from) (moved_job to now) jobs).0

unfoldable pub move_runs : RunState → RunState → Datetime → List ProcessingRun → List ProcessingRun
move_runs from to now runs = (update_where (run_in from) (moved_run to now) runs).0

abbrev pub has_lease : Job → Bool
has_lease j = some_of j.lease_owner || some_of j.lease_expires_at
  where
    some_of : {A : Type 0} → Option A → Bool
    some_of none = false
    some_of (some a) = true

abbrev pub clear_lease : Datetime → Job → Job
clear_lease now j = record j { lease_owner = none; lease_expires_at = none; updated_at = now }

abbrev before_id : Uuid → Uuid → Bool
before_id a b = ltb a b

-- `sorted(…)` of the ids of the rows that an update matches.
unfoldable pub matched_ids : {A : Type 0} → (A → Uuid) → (A → Bool) → List A → List Uuid
matched_ids id q rows = order_by before_id (map id (keep q rows))

-- `_interrupt`: its eight statements in order.
unfoldable pub interrupt : Datetime → Library → Library × InterruptedWork
interrupt now l =
    let jobs_1 = (update_where (is_interrupted l.runs) (interrupt_job now) l.jobs).0 in
    let runs_1 = move_runs RunState.running RunState.interrupted now l.runs in
    let segments = (update_where is_running_segment (interrupt_segment now) l.segments).0 in
    let jobs_2 = move_jobs JobState.pausing JobState.paused now jobs_1 in
    let jobs_3 = move_jobs JobState.cancelling JobState.cancelled now jobs_2 in
    let runs_2 = move_runs RunState.pausing RunState.paused now runs_1 in
    let runs_3 = move_runs RunState.cancelling RunState.cancelled now runs_2 in
    let jobs_4 = (update_where has_lease (clear_lease now) jobs_3).0 in
    (
      record { jobs = jobs_4; runs = runs_3; segments = segments },
      record {
        jobs = matched_ids (λ j. j.id) (is_interrupted l.runs) l.jobs;
        runs = matched_ids (λ r. r.id) (run_in RunState.running) l.runs;
        segments = matched_ids (λ s. s.id) is_running_segment l.segments;
        leases_cleared = matched_ids (λ j. j.id) has_lease jobs_3;
        jobs_paused = matched_ids (λ j. j.id) (job_is JobState.pausing) jobs_1;
        jobs_cancelled = matched_ids (λ j. j.id) (job_is JobState.cancelling) jobs_2;
        runs_paused = matched_ids (λ r. r.id) (run_in RunState.pausing) runs_1;
        runs_cancelled = matched_ids (λ r. r.id) (run_in RunState.cancelling) runs_2;
      },
    )

unfoldable pub no_work : InterruptedWork
no_work = record {
  jobs = [];
  runs = [];
  segments = [];
  leases_cleared = [];
  jobs_paused = [];
  jobs_cancelled = [];
  runs_paused = [];
  runs_cancelled = [];
}

-- `mark_run_not_resumable`.
unfoldable pub mark_run_not_resumable : Uuid → String → Datetime → Library → Library
mark_run_not_resumable run_id detail now l = record l {
  runs =
      (update_where (λ r. r.id == run_id && run_in RunState.finalizing r)
        (λ r. record r {
          state = RunState.not_resumable;
          revision = r.revision + 1;
          failure_code = some "FINAL_NOT_ACCEPTABLE";
          failure_detail = some detail;
          updated_at = now;
        })
        l.runs).0;
}

-- The state of the run of a job, by the outer join.
abbrev run_state_of : Option Uuid → List ProcessingRun → Option RunState
run_state_of none runs = none
run_state_of (some id) runs = elim (find_where (λ r. r.id == id) runs) [
  | none ↦ none
  | some r ↦ some r.state
]

abbrev is_live : Option RunState → Bool
is_live none = false
is_live (some s) = run_state_in s transient_run_states

-- `jobs_that_may_resume`: the set as the list of its members.
unfoldable pub jobs_that_may_resume : Library → List Uuid
unfolding find_where state_in run_state_in
jobs_that_may_resume l =
    map (λ j. j.id)
      (keep
        (λ j.
          not (state_in j.state finished_states)
          || is_live (run_state_of j.processing_run_id l.runs))
        l.jobs)
