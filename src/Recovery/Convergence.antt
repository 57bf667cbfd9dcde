-- ===== src/Recovery/Convergence.antt =====
-- One run of the recovery transaction settles everything it looks at, and a second finds nothing.
use face_identify.Prelude.{
  ◌≡◌, refl, ap, ◌∙◌, Bool, false, not, ◌&&◌, Option, none, some, List, [], ◌∷◌, All, All-map,
  arith,
}
use face_identify.Database.{update_where}
use face_identify.Database.Ordering.{order_by}
use face_identify.Database.Keys.{All-update_where_from, update_where-none, All-true}
use face_identify.Jobs.Model.{Uuid, Datetime, Job, JobState, JobState-discrete, state_in}
use face_identify.Processing.Model.{
  RunState, RunState-discrete, run_is, SegmentState-discrete, ProcessingRun, Library,
}
use face_identify.Recovery.{
  job_is, run_in, finalizing_run, of_finalizing_run, is_interrupted, interrupt_job,
  interrupt_segment, is_running_segment, moved_job, moved_run, move_jobs, move_runs, has_lease,
  clear_lease, matched_ids, interrupt, no_work,
}

-- No worker holds the job, unless acceptance still needs it.
pub record IsSettledJob (runs : List ProcessingRun) (j : Job) : Type 0 where
  pub not_running : is_interrupted runs j ≡ false
  pub not_pausing : job_is JobState.pausing j ≡ false
  pub not_cancelling : job_is JobState.cancelling j ≡ false
  pub no_lease : has_lease j ≡ false

pub record IsSettledRun (r : ProcessingRun) : Type 0 where
  pub not_running : run_in RunState.running r ≡ false
  pub not_pausing : run_in RunState.pausing r ≡ false
  pub not_cancelling : run_in RunState.cancelling r ≡ false

pub record IsSettled (l : Library) : Type 0 where
  pub jobs : All (IsSettledJob l.runs) l.jobs
  pub runs : All IsSettledRun l.runs
  pub segments : All (λ s. is_running_segment s ≡ false) l.segments

finalizing-move_runs :
    (from to : RunState) (now : Datetime) (id : Uuid) (runs : List ProcessingRun)
    → run_is from RunState.finalizing ≡ false
    → run_is to RunState.finalizing ≡ false
    → finalizing_run id (move_runs from to now runs) ≡ finalizing_run id runs
unfolding move_runs update_where finalizing_run
finalizing-move_runs from to now id [] a b = refl
finalizing-move_runs from to now id (r ∷ rs) a b =
    ground (arith, finalizing-move_runs from to now id rs a b)

runs_settled : (now : Datetime) (l : Library) → All IsSettledRun (interrupt now l).0.runs
unfolding interrupt move_runs RunState-discrete
runs_settled now l =
    let R₁ = λ (r : ProcessingRun). run_in RunState.running r ≡ false in
    let R₂ = λ (r : ProcessingRun).
      (run_in RunState.running r ≡ false) × (run_in RunState.pausing r ≡ false) in
    let one =
      All-update_where_from (λ _. Unit {0}) R₁ (run_in RunState.running)
        (moved_run RunState.interrupted now) l.runs (λ r _ _. refl) (λ r _ e. e)
        (All-true l.runs) in
    let two =
      All-update_where_from R₁ R₂ (run_in RunState.pausing) (moved_run RunState.paused now) _
        (λ r _ _. (refl, refl)) (λ r h e. (h, e)) one in
    All-update_where_from R₂ IsSettledRun (run_in RunState.cancelling)
      (moved_run RunState.cancelled now) _
      (λ r _ _. record { not_running = refl; not_pausing = refl; not_cancelling = refl })
      (λ r h e. record { not_running = h.0; not_pausing = h.1; not_cancelling = e }) two

segments_settled :
    (now : Datetime) (l : Library)
    → All (λ s. is_running_segment s ≡ false) (interrupt now l).0.segments
unfolding interrupt SegmentState-discrete
segments_settled now l =
    All-update_where_from (λ _. Unit {0}) _ is_running_segment (interrupt_segment now) l.segments
      (λ s _ _. refl) (λ s _ e. e) (All-true l.segments)

-- the finalizing runs are those of before
same_finalizing :
    (now : Datetime) (l : Library) (j : Job)
    → is_interrupted (interrupt now l).0.runs j ≡ is_interrupted l.runs j
unfolding interrupt RunState-discrete
same_finalizing now l j =
    ap (λ (b : Bool). job_is JobState.running j && not b) (same_runs j.processing_run_id)
  where
    same_runs :
        (o : Option Uuid)
        → of_finalizing_run o (interrupt now l).0.runs ≡ of_finalizing_run o l.runs
    same_runs none = refl
    same_runs (some id) =
        let runs_1 = move_runs RunState.running RunState.interrupted now l.runs in
        let runs_2 = move_runs RunState.pausing RunState.paused now runs_1 in
        finalizing-move_runs RunState.cancelling RunState.cancelled now id runs_2 refl refl
        ∙ finalizing-move_runs RunState.pausing RunState.paused now id runs_1 refl refl
        ∙ finalizing-move_runs RunState.running RunState.interrupted now id l.runs refl refl

jobs_settled : (now : Datetime) (l : Library) → All (IsSettledJob l.runs) (interrupt now l).0.jobs
unfolding interrupt move_jobs JobState-discrete state_in
jobs_settled now l =
    let J₁ = λ (j : Job). is_interrupted l.runs j ≡ false in
    let J₂ = λ (j : Job). (is_interrupted l.runs j ≡ false) × (job_is JobState.pausing j ≡ false) in
    let J₃ = λ (j : Job).
      (is_interrupted l.runs j ≡ false)
      × (job_is JobState.pausing j ≡ false)
      × (job_is JobState.cancelling j ≡ false) in
    let one =
      All-update_where_from (λ _. Unit {0}) J₁ (is_interrupted l.runs) (interrupt_job now) l.jobs
        (λ j _ _. refl) (λ j _ e. e) (All-true l.jobs) in
    let two =
      All-update_where_from J₁ J₂ (job_is JobState.pausing) (moved_job JobState.paused now) _
        (λ j _ _. (refl, refl)) (λ j h e. (h, e)) one in
    let three =
      All-update_where_from J₂ J₃ (job_is JobState.cancelling) (moved_job JobState.cancelled now) _
        (λ j _ _. (refl, refl, refl)) (λ j h e. (h.0, h.1, e)) two in
    All-update_where_from J₃ (IsSettledJob l.runs) has_lease (clear_lease now) _
      (λ j h _. record {
        not_running = h.0;
        not_pausing = h.1;
        not_cancelling = h.2;
        no_lease = refl;
      })
      (λ j h e. record { not_running = h.0; not_pausing = h.1; not_cancelling = h.2; no_lease = e })
      three

-- After the recovery transaction no job is RUNNING but of a FINALIZING run, none is PAUSING or
-- CANCELLING, none has a lease owner or expiry; no run is RUNNING, PAUSING or CANCELLING, and no
-- segment is RUNNING. This holds of every state that a crash can leave.
pub interrupt-IsSettled : (now : Datetime) (l : Library) → IsSettled (interrupt now l).0
interrupt-IsSettled now l = record {
  jobs =
      All-map (IsSettledJob l.runs) (IsSettledJob (interrupt now l).0.runs) _
        (λ j h. record {
          not_running = same_finalizing now l j ∙ h.not_running;
          not_pausing = h.not_pausing;
          not_cancelling = h.not_cancelling;
          no_lease = h.no_lease;
        })
        (jobs_settled now l);
  runs = runs_settled now l;
  segments = segments_settled now l;
}

-- A settled library is left as it is, and nothing is reported.
settled_unchanged : (now : Datetime) (l : Library) → IsSettled l → interrupt now l ≡ (l, no_work)
unfolding interrupt move_jobs move_runs matched_ids order_by no_work
settled_unchanged now l h =
    let (a, a') =
      update_where-none (is_interrupted l.runs) (interrupt_job now) l.jobs
        (All-map (IsSettledJob l.runs) _ l.jobs (λ j t. t.not_running) h.jobs) in
    let (b, b') =
      update_where-none (job_is JobState.pausing) (moved_job JobState.paused now) l.jobs
        (All-map (IsSettledJob l.runs) _ l.jobs (λ j t. t.not_pausing) h.jobs) in
    let (c, c') =
      update_where-none (job_is JobState.cancelling) (moved_job JobState.cancelled now) l.jobs
        (All-map (IsSettledJob l.runs) _ l.jobs (λ j t. t.not_cancelling) h.jobs) in
    let (d, d') =
      update_where-none has_lease (clear_lease now) l.jobs
        (All-map (IsSettledJob l.runs) _ l.jobs (λ j t. t.no_lease) h.jobs) in
    let (e, e') =
      update_where-none (run_in RunState.running) (moved_run RunState.interrupted now) l.runs
        (All-map IsSettledRun _ l.runs (λ j t. t.not_running) h.runs) in
    let (f, f') =
      update_where-none (run_in RunState.pausing) (moved_run RunState.paused now) l.runs
        (All-map IsSettledRun _ l.runs (λ j t. t.not_pausing) h.runs) in
    let (g, g') =
      update_where-none (run_in RunState.cancelling) (moved_run RunState.cancelled now) l.runs
        (All-map IsSettledRun _ l.runs (λ j t. t.not_cancelling) h.runs) in
    let (s, s') =
      update_where-none is_running_segment (interrupt_segment now) l.segments h.segments in
    simp (a, b, c, d, e, f, g, s, a', b', c', d', e', f', g', s')

-- Recovery is idempotent: a second run of the transaction, at any later time, changes nothing and
-- reports no work.
pub interrupt_twice :
    (now later : Datetime) (l : Library)
    → let l' = (interrupt now l).0 in interrupt later l' ≡ (l', no_work)
interrupt_twice now later l =
    settled_unchanged later (interrupt now l).0 (interrupt-IsSettled now l)
