-- ===== src/Jobs/Examples.antt =====
-- The job repository at concrete tables.
use mathlib.Core.List.{foldl}
use face_identify.Prelude.{
  ℕ, ◌≡◌, refl, ◌≢◌, ◌⊎◌, ◌↔◌, inl, true, false, none, some, List, [], ◌∷◌, In, All, arith,
}
use face_identify.Database.{update_where, UniqueKeys}
use face_identify.Jobs.Model.{
  Uuid, Datetime, Job, JobType, JobState, JobPriority, ProgressMode, JobState-discrete, state_in,
}
use face_identify.Jobs.{
  ClaimedJob, Result, ok, err, value_error, get, more_urgent, eligible, chosen, claim_row, claimed,
  claim_next, transition, move_row, transient, older, set_progress, add,
}
use face_identify.Jobs.Claiming.{claims_differ}
use face_identify.Jobs.Contract.{
  IsClaimable, IsNoLater, IsMoved, claim_next_takes_most_urgent, claim_next-none, transition_moves,
}
use face_identify.Jobs.Leases.{IsTidyTable, Operation, apply, operations-IsTidyTable}

abbrev job : Uuid → JobPriority → ℕ → Datetime → Job
job id priority rank created = record {
  id = id;
  type = JobType.process_source;
  processing_run_id = some id;
  previous_job_id = none;
  state = JobState.queued;
  priority = priority;
  rank = rank;
  payload_schema_version = 1;
  payload_json = none;
  progress_mode = ProgressMode.indeterminate;
  progress_completed = none;
  progress_total = none;
  lease_owner = none;
  lease_expires_at = none;
  heartbeat_at = none;
  attempt_number = 1;
  failure_code = none;
  failure_detail = none;
  created_at = created;
  updated_at = created;
  started_at = none;
  ended_at = none;
}

abbrev old_job : Job
old_job = job 7 JobPriority.normal 2 100

abbrev urgent_job : Job
urgent_job = job 8 JobPriority.high 1 200

abbrev two_jobs : List Job
two_jobs = old_job ∷ urgent_job ∷ []

abbrev after_claim : List Job
after_claim = old_job ∷ claim_row "w" 300 360 urgent_job ∷ []

abbrev after_both : List Job
after_both = claim_row "v" 301 361 old_job ∷ claim_row "w" 300 360 urgent_job ∷ []

two_jobs_keys : UniqueKeys (λ (j : Job). j.id) two_jobs
two_jobs_keys = omega arith

first_claim : claim_next "w" 300 60 none two_jobs ≡ (after_claim, some (claimed "w" 360 urgent_job))
unfolding claim_next chosen claimed claim_row update_where
first_claim = refl

second_claim : claim_next "v" 301 60 none after_claim ≡ (after_both, some (claimed "v" 361 old_job))
unfolding claim_next chosen claimed claim_row update_where
second_claim = refl

no_claim : claim_next "u" 302 60 none after_both ≡ (after_both, none)
unfolding claim_next chosen claim_row
no_claim = refl

claim_next_takes_most_urgent_example :
    (j : Job) × In j two_jobs
    × IsClaimable none j
    × All (λ k. IsClaimable none k → IsNoLater j k) two_jobs
    × (claimed "w" 360 urgent_job ≡ record {
      id = j.id;
      type = j.type;
      processing_run_id = j.processing_run_id;
      payload_schema_version = j.payload_schema_version;
      payload_json = j.payload_json;
      attempt_number = j.attempt_number;
      lease_owner = "w";
      lease_expires_at = 360;
    })
    × (get j.id after_claim
        ≡ some (record j {
          state = JobState.running;
          lease_owner = some "w";
          lease_expires_at = some 360;
          heartbeat_at = some 300;
          started_at = some 300;
          updated_at = 300;
        }))
    × ((k : Uuid) → k ≢ j.id → get k after_claim ≡ get k two_jobs)
claim_next_takes_most_urgent_example =
    claim_next_takes_most_urgent "w" 300 60 none two_jobs after_claim (claimed "w" 360 urgent_job)
      two_jobs_keys first_claim

claim_next-none_example :
    (claim_next "u" 302 60 none after_both ≡ (after_both, none))
    ↔ ((after_both ≡ after_both) × All (λ j. IsClaimable none j → ⊥) after_both)
claim_next-none_example = claim_next-none "u" 302 60 none after_both after_both

claims_differ_example : (claimed "w" 360 urgent_job).id ≢ (claimed "v" 361 old_job).id
claims_differ_example =
    claims_differ "w" "v" 300 301 60 60 none none two_jobs after_claim after_both
      (claimed "w" 360 urgent_job) (claimed "v" 361 old_job) two_jobs_keys first_claim second_claim

-- a job becomes RUNNING by being claimed only
transition_to_running :
    transition 7 (JobState.queued ∷ []) JobState.running 300 none none two_jobs ≡ err value_error
unfolding transition JobState-discrete
transition_to_running = refl

cancelled_old :
    transition 7 (JobState.queued ∷ []) JobState.cancelled 300 none none two_jobs
    ≡ ok (move_row JobState.cancelled 300 none none old_job ∷ urgent_job ∷ [], true)
unfolding transition JobState-discrete update_where face_identify.Jobs.in_states move_row
cancelled_old = refl

abbrev after_cancel : List Job
after_cancel = move_row JobState.cancelled 300 none none old_job ∷ urgent_job ∷ []

transition_moves_example :
    (((true ≡ true)
        × In JobState.queued (JobState.queued ∷ [])
        × ((r : Job) × (get 7 after_cancel ≡ some r)
            × IsMoved JobState.cancelled 300 none none old_job r))
      ⊎ ((true ≡ false)
          × (In JobState.queued (JobState.queued ∷ []) → ⊥)
          × (get 7 after_cancel ≡ some old_job)))
    × ((k : Uuid) → k ≢ 7 → get k after_cancel ≡ get k two_jobs)
    × (JobState.cancelled ≢ JobState.running)
transition_moves_example =
    transition_moves old_job (JobState.queued ∷ []) JobState.cancelled 300 none none two_jobs
      after_cancel true two_jobs_keys (inl refl) cancelled_old

abbrev history : List Operation
history =
    Operation.claim "w" 300 60 none
    ∷ Operation.progress 8 3 (some 10) 310
    ∷ Operation.move 8 (JobState.running ∷ []) JobState.completed 320 none none
    ∷ []

two_jobs-IsTidyTable : IsTidyTable two_jobs
unfolding state_in
two_jobs-IsTidyTable = record { keys = two_jobs_keys; rows = (ground arith, (ground arith, tt)) }

leased_none :
    state_in JobState.completed (JobState.running ∷ JobState.pausing ∷ JobState.cancelling ∷ [])
    ≡ false
unfolding state_in
leased_none = refl

operations-IsTidyTable_example : IsTidyTable (foldl apply two_jobs history)
operations-IsTidyTable_example =
    operations-IsTidyTable two_jobs history (tt, (tt, ((λ e. absurd (cc leased_none)), tt)))
      two_jobs-IsTidyTable
