-- ===== src/Processing/Cancel/Safety.antt =====
-- What a cancellation does to the run and its job, and that repeating it is harmless.
use mathlib.Core.Path.{subst}
use face_identify.Prelude.{
  ◌+◌, ◌≡◌, refl, sym, ◌∙◌, ◌≢◌, ◌⊎◌, inl, inr, Bool, true, false, ◌&&◌, ◌||◌, Option, none, some,
  List, [], ◌∷◌, In, arith, Bool-cases, same, same→eq,
}
use face_identify.Database.{optimistic_locked_update, UniqueKeys}
use face_identify.Database.Keys.{by_key_lem, In-keep}
use face_identify.Database.Locking.{locked_hit}
use face_identify.Jobs.Model.{Uuid, Datetime, Job, JobState, JobState-discrete, state_in}
use face_identify.Jobs as JobsModule
use face_identify.Jobs.{transition, move_row, get}
use face_identify.Jobs.Contract.{IsMoved, move_row-IsMoved}
use face_identify.Jobs.Moves.{transition_lem, transition_ok}
use face_identify.Processing.Model.{
  RunState, RunState-discrete, run_is, ProcessingRun, run_versioned, Library, run_not_found,
  cannot_cancel, multiple_results, Result, ok, err, ◌>>=◌, write,
}
use face_identify.Processing.Cancel.{
  CancelOutcome, cancelled, requested, already, lock, jobs_of_run, one_or_none, state_row, any_row,
  settle, cancel_job, cancel_run, cancel_in, cancel,
}

pub record HasKeys (l : Library) : Type 0 where
  pub job_keys : UniqueKeys (λ (j : Job). j.id) l.jobs
  pub run_keys : UniqueKeys (λ (r : ProcessingRun). r.id) l.runs

-- The states that a cancellation with this outcome moves from and to.
abbrev pub job_from : CancelOutcome → JobState
job_from requested = JobState.running
job_from _ = JobState.queued

abbrev pub job_to : CancelOutcome → JobState
job_to requested = JobState.cancelling
job_to _ = JobState.cancelled

abbrev pub run_to : CancelOutcome → RunState
run_to requested = RunState.cancelling
run_to _ = RunState.cancelled

state_in_self : (s : JobState) → state_in s (s ∷ []) ≡ true
unfolding state_in
state_in_self s = ground arith

settle_lem :
    (now : Datetime) (run : ProcessingRun) (job : Job) (from to : JobState) (target : RunState)
    (l : Library) (jobs : List Job) (moved : Bool)
    → transition job.id (from ∷ []) to now none none l.jobs ≡ JobsModule.Result.ok (jobs, moved)
    → moved ≡ true
    → (optimistic_locked_update run.id run.revision (state_row target now) any_row l.runs).1 ≡ 1
    → settle now run job from to target l
      ≡ ok (record l {
        jobs = jobs;
        runs =
            (optimistic_locked_update run.id run.revision (state_row target now) any_row l.runs).0;
      })
unfolding settle
settle_lem now run job from to target l jobs moved e m n = ground arith

settled :
    (now : Datetime) (run : ProcessingRun) (job : Job) (from to : JobState) (target : RunState)
    (l : Library)
    → HasKeys l
    → lock run.id l.runs ≡ some run
    → In job l.jobs
    → job.state ≡ from
    → to ≢ JobState.running
    → (l' : Library) × (settle now run job from to target l ≡ ok l')
      × (lock run.id l'.runs
          ≡ some (record run { state = target; updated_at = now; revision = run.revision + 1 }))
      × (get job.id l'.jobs ≡ some (move_row to now none none job))
unfolding lock
settled now run job from to target l h found there s n =
    let ((jobs, moved), e) = transition_ok job.id (from ∷ []) to now none none l.jobs n in
    let t = transition_lem job (from ∷ []) to now none none l.jobs jobs moved h.job_keys there e in
    let here : state_in job.state (from ∷ []) ≡ true = rw s (state_in_self from) in
    let hit =
      locked_hit run (state_row target now) any_row l.runs h.run_keys (λ a. refl) found refl in
    (
      record l {
        jobs = jobs;
        runs =
            (optimistic_locked_update run.id run.revision (state_row target now) any_row l.runs).0;
      },
      settle_lem now run job from to target l jobs moved e (t.0 ∙ here) hit.0,
      hit.1,
      t.1 ∙ rw here refl,
    )

-- The run of a queued job is not being cancelled yet, and that of a running job is RUNNING.
abbrev pub IsCancellable : RunState → CancelOutcome → Type 0
IsCancellable state requested = state ≡ RunState.running
IsCancellable state _ = (state ≢ RunState.cancelling) × (state ≢ RunState.cancelled)

-- What a cancellation that moves anything does.
pub record Cancels (now : Datetime) (run_id : Uuid) (l l' : Library) (o : CancelOutcome)
    (run : ProcessingRun) (job : Job) : Type 0 where
  pub locked : lock run_id l.runs ≡ some run
  pub only_job : jobs_of_run run_id l.jobs ≡ job ∷ []
  pub was : job.state ≡ job_from o
  pub run_was : IsCancellable run.state o
  pub run_moved :
      lock run_id l'.runs
      ≡ some (record run { state = run_to o; updated_at = now; revision = run.revision + 1 })
  pub job_moved : (r : Job) × (get job.id l'.jobs ≡ some r) × IsMoved (job_to o) now none none job r

-- The ends of a cancellation: a repeat, which changes nothing; a move of the run and its job
-- together; or a refusal, of a run that is not there, that has no job or several, or whose job is
-- neither queued nor running with its run.
pub data CancelEnd (now : Datetime) (run_id : Uuid) (l : Library)
    : Result (Library × CancelOutcome) → Type 0 where
  repeated :
      (run : ProcessingRun)
      → lock run_id l.runs ≡ some run
      → (run.state ≡ RunState.cancelling) ⊎ (run.state ≡ RunState.cancelled)
      → CancelEnd now run_id l (ok (l, already))
  moved :
      (l' : Library) (o : CancelOutcome) (run : ProcessingRun) (job : Job)
      → o ≢ already
      → Cancels now run_id l l' o run job
      → CancelEnd now run_id l (ok (l', o))
  not_found : lock run_id l.runs ≡ none → CancelEnd now run_id l (err run_not_found)
  no_job :
      (run : ProcessingRun)
      → lock run_id l.runs ≡ some run
      → jobs_of_run run_id l.jobs ≡ []
      → CancelEnd now run_id l (err cannot_cancel)
  several_jobs :
      (x y : Job) (zs : List Job)
      → jobs_of_run run_id l.jobs ≡ x ∷ y ∷ zs
      → CancelEnd now run_id l (err multiple_results)
  not_cancellable :
      (run : ProcessingRun) (job : Job)
      → lock run_id l.runs ≡ some run
      → jobs_of_run run_id l.jobs ≡ job ∷ []
      → job.state ≢ JobState.queued
      → ((run.state ≡ RunState.running) × (job.state ≡ JobState.running) → ⊥)
      → CancelEnd now run_id l (err cannot_cancel)

not_running : (o : CancelOutcome) → job_to o ≢ JobState.running
not_running requested e = cc
not_running _ e = cc

settle_end :
    (now : Datetime) (run_id : Uuid) (run : ProcessingRun) (job : Job) (o : CancelOutcome)
    (l : Library)
    → HasKeys l
    → lock run_id l.runs ≡ some run
    → jobs_of_run run_id l.jobs ≡ job ∷ []
    → job.state ≡ job_from o
    → IsCancellable run.state o
    → o ≢ already
    → CancelEnd now run_id l
        (settle now run job (job_from o) (job_to o) (run_to o) l >>= λ after. ok (after, o))
unfolding jobs_of_run lock
settle_end now run_id run job o l h e only was able n =
    let there = (In-keep _ job l.jobs (subst (In job) (sym only) (inl refl))).0 in
    let id : run.id ≡ run_id = (by_key_lem (λ (r : ProcessingRun). r.id) run_id l.runs run e).0 in
    let here = subst (λ k. lock k l.runs ≡ some run) (sym id) e in
    let (l', s, r, j) =
      settled now run job (job_from o) (job_to o) (run_to o) l h here there was (not_running o) in
    let after = record run { state = run_to o; updated_at = now; revision = run.revision + 1 } in
    rw s (
      moved l' o run job n (record {
        locked = e;
        only_job = only;
        was = was;
        run_was = able;
        run_moved = subst (λ k. lock k l'.runs ≡ some after) id r;
        job_moved = (
          move_row (job_to o) now none none job,
          j,
          move_row-IsMoved (job_to o) now none none job,
        );
      }))

same_self : {A : Type 0} (d : Discrete A) (a b : A) → a ≡ b → same d a b ≡ false → ⊥
same_self d a b e =
    elim (d a b)
      as (λ (r : Dec (a ≡ b)). elim r as (λ _. Bool) [ yes _ ↦ true | no _ ↦ false ] ≡ false → ⊥) [
        | yes p ↦ λ q. cc
        | no n ↦ λ q. n e
      ]

and_both : (a b : Bool) → a && b ≡ true → (a ≡ true) × (b ≡ true)
and_both true b h = (refl, h)
and_both false b h = absurd (cc)

and_false : (a b : Bool) → a && b ≡ false → (a ≡ false) ⊎ (b ≡ false)
and_false true b h = inr h
and_false false b h = inl refl

or_false : (a b : Bool) → a || b ≡ false → (a ≡ false) × (b ≡ false)
or_false true b h = absurd (cc)
or_false false b h = (refl, h)

job_end :
    (now : Datetime) (run_id : Uuid) (run : ProcessingRun) (jobs : List Job) (l : Library)
    → HasKeys l
    → lock run_id l.runs ≡ some run
    → (run.state ≢ RunState.cancelling) × (run.state ≢ RunState.cancelled)
    → jobs_of_run run_id l.jobs ≡ jobs
    → CancelEnd now run_id l (one_or_none jobs >>= λ job. cancel_job now run job l)
unfolding cancel_job
job_end now run_id run [] l h e able only = no_job run e only
job_end now run_id run (x ∷ y ∷ zs) l h e able only = several_jobs x y zs only
job_end now run_id run (job ∷ []) l h e able only =
    elim (Bool-cases (same JobState-discrete job.state JobState.queued)) [
      | inl q ↦ rw q (
          settle_end now run_id run job cancelled l h e only (same→eq JobState-discrete _ _ q) able
            (λ p. cc))
      | inr q ↦
          rw q
            (elim (Bool-cases (
              run_is run.state RunState.running
              && same JobState-discrete job.state JobState.running)) [
                | inl r ↦
                    let (a, b) = and_both (run_is run.state RunState.running) _ r in
                    rw r (
                      settle_end now run_id run job requested l h e only
                        (same→eq JobState-discrete _ _ b) (same→eq RunState-discrete _ _ a)
                        (λ p. cc))
                | inr r ↦ rw r (
                    not_cancellable run job e only (λ p. same_self JobState-discrete _ _ p q)
                      (λ (a, b). elim (and_false (run_is run.state RunState.running) _ r) [
                        | inl f ↦ same_self RunState-discrete _ _ a f
                        | inr f ↦ same_self JobState-discrete _ _ b f
                      ]))
              ])
    ]

run_end :
    (now : Datetime) (run_id : Uuid) (o : Option ProcessingRun) (l : Library)
    → HasKeys l
    → lock run_id l.runs ≡ o
    → CancelEnd now run_id l (cancel_run now run_id o l)
unfolding cancel_run
run_end now run_id none l h e = not_found e
run_end now run_id (some run) l h e =
    elim (Bool-cases
      (run_is run.state RunState.cancelling || run_is run.state RunState.cancelled)) [
        | inl q ↦ rw q (repeated run e (ground arith))
        | inr q ↦
            let (a, b) = or_false (run_is run.state RunState.cancelling) _ q in
            rw q (
              job_end now run_id run (jobs_of_run run_id l.jobs) l h e
                (
                  (λ p. same_self RunState-discrete _ _ p a),
                  (λ p. same_self RunState-discrete _ _ p b),
                )
                refl)
      ]

-- With unique ids a cancellation never fails an assertion. It is a repeat for a run that is
-- CANCELLING or CANCELLED, and changes nothing; or it moves another run and its only job together,
-- both to CANCELLED where the job is QUEUED, both to CANCELLING where the job and the run are
-- RUNNING, with the run's revision one higher; or it is refused, only for a run that is not there,
-- that has no job or several, or whose only job is not QUEUED, nor RUNNING with its run.
pub cancel_ends :
    (now : Datetime) (run_id : Uuid) (l : Library)
    → HasKeys l
    → CancelEnd now run_id l (cancel_in now run_id l)
unfolding cancel_in
cancel_ends now run_id l h = run_end now run_id (lock run_id l.runs) l h refl

write_ok :
    (work : Library → Result (Library × CancelOutcome)) (l l' : Library) (o : CancelOutcome)
    → write work l ≡ (l', ok o)
    → work l ≡ ok (l', o)
write_ok work l l' o e = ground arith

write_of_ok :
    (work : Library → Result (Library × CancelOutcome)) (l l' : Library) (o : CancelOutcome)
    → work l ≡ ok (l', o)
    → write work l ≡ (l', ok o)
write_of_ok work l l' o e = ground arith

abbrev IsStopped : ProcessingRun → Type 0
IsStopped run = (run.state ≡ RunState.cancelling) ⊎ (run.state ≡ RunState.cancelled)

moved-IsStopped :
    (now : Datetime) (o : CancelOutcome) (run : ProcessingRun)
    → IsStopped (record run { state = run_to o; updated_at = now; revision = run.revision + 1 })
moved-IsStopped now requested run = inl refl
moved-IsStopped now cancelled run = inr refl
moved-IsStopped now already run = inr refl

stopped :
    (now : Datetime) (run_id : Uuid) (l l' : Library) (o : CancelOutcome)
    {r : Result (Library × CancelOutcome)}
    → CancelEnd now run_id l r
    → r ≡ ok (l', o)
    → (run : ProcessingRun) × (lock run_id l'.runs ≡ some run) × IsStopped run
stopped now run_id l l' o (repeated run found state) e = (run, ground arith, state)
stopped now run_id l l' o (moved m p run job n c) e = (
  record run { state = run_to p; updated_at = now; revision = run.revision + 1 },
  ground (arith, c.run_moved),
  moved-IsStopped now p run,
)
stopped now run_id l l' o (not_found n) e = absurd (cc)
stopped now run_id l l' o (no_job run n m) e = absurd (cc)
stopped now run_id l l' o (several_jobs x y zs n) e = absurd (cc)
stopped now run_id l l' o (not_cancellable run job f g p q) e = absurd (cc)

cancel_again :
    (now : Datetime) (run_id : Uuid) (l : Library) (run : ProcessingRun)
    → lock run_id l.runs ≡ some run
    → IsStopped run
    → cancel_in now run_id l ≡ ok (l, already)
unfolding cancel_in cancel_run RunState-discrete
cancel_again now run_id l run found (inl s) = rw (found, s) refl
cancel_again now run_id l run found (inr s) = rw (found, s) refl

-- A double click is safe: after a cancellation that succeeded, whatever its outcome, cancelling
-- again succeeds with ALREADY and changes nothing.
pub cancel_twice :
    (now later : Datetime) (run_id : Uuid) (l l' : Library) (o : CancelOutcome)
    → HasKeys l
    → cancel now run_id l ≡ (l', ok o)
    → cancel later run_id l' ≡ (l', ok already)
unfolding cancel
cancel_twice now later run_id l l' o h e =
    let done = write_ok (cancel_in now run_id) l l' o e in
    let (run, found, state) = stopped now run_id l l' o (cancel_ends now run_id l h) done in
    write_of_ok (cancel_in later run_id) l' l' already
      (cancel_again later run_id l' run found state)
