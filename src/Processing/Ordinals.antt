-- ===== src/Processing/Ordinals.antt =====
-- The order of a run's segments and checkpoints (backend/app/processing/repository.py).
use mathlib.Core.Path.{subst}
use face_identify.Prelude.{
  ◌⊎◌, ℕ, ◌≤◌, ◌<◌, ◌≡◌, ◌≢◌, refl, sym, inl, inr, Bool, false, ◌&&◌, ◌||◌, Option, List, [], ◌∷◌,
  ◌==◌, All, All-map, arith, Bool-cases, String, none, some,
}
use face_identify.Database.{Uuid, Datetime}
use face_identify.Jobs.{ClaimedJob}
use face_identify.Processing.Scheduler.{
  StartedProcessingJob, fail, start_run, start_locked, start_claimed, start_next, claim,
  is_pending_run,
}
use face_identify.Processing.Cancel.{lock}
use face_identify.Processing.Model.{
  Failure, ProcessingRun, Library, ExecutionSegment, SegmentState-discrete, Result, ok, err,
}
use face_identify.Processing.Segments.{
  some_row, next_ordinal, is_running, new_segment, append_segment,
}

module _ {A : Type 0} (run_of : A → Uuid) (ordinal_of : A → ℕ) (run_id : Uuid) where
  abbrev pub IsBelow : ℕ → A → Type 0
  IsBelow n x = run_of x ≡ run_id → ordinal_of x < n

  next_ordinal-step :
      (x : A) (xs : List A)
      → (next_ordinal run_of ordinal_of run_id xs ≤ next_ordinal run_of ordinal_of run_id (x ∷ xs))
        × IsBelow (next_ordinal run_of ordinal_of run_id (x ∷ xs)) x
  unfolding next_ordinal
  next_ordinal-step x xs = ground arith

  -- The next ordinal is above every ordinal of the run.
  pub next_ordinal-IsBelow :
      (xs : List A) → All (IsBelow (next_ordinal run_of ordinal_of run_id xs)) xs
  next_ordinal-IsBelow [] = tt
  next_ordinal-IsBelow (x ∷ xs) =
      let s = next_ordinal-step x xs in
      (
        s.1,
        All-map (IsBelow (next_ordinal run_of ordinal_of run_id xs))
            (IsBelow (next_ordinal run_of ordinal_of run_id (x ∷ xs))) xs
            (λ y h e. let l = h e in omega (arith, s.0, l)) (next_ordinal-IsBelow xs),
      )

some_row-none :
    {A : Type 0} (p : A → Bool) (xs : List A) → some_row p xs ≡ false → All (λ x. p x ≡ false) xs
some_row-none p [] h = tt
some_row-none p (x ∷ xs) h = elim (Bool-cases (p x)) [
  | inl e ↦ absurd (let k = (rw e at h) in cc)
  | inr e ↦ (e, some_row-none p xs (rw e at h))
]

-- Two segments of one run have different ordinals, and at most one of them is running.
abbrev pub Apart : ExecutionSegment → ExecutionSegment → Type 0
Apart s t =
    s.processing_run_id ≡ t.processing_run_id
    → (s.ordinal ≢ t.ordinal) × ((is_running s && is_running t) ≡ false)

abbrev pub IsRunTable : List ExecutionSegment → Type 0
IsRunTable [] = Unit
IsRunTable (s ∷ ss) = All (Apart s) ss × IsRunTable ss

new-Apart :
    (run_id segment_id : Uuid) (variant : Option Uuid) (n : ℕ) (now : Datetime)
    (table : List ExecutionSegment)
    → All (IsBelow (λ s. s.processing_run_id) (λ s. s.ordinal) run_id n) table
    → All (λ s. (s.id == segment_id || s.processing_run_id == run_id && is_running s) ≡ false) table
    → All (Apart (new_segment run_id segment_id variant n now)) table
unfolding new_segment SegmentState-discrete
new-Apart run_id segment_id variant n now [] h k = tt
new-Apart run_id segment_id variant n now (s ∷ ss) h k = (
  (λ e. (
    (λ q. let l = h.0 (sym e) in omega (arith, q, l)),
    elim (Bool-cases (is_running s)) [ inl r ↦ absurd (let z = k.0 in ground arith) | inr r ↦ r ],
  )),
  new-Apart run_id segment_id variant n now ss h.1 k.1,
)

abbrev clashes : Uuid → Uuid → ExecutionSegment → Bool
clashes run_id segment_id s = s.id == segment_id || s.processing_run_id == run_id && is_running s

append_segment-ok :
    (run_id segment_id : Uuid) (variant : Option Uuid) (now : Datetime)
    (table after : List ExecutionSegment) (segment : ExecutionSegment)
    → append_segment run_id segment_id variant now table ≡ ok (after, segment)
    → (some_row (clashes run_id segment_id) table ≡ false)
      × (new_segment run_id segment_id variant
              (next_ordinal (λ s. s.processing_run_id) (λ s. s.ordinal) run_id table)
              now
            ∷ table
          ≡ after)
unfolding append_segment
append_segment-ok run_id segment_id variant now table after segment e =
    elim (Bool-cases (some_row (clashes run_id segment_id) table)) [
      | inl q ↦ absurd (let k = (rw q at e) in cc)
      | inr q ↦ (q, let k = (rw q at e) in cc)
    ]

-- Starting a segment keeps the table of segments in order: in a run no two segments have the same
-- ordinal, and at most one is running.
pub append_segment-IsRunTable :
    (run_id segment_id : Uuid) (variant : Option Uuid) (now : Datetime)
    (table after : List ExecutionSegment) (segment : ExecutionSegment)
    → IsRunTable table
    → append_segment run_id segment_id variant now table ≡ ok (after, segment)
    → IsRunTable after
append_segment-IsRunTable run_id segment_id variant now table after segment h e =
    let (free, q) = append_segment-ok run_id segment_id variant now table after segment e in
    subst IsRunTable q (
      new-Apart run_id segment_id variant _ now table
          (next_ordinal-IsBelow (λ s. s.processing_run_id) (λ s. s.ordinal) run_id table)
          (some_row-none (clashes run_id segment_id) table free),
      h,
    )

fail-segments :
    (job : ClaimedJob) (now : Datetime) (code : String) (l after : Library)
    (o : Option StartedProcessingJob)
    → fail job now code l ≡ ok (after, o)
    → after.segments ≡ l.segments
unfolding fail
fail-segments job now code l after o e = ground arith

Result-cases : {A : Type 0} (m : Result A) → ((a : A) × (m ≡ ok a)) ⊎ ((f : Failure) × (m ≡ err f))
Result-cases (ok a) = inl (a, refl)
Result-cases (err f) = inr (f, refl)

start_run-segments :
    (now : Datetime) (new_id : Uuid) (job : ClaimedJob) (run : ProcessingRun) (l after : Library)
    (o : Option StartedProcessingJob)
    → start_run now new_id job run l ≡ ok (after, o)
    → (s : ExecutionSegment) × (append_segment run.id new_id none now l.segments
        ≡ ok (after.segments, s))
unfolding start_run
start_run-segments now new_id job run l after o e =
    elim (Result-cases (append_segment run.id new_id none now l.segments)) [
      | inl ((segments, s), q) ↦ (s, ground arith)
      | inr (f, q) ↦ absurd (ground arith)
    ]

start_run-IsRunTable :
    (now : Datetime) (new_id : Uuid) (job : ClaimedJob) (run : ProcessingRun) (l after : Library)
    (o : Option StartedProcessingJob)
    → start_run now new_id job run l ≡ ok (after, o)
    → IsRunTable l.segments
    → IsRunTable after.segments
start_run-IsRunTable now new_id job run l after o e h =
    let (s, q) = start_run-segments now new_id job run l after o e in
    append_segment-IsRunTable run.id new_id none now l.segments after.segments s h q

fail-IsRunTable :
    (job : ClaimedJob) (now : Datetime) (code : String) (l after : Library)
    (o : Option StartedProcessingJob)
    → fail job now code l ≡ ok (after, o)
    → IsRunTable l.segments
    → IsRunTable after.segments
fail-IsRunTable job now code l after o e =
    subst IsRunTable (sym (fail-segments job now code l after o e))

start_locked-IsRunTable :
    (now : Datetime) (new_id : Uuid) (job : ClaimedJob) (run : Option ProcessingRun)
    (l after : Library) (o : Option StartedProcessingJob)
    → start_locked now new_id job run l ≡ ok (after, o)
    → IsRunTable l.segments
    → IsRunTable after.segments
unfolding start_locked
start_locked-IsRunTable now new_id job none l after o e = fail-IsRunTable job now _ l after o e
start_locked-IsRunTable now new_id job (some run) l after o e =
    elim (Bool-cases (is_pending_run run)) [
      | inl p ↦ start_run-IsRunTable now new_id job run l after o (rw p at e)
      | inr p ↦ fail-IsRunTable job now _ l after o (rw p at e)
    ]

start_claimed-IsRunTable :
    (now : Datetime) (new_id : Uuid) (job : ClaimedJob) (run_id : Option Uuid) (l after : Library)
    (o : Option StartedProcessingJob)
    → start_claimed now new_id job run_id l ≡ ok (after, o)
    → IsRunTable l.segments
    → IsRunTable after.segments
unfolding start_claimed
start_claimed-IsRunTable now new_id job none l after o e = fail-IsRunTable job now _ l after o e
start_claimed-IsRunTable now new_id job (some run_id) l after o e =
    start_locked-IsRunTable now new_id job (lock run_id l.runs) l after o e

start_next-IsRunTable :
    (now : Datetime) (new_id : Uuid) (job : Option ClaimedJob) (l after : Library)
    (o : Option StartedProcessingJob)
    → start_next now new_id job l ≡ ok (after, o)
    → IsRunTable l.segments
    → IsRunTable after.segments
unfolding start_next
start_next-IsRunTable now new_id none l after o e h = ground arith
start_next-IsRunTable now new_id (some job) l after o e h =
    start_claimed-IsRunTable now new_id job job.processing_run_id l after o e h

-- A claim of the scheduler that does not raise keeps the table of segments in order, whatever job it
-- claims: in a run no two segments have the same ordinal, and at most one is running.
pub claim-IsRunTable :
    (owner : String) (now : Datetime) (lease_for : ℕ) (new_id : Uuid) (l after : Library)
    (o : Option StartedProcessingJob)
    → claim owner now lease_for new_id l ≡ ok (after, o)
    → IsRunTable l.segments
    → IsRunTable after.segments
unfolding claim
claim-IsRunTable owner now lease_for new_id l after o e h =
    start_next-IsRunTable now new_id _ _ after o e h
