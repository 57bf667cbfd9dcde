-- ===== src/Processing/Model.antt =====
-- backend/app/processing/models.py: the rows of `processing_runs` and `execution_segments`, the
-- tables that one transaction reads and writes, and the transaction itself (unit_of_work.py,
-- `UnitOfWork.write` on an attempt that the database does not refuse as busy).
use face_identify.Prelude.{ℕ, String, refl, Bool, true, false, ◌||◌, Option, List, [], ◌∷◌, same}
use face_identify.Database.{Versioned}
use face_identify.Jobs.Model.{Uuid, Datetime, Job}

pub data RunState : Type 0 where
  pending running pausing paused cancelling cancelled finalizing completed failed interrupted
        not_resumable :
      RunState

pub data SegmentState : Type 0 where
  running completed failed interrupted abandoned : SegmentState

pub data EndReason : Type 0 where
  normal fallback cuda_oom worker_crash cancelled shutdown : EndReason

unfoldable pub RunState-discrete : Discrete RunState
RunState-discrete = hlevel

unfoldable pub SegmentState-discrete : Discrete SegmentState
SegmentState-discrete = hlevel

abbrev pub run_is : RunState → RunState → Bool
run_is a b = same RunState-discrete a b

-- `state in states`.
unfoldable pub run_state_in : RunState → List RunState → Bool
unfolding RunState-discrete
run_state_in s [] = false
run_state_in s (x ∷ xs) = run_is s x || run_state_in s xs

-- `TRANSIENT_RUN_STATES`.
abbrev pub transient_run_states : List RunState
transient_run_states =
    RunState.pending ∷ RunState.running ∷ pausing ∷ paused ∷ cancelling ∷ finalizing
    ∷ RunState.interrupted ∷ []

pub record ProcessingRun : Type 0 where
  pub id : Uuid
  pub source_id : Uuid
  pub configuration_snapshot_id : Uuid
  pub parent_run_id : Option Uuid
  pub state : RunState
  pub requested_at : Datetime
  pub started_at : Option Datetime
  pub completed_at : Option Datetime
  pub failed_at : Option Datetime
  pub failure_code : Option String
  pub failure_detail : Option String
  pub current_checkpoint_id : Option Uuid
  pub revision : ℕ
  pub created_at : Datetime
  pub updated_at : Datetime

pub record ExecutionSegment : Type 0 where
  pub id : Uuid
  pub processing_run_id : Uuid
  pub runtime_variant_id : Option Uuid
  pub ordinal : ℕ
  pub state : SegmentState
  pub started_at : Datetime
  pub ended_at : Option Datetime
  pub ended_reason : Option EndReason
  pub created_at : Datetime

abbrev set_run_revision : ProcessingRun → ℕ → ProcessingRun
set_run_revision r n = record r { revision = n }

instance abbrev pub run_versioned : Versioned ProcessingRun
run_versioned = record {
  row_id = λ r. r.id;
  revision = λ r. r.revision;
  set_revision = set_run_revision;
  revision-set = λ r n. refl;
  row_id-set = λ r n. refl;
}

-- The tables of the library that these use cases touch.
pub record Library : Type 0 where
  pub jobs : List Job
  pub runs : List ProcessingRun
  pub segments : List ExecutionSegment

pub data Failure : Type 0 where
  -- `RunNotFoundError`, `CancelError`
  run_not_found cannot_cancel : Failure
  -- `ProcessSourceError`
  cannot_process : Failure
  -- SQLAlchemy's `MultipleResultsFound`, `IntegrityError`; `AssertionError`, `ValueError`
  multiple_results integrity_error assertion_error value_error : Failure

-- What a statement of these use cases gives: it may raise.
pub data Result {ℓ} (A : Type ℓ) : Type ℓ where
  err : Failure → Result A
  ok : A → Result A

abbrev pub ◌>>=◌ {ℓ κ} :
    {A : Type ℓ} {B : Type κ} (first : Result A) (next : A → Result B) → Result B
err failure >>= next = err failure
ok value >>= next = next value

abbrev pub ◌>>◌ {κ} : {B : Type κ} (first : Result (Unit {0})) (next : Result B) → Result B
err failure >> next = err failure
ok value >> next = next

infixl 5 ◌>>=◌ ◌>>◌
-- `assert b`.
abbrev pub assert : Bool → Result (Unit {0})
assert true = ok tt
assert false = err assertion_error

-- `UnitOfWork.write`: the work's changes are committed, or rolled back where it raises.
abbrev pub write : {A : Type 0} → (Library → Result (Library × A)) → Library → Library × Result A
write work library = elim (work library) [
  | ok (after, a) ↦ (after, ok a)
  | err e ↦ (library, err e)
]
