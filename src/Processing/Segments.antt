-- ===== src/Processing/Segments.antt =====
-- backend/app/processing/repository.py: `SegmentRepository` and `CheckpointRepository`. The JSON of
-- a row is left out; the unique indices of the two tables are the integrity errors.
use face_identify.Prelude.{
  ℕ, String, ◌+◌, Bool, true, false, ◌&&◌, ◌||◌, Option, none, some, List, [], ◌∷◌, ltb, leb, ◌==◌,
  if◌then◌else◌, same, keep, head?,
}
use face_identify.Database.{Uuid, Datetime, update_where, find_where}
use face_identify.Processing.Cancel.{one_or_none}
use face_identify.Database.Ordering.{order_by}
use face_identify.Processing.Model.{
  SegmentState, SegmentState-discrete, EndReason, ExecutionSegment, integrity_error, value_error,
  Result, ok, err,
}

pub data CheckpointKind : Type 0 where
  intermediate final : CheckpointKind

pub data CheckpointState : Type 0 where
  valid invalidated : CheckpointState

pub record ProcessingCheckpoint : Type 0 where
  pub id : Uuid
  pub processing_run_id : Uuid
  pub execution_segment_id : Option Uuid
  pub ordinal : ℕ
  pub kind : CheckpointKind
  pub state : CheckpointState
  pub payload_schema_version : ℕ
  pub created_at : Datetime
  pub invalidated_at : Option Datetime
  pub invalidated_reason : Option String

abbrev pub some_row {ℓ} : {A : Type ℓ} → (A → Bool) → List A → Bool
some_row p [] = false
some_row p (x ∷ xs) = p x || some_row p xs

-- `_next_ordinal`: `COALESCE(MAX(ordinal), -1) + 1` of the run's rows.
unfoldable pub next_ordinal {ℓ} : {A : Type ℓ} → (A → Uuid) → (A → ℕ) → Uuid → List A → ℕ
next_ordinal run_of ordinal_of run_id [] = 0
next_ordinal run_of ordinal_of run_id (x ∷ xs) =
    let rest = next_ordinal run_of ordinal_of run_id xs in
    if run_of x == run_id && leb rest (ordinal_of x) then ordinal_of x + 1 else rest

abbrev pub is_running : ExecutionSegment → Bool
is_running s = same SegmentState-discrete s.state SegmentState.running

unfoldable pub new_segment : Uuid → Uuid → Option Uuid → ℕ → Datetime → ExecutionSegment
new_segment run_id segment_id runtime_variant_id ordinal now = record {
  id = segment_id;
  processing_run_id = run_id;
  runtime_variant_id = runtime_variant_id;
  ordinal = ordinal;
  state = SegmentState.running;
  started_at = now;
  ended_at = none;
  ended_reason = none;
  created_at = now;
}

-- `SegmentRepository.append`: the key and `uq_execution_segments_one_running_per_run` refuse.
unfoldable pub append_segment :
    Uuid
    → Uuid
    → Option Uuid
    → Datetime
    → List ExecutionSegment
    → Result (List ExecutionSegment × ExecutionSegment)
unfolding next_ordinal new_segment
append_segment run_id segment_id runtime_variant_id now table =
    let segment =
      new_segment run_id segment_id runtime_variant_id
        (next_ordinal (λ s. s.processing_run_id) (λ s. s.ordinal) run_id table) now in
    if some_row (λ s. s.id == segment_id || s.processing_run_id == run_id && is_running s) table
    then err integrity_error
    else ok (segment ∷ table, segment)

unfoldable pub get_segment : Uuid → List ExecutionSegment → Option ExecutionSegment
unfolding find_where
get_segment segment_id = find_where (λ s. s.id == segment_id)

abbrev pub before_ordinal : ExecutionSegment → ExecutionSegment → Bool
before_ordinal a b = ltb a.ordinal b.ordinal

unfoldable pub list_for_run : Uuid → List ExecutionSegment → List ExecutionSegment
list_for_run run_id table =
    order_by before_ordinal (keep (λ s. s.processing_run_id == run_id) table)

-- `_CLOSED_SEGMENT_STATES`.
abbrev pub closes : SegmentState → Bool
closes SegmentState.running = false
closes _ = true

abbrev pub close_row :
    SegmentState → Option EndReason → Datetime → ExecutionSegment → ExecutionSegment
close_row state reason now s = record s {
  state = state;
  ended_reason = reason;
  ended_at = some now;
}

unfoldable pub close_segment :
    Uuid
    → SegmentState
    → Option EndReason
    → Datetime
    → List ExecutionSegment
    → Result (List ExecutionSegment × Bool)
unfolding update_where
close_segment segment_id state reason now table =
    let (after, n) =
      update_where (λ s. s.id == segment_id && is_running s) (close_row state reason now) table in
    if closes state then ok (after, ltb 0 n) else err value_error

abbrev pub is_valid : ProcessingCheckpoint → Bool
is_valid c = elim c.state [ CheckpointState.valid ↦ true | CheckpointState.invalidated ↦ false ]

abbrev pub is_final : CheckpointKind → Bool
is_final final = true
is_final intermediate = false

unfoldable pub new_checkpoint :
    Uuid → Uuid → Option Uuid → CheckpointKind → ℕ → ℕ → Datetime → ProcessingCheckpoint
new_checkpoint run_id checkpoint_id segment_id kind version ordinal now = record {
  id = checkpoint_id;
  processing_run_id = run_id;
  execution_segment_id = segment_id;
  ordinal = ordinal;
  kind = kind;
  state = CheckpointState.valid;
  payload_schema_version = version;
  created_at = now;
  invalidated_at = none;
  invalidated_reason = none;
}

-- What the key and `uq_processing_checkpoints_one_valid_final_per_run` refuse.
unfoldable pub checkpoint_clash : Uuid → Uuid → CheckpointKind → ProcessingCheckpoint → Bool
checkpoint_clash run_id checkpoint_id kind c =
    c.id == checkpoint_id
    || c.processing_run_id == run_id && (is_valid c && (is_final c.kind && is_final kind))

-- `CheckpointRepository.append`.
unfoldable pub append_checkpoint :
    Uuid
    → Uuid
    → Option Uuid
    → CheckpointKind
    → ℕ
    → Datetime
    → List ProcessingCheckpoint
    → Result (List ProcessingCheckpoint × ProcessingCheckpoint)
unfolding next_ordinal new_checkpoint checkpoint_clash
append_checkpoint run_id checkpoint_id segment_id kind version now table =
    let checkpoint =
      new_checkpoint run_id checkpoint_id segment_id kind version
        (next_ordinal (λ c. c.processing_run_id) (λ c. c.ordinal) run_id table) now in
    if some_row (checkpoint_clash run_id checkpoint_id kind) table
    then err integrity_error
    else ok (checkpoint ∷ table, checkpoint)

unfoldable pub get_checkpoint : Uuid → List ProcessingCheckpoint → Option ProcessingCheckpoint
unfolding find_where
get_checkpoint checkpoint_id = find_where (λ c. c.id == checkpoint_id)

abbrev pub is_below : Option ℕ → ℕ → Bool
is_below none n = true
is_below (some limit) n = ltb n limit

-- `latest_valid`: `ORDER BY ordinal DESC LIMIT 1`.
unfoldable pub latest_valid :
    Uuid → Option ℕ → List ProcessingCheckpoint → Option ProcessingCheckpoint
latest_valid run_id limit table = head? (
    order_by (λ a b. ltb b.ordinal a.ordinal)
      (keep (λ c. c.processing_run_id == run_id && (is_valid c && is_below limit c.ordinal)) table))

unfoldable pub final_valid : Uuid → List ProcessingCheckpoint → Result (Option ProcessingCheckpoint)
final_valid run_id table =
    one_or_none (keep (λ c. c.processing_run_id == run_id && (is_final c.kind && is_valid c)) table)

unfoldable pub invalidate :
    Uuid → String → Datetime → List ProcessingCheckpoint → List ProcessingCheckpoint × Bool
unfolding update_where
invalidate checkpoint_id reason now table =
    let (after, n) =
      update_where (λ c. c.id == checkpoint_id && is_valid c)
        (λ c. record c {
          state = CheckpointState.invalidated;
          invalidated_at = some now;
          invalidated_reason = some reason;
        })
        table in
    (after, ltb 0 n)
