-- ===== src/IndexQueue/Examples.antt =====
-- The queue at concrete batches and outcomes.
use mathlib.Core.List.{foldl}
use face_identify.Prelude.{◌≡◌, ◌==◌, Option, inl, inr, refl, none, some, List, [], ◌∷◌, arith}
use face_identify.Database.{find_where}
use face_identify.IndexQueue.Settling.{IsAttempted, settle_outcomes-IsAttempted}
use face_identify.IndexQueue.{
  Text, Uuid, Kind, add, remove, IndexOperation, OperationState, pending, NewOperation,
  append_batch,
}
use face_identify.IndexQueue.Desired.{desired, want, append_batch-refines}
use face_identify.IndexQueue.Coalescing.{IsCoalesced, append_batch-IsCoalesced}
use face_identify.IndexQueue.Outcomes.{RetryPolicy, settle_outcomes}

abbrev change : Kind → Uuid → NewOperation
change kind r = record { representation_id = r; space_id = 1; kind = kind }

abbrev row : Uuid → Kind → OperationState → IndexOperation
row id kind state = record {
  id = id;
  representation_id = 5;
  representation_space_id = 1;
  operation = kind;
  state = state;
  attempt_count = 2;
  not_before_at = 100;
  last_attempt_at = none;
  applied_at = none;
  failure_code = none;
  failure_detail = none;
  created_at = 100;
  updated_at = 100;
}

-- An ADD, then a REMOVE of the same representation, and an ADD of another.
abbrev batch : List (NewOperation × Uuid)
batch = (change add 5, 31) ∷ (change remove 5, 32) ∷ (change add 6, 33) ∷ []

abbrev queue : List IndexOperation
queue = row 30 add pending ∷ []

append_batch-refines_example :
    desired 5 (append_batch 200 batch queue).0
    ≡ foldl (λ m entry. want m entry.0) (λ s. desired s queue) batch 5
append_batch-refines_example = append_batch-refines 200 batch queue 5

append_batch-IsCoalesced_example : IsCoalesced (append_batch 200 batch queue).0
append_batch-IsCoalesced_example = append_batch-IsCoalesced 200 batch queue (tt, tt)

abbrev three_tries : RetryPolicy
three_tries = record { max_attempts = 3; backoff = λ n. n }

abbrev outcomes : List (Uuid × Option Text)
outcomes = (29, none) ∷ (30, some (98 ∷ [])) ∷ []

settle_outcomes-IsAttempted_example :
    (after : IndexOperation) × (find_where
        (λ o. o.id == 30)
        (settle_outcomes three_tries 200 outcomes queue).0
      ≡ some after)
    × IsAttempted three_tries 200 (some (98 ∷ [])) (row 30 add pending) after
settle_outcomes-IsAttempted_example =
    settle_outcomes-IsAttempted three_tries 200 outcomes queue 30 (some (98 ∷ []))
      (row 30 add pending) (omega arith) (inr (inl refl)) (unfold find_where in refl) refl
