-- ===== src/Memory.antt =====
-- backend/app/memory/models.py and backend/app/memory/repository.py: the rows of observations,
-- representations and occurrences, their state changes, and the allocation of index keys. The JSON
-- columns and those that only tell where a row came from are left out.
pub mod Keys
mod Examples
use face_identify.Prelude.{
  ℕ, ◌+◌, ◌-◌, Bool, true, false, not, ◌&&◌, ◌||◌, Option, none, some, List, [], ◌∷◌, ltb, ◌==◌,
  if◌then◌else◌, keep, same, map,
}
use face_identify.Database.{Uuid, Datetime, update_where, find_where}
use face_identify.Database.Ordering.{order_by}
use face_identify.IndexQueue.{take}
use face_identify.Pagination.{last_of}

pub data ObservationState : Type 0 where
  pending active superseded rejected deleted : ObservationState

pub record Observation : Type 0 where
  pub id : Uuid
  pub source_id : Uuid
  pub processing_run_id : Uuid
  pub state : ObservationState
  pub sequence_in_run : ℕ
  pub created_at : Datetime
  pub superseded_by_run_id : Option Uuid

pub data RepresentationState : Type 0 where
  pending active superseded erasing erased deleted : RepresentationState

-- The vector is its bytes.
pub record Representation : Type 0 where
  pub id : Uuid
  pub observation_id : Uuid
  pub identity_id : Option Uuid
  pub processing_run_id : Uuid
  pub representation_space_id : Uuid
  pub state : RepresentationState
  pub ann_key : Option ℕ
  pub vector : Option (List ℕ)
  pub vector_dimension : ℕ
  pub created_at : Datetime
  pub activated_at : Option Datetime
  pub erased_at : Option Datetime

pub data OccurrenceKind : Type 0 where
  image track segment : OccurrenceKind

pub data OccurrenceState : Type 0 where
  pending active superseded deleted : OccurrenceState

pub record Occurrence : Type 0 where
  pub id : Uuid
  pub source_id : Uuid
  pub identity_id : Uuid
  pub processing_run_id : Uuid
  pub representative_observation_id : Option Uuid
  pub kind : OccurrenceKind
  pub state : OccurrenceState
  pub created_at : Datetime
  pub activated_at : Option Datetime

pub record OccurrenceObservation : Type 0 where
  pub occurrence_id : Uuid
  pub observation_id : Uuid
  pub ordinal : ℕ

pub record AnnKeySequence : Type 0 where
  pub representation_space_id : Uuid
  pub next_ann_key : ℕ

unfoldable pub ObservationState-discrete : Discrete ObservationState
ObservationState-discrete = hlevel

unfoldable pub RepresentationState-discrete : Discrete RepresentationState
RepresentationState-discrete = hlevel

unfoldable pub OccurrenceState-discrete : Discrete OccurrenceState
OccurrenceState-discrete = hlevel

abbrev pub observation_in : ObservationState → List ObservationState → Bool
observation_in s [] = false
observation_in s (t ∷ ts) = same ObservationState-discrete s t || observation_in s ts

abbrev pub representation_in : RepresentationState → List RepresentationState → Bool
representation_in s [] = false
representation_in s (t ∷ ts) = same RepresentationState-discrete s t || representation_in s ts

abbrev pub or_old {ℓ} : {A : Type ℓ} → Option A → Option A → Option A
or_old none old = old
or_old (some new) old = some new

-- `ObservationRepository.transition`.
unfoldable pub transition_observation :
    Uuid
    → List ObservationState
    → ObservationState
    → Option Uuid
    → List Observation
    → List Observation × Bool
unfolding update_where ObservationState-discrete
transition_observation id from_states to_state superseded_by table =
    let (after, n) =
      update_where (λ o. o.id == id && observation_in o.state from_states)
        (λ o. record o {
          state = to_state;
          superseded_by_run_id = or_old superseded_by o.superseded_by_run_id;
        })
        table in
    (after, ltb 0 n)

-- `_ERASURE_STATES`.
abbrev pub is_erasure : RepresentationState → Bool
is_erasure RepresentationState.erasing = true
is_erasure RepresentationState.erased = true
is_erasure _ = false

abbrev pub some_erasure : List RepresentationState → Bool
some_erasure [] = false
some_erasure (s ∷ ss) = is_erasure s || some_erasure ss

abbrev pub activation : RepresentationState → Datetime → Option Datetime → Option Datetime
activation RepresentationState.active now old = some now
activation _ now old = old

-- `RepresentationRepository.transition`; `none` for its `ValueError`.
unfoldable pub transition_representation :
    Uuid
    → List RepresentationState
    → RepresentationState
    → Datetime
    → List Representation
    → Option (List Representation × Bool)
unfolding update_where RepresentationState-discrete
transition_representation id from_states to_state now table =
    let (after, n) =
      update_where (λ r. r.id == id && representation_in r.state from_states)
        (λ r. record r { state = to_state; activated_at = activation to_state now r.activated_at })
        table in
    if is_erasure to_state || some_erasure from_states then none else some (after, ltb 0 n)

abbrev pub is_after : Option ℕ → ℕ → Bool
is_after none n = true
is_after (some m) n = ltb m n

-- `ObservationRepository.page_for_run`; `none` for its `ValueError`.
unfoldable pub observations_of_run :
    Uuid → ℕ → Option ℕ → List Observation → Option (List Observation)
observations_of_run run_id limit after table =
    if ltb limit 1
    then none
    else some (
        take limit (
          order_by (λ a b. ltb a.sequence_in_run b.sequence_in_run)
            (keep (λ o. o.processing_run_id == run_id && is_after after o.sequence_in_run) table)))

-- `RepresentationCursor`.
pub record RepresentationCursor : Type 0 where
  pub created_at : Datetime
  pub id : Uuid

abbrev pub is_past : Option RepresentationCursor → Representation → Bool
is_past none r = true
is_past (some c) r = ltb c.created_at r.created_at || r.created_at == c.created_at && ltb c.id r.id

abbrev pub in_states_or_any : Option (List RepresentationState) → RepresentationState → Bool
in_states_or_any none s = true
in_states_or_any (some states) s = representation_in s states

abbrev pub older_first : Representation → Representation → Bool
older_first a b = ltb a.created_at b.created_at || a.created_at == b.created_at && ltb a.id b.id

abbrev pub cursor_after : Bool → Option Representation → Option RepresentationCursor
cursor_after false o = none
cursor_after true none = none
cursor_after true (some r) = some (record { created_at = r.created_at; id = r.id })

abbrev pub count_of : List Representation → ℕ
count_of [] = 0
count_of (r ∷ rs) = count_of rs + 1

-- `RepresentationRepository.page_for_run`, over whole rows; `none` for its `ValueError`.
unfoldable pub representations_of_run :
    Uuid
    → ℕ
    → Option RepresentationCursor
    → Option (List RepresentationState)
    → List Representation
    → Option (List Representation × Option RepresentationCursor)
unfolding RepresentationState-discrete
representations_of_run run_id limit after states table =
    let rows = take (limit + 1) (
      order_by older_first (
        keep
          (λ r.
            r.processing_run_id == run_id && (in_states_or_any states r.state && is_past after r))
          table)) in
    let page = take limit rows in
    if ltb limit 1
    then none
    else some (page, cursor_after (ltb limit (count_of rows)) (last_of page))

abbrev pub sequence_or_new :
    Uuid → List AnnKeySequence → Option AnnKeySequence → List AnnKeySequence
sequence_or_new space table none =
    record { representation_space_id = space; next_ann_key = 1 } ∷ table
sequence_or_new space table (some s) = table

-- `INSERT OR IGNORE` of a sequence that starts at 1.
unfoldable pub ensure_sequence : Uuid → List AnnKeySequence → List AnnKeySequence
unfolding find_where
ensure_sequence space table =
    sequence_or_new space table (find_where (λ s. s.representation_space_id == space) table)

abbrev pub key_of_sequence : Option AnnKeySequence → ℕ
key_of_sequence none = 0
key_of_sequence (some s) = s.next_ann_key

-- `allocate_ann_key`; `scalar_one` finds the row that was just made sure of.
unfoldable pub allocate_ann_key : Uuid → List AnnKeySequence → List AnnKeySequence × ℕ
unfolding ensure_sequence find_where update_where
allocate_ann_key space table =
    let there = ensure_sequence space table in
    (
      (update_where (λ s. s.representation_space_id == space)
          (λ s. record s { next_ann_key = s.next_ann_key + 1 }) there).0,
      key_of_sequence (find_where (λ s. s.representation_space_id == space) there),
    )
