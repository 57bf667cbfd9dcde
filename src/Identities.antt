-- ===== src/Identities.antt =====
-- backend/app/identities/use_cases.py: the Identity Manager. Each use case is a function of the
-- tables; where it raises, the caller rolls back. Identifiers from `new_id` and the times of `clock`
-- are arguments. This file: creating and activating an identity, assigning a representation, touching.
pub mod Model
pub mod Merge
pub mod Support
pub mod Split
pub mod Resolve
pub mod Results
pub mod Changes
pub mod Rows
pub mod Quiet
pub mod Moves
pub mod Coherence
pub mod Assignment
pub mod History
pub mod Division
pub mod Whole
pub mod Revalidation
pub mod Answers
pub mod Chains
pub mod Resolution
mod Examples
use face_identify.Prelude.{
  ℕ, ◌+◌, Bool, true, false, not, ◌&&◌, ◌||◌, Option, none, some, List, [], ◌∷◌, ◌++◌, ◌==◌,
  if◌then◌else◌, same,
}
use face_identify.Database.{Uuid, Datetime, update_where, find_where, optimistic_locked_update}
use face_identify.Memory.{
  Representation, RepresentationState, RepresentationState-discrete, AnnKeySequence,
  allocate_ann_key,
}
use face_identify.IndexQueue.{IndexOperation, Kind, OperationState}
use Model.{
  IdentityState, IdentityState-discrete, Identity, identity_versioned, EvidenceKind,
  EvidenceKind-discrete, identity_created, identity_matched, Evidence, assignment, Payload, Tables,
  IdentityError, integrity, refused, stale_revision, Result, err, ok, ◌>>=◌, ◌>>◌, need,
  get_identity, identity_is, active_row, is_id,
}

abbrev pub no_condition : Identity → Bool
no_condition i = true

-- The rows that `touch_identity` leaves, and how many it changed: with an expected revision a
-- compare-and-set, without one a plain increment.
unfoldable pub touched : Option ℕ → Datetime → Uuid → List Identity → List Identity × ℕ
unfolding update_where optimistic_locked_update
touched none now id table =
    update_where (λ i. i.id == id) (λ i. record i { revision = i.revision + 1; updated_at = now })
      table
touched (some expected) now id table =
    optimistic_locked_update id expected (λ i. record i { updated_at = now }) no_condition table

-- `touch_identity`: only the compare-and-set can fail.
abbrev pub is_stale : Option ℕ → ℕ → Bool
is_stale none n = false
is_stale (some expected) n = n == 0

unfoldable pub touch_identity : Option ℕ → Datetime → Uuid → List Identity → Result (List Identity)
unfolding touched
touch_identity expected now id table =
    let (after, n) = touched expected now id table in
    if is_stale expected n then err stale_revision else ok after

-- `_raise_activation_conflict`.
abbrev pub activation_conflict : ℕ → Option Identity → IdentityError
activation_conflict expected none = refused
activation_conflict expected (some i) =
    if not (i.revision == expected) then stale_revision else refused

-- The row that `create_pending_identity` makes; it reads the clock twice.
abbrev pub pending_identity : Uuid → Uuid → Option Uuid → Datetime → Datetime → Identity
pending_identity id run_id observation_id created updated = record {
  id = id;
  state = IdentityState.pending;
  created_by_processing_run_id = some run_id;
  representative_observation_id = observation_id;
  merged_into_identity_id = none;
  revision = 1;
  created_at = created;
  activated_at = none;
  forgotten_at = none;
  updated_at = updated;
}

-- The row is inserted where its id is new.
abbrev pub insert_identity : Option Identity → Identity → List Identity → Result (List Identity)
insert_identity (some taken) i table = err integrity
insert_identity none i table = ok (table ++ i ∷ [])

-- `create_pending_identity`.
unfoldable pub create_pending_identity :
    Uuid → Uuid → Option Uuid → Datetime → Datetime → List Identity → Result (List Identity)
unfolding get_identity
create_pending_identity id run_id observation_id created updated table =
    insert_identity (get_identity id table)
      (pending_identity id run_id observation_id created updated) table

-- `activate_identity`.
unfoldable pub activate_identity : Uuid → ℕ → Datetime → List Identity → Result (List Identity)
unfolding optimistic_locked_update get_identity IdentityState-discrete
activate_identity id expected now table =
    let (after, n) =
      optimistic_locked_update id expected
        (λ i. record i { state = IdentityState.active; activated_at = some now; updated_at = now })
        (identity_is IdentityState.pending) table in
    if n == 0 then err (activation_conflict expected (get_identity id table)) else ok after

unfoldable pub get_representation : Uuid → List Representation → Option Representation
unfolding find_where
get_representation id = find_where (λ r. r.id == id)

abbrev pub representation_is : RepresentationState → Representation → Bool
representation_is state r = same RepresentationState-discrete r.state state

abbrev pub pending_row : Option Representation → Result Representation
pending_row none = err refused
pending_row (some r) = need (representation_is RepresentationState.pending r) refused >> ok r

abbrev pub same_evidence_kind : EvidenceKind → EvidenceKind → Bool
same_evidence_kind a b = same EvidenceKind-discrete a b

-- `_has_creation_evidence`.
unfoldable pub has_creation_evidence : Uuid → List Evidence → Bool
unfolding EvidenceKind-discrete
has_creation_evidence id [] = false
has_creation_evidence id (e ∷ es) =
    is_id e.subject_identity_id id && same_evidence_kind e.kind identity_created
    || has_creation_evidence id es

-- The columns that an assignment sets.
abbrev pub assigned_row : Uuid → ℕ → Datetime → Representation → Representation
assigned_row identity_id ann_key now r = record r {
  state = RepresentationState.active;
  identity_id = some identity_id;
  ann_key = some ann_key;
  activated_at = some now;
}

-- The ADD operation, queued in the same transaction.
abbrev pub add_operation : Uuid → Datetime → Representation → IndexOperation
add_operation id now r = record {
  id = id;
  representation_id = r.id;
  representation_space_id = r.representation_space_id;
  operation = Kind.add;
  state = OperationState.pending;
  attempt_count = 0;
  not_before_at = now;
  last_attempt_at = none;
  applied_at = none;
  failure_code = none;
  failure_detail = none;
  created_at = now;
  updated_at = now;
}

abbrev pub assignment_evidence :
    Uuid → EvidenceKind → Option Uuid → Uuid → ℕ → Datetime → Representation → Evidence
assignment_evidence id kind source_id identity_id ann_key now r = record {
  id = id;
  kind = kind;
  processing_run_id = some r.processing_run_id;
  source_id = source_id;
  subject_identity_id = some identity_id;
  subject_person_id = none;
  payload_schema_version = 1;
  payload = assignment r.id ann_key;
  created_at = now;
  superseded_at = none;
}

-- `assign_representation_to_identity` once its rows have been checked; `evidence_id` and
-- `operation_id` are new.
unfoldable pub assigned :
    Uuid
    → Uuid
    → Datetime
    → EvidenceKind
    → Option Uuid
    → Representation
    → Identity
    → Tables
    → Tables
unfolding update_where allocate_ann_key touched
assigned evidence_id operation_id now kind source_id r i t =
    let (sequences, ann_key) = allocate_ann_key r.representation_space_id t.sequences in
    record t {
      sequences = sequences;
      representations =
          (update_where (λ x. x.id == r.id) (assigned_row i.id ann_key now) t.representations).0;
      identities = (touched none now i.id t.identities).0;
      evidence = assignment_evidence evidence_id kind source_id i.id ann_key now r ∷ t.evidence;
      evidence_links =
          record { evidence_id = evidence_id; representation_id = r.id } ∷ t.evidence_links;
      operations = add_operation operation_id now r ∷ t.operations;
    }

-- `assign_representation_to_identity`; the candidates that it stores with the evidence are left out.
unfoldable pub assign_representation_to_identity :
    Uuid → Uuid → Uuid → Uuid → Datetime → EvidenceKind → Option Uuid → Tables → Result Tables
unfolding EvidenceKind-discrete IdentityState-discrete RepresentationState-discrete get_identity
    get_representation has_creation_evidence
assign_representation_to_identity representation_id identity_id evidence_id operation_id now kind
      source_id t =
    do
      need (same_evidence_kind kind identity_created || same_evidence_kind kind identity_matched)
          refused
      r ← pending_row (get_representation representation_id t.representations)
      i ← active_row (get_identity identity_id t.identities)
      need
          (not (
            same_evidence_kind kind identity_created
            && has_creation_evidence identity_id t.evidence))
          refused
      ok (assigned evidence_id operation_id now kind source_id r i t)
