-- ===== src/IndexQueue.antt =====
-- backend/app/memory/index_operation_repository.py: `IndexOperationRepository`, over the rows of
-- `index_operations` (backend/app/memory/models.py). `new_id` is a list that holds an id for each
-- operation of a batch. Kinds are typed, so the `ValueError` for an unknown kind has no counterpart;
-- ids are new and the foreign keys hold, so a batch raises no `IntegrityError`.
pub mod Desired
pub mod Coalescing
pub mod Outcomes
pub mod Settling
mod Examples
use face_identify.Prelude.{
  ℕ, zero, suc, String, ◌+◌, Bool, true, false, not, ◌&&◌, ◌||◌, Option, none, some, List, [], ◌∷◌,
  ◌++◌, map, ltb, leb, ◌==◌, if◌then◌else◌, keep, same,
}
pub use face_identify.Database.{Uuid, Datetime}
use face_identify.Database.{update_where}
use face_identify.Database.Ordering.{order_by}

-- an error message, its characters' codes
abbrev pub Text : Type 0
Text = List ℕ

pub data Kind : Type 0 where
  add remove : Kind

pub data OperationState : Type 0 where
  pending applied failed : OperationState

pub record IndexOperation : Type 0 where
  pub id : Uuid
  pub representation_id : Uuid
  pub representation_space_id : Uuid
  pub operation : Kind
  pub state : OperationState
  pub attempt_count : ℕ
  pub not_before_at : Datetime
  pub last_attempt_at : Option Datetime
  pub applied_at : Option Datetime
  pub failure_code : Option String
  pub failure_detail : Option Text
  pub created_at : Datetime
  pub updated_at : Datetime

pub record NewOperation : Type 0 where
  pub representation_id : Uuid
  pub space_id : Uuid
  pub kind : Kind

pub record DueOperation : Type 0 where
  pub id : Uuid
  pub representation_id : Uuid
  pub space_id : Uuid
  pub kind : Kind

-- `_OPPOSITE`.
abbrev pub opposite : Kind → Kind
opposite add = remove
opposite remove = add

abbrev pub same_kind : Kind → Kind → Bool
same_kind add add = true
same_kind remove remove = true
same_kind _ _ = false

abbrev pub is_pending : OperationState → Bool
is_pending pending = true
is_pending _ = false

abbrev pub is_failed : OperationState → Bool
is_failed failed = true
is_failed _ = false

-- A `PENDING` row of this representation and kind.
unfoldable pub pending_for : Uuid → Kind → IndexOperation → Bool
pending_for r kind o = is_pending o.state && o.representation_id == r && same_kind o.operation kind

abbrev pub exists_where : (IndexOperation → Bool) → List IndexOperation → Bool
exists_where p [] = false
exists_where p (o ∷ os) = p o || exists_where p os

unfoldable pub new_row : Datetime → Uuid → NewOperation → IndexOperation
new_row now id op = record {
  id = id;
  representation_id = op.representation_id;
  representation_space_id = op.space_id;
  operation = op.kind;
  state = pending;
  attempt_count = 0;
  not_before_at = now;
  last_attempt_at = none;
  applied_at = none;
  failure_code = none;
  failure_detail = none;
  created_at = now;
  updated_at = now;
}

-- `DELETE … WHERE`.
unfoldable pub supersede : NewOperation → List IndexOperation → List IndexOperation
supersede op = keep (λ o. not (pending_for op.representation_id (opposite op.kind) o))

-- `INSERT … ON CONFLICT DO NOTHING … RETURNING id`.
unfoldable pub insert_pending :
    Datetime → Uuid → NewOperation → List IndexOperation → List IndexOperation × Option Uuid
insert_pending now id op table =
    if exists_where (pending_for op.representation_id op.kind) table
    then (table, none)
    else (table ++ new_row now id op ∷ [], some id)

-- The body of the loop of `append_batch`.
unfoldable pub append_one :
    Datetime → Uuid → NewOperation → List IndexOperation → List IndexOperation × Option Uuid
append_one now id op table = insert_pending now id op (supersede op table)

abbrev pub recorded : Option Uuid → List Uuid → List Uuid
recorded none ids = ids
recorded (some id) ids = id ∷ ids

-- `append_batch`: each operation with the id that `new_id` gives for it.
unfoldable pub append_batch :
    Datetime → List (NewOperation × Uuid) → List IndexOperation → List IndexOperation × List Uuid
append_batch now [] table = (table, [])
append_batch now ((op, id) ∷ ops) table =
    let (after, inserted) = append_one now id op table in
    let (last, ids) = append_batch now ops after in (last, recorded inserted ids)

-- `ORDER BY not_before_at, created_at, id`.
unfoldable pub due_before : IndexOperation → IndexOperation → Bool
due_before a b =
    ltb a.not_before_at b.not_before_at
    || a.not_before_at == b.not_before_at
      && (ltb a.created_at b.created_at || a.created_at == b.created_at && ltb a.id b.id)

abbrev pub take {ℓ} : {A : Type ℓ} → ℕ → List A → List A
take zero xs = []
take (suc n) [] = []
take (suc n) (x ∷ xs) = x ∷ take n xs

abbrev pub is_due : Datetime → IndexOperation → Bool
is_due now o = is_pending o.state && leb o.not_before_at now

abbrev as_due : IndexOperation → DueOperation
as_due o = record {
  id = o.id;
  representation_id = o.representation_id;
  space_id = o.representation_space_id;
  kind = o.operation;
}

-- `due`: the rows, and what is returned of them.
unfoldable pub due_rows : Datetime → ℕ → List IndexOperation → List IndexOperation
due_rows now limit table = take limit (order_by due_before (keep (is_due now) table))

unfoldable pub due : Datetime → ℕ → List IndexOperation → List DueOperation
due now limit table = map as_due (due_rows now limit table)

-- `ORDER BY created_at DESC, id`.
unfoldable pub newer : IndexOperation → IndexOperation → Bool
newer a b = ltb b.created_at a.created_at || a.created_at == b.created_at && ltb a.id b.id

-- `failed_ids`.
unfoldable pub failed_ids : List IndexOperation → List Uuid
failed_ids table = map (λ o. o.id) (order_by newer (keep (λ o. is_failed o.state) table))

-- The `WHERE` of `requeue`, over the table before the update.
unfoldable pub can_requeue : Uuid → List IndexOperation → IndexOperation → Bool
can_requeue id table o =
    o.id == id
    && is_failed o.state
    && not (exists_where (pending_for o.representation_id o.operation) table)

abbrev pub requeued : Datetime → IndexOperation → IndexOperation
requeued now o = record o {
  state = pending;
  attempt_count = 0;
  not_before_at = now;
  updated_at = now;
}

-- `requeue`.
unfoldable pub requeue : Uuid → Datetime → List IndexOperation → List IndexOperation × Bool
requeue id now table =
    let (after, n) = update_where (can_requeue id table) (requeued now) table in
    (after, not (n == 0))

-- `_requeue_failed_in_transaction` of index_coordinator.py: the ids are read before the loop.
requeue_each : Datetime → List Uuid → List IndexOperation → List IndexOperation × List Uuid
requeue_each now [] table = (table, [])
requeue_each now (id ∷ ids) table =
    let (after, done) = requeue id now table in
    let (last, rest) = requeue_each now ids after in (last, (if done then id ∷ rest else rest))

unfoldable pub requeue_failed : Datetime → List IndexOperation → List IndexOperation × List Uuid
unfolding requeue_each
requeue_failed now table = requeue_each now (failed_ids table) table

-- `settle`: `values` assigns the outcome's own columns.
unfoldable pub settle :
    Uuid
    → ℕ
    → Datetime
    → (IndexOperation → IndexOperation)
    → List IndexOperation
    → List IndexOperation × Bool
settle id attempts now values table =
    let (after, n) =
      update_where (λ o. o.id == id && is_pending o.state)
        (λ o. record (values o) {
          attempt_count = attempts;
          last_attempt_at = some now;
          updated_at = now;
        })
        table in
    (after, not (n == 0))
