-- ===== src/IndexQueue/Desired.antt =====
-- The abstract view of the queue: for each representation, the change that is wanted of the index.
use mathlib.Core.Path.{fun_ext}
use mathlib.Core.List.{foldl}
use face_identify.Prelude.{
  ◌≡◌, refl, ap, ◌∙◌, ◌≢◌, ◌&&◌, Option, none, some, List, [], ◌∷◌, ◌++◌, ◌==◌, if◌then◌else◌,
  arith,
}
use face_identify.IndexQueue.{
  Uuid, Datetime, Kind, IndexOperation, NewOperation, is_pending, pending_for, exists_where,
  new_row, supersede, insert_pending, append_one, append_batch,
}

-- The kind of the first pending row of a representation.
pub desired : Uuid → List IndexOperation → Option Kind
desired r [] = none
desired r (o ∷ os) =
    let rest = desired r os in
    if is_pending o.state && o.representation_id == r then some o.operation else rest

-- A map from representations to wanted changes, and the change of one entry.
abbrev pub Wanted : Type 0
Wanted = Uuid → Option Kind

abbrev pub want : Wanted → NewOperation → Wanted
want m op r = if op.representation_id == r then some op.kind else m r

desired-supersede_other :
    (op : NewOperation) (r : Uuid) (table : List IndexOperation)
    → op.representation_id ≢ r
    → desired r (supersede op table) ≡ desired r table
unfolding desired supersede pending_for
desired-supersede_other op r [] n = refl
desired-supersede_other op r (o ∷ os) n = ground (arith, desired-supersede_other op r os n)

-- after the delete, what is pending for the representation is of the new kind
desired-supersede_self :
    (op : NewOperation) (table : List IndexOperation)
    → desired op.representation_id (supersede op table) ≡ (
        if exists_where (pending_for op.representation_id op.kind) (supersede op table)
        then some op.kind
        else none)
unfolding desired supersede pending_for
desired-supersede_self op [] = refl
desired-supersede_self op (o ∷ os) = ground (arith, desired-supersede_self op os)

desired-insert :
    (now : Datetime) (id : Uuid) (op : NewOperation) (r : Uuid) (table : List IndexOperation)
    → desired r (table ++ new_row now id op ∷ []) ≡ (
        if op.representation_id == r
        then (elim (desired r table) [ none ↦ some op.kind | some k ↦ some k ])
        else desired r table)
unfolding desired new_row
desired-insert now id op r [] = ground arith
desired-insert now id op r (o ∷ os) = ground (arith, desired-insert now id op r os)

-- One operation sets what is wanted of its representation, and of no other.
desired-append_one :
    (now : Datetime) (id : Uuid) (op : NewOperation) (table : List IndexOperation) (r : Uuid)
    → desired r (append_one now id op table).0 ≡ want (λ s. desired s table) op r
unfolding append_one insert_pending
desired-append_one now id op table r = ground (
  arith,
  desired-insert now id op r (supersede op table),
  desired-supersede_self op table,
  desired-supersede_other op r table,
)

-- `append_batch` refines a sequence of assignments to the map of wanted changes: the last operation
-- of a batch for a representation decides, an earlier or older pending one is superseded, and what
-- is wanted of the representations that the batch does not name stays.
pub append_batch-refines :
    (now : Datetime) (ops : List (NewOperation × Uuid)) (table : List IndexOperation) (r : Uuid)
    → desired r (append_batch now ops table).0
      ≡ foldl (λ m entry. want m entry.0) (λ s. desired s table) ops r
unfolding append_batch
append_batch-refines now [] table r = refl
append_batch-refines now ((op, id) ∷ ops) table r =
    append_batch-refines now ops (append_one now id op table).0 r
    ∙ ap
        (λ (m : Wanted).
          foldl (λ (n : Wanted) (entry : NewOperation × Uuid). want n entry.0) m ops r)
        (fun_ext (desired-append_one now id op table))
