-- ===== src/IndexQueue/Coalescing.antt =====
-- At most one pending operation of a representation, and where that ends.
use face_identify.Prelude.{
  ◌≡◌, Bool, false, not, ◌&&◌, List, [], ◌∷◌, ◌++◌, ◌==◌, All, arith, Bool-cases, inl, inr,
}
use face_identify.IndexQueue.{
  Uuid, Datetime, IndexOperation, NewOperation, opposite, is_pending, pending_for, exists_where,
  new_row, supersede, insert_pending, append_one, append_batch,
}

-- Two pending rows of one representation.
abbrev pub clash : IndexOperation → IndexOperation → Bool
clash a b = is_pending a.state && is_pending b.state && a.representation_id == b.representation_id

-- No two rows clash.
abbrev pub IsCoalesced : List IndexOperation → Type 0
IsCoalesced [] = Unit
IsCoalesced (o ∷ os) = All (λ p. clash o p ≡ false) os × IsCoalesced os

All-supersede :
    (P : IndexOperation → Type 0) (op : NewOperation) (table : List IndexOperation)
    → All P table
    → All P (supersede op table)
unfolding supersede
All-supersede P op [] h = tt
All-supersede P op (o ∷ os) h =
    elim (Bool-cases (not (pending_for op.representation_id (opposite op.kind) o))) [
      | inl e ↦ rw e (h.0, All-supersede P op os h.1)
      | inr e ↦ rw e (All-supersede P op os h.1)
    ]

supersede-IsCoalesced :
    (op : NewOperation) (table : List IndexOperation)
    → IsCoalesced table
    → IsCoalesced (supersede op table)
unfolding supersede
supersede-IsCoalesced op [] h = tt
supersede-IsCoalesced op (o ∷ os) h =
    elim (Bool-cases (not (pending_for op.representation_id (opposite op.kind) o))) [
      | inl e ↦ rw e (All-supersede _ op os h.0, supersede-IsCoalesced op os h.1)
      | inr e ↦ rw e (supersede-IsCoalesced op os h.1)
    ]

supersede_misses :
    (op : NewOperation) (table : List IndexOperation)
    → All (λ o. pending_for op.representation_id (opposite op.kind) o ≡ false) (supersede op table)
unfolding supersede
supersede_misses op [] = tt
supersede_misses op (o ∷ os) =
    elim (Bool-cases (pending_for op.representation_id (opposite op.kind) o)) [
      | inl e ↦ rw e (supersede_misses op os)
      | inr e ↦ rw e (e, supersede_misses op os)
    ]

no_clash :
    (now : Datetime) (id : Uuid) (op : NewOperation) (table : List IndexOperation)
    → All (λ o. pending_for op.representation_id (opposite op.kind) o ≡ false) table
    → exists_where (pending_for op.representation_id op.kind) table ≡ false
    → All (λ o. clash o (new_row now id op) ≡ false) table
unfolding pending_for new_row
no_clash now id op [] h e = tt
no_clash now id op (o ∷ os) h e = (ground arith, no_clash now id op os h.1 (ground arith))

IsCoalesced-insert :
    (x : IndexOperation) (table : List IndexOperation)
    → All (λ o. clash o x ≡ false) table
    → IsCoalesced table
    → IsCoalesced (table ++ x ∷ [])
IsCoalesced-insert x [] h c = (tt, tt)
IsCoalesced-insert x (o ∷ os) h c = (snoc os h.0 c.0, IsCoalesced-insert x os h.1 c.1)
  where
    snoc :
        (ps : List IndexOperation)
        → clash o x ≡ false
        → All (λ p. clash o p ≡ false) ps
        → All (λ p. clash o p ≡ false) (ps ++ x ∷ [])
    snoc [] e a = (e, tt)
    snoc (p ∷ ps) e a = (a.0, snoc ps e a.1)

append_one-IsCoalesced :
    (now : Datetime) (id : Uuid) (op : NewOperation) (table : List IndexOperation)
    → IsCoalesced table
    → IsCoalesced (append_one now id op table).0
unfolding append_one insert_pending
append_one-IsCoalesced now id op table c =
    let rest = supersede op table in
    elim (Bool-cases (exists_where (pending_for op.representation_id op.kind) rest)) [
      | inl e ↦ rw e (supersede-IsCoalesced op table c)
      | inr e ↦ rw e (
          IsCoalesced-insert (new_row now id op) rest
            (no_clash now id op rest (supersede_misses op table) e)
            (supersede-IsCoalesced op table c))
    ]

-- Appending a batch keeps at most one pending operation of a representation, of either kind, which
-- is more than the unique index of the table asks for.
pub append_batch-IsCoalesced :
    (now : Datetime) (ops : List (NewOperation × Uuid)) (table : List IndexOperation)
    → IsCoalesced table
    → IsCoalesced (append_batch now ops table).0
unfolding append_batch
append_batch-IsCoalesced now [] table c = c
append_batch-IsCoalesced now ((op, id) ∷ ops) table c =
    append_batch-IsCoalesced now ops (append_one now id op table).0
      (append_one-IsCoalesced now id op table c)
