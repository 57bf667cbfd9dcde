-- ===== src/IndexQueue/Settling.antt =====
-- What `_settle_in_transaction` makes of the row of one operation.
use mathlib.Core.Path.{subst}
use face_identify.Prelude.{
  ℕ, ◌+◌, ◌<◌, ◌≤◌, ◌≡◌, ◌≢◌, refl, sym, ap, ◌∙◌, ◌⊎◌, inl, inr, true, Option, none, some, List, [],
  ◌∷◌, ◌==◌, All, In, arith,
}
use face_identify.Database.{find_where, UniqueKeys}
use face_identify.Database.Keys.{by_key, by_key_lem, by_key-update_where, by_key-update_other}
use face_identify.IndexQueue.{
  Uuid, Datetime, Text, IndexOperation, pending, applied, failed, is_pending, settle,
}
use face_identify.IndexQueue.Outcomes.{
  RetryPolicy, Ending, has_applied, has_failed, retries, ending, outcome_values, attempt_count_of,
  count_in, settle_outcome, settle_each, settle_outcomes,
}

abbrev row_of : Uuid → List IndexOperation → Option IndexOperation
row_of id table = by_key (λ (o : IndexOperation). o.id) id table

-- The state and the due time of the row after an attempt that gave this outcome.
abbrev pub HasOutcome :
    RetryPolicy → Datetime → Option Text → IndexOperation → IndexOperation → Type 0
HasOutcome policy now none before after =
    (after.state ≡ applied) × (after.applied_at ≡ some now) × (after.failure_code ≡ none)
HasOutcome policy now (some error) before after =
    ((policy.max_attempts ≤ before.attempt_count + 1) × (after.state ≡ failed))
    ⊎ ((before.attempt_count + 1 < policy.max_attempts)
        × (after.state ≡ pending)
        × (after.not_before_at ≡ now + policy.backoff (before.attempt_count + 1)))

-- One more attempt is counted, at this time, and the row has its outcome.
abbrev pub IsAttempted :
    RetryPolicy → Datetime → Option Text → IndexOperation → IndexOperation → Type 0
IsAttempted policy now error before after =
    (after.attempt_count ≡ before.attempt_count + 1)
    × (after.last_attempt_at ≡ some now)
    × HasOutcome policy now error before after

-- What `settle` writes.
abbrev written : RetryPolicy → Datetime → ℕ → Option Text → IndexOperation → IndexOperation
written policy now attempts error o =
    record (outcome_values policy now attempts error (ending policy attempts error) o) {
      attempt_count = attempts + 1;
      last_attempt_at = some now;
      updated_at = now;
    }

written-id :
    (policy : RetryPolicy) (now : Datetime) (attempts : ℕ) (error : Option Text)
    (o : IndexOperation)
    → (written policy now attempts error o).id ≡ o.id
unfolding outcome_values
written-id policy now attempts error o = values_id (ending policy attempts error)
  where
    values_id : (e : Ending) → (outcome_values policy now attempts error e o).id ≡ o.id
    values_id has_applied = refl
    values_id has_failed = refl
    values_id retries = refl

written-IsAttempted :
    (policy : RetryPolicy) (now : Datetime) (error : Option Text) (o : IndexOperation)
    → is_pending o.state ≡ true
    → IsAttempted policy now error o (written policy now o.attempt_count error o)
unfolding outcome_values ending
written-IsAttempted policy now none o p = ground arith
written-IsAttempted policy now (some error) o p = ground arith

settle_outcome-row :
    (policy : RetryPolicy) (now : Datetime) (id : Uuid) (error : Option Text) (o : IndexOperation)
    (table : List IndexOperation)
    → row_of id table ≡ some o
    → is_pending o.state ≡ true
    → row_of id (settle_outcome policy now (some o.attempt_count) id error table).0
      ≡ some (written policy now o.attempt_count error o)
unfolding settle_outcome settle
settle_outcome-row policy now id error o table e p =
    by_key-update_where (λ (o : IndexOperation). o.id) id _ _ table
      (written-id policy now o.attempt_count error)
    ∙ rw e (
        let same_id : (o.id == id) ≡ true =
          own o.id (by_key_lem (λ (o : IndexOperation). o.id) id table o e).0 in
        rw (same_id, p) refl)
  where
    own : (k : Uuid) → k ≡ id → (k == id) ≡ true
    own k q = ground arith

settle_outcome-other :
    (policy : RetryPolicy) (now : Datetime) (count : Option ℕ) (id k : Uuid) (error : Option Text)
    (table : List IndexOperation)
    → k ≢ id
    → row_of id (settle_outcome policy now count k error table).0 ≡ row_of id table
unfolding settle_outcome settle
settle_outcome-other policy now none id k error table n = refl
settle_outcome-other policy now (some attempts) id k error table n =
    by_key-update_other (λ (o : IndexOperation). o.id) id _ _ table
      (written-id policy now attempts error) (λ o e. ground arith)

settle_each-others :
    (policy : RetryPolicy) (now : Datetime) (seen : List IndexOperation) (id : Uuid)
    (outcomes : List (Uuid × Option Text)) (table : List IndexOperation)
    → All (λ e. id ≢ e.0) outcomes
    → row_of id (settle_each policy now seen outcomes table).0 ≡ row_of id table
unfolding settle_each
settle_each-others policy now seen id [] table h = refl
settle_each-others policy now seen id ((k, error) ∷ outcomes) table h =
    settle_each-others policy now seen id outcomes
      (settle_outcome policy now (attempt_count_of k seen) k error table).0 h.1
    ∙ settle_outcome-other policy now (attempt_count_of k seen) id k error table (λ e. h.0 (sym e))

settle_each-row :
    (policy : RetryPolicy) (now : Datetime) (seen : List IndexOperation) (id : Uuid)
    (error : Option Text) (o : IndexOperation) (outcomes : List (Uuid × Option Text))
    (table : List IndexOperation)
    → UniqueKeys (λ e. e.0) outcomes
    → In (id, error) outcomes
    → attempt_count_of id seen ≡ some o.attempt_count
    → row_of id table ≡ some o
    → is_pending o.state ≡ true
    → row_of id (settle_each policy now seen outcomes table).0
      ≡ some (written policy now o.attempt_count error o)
unfolding settle_each
settle_each-row policy now seen id error o [] table u i c e p = absurd i
settle_each-row policy now seen id error o ((k, x) ∷ outcomes) table u (inl s) c e p =
    subst
      (λ (z : Uuid × Option Text).
        row_of id
          (settle_each policy now seen outcomes
            (settle_outcome policy now (attempt_count_of z.0 seen) z.0 z.1 table).0).0
        ≡ some (written policy now o.attempt_count error o))
      s
      (subst
        (λ count.
          row_of id
            (settle_each policy now seen outcomes
              (settle_outcome policy now count id error table).0).0
          ≡ some (written policy now o.attempt_count error o))
        (sym c)
        (settle_each-others policy now seen id outcomes
            (settle_outcome policy now (some o.attempt_count) id error table).0
            (subst (λ j. All (λ e. j ≢ e.0) outcomes) (sym (ap (λ (z : Uuid × Option Text). z.0) s))
              u.0)
          ∙ settle_outcome-row policy now id error o table e p))
settle_each-row policy now seen id error o ((k, x) ∷ outcomes) table u (inr i) c e p =
    settle_each-row policy now seen id error o outcomes
      (settle_outcome policy now (attempt_count_of k seen) k x table).0 u.1 i c
      (settle_outcome-other policy now (attempt_count_of k seen) id k x table (apart outcomes u.0 i)
        ∙ e)
      p
  where
    apart : (es : List (Uuid × Option Text)) → All (λ e. k ≢ e.0) es → In (id, error) es → k ≢ id
    apart [] h i = absurd i
    apart (y ∷ ys) h (inl q) = λ r. h.0 (r ∙ ap (λ (z : Uuid × Option Text). z.0) q)
    apart (y ∷ ys) h (inr i) = apart ys h.1 i

-- Of a pass that has an outcome for an operation, whose row is PENDING, and no two outcomes for one
-- operation: settling the pass counts one more attempt of it, made now. Without an error the row is
-- APPLIED now, with no failure code. After an error it is FAILED if this was the last attempt that the
-- policy allows or a later one; otherwise it stays PENDING and is due when the backoff for the new
-- number of attempts is over.
pub settle_outcomes-IsAttempted :
    (policy : RetryPolicy) (now : Datetime) (outcomes : List (Uuid × Option Text))
    (table : List IndexOperation) (id : Uuid) (error : Option Text) (o : IndexOperation)
    → UniqueKeys (λ e. e.0) outcomes
    → In (id, error) outcomes
    → find_where (λ o. o.id == id) table ≡ some o
    → is_pending o.state ≡ true
    → (after : IndexOperation) × (find_where
          (λ o. o.id == id)
          (settle_outcomes policy now outcomes table).0
        ≡ some after)
      × IsAttempted policy now error o after
unfolding settle_outcomes
settle_outcomes-IsAttempted policy now outcomes table id error o u i e p = (
  written policy now o.attempt_count error o,
  settle_each-row policy now table id error o outcomes table u i counted e p,
  written-IsAttempted policy now error o p,
)
  where
    counted : attempt_count_of id table ≡ some o.attempt_count
    counted = ap count_in e
