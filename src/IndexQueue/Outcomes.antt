-- ===== src/IndexQueue/Outcomes.antt =====
-- backend/app/memory/index_coordinator.py: `_settle_in_transaction`, which records the outcome of
-- every operation of one pass. `attempt_counts` is read once, before the loop.
use face_identify.Prelude.{
  ℕ, String, ◌+◌, Bool, false, Option, none, some, List, [], ◌∷◌, leb, ◌==◌, if◌then◌else◌,
}
use face_identify.Database.{find_where}
use face_identify.IndexQueue.{Uuid, Datetime, Text, IndexOperation, applied, failed, take, settle}

-- `RetryPolicy`.
pub record RetryPolicy : Type 0 where
  pub max_attempts : ℕ
  pub backoff : ℕ → ℕ

pub data Ending : Type 0 where
  has_applied has_failed retries : Ending

-- The choice between the three outcomes, from the error and the attempts made before.
unfoldable pub ending : RetryPolicy → ℕ → Option Text → Ending
ending policy attempts none = has_applied
ending policy attempts (some error) =
    if leb policy.max_attempts (attempts + 1) then has_failed else retries

abbrev apply_error : String
apply_error = "APPLY_ERROR"

abbrev clipped : Option Text → Option Text
clipped none = none
clipped (some error) = some (take 500 error)

-- `values`.
unfoldable pub outcome_values :
    RetryPolicy → Datetime → ℕ → Option Text → Ending → IndexOperation → IndexOperation
outcome_values policy now attempts error has_applied o = record o {
  state = applied;
  applied_at = some now;
  failure_code = none;
  failure_detail = none;
}
outcome_values policy now attempts error has_failed o = record o {
  state = failed;
  failure_code = some apply_error;
  failure_detail = clipped error;
}
outcome_values policy now attempts error retries o = record o {
  not_before_at = now + policy.backoff (attempts + 1);
  failure_code = some apply_error;
  failure_detail = clipped error;
}

-- The lists `applied`, `failed` and `retrying`, by their ids.
pub record Report : Type 0 where
  pub applied : List Uuid
  pub failed : List Uuid
  pub retrying : List Uuid

abbrev pub no_report : Report
no_report = record { applied = []; failed = []; retrying = [] }

abbrev noted : Ending → Uuid → Report → Report
noted has_applied id r = record r { applied = id ∷ r.applied }
noted has_failed id r = record r { failed = id ∷ r.failed }
noted retries id r = record r { retrying = id ∷ r.retrying }

abbrev pub count_in : Option IndexOperation → Option ℕ
count_in none = none
count_in (some o) = some o.attempt_count

-- `attempt_counts`, for one id: absent where no row has it.
abbrev pub attempt_count_of : Uuid → List IndexOperation → Option ℕ
attempt_count_of id table = count_in (find_where (λ o. o.id == id) table)

-- The table after one outcome, and whether it was recorded.
unfoldable pub settle_outcome :
    RetryPolicy
    → Datetime
    → Option ℕ
    → Uuid
    → Option Text
    → List IndexOperation
    → List IndexOperation × Bool
settle_outcome policy now none id error table = (table, false)
settle_outcome policy now (some attempts) id error table =
    settle id (attempts + 1) now
      (outcome_values policy now attempts error (ending policy attempts error)) table

ending_of : RetryPolicy → Option ℕ → Option Text → Ending
ending_of policy none error = retries
ending_of policy (some attempts) error = ending policy attempts error

-- The loop, over the counts of the table `seen`.
unfoldable pub settle_each :
    RetryPolicy
    → Datetime
    → List IndexOperation
    → List (Uuid × Option Text)
    → List IndexOperation
    → List IndexOperation × Report
unfolding ending_of
settle_each policy now seen [] table = (table, no_report)
settle_each policy now seen ((id, error) ∷ outcomes) table =
    let count = attempt_count_of id seen in
    let (after, done) = settle_outcome policy now count id error table in
    let (last, report) = settle_each policy now seen outcomes after in
    (last, (if done then noted (ending_of policy count error) id report else report))

-- `_settle_in_transaction`.
unfoldable pub settle_outcomes :
    RetryPolicy
    → Datetime
    → List (Uuid × Option Text)
    → List IndexOperation
    → List IndexOperation × Report
settle_outcomes policy now outcomes table = settle_each policy now table outcomes table
