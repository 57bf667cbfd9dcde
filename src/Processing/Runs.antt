-- ===== src/Processing/Runs.antt =====
-- backend/app/processing/run_repository.py: `ProcessingRunRepository`, whose `lock` stands with its
-- client in Processing.Cancel.
use mathlib.Core.List.{Perm}
use face_identify.Prelude.{Bool, ◌&&◌, ◌||◌, Option, none, some, List, ◌∷◌, ltb, ◌==◌, keep, arith}
use face_identify.Database.{Uuid, find_where}
use face_identify.Database.Ordering.{order_by, IsOrder, IsSorted, order_by-perm, order_by-IsSorted}
use face_identify.Processing.Model.{
  ProcessingRun, run_state_in, transient_run_states, integrity_error, Result, ok, err,
}

-- `add`: the flush refuses a key that is there, and a snapshot that a run already uses.
unfoldable pub add_run : ProcessingRun → List ProcessingRun → Result (List ProcessingRun)
unfolding find_where
add_run run table =
    elim (find_where
      (λ r. r.id == run.id || r.configuration_snapshot_id == run.configuration_snapshot_id) table) [
        | some _ ↦ err integrity_error
        | none ↦ ok (run ∷ table)
      ]

unfoldable pub get_run : Uuid → List ProcessingRun → Option ProcessingRun
unfolding find_where
get_run run_id = find_where (λ r. r.id == run_id)

-- `ORDER BY updated_at, id`.
unfoldable pub longer_quiet : ProcessingRun → ProcessingRun → Bool
longer_quiet a b = ltb a.updated_at b.updated_at || a.updated_at == b.updated_at && ltb a.id b.id

abbrev pub is_transient : ProcessingRun → Bool
is_transient r = run_state_in r.state transient_run_states

unfoldable pub list_transient : List ProcessingRun → List ProcessingRun
list_transient table = order_by longer_quiet (keep is_transient table)

longer_quiet-IsOrder : IsOrder longer_quiet
unfolding longer_quiet
longer_quiet-IsOrder = record {
  asym = λ x y h. ground arith;
  not_trans = λ x y z h k. ground arith;
}

-- list_transient is a permutation of the runs that are not over, and no run of it stands after one
-- that was updated later, or at the same time and with a greater id.
pub list_transient_lem :
    (table : List ProcessingRun)
    → Perm (list_transient table) (keep is_transient table)
      × IsSorted longer_quiet (list_transient table)
unfolding list_transient
list_transient_lem table = (
  order_by-perm longer_quiet (keep is_transient table),
  order_by-IsSorted longer_quiet longer_quiet-IsOrder (keep is_transient table),
)
