-- ===== src/Jobs/Moves.antt =====
-- What `transition` does to one job, and what `transient` lists.
use mathlib.Core.List.{Perm}
use face_identify.Prelude.{
  String, ◌≡◌, refl, sym, ◌∙◌, ◌≢◌, Bool, true, false, not, Option, some, List, ◌==◌, if◌then◌else◌,
  keep, In, arith,
}
use face_identify.Database.{update_where, UniqueKeys}
use face_identify.Database.Ordering.{IsOrder, IsSorted, order_by-IsSorted, order_by-perm}
use face_identify.Database.Keys.{
  by_key-update_where, by_key-update_other, by_key-In, count-update_where,
}
use face_identify.Jobs.Model.{
  Uuid, Datetime, Job, JobState, JobState-discrete, running, state_in, finished_states,
}
use face_identify.Jobs.{ok, get, move_row, in_states, transition, older, transient}
use face_identify.Jobs.Leases.{transition_inversion, move_row-id}

in_states_id : (id : Uuid) (from : List JobState) (y : Job) → in_states id from y ≡ true → y.id ≡ id
unfolding in_states
in_states_id id from y h = ground arith

in_states_self : (j : Job) (from : List JobState) → in_states j.id from j ≡ state_in j.state from
unfolding in_states
in_states_self j from = ground arith

in_states_other :
    (id : Uuid) (from : List JobState) (y : Job) → y.id ≢ id → in_states id from y ≡ false
unfolding in_states
in_states_other id from y n = ground arith

-- A transition of a job that is there: True exactly when its state was one of `from`, and then
-- the row is moved; otherwise the row stays. Every other job stays. The target is never RUNNING.
pub transition_lem :
    (j : Job) (from : List JobState) (to : JobState) (now : Datetime) (code detail : Option String)
    (table after : List Job) (moved : Bool)
    → UniqueKeys (λ k. k.id) table
    → In j table
    → transition j.id from to now code detail table ≡ ok (after, moved)
    → (moved ≡ state_in j.state from)
      × (get j.id after ≡ some (if state_in j.state from then move_row to now code detail j else j))
      × ((k : Uuid) → k ≢ j.id → get k after ≡ get k table)
      × (to ≢ running)
unfolding get
transition_lem j from to now code detail table after moved u there e =
    let key = λ (k : Job). k.id in
    let q = in_states j.id from in
    let f = move_row to now code detail in
    let (a, m, r) = transition_inversion j.id from to now code detail table after moved e in
    let found = by_key-In key j table u there in
    let hit = in_states_self j from in
    (
      m ∙ count-update_where key j.id q f table u (in_states_id j.id from) ∙ rw found hit,
      rw a (
          by_key-update_where key j.id q f table (move_row-id to now code detail)
          ∙ rw (found, hit) refl),
      λ k n.
          rw a (by_key-update_other key k q f table (move_row-id to now code detail) (misses k n)),
      r,
    )
  where
    misses : (k : Uuid) → k ≢ j.id → (y : Job) → y.id ≡ k → in_states j.id from y ≡ false
    misses k n y e = in_states_other j.id from y (λ p. n (sym e ∙ p))

-- A transition to another state than RUNNING does not raise.
pub transition_ok :
    (id : Uuid) (from : List JobState) (to : JobState) (now : Datetime)
    (code detail : Option String) (table : List Job)
    → to ≢ running
    → (r : List Job × Bool) × (transition id from to now code detail table ≡ ok r)
unfolding transition JobState-discrete
transition_ok id from to now code detail table n =
    let (rows, count) = update_where (in_states id from) (move_row to now code detail) table in
    ((rows, not (count == 0)), ground arith)

older-IsOrder : IsOrder older
unfolding older
older-IsOrder = record { asym = λ x y h. ground arith; not_trans = λ x y z h k. ground arith }

-- The jobs that are not over, each once, the oldest first.
pub transient_lem :
    (table : List Job)
    → Perm (transient table) (keep (λ j. not (state_in j.state finished_states)) table)
      × IsSorted older (transient table)
unfolding transient
transient_lem table =
    let rows = keep (λ (j : Job). not (state_in j.state finished_states)) table in
    (order_by-perm older rows, order_by-IsSorted older older-IsOrder rows)
