-- ===== src/Jobs/Contract.antt =====
-- What `claim_next` and `transition` promise, written out by the columns of the row.
use mathlib.Core.Bool.{false≢true}
use face_identify.Prelude.{
  ℕ, String, ◌+◌, ◌≤◌, ◌<◌, ◌≡◌, refl, ap, sym, ◌∙◌, ◌≢◌, ◌⊎◌, ◌↔◌, inl, inr, Bool, true, false,
  ◌&&◌, ◌||◌, Option, none, some, List, [], ◌∷◌, ◌==◌, keep, In, All, All-map, arith, Bool-cases,
  same, same→eq, if◌then◌else◌, ltb, head?,
}
use face_identify.Database.{UniqueKeys}
use face_identify.Database.Ordering.{order_by}
use face_identify.Jobs.Model.{
  Uuid, Datetime, Job, JobType, JobType-discrete, JobState, JobState-discrete, state_in, running,
  queued, finished_states, leased_states,
}
use face_identify.Jobs.{
  ok, get, type_in, wanted, more_urgent, eligible, chosen, claim_row, claimed, claim_next,
  ClaimedJob, transition, move_row,
}
use face_identify.Jobs.Claiming.{claim_next_lem, claim_none_lem}
use face_identify.Jobs.Moves.{transition_lem}

abbrev pub IsWanted : Option (List JobType) → JobType → Type 0
IsWanted none t = Unit
IsWanted (some ts) t = In t ts

-- A queued job of a wanted type.
abbrev pub IsClaimable : Option (List JobType) → Job → Type 0
IsClaimable types j = (j.state ≡ queued) × IsWanted types j.type

-- By priority rank, then by creation time, then by id.
abbrev pub IsNoLater : Job → Job → Type 0
IsNoLater j k =
    (j.rank < k.rank)
    ⊎ ((j.rank ≡ k.rank)
        × ((j.created_at < k.created_at) ⊎ ((j.created_at ≡ k.created_at) × (j.id ≤ k.id))))

same_refl : {A : Type 0} (d : Discrete A) (a : A) → same d a a ≡ true
same_refl d a =
    elim (d a a)
      as (λ (e : Dec (a ≡ a)). elim e as (λ _. Bool) [ yes _ ↦ true | no _ ↦ false ] ≡ true) [
        | yes e ↦ refl
        | no n ↦ absurd (n refl)
      ]

type_in-In : (t : JobType) (ts : List JobType) → type_in t ts ≡ true → In t ts
type_in-In t [] h = absurd (cc)
type_in-In t (x ∷ xs) h = elim (Bool-cases (same JobType-discrete t x)) [
  | inl e ↦ inl (same→eq JobType-discrete t x e)
  | inr e ↦ inr (type_in-In t xs (ap (λ b. b || type_in t xs) (sym e) ∙ h))
]

or_right : (a b : Bool) → b ≡ true → a || b ≡ true
or_right true b h = refl
or_right false b h = h

In-type_in : (t : JobType) (ts : List JobType) → In t ts → type_in t ts ≡ true
In-type_in t [] h = absurd h
In-type_in t (x ∷ xs) (inl e) =
    ap (λ b. b || type_in t xs)
      (ap (λ y. same JobType-discrete t y) (sym e) ∙ same_refl JobType-discrete t)
In-type_in t (x ∷ xs) (inr i) = or_right (same JobType-discrete t x) _ (In-type_in t xs i)

wanted-IsWanted :
    (types : Option (List JobType)) (t : JobType) → wanted types t ≡ true → IsWanted types t
wanted-IsWanted none t h = tt
wanted-IsWanted (some ts) t h = type_in-In t ts h

IsWanted-wanted :
    (types : Option (List JobType)) (t : JobType) → IsWanted types t → wanted types t ≡ true
IsWanted-wanted none t h = refl
IsWanted-wanted (some ts) t h = In-type_in t ts h

and_both : (a b : Bool) → a && b ≡ true → (a ≡ true) × (b ≡ true)
and_both true b h = (refl, h)
and_both false b h = absurd (cc)

eligible-IsClaimable :
    (types : Option (List JobType)) (j : Job) → eligible types j ≡ true → IsClaimable types j
unfolding eligible
eligible-IsClaimable types j h =
    let (a, b) = and_both (same JobState-discrete j.state queued) (wanted types j.type) h in
    (same→eq JobState-discrete j.state queued a, wanted-IsWanted types j.type b)

IsClaimable-eligible :
    (types : Option (List JobType)) (j : Job) → IsClaimable types j → eligible types j ≡ true
unfolding eligible
IsClaimable-eligible types j (s, w) =
    ap (λ b. b && wanted types j.type)
      (ap (λ t. same JobState-discrete t queued) s ∙ same_refl JobState-discrete queued)
    ∙ IsWanted-wanted types j.type w

lex_no_later :
    (a b c d e f : ℕ)
    → (ltb a b || a == b && (ltb c d || c == d && ltb e f)) ≡ false
    → (b < a) ⊎ ((b ≡ a) × ((d < c) ⊎ ((d ≡ c) × (f ≤ e))))
lex_no_later a b c d e f h = ground arith

more_urgent-IsNoLater : (j k : Job) → more_urgent k j ≡ false → IsNoLater j k
unfolding more_urgent
more_urgent-IsNoLater j k h = lex_no_later k.rank j.rank k.created_at j.created_at k.id j.id h

-- A claim that returns a job, of a table with unique ids, takes a queued job of a wanted type that
-- no other such job is before by priority rank, creation time and id. It returns the data of this
-- job with the owner and the end of the lease. The row of this job becomes RUNNING, with the owner,
-- a lease until now + lease_for, and now as its heartbeat, start and last update, its other columns
-- as they were; no other row changes.
pub claim_next_takes_most_urgent :
    (owner : String) (now : Datetime) (lease_for : ℕ) (types : Option (List JobType))
    (table after : List Job) (c : ClaimedJob)
    → UniqueKeys (λ j. j.id) table
    → claim_next owner now lease_for types table ≡ (after, some c)
    → (j : Job) × In j table
      × IsClaimable types j
      × All (λ k. IsClaimable types k → IsNoLater j k) table
      × (c ≡ record {
        id = j.id;
        type = j.type;
        processing_run_id = j.processing_run_id;
        payload_schema_version = j.payload_schema_version;
        payload_json = j.payload_json;
        attempt_number = j.attempt_number;
        lease_owner = owner;
        lease_expires_at = now + lease_for;
      })
      × (get j.id after
          ≡ some (record j {
            state = running;
            lease_owner = some owner;
            lease_expires_at = some (now + lease_for);
            heartbeat_at = some now;
            started_at = some now;
            updated_at = now;
          }))
      × ((k : Uuid) → k ≢ j.id → get k after ≡ get k table)
unfolding claim_row claimed
claim_next_takes_most_urgent owner now lease_for types table after c u h =
    let (j, there, passes, first, r, row, others) =
      claim_next_lem owner now lease_for types table after c u h in
    (
      j,
      there,
      eligible-IsClaimable types j passes,
      All-map _ _ table
          (λ k f claimable. more_urgent-IsNoLater j k (f (IsClaimable-eligible types k claimable)))
          first,
      r,
      row,
      others,
    )

keep_none : (p : Job → Bool) (xs : List Job) → All (λ j. p j ≡ false) xs → keep p xs ≡ []
keep_none p [] h = refl
keep_none p (x ∷ xs) h = rw (h.0, keep_none p xs h.1) refl

not_true : (b : Bool) → (b ≡ true → ⊥) → b ≡ false
not_true true h = absurd (h refl)
not_true false h = refl

none-chosen :
    (types : Option (List JobType)) (table : List Job)
    → All (λ j. eligible types j ≡ false) table
    → chosen types table ≡ none
unfolding chosen order_by
none-chosen types table h =
    ap (λ rows. head? (order_by more_urgent rows)) (keep_none (eligible types) table h)

-- A claim returns None and leaves a table exactly when this is the table that it found and no job
-- of it is queued and of a wanted type.
pub claim_next-none :
    (owner : String) (now : Datetime) (lease_for : ℕ) (types : Option (List JobType))
    (table after : List Job)
    → (claim_next owner now lease_for types table ≡ (after, none))
      ↔ ((after ≡ table) × All (λ j. IsClaimable types j → ⊥) table)
unfolding claim_next
claim_next-none owner now lease_for types table after = (
  λ h.
      let (e, none_left) = claim_none_lem owner now lease_for types table after h in
      (
        e,
        All-map _ _ table
            (λ j f claimable. false≢true (sym f ∙ IsClaimable-eligible types j claimable))
            none_left,
      ),
  λ (e, none_left). nothing e (
      none-chosen types table (
        All-map _ _ table (λ j f. not_true _ (λ t. f (eligible-IsClaimable types j t))) none_left)),
)
  where
    nothing :
        after ≡ table
        → chosen types table ≡ none
        → claim_next owner now lease_for types table ≡ (after, none)
    nothing e q = rw (q, claim_next) (ap (λ rows. (rows, none)) (sym e))

state_in-In : (t : JobState) (ts : List JobState) → state_in t ts ≡ true → In t ts
unfolding state_in
state_in-In t [] h = absurd (cc)
state_in-In t (x ∷ xs) h = elim (Bool-cases (same JobState-discrete t x)) [
  | inl e ↦ inl (same→eq JobState-discrete t x e)
  | inr e ↦ inr (state_in-In t xs (ap (λ b. b || state_in t xs) (sym e) ∙ h))
]

In-state_in : (t : JobState) (ts : List JobState) → In t ts → state_in t ts ≡ true
unfolding state_in
In-state_in t [] h = absurd h
In-state_in t (x ∷ xs) (inl e) =
    ap (λ b. b || state_in t xs)
      (ap (λ y. same JobState-discrete t y) (sym e) ∙ same_refl JobState-discrete t)
In-state_in t (x ∷ xs) (inr i) = or_right (same JobState-discrete t x) _ (In-state_in t xs i)

-- What a transition makes of a row, column by column.
pub record IsMoved (to : JobState) (now : Datetime) (code detail : Option String) (j r : Job)
    : Type 0 where
  pub state : r.state ≡ to
  pub updated_at : r.updated_at ≡ now
  pub ends : state_in to finished_states ≡ true → r.ended_at ≡ some now
  pub keeps_end : state_in to finished_states ≡ false → r.ended_at ≡ j.ended_at
  pub keeps_lease :
      state_in to leased_states ≡ true
      → (r.lease_owner ≡ j.lease_owner)
        × (r.lease_expires_at ≡ j.lease_expires_at)
        × (r.heartbeat_at ≡ j.heartbeat_at)
  pub frees_lease :
      state_in to leased_states ≡ false
      → (r.lease_owner ≡ none) × (r.lease_expires_at ≡ none) × (r.heartbeat_at ≡ none)
  pub code_kept :
      (code ≡ none → r.failure_code ≡ j.failure_code) × (code ≢ none → r.failure_code ≡ code)
  pub detail_kept :
      (detail ≡ none → r.failure_detail ≡ j.failure_detail)
      × (detail ≢ none → r.failure_detail ≡ detail)
  pub others : r ≡ record j {
    state = r.state;
    updated_at = r.updated_at;
    ended_at = r.ended_at;
    lease_owner = r.lease_owner;
    lease_expires_at = r.lease_expires_at;
    heartbeat_at = r.heartbeat_at;
    failure_code = r.failure_code;
    failure_detail = r.failure_detail;
  }

pub move_row-IsMoved :
    (to : JobState) (now : Datetime) (code detail : Option String) (j : Job)
    → IsMoved to now code detail j (move_row to now code detail j)
unfolding move_row
move_row-IsMoved to now code detail j =
    cases code detail (Bool-cases (state_in to leased_states))
      (Bool-cases (state_in to finished_states))
  where
    cases :
        (code detail : Option String)
        → (state_in to leased_states ≡ true) ⊎ (state_in to leased_states ≡ false)
        → (state_in to finished_states ≡ true) ⊎ (state_in to finished_states ≡ false)
        → IsMoved to now code detail j (move_row to now code detail j)
    cases code detail (inl l) (inl f) = record {
      state = rw (l, f) refl;
      updated_at = rw (l, f) refl;
      ends = λ e. rw (l, f) refl;
      keeps_end = λ e. ground arith;
      keeps_lease = λ e. rw (l, f) (refl, refl, refl);
      frees_lease = λ e. ground arith;
      code_kept = ground arith;
      detail_kept = ground arith;
      others = rw (l, f) refl;
    }
    cases code detail (inl l) (inr f) = record {
      state = rw (l, f) refl;
      updated_at = rw (l, f) refl;
      ends = λ e. ground arith;
      keeps_end = λ e. rw (l, f) refl;
      keeps_lease = λ e. rw (l, f) (refl, refl, refl);
      frees_lease = λ e. ground arith;
      code_kept = ground arith;
      detail_kept = ground arith;
      others = rw (l, f) refl;
    }
    cases code detail (inr l) (inl f) = record {
      state = rw (l, f) refl;
      updated_at = rw (l, f) refl;
      ends = λ e. rw (l, f) refl;
      keeps_end = λ e. ground arith;
      keeps_lease = λ e. ground arith;
      frees_lease = λ e. rw (l, f) (refl, refl, refl);
      code_kept = ground arith;
      detail_kept = ground arith;
      others = rw (l, f) refl;
    }
    cases code detail (inr l) (inr f) = record {
      state = rw (l, f) refl;
      updated_at = rw (l, f) refl;
      ends = λ e. ground arith;
      keeps_end = λ e. rw (l, f) refl;
      keeps_lease = λ e. ground arith;
      frees_lease = λ e. rw (l, f) (refl, refl, refl);
      code_kept = ground arith;
      detail_kept = ground arith;
      others = rw (l, f) refl;
    }

-- A transition, in a table with unique ids, of a job that is there, that does not raise: it returns
-- True exactly when the state of the job was one of those given. Then the row has the new state and
-- now as its last update; its end is now if the new state is over and else as it was; its owner,
-- expiry and heartbeat are as they were if the new state is one that a worker holds, and else gone;
-- a failure code or detail is the one given, or else as it was; its other columns are as they were.
-- If it returns False the row is as it was. No other row changes, and the new state is not RUNNING.
pub transition_moves :
    (j : Job) (from : List JobState) (to : JobState) (now : Datetime) (code detail : Option String)
    (table after : List Job) (moved : Bool)
    → UniqueKeys (λ k. k.id) table
    → In j table
    → transition j.id from to now code detail table ≡ ok (after, moved)
    → (((moved ≡ true)
          × In j.state from
          × ((r : Job) × (get j.id after ≡ some r) × IsMoved to now code detail j r))
        ⊎ ((moved ≡ false) × (In j.state from → ⊥) × (get j.id after ≡ some j)))
      × ((k : Uuid) → k ≢ j.id → get k after ≡ get k table)
      × (to ≢ running)
transition_moves j from to now code detail table after moved u there e =
    let (m, row, others, n) =
      transition_lem j from to now code detail table after moved u there e in
    (ends (Bool-cases (state_in j.state from)) m row, others, n)
  where
    ends :
        (state_in j.state from ≡ true) ⊎ (state_in j.state from ≡ false)
        → moved ≡ state_in j.state from
        → get j.id after ≡ some (if state_in j.state from then move_row to now code detail j else j)
        → ((moved ≡ true)
            × In j.state from
            × ((r : Job) × (get j.id after ≡ some r) × IsMoved to now code detail j r))
          ⊎ ((moved ≡ false) × (In j.state from → ⊥) × (get j.id after ≡ some j))
    ends (inl t) m row = inl (
      m ∙ t,
      state_in-In j.state from t,
      (
        move_row to now code detail j,
        row ∙ ap (λ b. some (if b then move_row to now code detail j else j)) t,
        move_row-IsMoved to now code detail j,
      ),
    )
    ends (inr t) m row = inr (
      m ∙ t,
      λ i. false≢true (sym t ∙ In-state_in j.state from i),
      row ∙ ap (λ b. some (if b then move_row to now code detail j else j)) t,
    )
