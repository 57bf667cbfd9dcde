-- ===== src/Recognition.antt =====
-- backend/app/recognition/assessment.py: a retrieval grouped into an assessment. Similarities are
-- Python's floats, a parameter here: an ordered type with a difference.
pub mod Order
pub mod Reasoner
pub mod Evidence
pub mod Grouping
pub mod Safety
mod Examples
use face_identify.Prelude.{
  ℕ, Bool, true, false, ◌&&◌, ◌||◌, Option, none, some, List, [], ◌∷◌, ◌++◌, ltb, ◌==◌,
  if◌then◌else◌, length, map,
}
use face_identify.Database.{Uuid}
use face_identify.Database.Ordering.{order_by}
use face_identify.Recognition.Order.{Floats}

pub data Pool : Type 0 where
  global run_local : Pool

pub record RetrievedCandidate (F : Type 0) : Type 0 where
  pub pool : Pool
  pub representation_id : Uuid
  pub identity_id : Option Uuid
  pub similarity : F  -- the property of that name

pub record Retrieval (F : Type 0) : Type 0 where
  pub representation_space_id : Uuid
  pub requested_k : ℕ
  pub candidates : List (RetrievedCandidate F)
  pub dropped : ℕ
  pub converged : Bool

pub record ObservationQuality (F : Type 0) : Type 0 where
  pub detection_score : F

pub record GroupMember (F : Type 0) : Type 0 where
  pub representation_id : Uuid
  pub pool : Pool
  pub similarity : F

pub record CandidateGroup (F : Type 0) : Type 0 where
  pub identity_id : Option Uuid
  pub members : List (GroupMember F)

pub record RecognitionAssessment (F : Type 0) : Type 0 where
  pub representation_space_id : Uuid
  pub quality : ObservationQuality F
  pub requested_k : ℕ
  pub returned : ℕ
  pub dropped : ℕ
  pub converged : Bool
  pub groups : List (CandidateGroup F)

-- `complete`.
unfoldable pub complete : {F : Type 0} → RecognitionAssessment F → Bool
complete a = a.dropped == 0 && a.converged

-- The key of a candidate's group: its identity, or the tuple of its own representation.
pub data Key : Type 0 where
  of_identity of_representation : Uuid → Key

abbrev pub key_of : {F : Type 0} → RetrievedCandidate F → Key
key_of c = elim c.identity_id [
  | none ↦ of_representation c.representation_id
  | some i ↦ of_identity i
]

abbrev pub same_key : Key → Key → Bool
same_key (of_identity a) (of_identity b) = a == b
same_key (of_representation a) (of_representation b) = a == b
same_key _ _ = false

abbrev pub identity_of : Key → Option Uuid
identity_of (of_identity i) = some i
identity_of (of_representation r) = none

abbrev pub member_of : {F : Type 0} → RetrievedCandidate F → GroupMember F
member_of c = record {
  representation_id = c.representation_id;
  pool = c.pool;
  similarity = c.similarity;
}

-- `members.setdefault(key, []).append(member)` on a dictionary, in the order of its insertions.
unfoldable pub add_member :
    {F : Type 0}
    → Key
    → GroupMember F
    → List (Key × List (GroupMember F))
    → List (Key × List (GroupMember F))
add_member key m [] = (key, m ∷ []) ∷ []
add_member key m (e ∷ es) =
    let rest = add_member key m es in
    if same_key e.0 key then (e.0, e.1 ++ m ∷ []) ∷ es else e ∷ rest

-- The loop over the candidates.
unfoldable pub group_by_key :
    {F : Type 0}
    → List (RetrievedCandidate F)
    → List (Key × List (GroupMember F))
    → List (Key × List (GroupMember F))
unfolding add_member
group_by_key [] d = d
group_by_key (c ∷ cs) d = group_by_key cs (add_member (key_of c) (member_of c) d)

-- `"GLOBAL" < "RUN_LOCAL"`.
abbrev pub pool_rank : Pool → ℕ
pool_rank global = 0
pool_rank run_local = 1

module _ {F : Type 0} ⦃f : Floats F⦄ where
  -- `max` of a list that is not empty: the first of the greatest.
  unfoldable pub max_from : F → List F → F
  max_from x [] = x
  max_from x (y ∷ ys) = max_from (if f.lt x y then y else x) ys

  -- `max` over the members; `none` where it raises `ValueError`.
  unfoldable pub best_of : List (GroupMember F) → Option F
  unfolding max_from
  best_of [] = none
  best_of (m ∷ ms) = some (max_from m.similarity (map (λ x. x.similarity) ms))

  -- `best_similarity`.
  abbrev pub best_similarity : CandidateGroup F → Option F
  best_similarity g = best_of g.members

  -- `key=lambda m: (-m.similarity, m.pool, str(m.representation_id))`.
  unfoldable pub nearer : GroupMember F → GroupMember F → Bool
  nearer a b =
      f.lt b.similarity a.similarity
      || f.eq a.similarity b.similarity
        && (ltb (pool_rank a.pool) (pool_rank b.pool)
            || pool_rank a.pool == pool_rank b.pool && ltb a.representation_id b.representation_id)

  unfoldable pub group_of : Key × List (GroupMember F) → CandidateGroup F
  unfolding nearer
  group_of e = record { identity_id = identity_of e.0; members = order_by nearer e.1 }

  abbrev pub first_id : List (GroupMember F) → ℕ
  first_id [] = 0
  first_id (m ∷ ms) = m.representation_id

  -- `<` of two pairs of a negated similarity and a tie-breaker.
  abbrev pub precedes : Option F → Option F → Bool → Bool
  precedes none y tie = false
  precedes (some x) none tie = false
  precedes (some x) (some y) tie = f.lt y x || f.eq x y && tie

  -- `key=lambda g: (-g.best_similarity, str(g.members[0].representation_id))`, of groups that have
  -- members.
  unfoldable pub better : CandidateGroup F → CandidateGroup F → Bool
  better a b =
      precedes (best_similarity a) (best_similarity b)
        (ltb (first_id a.members) (first_id b.members))

  -- `assess`; the two fields that hold constants are left out.
  unfoldable pub assess : Retrieval F → ObservationQuality F → RecognitionAssessment F
  unfolding group_by_key group_of better
  assess retrieval quality = record {
    representation_space_id = retrieval.representation_space_id;
    quality = quality;
    requested_k = retrieval.requested_k;
    returned = length retrieval.candidates;
    dropped = retrieval.dropped;
    converged = retrieval.converged;
    groups = order_by better (map group_of (group_by_key retrieval.candidates []));
  }

  -- `margin`: `none` with fewer than two groups; a group without members raises.
  unfoldable pub margin : RecognitionAssessment F → Option (Option F)
  margin a = elim a.groups [
    | [] ↦ some none
    | g ∷ gs ↦ elim gs [
      | [] ↦ some none
      | h ∷ hs ↦ elim (best_similarity g) [
        | none ↦ none
        | some x ↦ elim (best_similarity h) [ none ↦ none | some y ↦ some (some (f.minus x y)) ]
      ]
    ]
  ]

-- `RecognitionService`: the size of the shortlist, `none` for the `ValueError` of fewer than two.
unfoldable pub new_service : ℕ → Option ℕ
new_service k = if ltb k 2 then none else some k
