-- ===== src/Identities/Model.antt =====
-- backend/app/identities/models.py and backend/app/people/models.py: the rows of identities, their
-- lineage and evidence, and of the links to people; the tables that the identity use cases touch;
-- and their errors. A payload keeps what its JSON says.
use face_identify.Prelude.{
  ℕ, String, Bool, true, false, ◌||◌, Option, none, some, List, [], ◌∷◌, ◌==◌, same, refl,
}
use face_identify.Database.{Uuid, Datetime, Versioned, find_where}
use face_identify.Memory.{Representation, Occurrence, OccurrenceObservation, AnnKeySequence}
use face_identify.IndexQueue.{IndexOperation}

pub data IdentityState : Type 0 where
  pending active merged forgotten deleted : IdentityState

unfoldable pub IdentityState-discrete : Discrete IdentityState
IdentityState-discrete = hlevel

pub record Identity : Type 0 where
  pub id : Uuid
  pub state : IdentityState
  pub created_by_processing_run_id : Option Uuid
  pub representative_observation_id : Option Uuid
  pub merged_into_identity_id : Option Uuid
  pub revision : ℕ
  pub created_at : Datetime
  pub activated_at : Option Datetime
  pub forgotten_at : Option Datetime
  pub updated_at : Datetime

abbrev set_identity_revision : Identity → ℕ → Identity
set_identity_revision i n = record i { revision = n }

instance abbrev pub identity_versioned : Versioned Identity
identity_versioned = record {
  row_id = λ i. i.id;
  revision = λ i. i.revision;
  set_revision = set_identity_revision;
  revision-set = λ i n. refl;
  row_id-set = λ i n. refl;
}

pub data IdentityLineageKind : Type 0 where
  merged_into split_from : IdentityLineageKind

pub record IdentityLineage : Type 0 where
  pub id : Uuid
  pub from_identity_id : Uuid
  pub to_identity_id : Uuid
  pub kind : IdentityLineageKind
  pub evidence_id : Uuid
  pub created_at : Datetime

pub data EvidenceKind : Type 0 where
  identity_created identity_matched recognition_abstained identity_assigned_to_person : EvidenceKind
  identity_removed_from_person identity_merged identity_split identity_forgotten : EvidenceKind
  user_correction person_renamed source_permanently_deleted : EvidenceKind

unfoldable pub EvidenceKind-discrete : Discrete EvidenceKind
EvidenceKind-discrete = hlevel

pub data Payload : Type 0 where
  -- representation_id and ann_key
  assignment : Uuid → ℕ → Payload
  -- carried_over_from_identity_id
  carried_over : Uuid → Payload
  -- merged_into_identity_id and what moved: representations, occurrences
  merge : Uuid → List Uuid → List Uuid → Payload
  -- split_from_identity_id and what moved
  split : Uuid → List Uuid → List Uuid → Payload
  -- previous_person_id
  linked : Option Uuid → Payload
  -- association_id
  unlinked : Uuid → Payload
  -- previous_revision and revision
  renamed : ℕ → ℕ → Payload

pub record Evidence : Type 0 where
  pub id : Uuid
  pub kind : EvidenceKind
  pub processing_run_id : Option Uuid
  pub source_id : Option Uuid
  pub subject_identity_id : Option Uuid
  pub subject_person_id : Option Uuid
  pub payload_schema_version : ℕ
  pub payload : Payload
  pub created_at : Datetime
  pub superseded_at : Option Datetime

-- A link with the role SUBJECT, the only one that these use cases write.
pub record EvidenceRepresentation : Type 0 where
  pub evidence_id : Uuid
  pub representation_id : Uuid

pub data AssociationState : Type 0 where
  active removed superseded : AssociationState

unfoldable pub AssociationState-discrete : Discrete AssociationState
AssociationState-discrete = hlevel

pub record IdentityPersonAssociation : Type 0 where
  pub id : Uuid
  pub identity_id : Uuid
  pub person_id : Uuid
  pub state : AssociationState
  pub evidence_id : Option Uuid
  pub created_at : Datetime
  pub ended_at : Option Datetime
  pub revision : ℕ

pub data PersonState : Type 0 where
  active recycled deleted : PersonState

unfoldable pub PersonState-discrete : Discrete PersonState
PersonState-discrete = hlevel

pub record Person : Type 0 where
  pub id : Uuid
  pub state : PersonState
  pub display_name : String
  pub normalized_name : Option String
  pub revision : ℕ
  pub created_at : Datetime
  pub updated_at : Datetime
  pub recycled_at : Option Datetime

abbrev set_person_revision : Person → ℕ → Person
set_person_revision p n = record p { revision = n }

instance abbrev pub person_versioned : Versioned Person
person_versioned = record {
  row_id = λ p. p.id;
  revision = λ p. p.revision;
  set_revision = set_person_revision;
  revision-set = λ p n. refl;
  row_id-set = λ p n. refl;
}

pub record Tables : Type 0 where
  pub identities : List Identity
  pub representations : List Representation
  pub occurrences : List Occurrence
  pub members : List OccurrenceObservation
  pub people : List Person
  pub associations : List IdentityPersonAssociation
  pub evidence : List Evidence
  pub evidence_links : List EvidenceRepresentation
  pub lineage : List IdentityLineage
  pub sequences : List AnnKeySequence
  pub operations : List IndexOperation

pub data IdentityError : Type 0 where
  -- IdentityManagerError
  refused : IdentityError
  -- StaleRevisionError
  stale_revision : IdentityError
  -- SplitConflictError, with the occurrences that it would cut
  split_conflict : List Uuid → IdentityError
  -- the database's, for an id that is taken
  integrity : IdentityError
  -- AssertionError
  assertion : IdentityError

pub data Result {ℓ} (A : Type ℓ) : Type ℓ where
  err : IdentityError → Result A
  ok : A → Result A

abbrev pub ◌>>=◌ {ℓ κ} :
    {A : Type ℓ} {B : Type κ} (first : Result A) (next : A → Result B) → Result B
err e >>= next = err e
ok value >>= next = next value

abbrev pub ◌>>◌ {κ} : {B : Type κ} (first : Result (Unit {0})) (next : Result B) → Result B
err e >> next = err e
ok value >> next = next

infixl 5 ◌>>=◌ ◌>>◌
-- `raise` unless the test holds.
abbrev pub need : Bool → IdentityError → Result (Unit {0})
need true e = ok tt
need false e = err e

-- `session.get(Identity, id)`.
unfoldable pub get_identity : Uuid → List Identity → Option Identity
unfolding find_where
get_identity id = find_where (λ i. i.id == id)

abbrev pub identity_is : IdentityState → Identity → Bool
identity_is state i = same IdentityState-discrete i.state state

-- The row, which must be there and ACTIVE.
abbrev pub active_row : Option Identity → Result Identity
active_row none = err refused
active_row (some i) = need (identity_is IdentityState.active i) refused >> ok i

abbrev pub is_id : Option Uuid → Uuid → Bool
is_id none id = false
is_id (some i) id = i == id

abbrev pub is_listed : Uuid → List Uuid → Bool
is_listed id [] = false
is_listed id (j ∷ js) = j == id || is_listed id js
