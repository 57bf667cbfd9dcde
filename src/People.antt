-- ===== src/People.antt =====
-- backend/app/people/use_cases.py: linking identities to people, and naming them. Identifiers from
-- `new_id` and the times of `clock` are arguments; `str.strip` and `str.casefold` are parameters.
pub mod Names
pub mod Counts
pub mod Links
pub mod Actions
pub mod History
mod Examples
use face_identify.Prelude.{
  ℕ, ◌+◌, String, Bool, true, false, not, ◌&&◌, Option, none, some, List, [], ◌∷◌, ◌++◌, ◌==◌, same,
  if◌then◌else◌,
}
use face_identify.Database.{Uuid, Datetime, update_where, find_where, optimistic_locked_update}
use face_identify.Identities.Model.{
  IdentityState-discrete, Identity, EvidenceKind, identity_assigned_to_person,
  identity_removed_from_person, person_renamed, Evidence, Payload, linked, unlinked, renamed,
  AssociationState, AssociationState-discrete, IdentityPersonAssociation, Person, PersonState,
  PersonState-discrete, person_versioned, Tables, IdentityError, refused, stale_revision, integrity,
  assertion, Result, err, ok, ◌>>=◌, ◌>>◌, need, get_identity, active_row,
}
use face_identify.Identities.{no_condition, touched}
use face_identify.Identities.Merge.{active_association, carried_association, superseded_row}
use Names.{is_empty_name}

-- `session.get(Person, id)`.
unfoldable pub get_person : Uuid → List Person → Option Person
unfolding find_where
get_person id = find_where (λ p. p.id == id)

abbrev pub active_person : Option Person → Result Person
active_person none = err refused
active_person (some p) = need (same PersonState-discrete p.state PersonState.active) refused >> ok p

abbrev pub person_of : Option IdentityPersonAssociation → Option Uuid
person_of none = none
person_of (some a) = some a.person_id

abbrev pub is_linked_to : Uuid → Option IdentityPersonAssociation → Bool
is_linked_to person_id none = false
is_linked_to person_id (some a) = a.person_id == person_id

-- The current link, where there is one, is ended.
unfoldable pub end_link :
    (IdentityPersonAssociation → IdentityPersonAssociation)
    → Option IdentityPersonAssociation
    → List IdentityPersonAssociation
    → List IdentityPersonAssociation
unfolding update_where
end_link ended none table = table
end_link ended (some a) table = (update_where (λ x. x.id == a.id) ended table).0

abbrev pub link_evidence :
    Uuid → EvidenceKind → Option Uuid → Uuid → ℕ → Payload → Datetime → Evidence
link_evidence id kind identity_id person_id version payload now = record {
  id = id;
  kind = kind;
  processing_run_id = none;
  source_id = none;
  subject_identity_id = identity_id;
  subject_person_id = some person_id;
  payload_schema_version = version;
  payload = payload;
  created_at = now;
  superseded_at = none;
}

-- What `assign_identity_to_person` writes; the new row of the link is that of a merge.
unfoldable pub link :
    Uuid → Uuid → Uuid → Uuid → Datetime → ℕ → Option IdentityPersonAssociation → Tables → Tables
unfolding end_link touched
link identity_id person_id evidence_id association_id now version current t = record t {
  associations =
      end_link (superseded_row now) current t.associations
      ++ carried_association association_id evidence_id identity_id person_id now ∷ [];
  evidence =
      link_evidence evidence_id identity_assigned_to_person (some identity_id) person_id version
        (linked (person_of current)) now
      ∷ t.evidence;
  identities = (touched none now identity_id t.identities).0;
}

-- `assign_identity_to_person`.
unfoldable pub assign_identity_to_person :
    Uuid → Uuid → Uuid → Uuid → Datetime → ℕ → Tables → Result Tables
unfolding get_identity get_person active_association link IdentityState-discrete
    PersonState-discrete
assign_identity_to_person identity_id person_id evidence_id association_id now version t = do
  identity ← active_row (get_identity identity_id t.identities)
  person ← active_person (get_person person_id t.people)
  need (not (is_linked_to person_id (active_association identity_id t.associations))) refused
  ok (
      link identity_id person_id evidence_id association_id now version
        (active_association identity_id t.associations) t)

abbrev pub removed_row : Datetime → IdentityPersonAssociation → IdentityPersonAssociation
removed_row now a = record a {
  state = AssociationState.removed;
  ended_at = some now;
  revision = a.revision + 1;
}

-- What `remove_identity_from_person` writes.
unfoldable pub unlink : Uuid → Uuid → Datetime → ℕ → IdentityPersonAssociation → Tables → Tables
unfolding end_link touched
unlink identity_id evidence_id now version a t = record t {
  associations = end_link (removed_row now) (some a) t.associations;
  evidence =
      link_evidence evidence_id identity_removed_from_person (some identity_id) a.person_id version
        (unlinked a.id) now
      ∷ t.evidence;
  identities = (touched none now identity_id t.identities).0;
}

abbrev pub current_link : Option IdentityPersonAssociation → Result IdentityPersonAssociation
current_link none = err refused
current_link (some a) = ok a

abbrev pub asserted_row : Option Identity → Result Identity
asserted_row none = err assertion
asserted_row (some i) = ok i

-- `remove_identity_from_person`.
unfoldable pub remove_identity_from_person : Uuid → Uuid → Datetime → ℕ → Tables → Result Tables
unfolding get_identity active_association unlink
remove_identity_from_person identity_id evidence_id now version t = do
  current ← current_link (active_association identity_id t.associations)
  identity ← asserted_row (get_identity identity_id t.identities)
  ok (unlink identity_id evidence_id now version current t)

abbrev pub insert_person : Option Person → Person → Tables → Result Tables
insert_person (some taken) p t = err integrity
insert_person none p t = ok (record t { people = t.people ++ p ∷ [] })

abbrev pub no_link : Option IdentityPersonAssociation → Bool
no_link none = true
no_link (some a) = false

-- The identifiers that `new_id` gives when an identity is named.
pub record NameIds : Type 0 where
  pub person_id : Uuid
  pub evidence_id : Uuid
  pub association_id : Uuid

-- `_raise_rename_conflict`.
abbrev pub rename_conflict : Option Person → IdentityError
rename_conflict none = refused
rename_conflict (some p) = stale_revision

-- The evidence of a new name, with the row as it is read again.
abbrev pub rename_evidence : Uuid → ℕ → Option Person → Tables → Result Tables
rename_evidence id expected none t = err assertion
rename_evidence id expected (some p) t = ok (record t {
  evidence =
      link_evidence id person_renamed none p.id 1 (renamed expected p.revision) p.updated_at
      ∷ t.evidence;
})

module _ (strip casefold : String → String) where
  abbrev pub named_person : Uuid → String → Datetime → Person
  named_person id name now = record {
    id = id;
    state = PersonState.active;
    display_name = name;
    normalized_name = some (casefold name);
    revision = 1;
    created_at = now;
    updated_at = now;
    recycled_at = none;
  }

  -- `name_identity`, whose clock is read again by the assignment.
  unfoldable pub name_identity :
      Uuid → String → NameIds → Datetime → Datetime → Tables → Result Tables
  unfolding get_identity get_person active_association assign_identity_to_person
      IdentityState-discrete
  name_identity identity_id display_name ids now later t = do
    need (not (is_empty_name (strip display_name))) refused
    identity ← active_row (get_identity identity_id t.identities)
    need (no_link (active_association identity_id t.associations)) refused
    inserted ←
        insert_person (get_person ids.person_id t.people)
          (named_person ids.person_id (strip display_name) now) t
    assign_identity_to_person identity_id ids.person_id ids.evidence_id ids.association_id later 1
        inserted

  -- `rename_person`.
  unfoldable pub rename_person : Uuid → String → ℕ → Uuid → Datetime → Tables → Result Tables
  unfolding optimistic_locked_update get_person
  rename_person person_id display_name expected evidence_id now t = do
    need (not (is_empty_name (strip display_name))) refused
    let updated =
        optimistic_locked_update person_id expected
          (λ p. record p {
            display_name = strip display_name;
            normalized_name = some (casefold (strip display_name));
            updated_at = now;
          })
          (λ p. true) t.people
    need (not (updated.1 == 0)) (rename_conflict (get_person person_id t.people))
    rename_evidence evidence_id expected (get_person person_id updated.0)
        (record t { people = updated.0 })
