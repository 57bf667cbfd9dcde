-- ===== src/Identities/Merge.antt =====
-- backend/app/identities/use_cases.py: `merge_identities`.
use face_identify.Prelude.{
  ℕ, ◌+◌, Bool, not, ◌&&◌, Option, none, some, List, [], ◌∷◌, ◌++◌, ◌==◌, if◌then◌else◌, same, keep,
  map,
}
use face_identify.Database.{Uuid, Datetime, update_where, find_where, optimistic_locked_update}
use face_identify.Memory.{
  Representation, RepresentationState, RepresentationState-discrete, Occurrence, OccurrenceState,
  OccurrenceState-discrete,
}
use face_identify.Identities.Model.{
  IdentityState, IdentityState-discrete, Identity, identity_versioned, IdentityLineageKind,
  identity_assigned_to_person, identity_merged, Evidence, carried_over, merge,
  EvidenceRepresentation, AssociationState, AssociationState-discrete, IdentityPersonAssociation,
  Tables, refused, stale_revision, Result, err, ok, ◌>>=◌, ◌>>◌, need, get_identity, identity_is,
  active_row, is_id, is_listed,
}
use face_identify.Identities.{touch_identity, representation_is}

abbrev pub is_active_link : Uuid → IdentityPersonAssociation → Bool
is_active_link id a =
    a.identity_id == id && same AssociationState-discrete a.state AssociationState.active

-- `_active_association`.
unfoldable pub active_association :
    Uuid → List IdentityPersonAssociation → Option IdentityPersonAssociation
unfolding find_where AssociationState-discrete
active_association id = find_where (is_active_link id)

-- The identifiers that `new_id` gives during a merge: two for a carried over naming, and two.
pub record MergeIds : Type 0 where
  pub link_evidence_id : Uuid
  pub association_id : Uuid
  pub evidence_id : Uuid
  pub lineage_id : Uuid

abbrev pub carried_evidence : Uuid → Uuid → Uuid → Uuid → Datetime → Evidence
carried_evidence id losing surviving person now = record {
  id = id;
  kind = identity_assigned_to_person;
  processing_run_id = none;
  source_id = none;
  subject_identity_id = some surviving;
  subject_person_id = some person;
  payload_schema_version = 1;
  payload = carried_over losing;
  created_at = now;
  superseded_at = none;
}

abbrev pub carried_association : Uuid → Uuid → Uuid → Uuid → Datetime → IdentityPersonAssociation
carried_association id evidence_id surviving person now = record {
  id = id;
  identity_id = surviving;
  person_id = person;
  state = AssociationState.active;
  evidence_id = some evidence_id;
  created_at = now;
  ended_at = none;
  revision = 1;
}

abbrev pub superseded_row : Datetime → IdentityPersonAssociation → IdentityPersonAssociation
superseded_row now a = record a {
  state = AssociationState.superseded;
  ended_at = some now;
  revision = a.revision + 1;
}

-- The loser's link is carried over where the survivor has none.
abbrev pub carry_over :
    Uuid
    → Uuid
    → MergeIds
    → Datetime
    → IdentityPersonAssociation
    → Option IdentityPersonAssociation
    → Tables
    → Tables
carry_over losing surviving ids now a (some b) t = t
carry_over losing surviving ids now a none t = record t {
  evidence = carried_evidence ids.link_evidence_id losing surviving a.person_id now ∷ t.evidence;
  associations =
      t.associations
      ++ carried_association ids.association_id ids.link_evidence_id surviving a.person_id now ∷ [];
}

abbrev pub reconcile_found :
    Uuid → Uuid → MergeIds → Datetime → Option IdentityPersonAssociation → Tables → Tables
reconcile_found losing surviving ids now none t = t
reconcile_found losing surviving ids now (some a) t =
    let carried =
      carry_over losing surviving ids now a (active_association surviving t.associations) t in
    record carried {
      associations = (update_where (λ x. x.id == a.id) (superseded_row now) carried.associations).0;
    }

-- `_reconcile_person_on_merge`.
unfoldable pub reconcile_person : Uuid → Uuid → MergeIds → Datetime → Tables → Tables
unfolding active_association update_where
reconcile_person losing surviving ids now t =
    reconcile_found losing surviving ids now (active_association losing t.associations) t

abbrev pub is_owned : Uuid → Representation → Bool
is_owned id r = is_id r.identity_id id && representation_is RepresentationState.active r

abbrev pub occurrence_is : OccurrenceState → Occurrence → Bool
occurrence_is state o = same OccurrenceState-discrete o.state state

abbrev pub is_owned_occurrence : Uuid → Occurrence → Bool
is_owned_occurrence id o = o.identity_id == id && occurrence_is OccurrenceState.active o

-- The updates that give what the loser owns to the survivor.
unfoldable pub move_representations : Uuid → Uuid → List Representation → List Representation
unfolding update_where RepresentationState-discrete
move_representations losing surviving table =
    (update_where (is_owned losing) (λ r. record r { identity_id = some surviving }) table).0

abbrev pub owned_occurrence_ids : Uuid → List Occurrence → List Uuid
owned_occurrence_ids id table = map (λ (o : Occurrence). o.id) (keep (is_owned_occurrence id) table)

unfoldable pub move_occurrences : Uuid → Uuid → List Occurrence → List Occurrence
unfolding update_where OccurrenceState-discrete
move_occurrences losing surviving table =
    (update_where (λ o. is_listed o.id (owned_occurrence_ids losing table))
      (λ o. record o { identity_id = surviving }) table).0

abbrev pub or_given : Option Uuid → Option Uuid → Option Uuid
or_given (some o) given = some o
or_given none given = given

-- The survivor takes the loser's representative face where it has none.
unfoldable pub take_representative : Uuid → Identity → List Identity → List Identity
unfolding update_where
take_representative surviving loser table =
    (update_where (λ i. i.id == surviving)
      (λ i. record i {
        representative_observation_id =
            or_given i.representative_observation_id loser.representative_observation_id;
      })
      table).0

abbrev pub merge_evidence : Uuid → Uuid → Uuid → List Uuid → List Uuid → ℕ → Datetime → Evidence
merge_evidence id losing surviving representations occurrences version now = record {
  id = id;
  kind = identity_merged;
  processing_run_id = none;
  source_id = none;
  subject_identity_id = some losing;
  subject_person_id = none;
  payload_schema_version = version;
  payload = merge surviving representations occurrences;
  created_at = now;
  superseded_at = none;
}

abbrev pub links_of : Uuid → List Uuid → List EvidenceRepresentation
links_of evidence_id ids =
    map (λ (id : Uuid). record { evidence_id = evidence_id; representation_id = id }) ids

-- The guarded update that ends the loser.
unfoldable pub end_loser : Uuid → Uuid → ℕ → Datetime → List Identity → Result (List Identity)
unfolding optimistic_locked_update IdentityState-discrete
end_loser losing surviving expected now table =
    let (after, n) =
      optimistic_locked_update losing expected
        (λ i. record i {
          state = IdentityState.merged;
          merged_into_identity_id = some surviving;
          updated_at = now;
        })
        (identity_is IdentityState.active) table in
    if n == 0 then err stale_revision else ok after

-- What moves with the identities of the tables already ended.
unfoldable pub merged_tables :
    Uuid → Uuid → MergeIds → ℕ → Datetime → List Identity → Tables → Tables
unfolding move_representations move_occurrences
merged_tables losing surviving ids version now identities t =
    let moved = map (λ (r : Representation). r.id) (keep (is_owned losing) t.representations) in
    let moved_occurrences = owned_occurrence_ids losing t.occurrences in
    record t {
      identities = identities;
      representations = move_representations losing surviving t.representations;
      occurrences = move_occurrences losing surviving t.occurrences;
      evidence =
          merge_evidence ids.evidence_id losing surviving moved moved_occurrences version now
          ∷ t.evidence;
      evidence_links = t.evidence_links ++ links_of ids.evidence_id moved;
      lineage =
          record {
            id = ids.lineage_id;
            from_identity_id = losing;
            to_identity_id = surviving;
            kind = IdentityLineageKind.merged_into;
            evidence_id = ids.evidence_id;
            created_at = now;
          }
          ∷ t.lineage;
    }

-- `merge_identities`; `earlier` is what the clock says while people are reconciled.
unfoldable pub merge_identities :
    Uuid → Uuid → ℕ → Option ℕ → MergeIds → Datetime → Datetime → ℕ → Tables → Result Tables
unfolding get_identity IdentityState-discrete reconcile_person touch_identity take_representative
    end_loser merged_tables
merge_identities losing surviving expected expected_survivor ids earlier now version t = do
  need (not (losing == surviving)) refused
  survivor ← active_row (get_identity surviving t.identities)
  loser ← active_row (get_identity losing t.identities)
  let reconciled = reconcile_person losing surviving ids earlier t
  touched_rows ← touch_identity expected_survivor now surviving reconciled.identities
  let named = take_representative surviving loser touched_rows
  ended ← end_loser losing surviving expected now named
  ok (merged_tables losing surviving ids version now ended reconciled)
