-- ===== src/Identities/Split.antt =====
-- backend/app/identities/use_cases.py: `split_identity`.
use face_identify.Prelude.{ℕ, Bool, not, Option, none, some, List, [], ◌∷◌, ◌++◌, ◌==◌, keep}
use face_identify.Database.{Uuid, Datetime, update_where}
use face_identify.Memory.{
  Representation, RepresentationState-discrete, Occurrence, OccurrenceObservation,
}
use face_identify.Identities.Model.{
  IdentityState, IdentityState-discrete, Identity, IdentityLineageKind, identity_split, Evidence,
  Payload, Tables, refused, integrity, Result, ok, ◌>>=◌, ◌>>◌, need, get_identity, active_row,
  is_listed,
}
use face_identify.Identities.{get_representation, insert_identity, touch_identity}
use face_identify.Identities.Merge.{or_given, links_of}
use face_identify.Identities.Support.{
  occurrence_observations, occurrence_support, is_moving, is_cut, occurrences_of, refuse_conflicts,
  all_owned, is_nothing, has_repeat, remaining_face, refresh_representative,
}

-- The identifiers that `new_id` gives during a split.
pub record SplitIds : Type 0 where
  pub identity_id : Uuid
  pub evidence_id : Uuid
  pub lineage_id : Uuid

abbrev pub split_row : Uuid → Datetime → Identity
split_row id now = record {
  id = id;
  state = IdentityState.active;
  created_by_processing_run_id = none;
  representative_observation_id = none;
  merged_into_identity_id = none;
  revision = 1;
  created_at = now;
  activated_at = some now;
  forgotten_at = none;
  updated_at = now;
}

abbrev pub split_evidence : Uuid → Uuid → Uuid → List Uuid → List Uuid → ℕ → Datetime → Evidence
split_evidence id source new_identity representations occurrences version now = record {
  id = id;
  kind = identity_split;
  processing_run_id = none;
  source_id = none;
  subject_identity_id = some new_identity;
  subject_person_id = none;
  payload_schema_version = version;
  payload = Payload.split source representations occurrences;
  created_at = now;
  superseded_at = none;
}

-- The first representative face of the occurrences that move.
abbrev pub first_representative : List Occurrence → Option Uuid
first_representative [] = none
first_representative (o ∷ os) = or_given o.representative_observation_id (first_representative os)

abbrev pub is_listed_occurrence : List Uuid → Occurrence → Bool
is_listed_occurrence ids o = is_listed o.id ids

-- The updates that give what is split off to the new identity.
unfoldable pub split_representations : List Uuid → Uuid → List Representation → List Representation
unfolding update_where
split_representations ids new_identity table =
    (update_where (λ r. is_listed r.id ids) (λ r. record r { identity_id = some new_identity })
      table).0

unfoldable pub split_occurrences : List Uuid → Uuid → List Occurrence → List Occurrence
unfolding update_where
split_occurrences ids new_identity table =
    (update_where (is_listed_occurrence ids) (λ o. record o { identity_id = new_identity }) table).0

-- The new identity takes the first representative face that moves.
unfoldable pub name_split : Uuid → Option Uuid → List Identity → List Identity
unfolding update_where
name_split new_identity face table =
    (update_where (λ i. i.id == new_identity)
      (λ i. record i {
        representative_observation_id = or_given i.representative_observation_id face;
      })
      table).0

abbrev pub observations_of : List Occurrence → List OccurrenceObservation → List Uuid
observations_of [] members = []
observations_of (o ∷ os) members = occurrence_observations o members ++ observations_of os members

-- What a split writes once the source was touched and the new identity inserted.
unfoldable pub split_tables :
    Identity → List Uuid → List Uuid → SplitIds → ℕ → Datetime → List Identity → Tables → Tables
unfolding occurrence_observations remaining_face refresh_representative split_representations
    split_occurrences name_split
split_tables source selected moving ids version now identities t =
    let moved_rows = keep (is_listed_occurrence moving) t.occurrences in
    let representations = split_representations selected ids.identity_id t.representations in
    let occurrences = split_occurrences moving ids.identity_id t.occurrences in
    record t {
      identities =
          refresh_representative source (observations_of moved_rows t.members)
            (remaining_face source.id occurrences representations) now
            (name_split ids.identity_id (first_representative moved_rows) identities);
      representations = representations;
      occurrences = occurrences;
      evidence =
          split_evidence ids.evidence_id source.id ids.identity_id selected moving version now
          ∷ t.evidence;
      evidence_links = t.evidence_links ++ links_of ids.evidence_id selected;
      lineage =
          record {
            id = ids.lineage_id;
            from_identity_id = source.id;
            to_identity_id = ids.identity_id;
            kind = IdentityLineageKind.split_from;
            evidence_id = ids.evidence_id;
            created_at = now;
          }
          ∷ t.lineage;
    }

-- `split_identity`.
unfoldable pub split_identity :
    Uuid → List Uuid → Option ℕ → SplitIds → Datetime → ℕ → Tables → Result Tables
unfolding get_identity get_representation occurrence_support touch_identity split_tables
    IdentityState-discrete RepresentationState-discrete
split_identity source_id selected expected ids now version t = do
  source ← active_row (get_identity source_id t.identities)
  need (not (is_nothing selected)) refused
  need (all_owned source_id selected t.representations) refused
  let supports = occurrence_support source_id t
  refuse_conflicts (occurrences_of (keep (is_cut selected) supports))
  let moving = occurrences_of (keep (is_moving selected) supports)
  touched_rows ← touch_identity expected now source_id t.identities
  inserted ←
      insert_identity (get_identity ids.identity_id touched_rows) (split_row ids.identity_id now)
        touched_rows
  need (not (has_repeat selected)) integrity
  ok (split_tables source selected moving ids version now inserted t)
