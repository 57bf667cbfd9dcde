-- ===== src/Identities/Support.antt =====
-- backend/app/identities/use_cases.py: `occurrence_support` and `refresh_representative`, and the
-- checks of `split_identity`. A row that the code reads again by its id is the one that it has.
use face_identify.Prelude.{
  Bool, true, false, not, ◌&&◌, ◌||◌, Option, none, some, List, [], ◌∷◌, ◌++◌, ◌==◌, if◌then◌else◌,
  keep, map, ltb, head?,
}
use face_identify.Database.{Uuid, Datetime, update_where}
use face_identify.Database.Ordering.{order_by}
use face_identify.Memory.{Representation, Occurrence, OccurrenceObservation}
use face_identify.Identities.Model.{Identity, Tables, split_conflict, Result, err, ok, is_listed}
use face_identify.Identities.{get_representation}
use face_identify.Identities.Merge.{is_owned, is_owned_occurrence}

abbrev pub distinct_after : List Uuid → List Uuid → List Uuid
distinct_after seen [] = []
distinct_after seen (id ∷ ids) =
    let skipped = distinct_after seen ids in
    let kept = id ∷ distinct_after (id ∷ seen) ids in if is_listed id seen then skipped else kept

abbrev listed_option : Option Uuid → List Uuid
listed_option none = []
listed_option (some id) = id ∷ []

-- `_occurrence_observations`.
unfoldable pub occurrence_observations : Occurrence → List OccurrenceObservation → List Uuid
occurrence_observations o members = distinct_after [] (
    map (λ (m : OccurrenceObservation). m.observation_id)
      (keep (λ m. m.occurrence_id == o.id) members)
    ++ listed_option o.representative_observation_id)

-- The representations of the identity that an occurrence rests on.
unfoldable pub support_of : Uuid → Occurrence → Tables → List Uuid
unfolding occurrence_observations
support_of id o t =
    map (λ (r : Representation). r.id)
      (keep (λ r. is_listed r.observation_id (occurrence_observations o t.members) && is_owned id r)
        t.representations)

pub record Support : Type 0 where
  pub occurrence_id : Uuid
  pub representation_ids : List Uuid

-- `occurrence_support`.
unfoldable pub occurrence_support : Uuid → Tables → List Support
unfolding support_of
occurrence_support id t =
    map
      (λ (o : Occurrence). record { occurrence_id = o.id; representation_ids = support_of id o t })
      (keep (is_owned_occurrence id) t.occurrences)

-- `reps & selected` is not empty.
abbrev pub meets : List Uuid → List Uuid → Bool
meets [] selected = false
meets (id ∷ ids) selected = is_listed id selected || meets ids selected

-- `reps <= selected`.
abbrev pub is_within : List Uuid → List Uuid → Bool
is_within [] selected = true
is_within (id ∷ ids) selected = is_listed id selected && is_within ids selected

abbrev pub is_moving : List Uuid → Support → Bool
is_moving selected s = meets s.representation_ids selected

abbrev pub is_cut : List Uuid → Support → Bool
is_cut selected s = is_moving selected s && not (is_within s.representation_ids selected)

abbrev pub occurrences_of : List Support → List Uuid
occurrences_of supports = map (λ (s : Support). s.occurrence_id) supports

abbrev pub refuse_conflicts : List Uuid → Result (Unit {0})
refuse_conflicts [] = ok tt
refuse_conflicts (id ∷ ids) = err (split_conflict (id ∷ ids))

abbrev pub is_owned_row : Uuid → Option Representation → Bool
is_owned_row id none = false
is_owned_row id (some r) = is_owned id r

-- Each of the representations is there, of the identity and ACTIVE.
abbrev pub all_owned : Uuid → List Uuid → List Representation → Bool
all_owned id [] table = true
all_owned id (r ∷ rs) table = is_owned_row id (get_representation r table) && all_owned id rs table

abbrev pub is_nothing : List Uuid → Bool
is_nothing [] = true
is_nothing (id ∷ ids) = false

-- Two links of one evidence to the same representation have the same key.
abbrev pub has_repeat : List Uuid → Bool
has_repeat [] = false
has_repeat (id ∷ ids) = is_listed id ids || has_repeat ids

-- An ACTIVE representation of the identity on the observation.
abbrev pub has_face : Uuid → Option Uuid → List Representation → Bool
has_face id none table = false
has_face id (some observation) [] = false
has_face id (some observation) (r ∷ rs) =
    r.observation_id == observation && is_owned id r || has_face id (some observation) rs

abbrev pub earlier_occurrence : Occurrence → Occurrence → Bool
earlier_occurrence a b =
    ltb a.created_at b.created_at || a.created_at == b.created_at && ltb a.id b.id

abbrev pub representative_of : Option Occurrence → Option Uuid
representative_of none = none
representative_of (some o) = o.representative_observation_id

-- The face that the query of `refresh_representative` gives.
unfoldable pub remaining_face : Uuid → List Occurrence → List Representation → Option Uuid
unfolding order_by
remaining_face id occurrences representations = representative_of (
    head? (
      order_by earlier_occurrence (
        keep
          (λ o.
            is_owned_occurrence id o && has_face id o.representative_observation_id representations)
          occurrences)))

abbrev pub has_left : Option Uuid → List Uuid → Bool
has_left none moved = false
has_left (some observation) moved = is_listed observation moved

-- `refresh_representative`.
unfoldable pub refresh_representative :
    Identity → List Uuid → Option Uuid → Datetime → List Identity → List Identity
unfolding update_where
refresh_representative source moved face now table =
    let refreshed =
      (update_where (λ i. i.id == source.id)
        (λ i. record i { representative_observation_id = face; updated_at = now }) table).0 in
    if has_left source.representative_observation_id moved then refreshed else table
