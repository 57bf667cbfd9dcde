-- ===== src/Identities/Examples.antt =====
-- Two ACTIVE identities, one with a face in a photo, and a third that is created, activated and
-- assigned a face: the witnesses of Identities.
use mathlib.Core.Path.{subst}
use mathlib.Core.Option.{some-injective}
use face_identify.Prelude.{
  ℕ, ◌+◌, ◌≡◌, refl, ◌⊎◌, inl, In, ◌≢◌, true, false, Option, none, some, List, [], ◌∷◌, map, All,
  arith,
}
use face_identify.Database.{Uuid, update_where, find_where, optimistic_locked_update}
use face_identify.Memory.{
  Representation, RepresentationState, RepresentationState-discrete, Occurrence, OccurrenceKind,
  OccurrenceState, OccurrenceState-discrete, allocate_ann_key,
}
use face_identify.Identities.Model.{
  IdentityState, IdentityState-discrete, Identity, EvidenceKind-discrete, identity_created,
  AssociationState-discrete, Tables, ok, get_identity, identity_is, is_listed,
}
use face_identify.Identities.{
  get_representation, representation_is, has_creation_evidence, touched, touch_identity,
  activate_identity, create_pending_identity, assigned, assign_representation_to_identity,
}
use face_identify.Identities.Merge.{
  MergeIds, active_association, reconcile_person, move_representations, move_occurrences,
  take_representative, end_loser, merged_tables, merge_identities, is_owned, is_owned_occurrence,
}
use face_identify.Database.Keys.{by_key}
use face_identify.Database.Ordering.{order_by}
use face_identify.Identities.Support.{
  occurrence_observations, support_of, occurrence_support, is_within, meets, remaining_face,
  refresh_representative,
}
use face_identify.Identities.Split.{
  SplitIds, split_representations, split_occurrences, name_split, split_tables, split_identity,
}
use face_identify.Identities.Revalidation.{resolve_ann_candidates, is_answered}
use face_identify.Identities.Answers.{IsBacked, resolve_ann_candidates-IsBacked}
use face_identify.Identities.Whole.{id_of_occurrence, split_identity-keeps_whole}
use face_identify.Identities.Resolve.{follow, resolve_from, resolve_recognition_candidates}
use face_identify.Identities.Rows.{standing, HasUniqueIds}
use face_identify.Identities.Moves.{IsActive, HasOwner}
use face_identify.Identities.Coherence.{IsCoherent, merge_identities-IsCoherent}
use face_identify.Identities.Changes.{
  Change, create, activate, assign, touch, split, merge, step, committed, run, merges,
}
use face_identify.Identities.History.{run-IsCoherent}
use face_identify.Identities.Resolution.{IsCurrent, IsAnswered, resolve-run}

abbrev identity : Uuid → Identity
identity id = record {
  id = id;
  state = IdentityState.active;
  created_by_processing_run_id = some 50;
  representative_observation_id = some (id + 20);
  merged_into_identity_id = none;
  revision = 1;
  created_at = 10;
  activated_at = some 11;
  forgotten_at = none;
  updated_at = 11;
}

abbrev face : Uuid → Option ℕ → RepresentationState → Option Uuid → Representation
face id key state owner = record {
  id = id;
  observation_id = id + 20;
  identity_id = owner;
  processing_run_id = 50;
  representation_space_id = 7;
  state = state;
  ann_key = key;
  vector = none;
  vector_dimension = 512;
  created_at = 10;
  activated_at = none;
  erased_at = none;
}

abbrev photo : Occurrence
photo = record {
  id = 40;
  source_id = 60;
  identity_id = 1;
  processing_run_id = 50;
  representative_observation_id = some 23;
  kind = OccurrenceKind.image;
  state = OccurrenceState.active;
  created_at = 10;
  activated_at = some 11;
}

abbrev tables : Tables
tables = record {
  identities = identity 1 ∷ identity 2 ∷ [];
  representations =
      face 3 (some 3) RepresentationState.active (some 1)
      ∷ face 4 none RepresentationState.pending none
      ∷ face 8 (some 8) RepresentationState.active none
      ∷ [];
  occurrences = photo ∷ [];
  members = [];
  people = [];
  associations = [];
  evidence = [];
  evidence_links = [];
  lineage = [];
  sequences = [];
  operations = [];
}

abbrev new_ids : MergeIds
new_ids = record { link_evidence_id = 91; association_id = 92; evidence_id = 93; lineage_id = 94 }

one_is_not_two : (identity 1).id ≢ (identity 2).id
one_is_not_two e = omega (arith, e)

pending_is_not_active :
    representation_is RepresentationState.active (face 4 none RepresentationState.pending none)
    ≢ true
unfolding RepresentationState-discrete
pending_is_not_active e = absurd (cc)

tables-IsCoherent : IsCoherent tables
unfolding get_identity find_where
tables-IsCoherent = (
  ((one_is_not_two, tt), (tt, tt)),
  (
    (λ active id e. subst (λ k. IsActive k tables.identities) (some-injective 1 id e) (none, refl)),
    ((λ active. absurd (pending_is_not_active active)), ((λ active id e. absurd (cc)), tt)),
  ),
  ((λ active. (none, refl)), tt),
)

-- What the merge of the first identity into the second leaves.
abbrev after_merge : Tables
after_merge = committed tables (merge_identities 1 2 1 (some 1) new_ids 100 101 1 tables)

after_merge_lem : merge_identities 1 2 1 (some 1) new_ids 100 101 1 tables ≡ ok after_merge
unfolding merge_identities merged_tables move_representations move_occurrences take_representative
    end_loser reconcile_person active_association touch_identity touched optimistic_locked_update
    update_where find_where get_identity IdentityState-discrete RepresentationState-discrete
    OccurrenceState-discrete AssociationState-discrete
after_merge_lem = refl

merge_identities-IsCoherent_example :
    IsCoherent after_merge
    × All (λ r. is_owned 1 r ≡ false) after_merge.representations
    × All (λ o. is_owned_occurrence 1 o ≡ false) after_merge.occurrences
    × (standing (get_identity 1 after_merge.identities)
        ≡ some (record { state = IdentityState.merged; merged_into = some 2 }))
    × IsActive 2 after_merge.identities
merge_identities-IsCoherent_example =
    merge_identities-IsCoherent 1 2 1 (some 1) new_ids 100 101 1 tables after_merge
      tables-IsCoherent after_merge_lem

abbrev split_ids : SplitIds
split_ids = record { identity_id = 6; evidence_id = 97; lineage_id = 98 }

-- The photo rests on the only face of the first identity, and leaves with it.
abbrev after_split : Tables
after_split = committed tables (split_identity 1 (3 ∷ []) (some 1) split_ids 110 1 tables)

after_split_lem : split_identity 1 (3 ∷ []) (some 1) split_ids 110 1 tables ≡ ok after_split
unfolding split_identity split_tables split_representations split_occurrences name_split
    refresh_representative remaining_face order_by occurrence_support support_of
    occurrence_observations touch_identity touched optimistic_locked_update get_representation
    update_where find_where get_identity IdentityState-discrete RepresentationState-discrete
    OccurrenceState-discrete
after_split_lem = refl

photo_is_owned : is_owned_occurrence 1 photo ≡ true
unfolding OccurrenceState-discrete
photo_is_owned = refl

split_identity-keeps_whole_example :
    ((is_within (support_of 1 photo tables) (3 ∷ []) ≡ true)
      × (by_key id_of_occurrence 40 after_split.occurrences
          ≡ some (record photo { identity_id = 6 })))
    ⊎ ((meets (support_of 1 photo tables) (3 ∷ []) ≡ false)
        × (by_key id_of_occurrence 40 after_split.occurrences ≡ some photo))
split_identity-keeps_whole_example =
    split_identity-keeps_whole 1 (3 ∷ []) (some 1) split_ids 110 1 tables after_split photo (tt, tt)
      (inl refl) photo_is_owned after_split_lem

-- A third identity takes the pending face and survives two merges; the last merge is refused, and
-- the photo is split off again.
abbrev changes : List Change
changes =
    create 5 50 none 20 21
    ∷ activate 5 1 22
    ∷ assign 4 5 95 96 23 identity_created none
    ∷ merge 1 2 1 none new_ids 100 101 1
    ∷ touch none 102 2
    ∷ merge 2 5 3 none new_ids 103 104 1
    ∷ merge 1 5 2 none new_ids 105 106 1
    ∷ split 5 (3 ∷ []) none split_ids 107 1
    ∷ []

abbrev found : Option (List Identity) → List Identity
found none = []
found (some is) = is

run-IsCoherent_example : IsCoherent (run changes tables)
run-IsCoherent_example = run-IsCoherent changes tables tables-IsCoherent

none_merged : All (λ i. identity_is IdentityState.merged i ≡ false) tables.identities
unfolding IdentityState-discrete
none_merged = (refl, (refl, tt))

-- All candidates but one that is not there lead to the third identity, or to the one split off.
resolve_from_changes :
    map
      (λ (i : Identity). i.id)
      (found (
        resolve_recognition_candidates
          (merges changes)
          (run changes tables).identities
          (1 ∷ 2 ∷ 5 ∷ 6 ∷ 9 ∷ [])))
    ≡ 5 ∷ 6 ∷ []
unfolding split_identity split_tables split_representations split_occurrences name_split
    refresh_representative remaining_face order_by occurrence_support support_of
    occurrence_observations resolve_recognition_candidates resolve_from follow run step
    create_pending_identity activate_identity assign_representation_to_identity assigned
    get_representation has_creation_evidence allocate_ann_key merge_identities merged_tables
    move_representations move_occurrences take_representative end_loser reconcile_person
    active_association touch_identity touched optimistic_locked_update update_where find_where
    get_identity IdentityState-discrete RepresentationState-discrete OccurrenceState-discrete
    AssociationState-discrete EvidenceKind-discrete
resolve_from_changes = refl

resolve-run_example :
    (r : List Identity) × (resolve_recognition_candidates
        (merges changes)
        (run changes tables).identities
        (1 ∷ 2 ∷ 5 ∷ 6 ∷ 9 ∷ [])
      ≡ some r)
    × All (IsCurrent (run changes tables).identities) r
    × HasUniqueIds r
    × All (IsAnswered (merges changes) (run changes tables).identities r) (1 ∷ 2 ∷ 5 ∷ 6 ∷ 9 ∷ [])
resolve-run_example =
    resolve-run changes tables (1 ∷ 2 ∷ 5 ∷ 6 ∷ 9 ∷ []) tables-IsCoherent.0 none_merged

resolve_ann_candidates-IsBacked_example :
    All
      (IsBacked 7 (3 ∷ 9 ∷ 8 ∷ 3 ∷ []) tables)
      (resolve_ann_candidates 7 (3 ∷ 9 ∷ 8 ∷ 3 ∷ []) tables)
    × ((r : Representation) (key : ℕ)
        → In r tables.representations
        → HasOwner tables.identities r
        → r.representation_space_id ≡ 7
        → r.ann_key ≡ some key
        → representation_is RepresentationState.active r ≡ true
        → is_listed key (3 ∷ 9 ∷ 8 ∷ 3 ∷ []) ≡ true
        → is_answered key (resolve_ann_candidates 7 (3 ∷ 9 ∷ 8 ∷ 3 ∷ []) tables) ≡ true)
resolve_ann_candidates-IsBacked_example =
    resolve_ann_candidates-IsBacked 7 (3 ∷ 9 ∷ 8 ∷ 3 ∷ []) tables
