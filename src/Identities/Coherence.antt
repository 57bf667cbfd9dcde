-- ===== src/Identities/Coherence.antt =====
-- What a merge leaves: who owns the ACTIVE representations and occurrences.
use mathlib.Core.Path.{subst}
use face_identify.Prelude.{
  ℕ, ◌≡◌, refl, ap, ◌∙◌, sym, false, not, Option, none, some, List, ◌==◌, All, All-map, arith,
}
use face_identify.Database.{Uuid, Datetime}
use face_identify.Identities.Model.{
  IdentityState, Identity, Tables, Result, ok, ◌>>=◌, get_identity, refused, active_row,
  IdentityPersonAssociation,
}
use face_identify.Identities.Results.{ok-injective, ok-then, ok-bind, active_row-inverts}
use face_identify.Identities.{touch_identity}
use face_identify.Identities.Merge.{
  MergeIds, is_owned, is_owned_occurrence, move_representations, move_occurrences, reconcile_person,
  reconcile_found, carry_over, active_association, take_representative, end_loser, merged_tables,
  merge_identities,
}
use face_identify.Identities.Rows.{standing, HasUniqueIds}
use face_identify.Identities.Moves.{
  IsActive, HasOwner, HasSubject, IsMerge, IsMerge-rows, move_representations-HasOwner,
  move_occurrences-HasSubject,
}

-- What is remembered is of identities that are there and ACTIVE.
abbrev pub IsCoherent : Tables → Type 0
IsCoherent t =
    HasUniqueIds t.identities
    × All (HasOwner t.identities) t.representations
    × All (HasSubject t.identities) t.occurrences

-- Reconciling people leaves the other tables.
pub reconcile_person-keeps :
    (losing surviving : Uuid) (ids : MergeIds) (now : Datetime) (t : Tables)
    → let after = reconcile_person losing surviving ids now t in
      (after.identities ≡ t.identities)
      × (after.representations ≡ t.representations)
      × (after.occurrences ≡ t.occurrences)
unfolding reconcile_person
reconcile_person-keeps losing surviving ids now t = found (active_association losing t.associations)
  where
    carried :
        (o : Option IdentityPersonAssociation) (a : IdentityPersonAssociation)
        → let after = carry_over losing surviving ids now a o t in
          (after.identities ≡ t.identities)
          × (after.representations ≡ t.representations)
          × (after.occurrences ≡ t.occurrences)
    carried none a = (refl, refl, refl)
    carried (some b) a = (refl, refl, refl)

    found :
        (o : Option IdentityPersonAssociation)
        → let after = reconcile_found losing surviving ids now o t in
          (after.identities ≡ t.identities)
          × (after.representations ≡ t.representations)
          × (after.occurrences ≡ t.occurrences)
    found none = (refl, refl, refl)
    found (some a) = carried (active_association surviving t.associations) a

-- What `merge_identities` did where it returned.
pub merge_identities-inverts :
    (losing surviving : Uuid) (expected : ℕ) (expected_survivor : Option ℕ) (ids : MergeIds)
    (earlier now : Datetime) (version : ℕ) (t after : Tables)
    → HasUniqueIds t.identities
    → merge_identities losing surviving expected expected_survivor ids earlier now version t
      ≡ ok after
    → IsMerge losing surviving t.identities after.identities
      × (after.representations ≡ move_representations losing surviving t.representations)
      × (after.occurrences ≡ move_occurrences losing surviving t.occurrences)
      × (after.associations ≡ (reconcile_person losing surviving ids earlier t).associations)
unfolding merge_identities merged_tables
merge_identities-inverts losing surviving expected expected_survivor ids earlier now version t after
      u h =
    let reconciled : Tables = reconcile_person losing surviving ids earlier t in
    let finish : List Identity → Result Tables =
      λ ended. ok (merged_tables losing surviving ids version now ended reconciled) in
    let end : Identity → List Identity → Result Tables = λ loser touched_rows.
      end_loser losing surviving expected now (take_representative surviving loser touched_rows)
      >>= finish in
    let touch : Identity → Result Tables =
      λ loser. touch_identity expected_survivor now surviving reconciled.identities >>= end loser in
    let read : Identity → Result Tables =
      λ survivor. active_row (get_identity losing t.identities) >>= touch in
    let (differ, h1) =
      ok-then (not (losing == surviving)) refused
        (active_row (get_identity surviving t.identities) >>= read) after h in
    let (survivor, s, h2) =
      ok-bind (active_row (get_identity surviving t.identities)) read after h1 in
    let (loser, l, h3) = ok-bind (active_row (get_identity losing t.identities)) touch after h2 in
    let (touched_rows, e, h4) =
      ok-bind (touch_identity expected_survivor now surviving reconciled.identities) (end loser)
        after h3 in
    let (ended, f, h5) =
      ok-bind
        (end_loser losing surviving expected now (take_representative surviving loser touched_rows))
        finish after h4 in
    let result =
      ok-injective (merged_tables losing surviving ids version now ended reconciled) after h5 in
    let (same_identities, same_representations, same_occurrences) =
      reconcile_person-keeps losing surviving ids earlier t in
    (
      subst (λ (x : Tables). IsMerge losing surviving t.identities x.identities) result
          (IsMerge-rows losing surviving expected expected_survivor now loser t.identities
            touched_rows ended u (λ q. ground arith)
            (stands losing loser (active_row-inverts _ loser l))
            (stands surviving survivor (active_row-inverts _ survivor s))
            (ap (touch_identity expected_survivor now surviving) (sym same_identities) ∙ e) f),
      ap (λ (x : Tables). x.representations) (sym result)
          ∙ ap (move_representations losing surviving) same_representations,
      ap (λ (x : Tables). x.occurrences) (sym result)
          ∙ ap (move_occurrences losing surviving) same_occurrences,
      ap (λ (x : Tables). x.associations) (sym result),
    )
  where
    stands :
        (id : Uuid) (i : Identity)
        → (get_identity id t.identities ≡ some i) × (i.state ≡ IdentityState.active)
        → IsActive id t.identities
    stands id i (found, active) = (
      i.merged_into_identity_id,
      ap standing found
          ∙ ap (λ s. some (record { state = s; merged_into = i.merged_into_identity_id })) active,
    )

-- A merge that succeeds, of tables whose identities have different ids, keeps that every ACTIVE
-- representation that has an identity and every ACTIVE occurrence is of an ACTIVE identity. It
-- leaves nothing ACTIVE of the loser, which is MERGED into the survivor, and the survivor is ACTIVE.
pub merge_identities-IsCoherent :
    (losing surviving : Uuid) (expected : ℕ) (expected_survivor : Option ℕ) (ids : MergeIds)
    (earlier now : Datetime) (version : ℕ) (t after : Tables)
    → IsCoherent t
    → merge_identities losing surviving expected expected_survivor ids earlier now version t
      ≡ ok after
    → IsCoherent after
      × All (λ r. is_owned losing r ≡ false) after.representations
      × All (λ o. is_owned_occurrence losing o ≡ false) after.occurrences
      × (standing (get_identity losing after.identities)
          ≡ some (record { state = IdentityState.merged; merged_into = some surviving }))
      × IsActive surviving after.identities
merge_identities-IsCoherent losing surviving expected expected_survivor ids earlier now version t
      after (u, owners, subjects) h =
    let (m, reps, occs, _) =
      merge_identities-inverts losing surviving expected expected_survivor ids earlier now version t
        after u h in
    let r = subst (All _) (sym reps) (
      move_representations-HasOwner losing surviving t.identities after.identities t.representations
        m owners) in
    let o = subst (All _) (sym occs) (
      move_occurrences-HasSubject losing surviving t.identities after.identities t.occurrences m
        subjects) in
    (
      (
        m.unique,
        All-map _ _ after.representations (λ x p. p.0) r,
        All-map _ _ after.occurrences (λ x p. p.0) o,
      ),
      All-map _ _ after.representations (λ x p. p.1) r,
      All-map _ _ after.occurrences (λ x p. p.1) o,
      m.ends,
      m.survives,
    )
