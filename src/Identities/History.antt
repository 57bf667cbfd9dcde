-- ===== src/Identities/History.antt =====
-- Sequences of use cases keep what each keeps, whether it succeeds or is rolled back.
use mathlib.Core.Path.{subst}
use face_identify.Prelude.{◌≡◌, refl, List, [], ◌∷◌}
use face_identify.Identities.Model.{Identity, Tables, Result, err, ok}
use face_identify.Identities.Results.{ok-injective}
use face_identify.Identities.Rows.{HasUniqueIds, touch_identity-IsTouch}
use face_identify.Identities.Quiet.{
  IsQuiet, IsTouch→IsQuiet, create_pending_identity-IsQuiet, activate_identity-IsQuiet,
}
use face_identify.Identities.Moves.{IsMerge}
use face_identify.Identities.Coherence.{
  IsCoherent, merge_identities-inverts, merge_identities-IsCoherent,
}
use face_identify.Identities.Assignment.{
  HasOwner-IsQuiet, HasSubject-IsQuiet, assign-inverts, assigned-IsQuiet, assigned-IsCoherent,
}
use face_identify.Identities.Division.{split_identity-inverts, split-IsCoherent}
use face_identify.Identities.Changes.{
  Change, create, activate, assign, touch, split, merge, with_identities, step, committed, run,
}

pub with_identities-inverts :
    (t after : Tables) (r : Result (List Identity))
    → with_identities t r ≡ ok after
    → (identities : List Identity) × (r ≡ ok identities)
      × ((record t { identities = identities }) ≡ after)
with_identities-inverts t after (err e) h = absurd (cc)
with_identities-inverts t after (ok identities) h = (identities, refl, ok-injective _ after h)

-- What a quiet change of the identities is for the tables.
abbrev IsQuietChange : Tables → Tables → Type 0
IsQuietChange t after =
    IsQuiet t.identities after.identities
    × (HasUniqueIds t.identities → IsCoherent t → IsCoherent after)

with_identities-IsQuietChange :
    (t after : Tables) (r : Result (List Identity))
    → ((identities : List Identity) → r ≡ ok identities → IsQuiet t.identities identities)
    → with_identities t r ≡ ok after
    → IsQuietChange t after
with_identities-IsQuietChange t after r quiet h =
    let (identities, e, same) = with_identities-inverts t after r h in
    let q = quiet identities e in
    subst (IsQuietChange t) same (
      q,
      λ u (_, owners, subjects). (
        q.0 u,
        HasOwner-IsQuiet t.identities identities t.representations u q owners,
        HasSubject-IsQuiet t.identities identities t.occurrences u q subjects,
      ),
    )

-- What the identities of a change that succeeds are.
abbrev pub Moves : Change → Tables → Tables → Type 0
Moves (merge losing surviving _ _ _ _ _ _) t after =
    IsMerge losing surviving t.identities after.identities
Moves _ t after = IsQuiet t.identities after.identities

pub step-Moves :
    (c : Change) (t after : Tables)
    → HasUniqueIds t.identities
    → step c t ≡ ok after
    → Moves c t after × (IsCoherent t → IsCoherent after)
unfolding step
step-Moves (create id run_id observation_id created updated) t after u h =
    let (q, keeps) =
      with_identities-IsQuietChange t after _
        (λ identities.
          create_pending_identity-IsQuiet id run_id observation_id created updated t.identities
            identities)
        h in
    (q, keeps u)
step-Moves (activate id expected now) t after u h =
    let (q, keeps) =
      with_identities-IsQuietChange t after _
        (λ identities. activate_identity-IsQuiet id expected now t.identities identities) h in
    (q, keeps u)
step-Moves (assign representation_id identity_id evidence_id operation_id now kind source_id) t
      after u h =
    let a =
      assign-inverts representation_id identity_id evidence_id operation_id now kind source_id t
        after h in
    (assigned-IsQuiet t after a, assigned-IsCoherent t after a)
step-Moves (touch expected now id) t after u h =
    let (q, keeps) =
      with_identities-IsQuietChange t after _
        (λ identities e.
          IsTouch→IsQuiet t.identities identities
            (touch_identity-IsTouch expected now id t.identities identities e))
        h in
    (q, keeps u)
step-Moves (split source_id selected expected ids now version) t after u h =
    let s = split_identity-inverts source_id selected expected ids now version t after h in
    (s.quiet, split-IsCoherent source_id ids.identity_id selected t after s)
step-Moves (merge losing surviving expected expected_survivor ids earlier now version) t after u h =
    (
      (merge_identities-inverts losing surviving expected expected_survivor ids earlier now version
          t after u h).0,
      λ coherent.
          (merge_identities-IsCoherent losing surviving expected expected_survivor ids earlier now
            version t after coherent h).0,
    )

pub Moves-HasUniqueIds :
    (c : Change) (t after : Tables)
    → HasUniqueIds t.identities
    → Moves c t after
    → HasUniqueIds after.identities
Moves-HasUniqueIds (create _ _ _ _ _) t after u q = q.0 u
Moves-HasUniqueIds (activate _ _ _) t after u q = q.0 u
Moves-HasUniqueIds (assign _ _ _ _ _ _ _) t after u q = q.0 u
Moves-HasUniqueIds (touch _ _ _) t after u q = q.0 u
Moves-HasUniqueIds (split _ _ _ _ _ _) t after u q = q.0 u
Moves-HasUniqueIds (merge _ _ _ _ _ _ _ _) t after u m = m.unique

pub committed-keeps {ℓ} :
    (P : Tables → Type ℓ) (t : Tables) (r : Result Tables)
    → P t
    → ((after : Tables) → r ≡ ok after → P after)
    → P (committed t r)
committed-keeps P t (err e) stays moves = stays
committed-keeps P t (ok after) stays moves = moves after refl

-- After any sequence of creating, activating, touching, splitting and merging identities and of
-- assigning representations to them, each committed or rolled back: the ids of identities differ,
-- every ACTIVE representation that has an identity and every ACTIVE occurrence is of an ACTIVE
-- identity, where this held at first.
pub run-IsCoherent : (cs : List Change) (t : Tables) → IsCoherent t → IsCoherent (run cs t)
unfolding run
run-IsCoherent [] t coherent = coherent
run-IsCoherent (c ∷ cs) t coherent = run-IsCoherent cs (committed t (step c t)) (
    committed-keeps IsCoherent t (step c t) coherent
      (λ after h. (step-Moves c t after coherent.0 h).1 coherent))
