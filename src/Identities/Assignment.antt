-- ===== src/Identities/Assignment.antt =====
-- `assign_representation_to_identity`: what it leaves, and who then owns the representation.
use mathlib.Core.Path.{subst}
use mathlib.Core.Option.{some-injective}
use face_identify.Prelude.{
  ◌≡◌, ap, ◌∙◌, sym, ◌≢◌, Bool, true, false, not, ◌&&◌, ◌||◌, Option, none, some, List, All,
  All-map, inl, inr,
}
use face_identify.Database.{Uuid, Datetime}
use face_identify.Database.Keys.{All-update_where, by_key_lem}
use face_identify.Memory.{Representation, Occurrence}
use face_identify.Identities.Model.{
  IdentityState, IdentityState-discrete, Identity, EvidenceKind, identity_created, identity_matched,
  Tables, refused, Result, ok, ◌>>=◌, ◌>>◌, need, get_identity, active_row,
}
use face_identify.Identities.{
  touched, get_representation, pending_row, same_evidence_kind, has_creation_evidence, assigned,
  assign_representation_to_identity,
}
use face_identify.Identities.Results.{ok-injective, ok-then, ok-bind, active_row-inverts}
use face_identify.Identities.Rows.{standing, id_of, HasUniqueIds, touched-IsTouch}
use face_identify.Identities.Moves.{IsActive, HasOwner, HasSubject}
use face_identify.Identities.Quiet.{IsQuiet, IsQuietAt, is_early, IsTouch→IsQuiet}
use face_identify.Identities.Coherence.{IsCoherent}

-- What is ACTIVE stays so.
IsActive-IsQuiet :
    (table after : List Identity) (k : Uuid)
    → IsQuietAt (standing (get_identity k table)) (standing (get_identity k after))
    → IsActive k table
    → IsActive k after
unfolding IdentityState-discrete
IsActive-IsQuiet table after k (inl e) (o, a) = (o, e ∙ a)
IsActive-IsQuiet table after k (inr (early, fresh)) (o, a) =
    absurd (apart (sym early ∙ ap is_early a))
  where
    apart : true ≢ false
    apart e = absurd (cc)

pub HasOwner-IsQuiet :
    (table after : List Identity) (rows : List Representation)
    → HasUniqueIds table
    → IsQuiet table after
    → All (HasOwner table) rows
    → All (HasOwner after) rows
HasOwner-IsQuiet table after rows u q =
    All-map _ _ rows
      (λ r owner active id e. IsActive-IsQuiet table after id (q.1 u id) (owner active id e))

pub HasSubject-IsQuiet :
    (table after : List Identity) (rows : List Occurrence)
    → HasUniqueIds table
    → IsQuiet table after
    → All (HasSubject table) rows
    → All (HasSubject after) rows
HasSubject-IsQuiet table after rows u q = All-map _ _ rows (λ o subject active.
    IsActive-IsQuiet table after o.identity_id (q.1 u o.identity_id) (subject active))

-- What the assignment was made from.
pub record IsAssignment (t after : Tables) : Type 0 where
  pub evidence_id : Uuid
  pub operation_id : Uuid
  pub now : Datetime
  pub kind : EvidenceKind
  pub source_id : Option Uuid
  pub row : Representation
  pub owner : Identity
  pub found : get_identity owner.id t.identities ≡ some owner
  pub active : owner.state ≡ IdentityState.active
  pub result : assigned evidence_id operation_id now kind source_id row owner t ≡ after

pub assign-inverts :
    (representation_id identity_id evidence_id operation_id : Uuid) (now : Datetime)
    (kind : EvidenceKind) (source_id : Option Uuid) (t after : Tables)
    → assign_representation_to_identity representation_id identity_id evidence_id operation_id now
        kind source_id t
      ≡ ok after
    → IsAssignment t after
unfolding assign_representation_to_identity get_identity
assign-inverts representation_id identity_id evidence_id operation_id now kind source_id t after h =
    let finish : Representation → Identity → Result Tables =
      λ r i. ok (assigned evidence_id operation_id now kind source_id r i t) in
    let first : Bool =
      not (
        same_evidence_kind kind identity_created && has_creation_evidence identity_id t.evidence) in
    let check : Representation → Identity → Result Tables =
      λ r i. need first refused >> finish r i in
    let read : Representation → Result Tables =
      λ r. active_row (get_identity identity_id t.identities) >>= check r in
    let (_, h1) =
      ok-then (same_evidence_kind kind identity_created || same_evidence_kind kind identity_matched)
        refused (pending_row (get_representation representation_id t.representations) >>= read)
        after h in
    let (r, _, h2) =
      ok-bind (pending_row (get_representation representation_id t.representations)) read after
        h1 in
    let (i, a, h3) =
      ok-bind (active_row (get_identity identity_id t.identities)) (check r) after h2 in
    let (_, h4) = ok-then first refused (finish r i) after h3 in
    let (e, active) = active_row-inverts _ i a in
    record {
      evidence_id = evidence_id;
      operation_id = operation_id;
      now = now;
      kind = kind;
      source_id = source_id;
      row = r;
      owner = i;
      found =
          ap (λ k. get_identity k t.identities) (by_key_lem id_of identity_id t.identities i e).0
          ∙ e;
      active = active;
      result = ok-injective _ after h4;
    }

pub assigned-IsQuiet :
    (t after : Tables) → IsAssignment t after → IsQuiet t.identities after.identities
unfolding assigned
assigned-IsQuiet t after a =
    subst (λ (x : Tables). IsQuiet t.identities x.identities) a.result
      (IsTouch→IsQuiet t.identities _ (touched-IsTouch none a.now a.owner.id t.identities))

pub assigned-IsCoherent :
    (t after : Tables) → IsAssignment t after → IsCoherent t → IsCoherent after
unfolding assigned
assigned-IsCoherent t after a (u, owners, subjects) =
    let i = a.owner in
    let identities = (touched none a.now i.id t.identities).0 in
    let q =
      IsTouch→IsQuiet t.identities identities (touched-IsTouch none a.now i.id t.identities) in
    let is_active : IsActive i.id t.identities = (
      i.merged_into_identity_id,
      ap standing a.found
          ∙ ap (λ s. some (record { state = s; merged_into = i.merged_into_identity_id })) a.active,
    ) in
    subst IsCoherent a.result (
      q.0 u,
      All-update_where (HasOwner identities) _ _ t.representations
          (λ r hit owner active id e.
            subst (λ k. IsActive k identities) (some-injective i.id id e)
              (IsActive-IsQuiet t.identities identities i.id (q.1 u i.id) is_active))
          (HasOwner-IsQuiet t.identities identities t.representations u q owners),
      HasSubject-IsQuiet t.identities identities t.occurrences u q subjects,
    )
