-- ===== src/Identities/Division.antt =====
-- What a split leaves: who owns what, and that no occurrence is cut.
use mathlib.Core.Path.{subst}
use face_identify.Prelude.{
  ℕ, ◌≡◌, refl, ap, ◌∙◌, sym, not, Option, none, List, [], ◌∷◌, keep, All, if-keeps,
}
use face_identify.Database.{Uuid, Datetime}
use face_identify.Database.Keys.{All-update_where, UniqueKeys-update_where}
use face_identify.Memory.{Representation, Occurrence}
use face_identify.Identities.Model.{
  IdentityState-discrete, Identity, Tables, refused, integrity, Result, ok, ◌>>=◌, ◌>>◌, need,
  get_identity, active_row,
}
use face_identify.Identities.{insert_identity, touch_identity}
use face_identify.Identities.Support.{
  Support, occurrence_support, is_moving, is_cut, occurrences_of, refuse_conflicts, all_owned,
  is_nothing, has_repeat, refresh_representative,
}
use face_identify.Identities.Split.{
  SplitIds, split_row, split_representations, split_occurrences, name_split, split_tables,
  split_identity,
}
use face_identify.Identities.Results.{ok-injective, ok-then, ok-after, ok-bind}
use face_identify.Identities.Rows.{
  standing, id_of, HasUniqueIds, IsTouch, standing-update_where, touch_identity-IsTouch,
}
use face_identify.Identities.Quiet.{
  IsQuiet, IsTouch→IsQuiet, insert_identity-IsQuiet, insert_identity-inserts, IsQuiet-then,
}
use face_identify.Identities.Moves.{owned_by, IsActive, HasOwner, HasSubject}
use face_identify.Identities.Coherence.{IsCoherent}
use face_identify.Identities.Assignment.{HasOwner-IsQuiet, HasSubject-IsQuiet}

name_split-IsTouch :
    (id : Uuid) (face : Option Uuid) (table : List Identity)
    → IsTouch table (name_split id face table)
unfolding name_split
name_split-IsTouch id face table = (
  UniqueKeys-update_where id_of _ _ table (λ i. refl),
  λ k. standing-update_where k _ _ table (λ i. refl) (λ i. refl),
)

refresh_representative-IsTouch :
    (source : Identity) (moved : List Uuid) (face : Option Uuid) (now : Datetime)
    (table : List Identity)
    → IsTouch table (refresh_representative source moved face now table)
unfolding refresh_representative
refresh_representative-IsTouch source moved face now table =
    if-keeps (IsTouch table) _
      (
        UniqueKeys-update_where id_of _ _ table (λ i. refl),
        λ k. standing-update_where k _ _ table (λ i. refl) (λ i. refl),
      )
      ((λ u. u), λ k. refl)

-- What a split did where it returned.
pub record IsSplit (source_id new_identity : Uuid) (selected : List Uuid) (t after : Tables)
    : Type 0 where
  pub quiet : IsQuiet t.identities after.identities
  pub created : IsActive new_identity after.identities
  pub kept_whole : keep (is_cut selected) (occurrence_support source_id t) ≡ []
  pub links_kept : after.associations ≡ t.associations
  pub representations_split :
      after.representations ≡ split_representations selected new_identity t.representations
  pub occurrences_split :
      after.occurrences
      ≡ split_occurrences
          (occurrences_of (keep (is_moving selected) (occurrence_support source_id t)))
          new_identity
          t.occurrences

nothing_refused :
    (supports : List Support) (done : Unit {0})
    → refuse_conflicts (occurrences_of supports) ≡ ok done
    → supports ≡ []
nothing_refused [] done h = refl
nothing_refused (s ∷ ss) done h = absurd (cc)

split_tables-IsSplit :
    (source : Identity) (source_id : Uuid) (selected : List Uuid) (expected : Option ℕ)
    (ids : SplitIds) (version : ℕ) (now : Datetime) (touched_rows inserted : List Identity)
    (t : Tables)
    → touch_identity expected now source_id t.identities ≡ ok touched_rows
    → insert_identity
        (get_identity ids.identity_id touched_rows)
        (split_row ids.identity_id now)
        touched_rows
      ≡ ok inserted
    → keep (is_cut selected) (occurrence_support source_id t) ≡ []
    → IsSplit source_id ids.identity_id selected t (
        split_tables source selected
          (occurrences_of (keep (is_moving selected) (occurrence_support source_id t)))
          ids
          version
          now
          inserted
          t)
unfolding split_tables IdentityState-discrete
split_tables-IsSplit source source_id selected expected ids version now touched_rows inserted t e f
      whole =
    let named = name_split-IsTouch ids.identity_id _ inserted in
    let refreshed =
      refresh_representative-IsTouch source _ _ now (name_split ids.identity_id _ inserted) in
    record {
      quiet =
          IsQuiet-then t.identities touched_rows _
            (IsTouch→IsQuiet t.identities touched_rows
              (touch_identity-IsTouch expected now source_id t.identities touched_rows e))
            (IsQuiet-then touched_rows inserted _
              (insert_identity-IsQuiet (split_row ids.identity_id now) touched_rows inserted refl f)
              (IsQuiet-then inserted _ _ (IsTouch→IsQuiet inserted _ named)
                (IsTouch→IsQuiet _ _ refreshed)));
      created = (
        none,
        refreshed.1 ids.identity_id
            ∙ named.1 ids.identity_id
            ∙ ap standing
                (insert_identity-inserts (split_row ids.identity_id now) touched_rows inserted f),
      );
      kept_whole = whole;
      links_kept = refl;
      representations_split = refl;
      occurrences_split = refl;
    }

pub split_identity-inverts :
    (source_id : Uuid) (selected : List Uuid) (expected : Option ℕ) (ids : SplitIds)
    (now : Datetime) (version : ℕ) (t after : Tables)
    → split_identity source_id selected expected ids now version t ≡ ok after
    → IsSplit source_id ids.identity_id selected t after
unfolding split_identity
split_identity-inverts source_id selected expected ids now version t after h =
    let supports : List Support = occurrence_support source_id t in
    let moving : List Uuid = occurrences_of (keep (is_moving selected) supports) in
    let finish : Identity → List Identity → Result Tables =
      λ source inserted. ok (split_tables source selected moving ids version now inserted t) in
    let check : Identity → List Identity → Result Tables =
      λ source inserted. need (not (has_repeat selected)) integrity >> finish source inserted in
    let insert : Identity → List Identity → Result Tables = λ source touched_rows.
      insert_identity (get_identity ids.identity_id touched_rows) (split_row ids.identity_id now)
        touched_rows
      >>= check source in
    let touch : Identity → Result Tables =
      λ source. touch_identity expected now source_id t.identities >>= insert source in
    let refuse : Identity → Result Tables = λ source.
      refuse_conflicts (occurrences_of (keep (is_cut selected) supports)) >> touch source in
    let owned : Identity → Result Tables =
      λ source. need (all_owned source_id selected t.representations) refused >> refuse source in
    let some_selected : Identity → Result Tables =
      λ source. need (not (is_nothing selected)) refused >> owned source in
    let (source, a, h1) =
      ok-bind (active_row (get_identity source_id t.identities)) some_selected after h in
    let (_, h2) = ok-then (not (is_nothing selected)) refused (owned source) after h1 in
    let (_, h3) =
      ok-then (all_owned source_id selected t.representations) refused (refuse source) after h2 in
    let (done, whole, h4) =
      ok-after (refuse_conflicts (occurrences_of (keep (is_cut selected) supports))) (touch source)
        after h3 in
    let (touched_rows, e, h5) =
      ok-bind (touch_identity expected now source_id t.identities) (insert source) after h4 in
    let (inserted, f, h6) =
      ok-bind
        (insert_identity (get_identity ids.identity_id touched_rows) (split_row ids.identity_id now)
          touched_rows)
        (check source) after h5 in
    let (_, h7) = ok-then (not (has_repeat selected)) integrity (finish source inserted) after h6 in
    subst (IsSplit source_id ids.identity_id selected t) (ok-injective _ after h7) (
      split_tables-IsSplit source source_id selected expected ids version now touched_rows inserted
        t e f (nothing_refused (keep (is_cut selected) supports) done whole))

-- The rows that a split moves are of the new identity, and the others have the owner that they had.
split_representations-HasOwner :
    (new_identity : Uuid) (selected : List Uuid) (table after : List Identity)
    (rows : List Representation)
    → HasUniqueIds table
    → IsQuiet table after
    → IsActive new_identity after
    → All (HasOwner table) rows
    → All (HasOwner after) (split_representations selected new_identity rows)
unfolding split_representations
split_representations-HasOwner new_identity selected table after rows u q a owners =
    All-update_where (HasOwner after) _ _ rows (λ r hit owner. owned_by after new_identity r a)
      (HasOwner-IsQuiet table after rows u q owners)

split_occurrences-HasSubject :
    (new_identity : Uuid) (moving : List Uuid) (table after : List Identity)
    (rows : List Occurrence)
    → HasUniqueIds table
    → IsQuiet table after
    → IsActive new_identity after
    → All (HasSubject table) rows
    → All (HasSubject after) (split_occurrences moving new_identity rows)
unfolding split_occurrences
split_occurrences-HasSubject new_identity moving table after rows u q a subjects =
    All-update_where (HasSubject after) _ _ rows (λ o hit subject active. a)
      (HasSubject-IsQuiet table after rows u q subjects)

pub split-IsCoherent :
    (source_id new_identity : Uuid) (selected : List Uuid) (t after : Tables)
    → IsSplit source_id new_identity selected t after
    → IsCoherent t
    → IsCoherent after
split-IsCoherent source_id new_identity selected t after s (u, owners, subjects) = (
  s.quiet.0 u,
  subst (All (HasOwner after.identities)) (sym s.representations_split) (
      split_representations-HasOwner new_identity selected t.identities after.identities
        t.representations u s.quiet s.created owners),
  subst (All (HasSubject after.identities)) (sym s.occurrences_split) (
      split_occurrences-HasSubject new_identity _ t.identities after.identities t.occurrences u
        s.quiet s.created subjects),
)
