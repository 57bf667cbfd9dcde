-- ===== src/Identities/Moves.antt =====
-- What a merge does to the rows of identities, and to what the loser owned.
use mathlib.Core.Path.{subst}
use mathlib.Core.Option.{some-injective}
use face_identify.Prelude.{
  ℕ, ◌≡◌, ap, ◌∙◌, sym, ◌≢◌, Bool, true, false, ◌&&◌, Option, some, List, [], ◌∷◌, ◌==◌, keep, map,
  if◌then◌else◌, All, All-map, Bool-cases, inl, inr, arith,
}
use face_identify.Database.{Uuid, Datetime}
use face_identify.Database.Keys.{All-update_where_from}
use face_identify.Memory.{Representation, RepresentationState, Occurrence, OccurrenceState}
use face_identify.Identities.Model.{IdentityState, Identity, ok, get_identity, is_id, is_listed}
use face_identify.Identities.{touch_identity, representation_is}
use face_identify.Identities.Merge.{
  is_owned, occurrence_is, is_owned_occurrence, move_representations, owned_occurrence_ids,
  move_occurrences, take_representative, end_loser,
}
use face_identify.Identities.Rows.{
  standing, HasUniqueIds, take_representative-IsTouch, touch_identity-IsTouch, end_loser_lem,
}

-- The identity is there and ACTIVE.
abbrev pub IsActive : Uuid → List Identity → Type 0
IsActive id table =
    (o : Option Uuid) × (standing (get_identity id table)
      ≡ some (record { state = IdentityState.active; merged_into = o }))

-- An ACTIVE representation is of an ACTIVE identity, where it has one: an accepted abstention has
-- none.
abbrev pub HasOwner : List Identity → Representation → Type 0
HasOwner table r =
    representation_is RepresentationState.active r ≡ true
    → (id : Uuid) → r.identity_id ≡ some id
    → IsActive id table

abbrev pub HasSubject : List Identity → Occurrence → Type 0
HasSubject table o = occurrence_is OccurrenceState.active o ≡ true → IsActive o.identity_id table

-- What a merge does to the rows of identities.
pub record IsMerge (losing surviving : Uuid) (table after : List Identity) : Type 0 where
  pub differ : losing ≢ surviving
  pub was_active : IsActive losing table
  pub survives : IsActive surviving after
  pub unique : HasUniqueIds after
  pub ends :
      standing (get_identity losing after)
      ≡ some (record { state = IdentityState.merged; merged_into = some surviving })
  pub others :
      (k : Uuid) → k ≢ losing → standing (get_identity k after) ≡ standing (get_identity k table)

-- The updates of a merge one after the other.
pub IsMerge-rows :
    (losing surviving : Uuid) (expected : ℕ) (expected_survivor : Option ℕ) (now : Datetime)
    (loser : Identity) (table touched_rows after : List Identity)
    → HasUniqueIds table
    → losing ≢ surviving
    → IsActive losing table
    → IsActive surviving table
    → touch_identity expected_survivor now surviving table ≡ ok touched_rows
    → end_loser losing surviving expected now (take_representative surviving loser touched_rows)
      ≡ ok after
    → IsMerge losing surviving table after
IsMerge-rows losing surviving expected expected_survivor now loser table touched_rows after u n l s
      e f =
    let t = touch_identity-IsTouch expected_survivor now surviving table touched_rows e in
    let r = take_representative-IsTouch surviving loser touched_rows in
    let d = end_loser_lem losing surviving expected now _ after (r.0 (t.0 u)) f in
    let others : (k : Uuid)
        → k ≢ losing
        → standing (get_identity k after) ≡ standing (get_identity k table) =
      λ k m. d.2 k m ∙ r.1 k ∙ t.1 k in
    record {
      differ = n;
      was_active = l;
      survives = (s.0, others surviving (λ q. n (sym q)) ∙ s.1);
      unique = d.0;
      ends = d.1;
      others = others;
    }

owned-other :
    (losing id : Uuid) (o : Option Uuid) (b : Bool)
    → (is_id o losing && b) ≡ false
    → b ≡ true
    → o ≡ some id
    → id ≢ losing
owned-other losing id o b q t e i = ground arith

subject-other : (losing id : Uuid) (b : Bool) → (id == losing && b) ≡ false → b ≡ true → id ≢ losing
subject-other losing id b q t i = ground arith

-- A representation that was given to an ACTIVE identity.
pub owned_by :
    (table : List Identity) (id : Uuid) (r : Representation)
    → IsActive id table
    → HasOwner table (record r { identity_id = some id })
owned_by table id r a active other e = subst (λ k. IsActive k table) (some-injective id other e) a

-- The representations of the loser are the survivor's, and all have an ACTIVE owner.
pub move_representations-HasOwner :
    (losing surviving : Uuid) (table after : List Identity) (rows : List Representation)
    → IsMerge losing surviving table after
    → All (HasOwner table) rows
    → All
        (λ r. HasOwner after r × (is_owned losing r ≡ false))
        (move_representations losing surviving rows)
unfolding move_representations
move_representations-HasOwner losing surviving table after rows m h =
    All-update_where_from (HasOwner table) (λ r. HasOwner after r × (is_owned losing r ≡ false)) _ _
      rows (λ r owner q. (owned_by after surviving r m.survives, ground (arith, m.differ))) stays h
  where
    stays :
        (r : Representation)
        → HasOwner table r
        → is_owned losing r ≡ false
        → HasOwner after r × (is_owned losing r ≡ false)
    stays r owner q = (
      λ active id e.
          let a = owner active id e in
          (a.0, m.others id (owned-other losing id r.identity_id _ q active e) ∙ a.1),
      q,
    )

-- Rows that pass a test have their key among those of the rows that it keeps.
keep-listed :
    {A : Type 0} (key : A → Uuid) (q : A → Bool) (xs : List A)
    → All (λ x. q x ≡ true → is_listed (key x) (map key (keep q xs)) ≡ true) xs
keep-listed key q [] = tt
keep-listed key q (x ∷ xs) = elim (Bool-cases (q x)) [
  | inl e ↦
      rw e
        ((λ _. ground arith), All-map _ _ xs (λ y h p. ground (arith, h p)) (keep-listed key q xs))
  | inr e ↦ (
    (λ p. absurd (cc)),
    All-map _ _ xs
        (λ y h p.
          ap (λ b. is_listed (key y) (map key (if b then x ∷ keep q xs else keep q xs))) e ∙ h p)
        (keep-listed key q xs),
  )
]

All-both :
    {A : Type 0} (P Q : A → Type 0) (xs : List A) → All P xs → All Q xs → All (λ x. P x × Q x) xs
All-both P Q [] p q = tt
All-both P Q (x ∷ xs) p q = ((p.0, q.0), All-both P Q xs p.1 q.1)

true≢false : true ≢ false
true≢false e = absurd (cc)

-- The same for the occurrences, which move by their ids.
pub move_occurrences-HasSubject :
    (losing surviving : Uuid) (table after : List Identity) (rows : List Occurrence)
    → IsMerge losing surviving table after
    → All (HasSubject table) rows
    → All
        (λ o. HasSubject after o × (is_owned_occurrence losing o ≡ false))
        (move_occurrences losing surviving rows)
unfolding move_occurrences
move_occurrences-HasSubject losing surviving table after rows m h =
    All-update_where_from
      (λ o.
        HasSubject table o × (is_owned_occurrence losing o ≡ true → is_listed o.id owned ≡ true))
      (λ o. HasSubject after o × (is_owned_occurrence losing o ≡ false)) _ _ rows
      (λ o r q. ((λ _. m.survives), ground (arith, m.differ))) stays
      (All-both _ _ rows h (keep-listed _ (is_owned_occurrence losing) rows))
  where
    owned : List Uuid
    owned = owned_occurrence_ids losing rows

    stays :
        (o : Occurrence)
        → HasSubject table o × (is_owned_occurrence losing o ≡ true → is_listed o.id owned ≡ true)
        → is_listed o.id owned ≡ false
        → HasSubject after o × (is_owned_occurrence losing o ≡ false)
    stays o (subject, listed) q = (
      (λ active.
          let a = subject active in
          (
            a.0,
            m.others o.identity_id (subject-other losing o.identity_id _ not_owned active) ∙ a.1,
          )),
      not_owned,
    )
      where
        not_owned : is_owned_occurrence losing o ≡ false
        not_owned = elim (Bool-cases (is_owned_occurrence losing o)) [
          | inl t ↦ absurd (true≢false (sym (listed t) ∙ q))
          | inr t ↦ t
        ]
