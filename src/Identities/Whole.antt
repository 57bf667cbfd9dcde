-- ===== src/Identities/Whole.antt =====
-- A split moves an occurrence whole or not at all.
use mathlib.Core.Path.{subst}
use face_identify.Prelude.{
  ℕ, ◌≡◌, refl, ap, ◌∙◌, sym, ◌≢◌, ◌⊎◌, inl, inr, Bool, true, false, not, ◌&&◌, Option, some, List,
  [], ◌∷◌, In, All, All-In, keep, map, Bool-cases, if◌then◌else◌, arith,
}
use face_identify.Database.{Uuid, Datetime, UniqueKeys}
use face_identify.Database.Keys.{by_key, updated, by_key-In, by_key-update_where}
use face_identify.Memory.{Occurrence}
use face_identify.Identities.Model.{Tables, ok, is_listed}
use face_identify.Identities.Merge.{is_owned_occurrence}
use face_identify.Identities.Support.{
  Support, occurrence_support, support_of, is_moving, is_cut, is_within, meets, occurrences_of,
}
use face_identify.Identities.Split.{
  SplitIds, split_occurrences, is_listed_occurrence, split_identity,
}
use face_identify.Identities.Division.{split_identity-inverts}

-- Rows with their support: those that pass a test and move.
module _ {A : Type 0} (g : A → Support) (p : A → Bool) (selected : List Uuid) where
  abbrev key : A → Uuid
  key x = (g x).occurrence_id

  abbrev moving_of : List A → List Uuid
  moving_of xs = occurrences_of (keep (is_moving selected) (map g (keep p xs)))

  absent : (k : Uuid) (xs : List A) → All (λ y. k ≢ key y) xs → is_listed k (moving_of xs) ≡ false
  absent k [] h = refl
  absent k (x ∷ xs) h = elim (Bool-cases (p x)) [
    | inr e ↦ rw e (absent k xs h.1)
    | inl e ↦ rw e (elim (Bool-cases (is_moving selected (g x))) [
      | inr m ↦ rw m (absent k xs h.1)
      | inl m ↦ rw m (ground (arith, h.0, absent k xs h.1))
    ])
  ]

  head_moves :
      (x : A) (xs : List A)
      → All (λ y. key x ≢ key y) xs
      → p x ≡ true
      → is_listed (key x) (moving_of (x ∷ xs)) ≡ is_moving selected (g x)
  head_moves x xs h e = rw e (elim (Bool-cases (is_moving selected (g x))) [
    | inr m ↦ rw m (absent (key x) xs h)
    | inl m ↦ rw m (ground arith)
  ])

  -- With different keys, the key of a row is listed exactly when it moves.
  pub listed-moving :
      (o : A) (xs : List A)
      → UniqueKeys key xs
      → In o xs
      → p o ≡ true
      → is_listed (key o) (moving_of xs) ≡ is_moving selected (g o)
  listed-moving o [] u i t = absurd i
  listed-moving o (x ∷ xs) u (inl e) t =
      subst (λ y. is_listed (key y) (moving_of (x ∷ xs)) ≡ is_moving selected (g y)) (sym e)
        (head_moves x xs u.0 (ap p (sym e) ∙ t))
  listed-moving o (x ∷ xs) u (inr i) t =
      let rest = listed-moving o xs u.1 i t in
      let other = All-In (λ y. key x ≢ key y) o xs u.0 i in
      elim (Bool-cases (p x)) [
        | inr e ↦ rw e rest
        | inl e ↦ rw e (elim (Bool-cases (is_moving selected (g x))) [
          | inr m ↦ rw m rest
          | inl m ↦ rw m (ground (arith, rest, other))
        ])
      ]

  pub none_cut :
      (o : A) (xs : List A)
      → keep (is_cut selected) (map g (keep p xs)) ≡ []
      → In o xs
      → p o ≡ true
      → is_cut selected (g o) ≡ false
  none_cut o xs h i t = All-In (λ x. p x ≡ true → is_cut selected (g x) ≡ false) o xs (all xs h) i t
    where
      all :
          (xs : List A)
          → keep (is_cut selected) (map g (keep p xs)) ≡ []
          → All (λ x. p x ≡ true → is_cut selected (g x) ≡ false) xs
      all [] h = tt
      all (x ∷ xs) h = elim (Bool-cases (p x)) [
        | inr e ↦ ((λ t. absurd (cc)), all xs (rw e at h))
        | inl e ↦ head x xs (rw e at h) (all xs)
      ]
        where
          head :
              (x : A) (xs : List A)
              → keep (is_cut selected) (g x ∷ map g (keep p xs)) ≡ []
              → (keep (is_cut selected) (map g (keep p xs)) ≡ []
                  → All (λ x. p x ≡ true → is_cut selected (g x) ≡ false) xs)
              → (p x ≡ true → is_cut selected (g x) ≡ false)
                × All (λ x. p x ≡ true → is_cut selected (g x) ≡ false) xs
          head x xs h rest = elim (Bool-cases (is_cut selected (g x))) [
            | inl c ↦ absurd (nil_cons (rw c at h))
            | inr c ↦ ((λ _. c), rest (rw c at h))
          ]
            where
              nil_cons : {s : Support} {ss : List Support} → (s ∷ ss) ≢ []
              nil_cons e = absurd (cc)

abbrev pub id_of_occurrence : Occurrence → Uuid
id_of_occurrence o = o.id

whole_or_not : (m w : Bool) → m && not w ≡ false → m ≡ true → w ≡ true
whole_or_not m w h t = ground arith

-- A split that succeeds, where occurrences have different ids, cuts no ACTIVE occurrence of the
-- source: either all representations that it rests on were selected and its row is the new
-- identity's, or none was and its row is as it was.
pub split_identity-keeps_whole :
    (source_id : Uuid) (selected : List Uuid) (expected : Option ℕ) (ids : SplitIds)
    (now : Datetime) (version : ℕ) (t after : Tables) (o : Occurrence)
    → UniqueKeys id_of_occurrence t.occurrences
    → In o t.occurrences
    → is_owned_occurrence source_id o ≡ true
    → split_identity source_id selected expected ids now version t ≡ ok after
    → ((is_within (support_of source_id o t) selected ≡ true)
        × (by_key id_of_occurrence o.id after.occurrences
            ≡ some (record o { identity_id = ids.identity_id })))
      ⊎ ((meets (support_of source_id o t) selected ≡ false)
          × (by_key id_of_occurrence o.id after.occurrences ≡ some o))
unfolding occurrence_support split_occurrences
split_identity-keeps_whole source_id selected expected ids now version t after o u i owned h =
    let s = split_identity-inverts source_id selected expected ids now version t after h in
    let support : Occurrence → Support =
      λ x. record { occurrence_id = x.id; representation_ids = support_of source_id x t } in
    let uncut : is_cut selected (support o) ≡ false =
      none_cut support (is_owned_occurrence source_id) selected o t.occurrences s.kept_whole i
        owned in
    let moved =
      listed-moving support (is_owned_occurrence source_id) selected o t.occurrences u i owned in
    let moves : Occurrence → Bool =
      is_listed_occurrence
        (occurrences_of (keep (is_moving selected) (occurrence_support source_id t))) in
    let given : Occurrence → Occurrence = λ x. record x { identity_id = ids.identity_id } in
    let read =
      ap (by_key id_of_occurrence o.id) s.occurrences_split
      ∙ by_key-update_where id_of_occurrence o.id moves given t.occurrences (λ x. refl)
      ∙ ap (updated id_of_occurrence moves given) (by_key-In id_of_occurrence o t.occurrences u i)
      ∙ ap (λ b. some (if b then record o { identity_id = ids.identity_id } else o)) moved in
    elim (Bool-cases (meets (support_of source_id o t) selected)) [
      | inl m ↦ inl (
        whole_or_not _ _ uncut m,
        read ∙ ap (λ b. some (if b then record o { identity_id = ids.identity_id } else o)) m,
      )
      | inr m ↦
          inr (
            m,
            read ∙ ap (λ b. some (if b then record o { identity_id = ids.identity_id } else o)) m,
          )
    ]
