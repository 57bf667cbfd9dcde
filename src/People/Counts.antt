-- ===== src/People/Counts.antt =====
-- How many ACTIVE links an identity has, after a link was added or ended.
use face_identify.Prelude.{
  ℕ, ◌+◌, ◌≤◌, ◌≡◌, refl, ap, ◌∙◌, sym, ◌≢◌, Bool, true, false, Option, none, some, List, [], ◌∷◌,
  ◌++◌, ◌==◌, All, Bool-cases, same, inl, inr, if◌then◌else◌, arith,
}
use face_identify.Database.{Uuid, Datetime, update_where, find_where}
use face_identify.Identities.Model.{
  AssociationState, AssociationState-discrete, IdentityPersonAssociation,
}
use face_identify.Identities.Merge.{is_active_link, active_association}

abbrev pub count : Uuid → List IdentityPersonAssociation → ℕ
count id [] = 0
count id (a ∷ others) = let n = count id others in if is_active_link id a then 1 + n else n

abbrev pub is_none : Option Datetime → Bool
is_none none = true
is_none (some t) = false

-- The unique index and the check of the table.
abbrev pub IsLinkTable : List IdentityPersonAssociation → Type 0
IsLinkTable table =
    ((id : Uuid) → count id table ≤ 1)
    × All
        (λ (a : IdentityPersonAssociation).
          same AssociationState-discrete a.state AssociationState.active ≡ is_none a.ended_at)
        table

pub none-count :
    (id : Uuid) (table : List IdentityPersonAssociation)
    → active_association id table ≡ none
    → count id table ≡ 0
unfolding active_association find_where
none-count id [] h = refl
none-count id (a ∷ others) h = elim (Bool-cases (is_active_link id a)) [
  | inl e ↦ absurd (found (rw e at h))
  | inr e ↦ rw e (none-count id others (rw e at h))
]
  where
    found : {x : IdentityPersonAssociation} → some x ≢ none
    found e = absurd (cc)

-- An update that leaves the rows that it changes ended adds no ACTIVE link.
pub count-ended :
    (id : Uuid) (q : IdentityPersonAssociation → Bool)
    (f : IdentityPersonAssociation → IdentityPersonAssociation)
    (table : List IdentityPersonAssociation)
    → ((a : IdentityPersonAssociation) → is_active_link id (f a) ≡ false)
    → count id (update_where q f table).0 ≤ count id table
unfolding update_where
count-ended id q f [] ends = omega arith
count-ended id q f (a ∷ others) ends = elim (Bool-cases (q a)) [
  | inl e ↦ rw e (rw (ends a) (ground (arith, count-ended id q f others ends)))
  | inr e ↦ rw e (ground (arith, count-ended id q f others ends))
]

-- Ending the link that is found leaves none.
pub count-found :
    (id : Uuid) (f : IdentityPersonAssociation → IdentityPersonAssociation)
    (table : List IdentityPersonAssociation) (a : IdentityPersonAssociation)
    → ((x : IdentityPersonAssociation) → is_active_link id (f x) ≡ false)
    → active_association id table ≡ some a
    → count id table ≤ 1
    → count id (update_where (λ x. x.id == a.id) f table).0 ≡ 0
unfolding active_association find_where update_where
count-found id f [] a ends h one = absurd (cc)
count-found id f (x ∷ xs) a ends h one = elim (Bool-cases (is_active_link id x)) [
  | inl e ↦ self e (row_injective (rw e at h)) (rw e at one)
  | inr e ↦ other e (count-found id f xs a ends (rw e at h) (rw e at one))
]
  where
    row_injective : some x ≡ some a → x ≡ a
    row_injective e = cc

    later : List IdentityPersonAssociation
    later = (update_where (λ x. x.id == a.id) f xs).0

    changed : ℕ
    changed = (update_where (λ x. x.id == a.id) f xs).1

    counted : Bool → ℕ
    counted b =
        let updated : List IdentityPersonAssociation × ℕ =
          if b then (f x ∷ later, changed + 1) else (x ∷ later, changed) in
        count id updated.0

    self : is_active_link id x ≡ true → x ≡ a → 1 + count id xs ≤ 1 → counted (x.id == a.id) ≡ 0
    self active e none_left =
        let hit : (x.id == a.id) ≡ true = same_id e in
        let fewer = count-ended id (λ x. x.id == a.id) f xs ends in
        ap counted hit
        ∙ ap (λ b. if b then 1 + count id later else count id later) (ends x)
        ∙ omega (arith, fewer, none_left)
      where
        same_id : x ≡ a → (x.id == a.id) ≡ true
        same_id e = ap (λ (y : IdentityPersonAssociation). x.id == y.id) (sym e) ∙ ground arith

    other : is_active_link id x ≡ false → count id later ≡ 0 → counted (x.id == a.id) ≡ 0
    other passive rest = elim (Bool-cases (x.id == a.id)) [
      | inl e ↦
          ap counted e ∙ ap (λ b. if b then 1 + count id later else count id later) (ends x) ∙ rest
      | inr e ↦
          ap counted e ∙ ap (λ b. if b then 1 + count id later else count id later) passive ∙ rest
    ]

-- A link that is added counts for its own identity.
abbrev pub one_if : Bool → ℕ
one_if true = 1
one_if false = 0

pub count-append :
    (id : Uuid) (table : List IdentityPersonAssociation) (a : IdentityPersonAssociation)
    → count id (table ++ a ∷ []) ≡ count id table + one_if (is_active_link id a)
count-append id [] a = last (is_active_link id a)
  where
    last : (b : Bool) → (if b then 1 + 0 else 0) ≡ 0 + one_if b
    last true = omega arith
    last false = omega arith
count-append id (x ∷ xs) a = one_more (is_active_link id x) (count-append id xs a)
  where
    one_more :
        (b : Bool)
        → count id (xs ++ a ∷ []) ≡ count id xs + one_if (is_active_link id a)
        → (if b then 1 + count id (xs ++ a ∷ []) else count id (xs ++ a ∷ []))
          ≡ (if b then 1 + count id xs else count id xs) + one_if (is_active_link id a)
    one_more true e = omega (arith, e)
    one_more false e = e
