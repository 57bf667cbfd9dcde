-- ===== src/People/Links.antt =====
-- At most one ACTIVE link of an identity, whatever is done to people and merged.
use face_identify.Prelude.{
  ◌≤◌, ◌≡◌, refl, ap, ◌∙◌, ◌⊎◌, inl, inr, Bool, true, false, ◌&&◌, Option, none, some, List, [],
  ◌∷◌, ◌++◌, ◌==◌, All, Bool-cases, same, arith,
}
use face_identify.Database.{Uuid, Datetime, update_where}
use face_identify.Database.Keys.{All-update_where}
use face_identify.Identities.Model.{
  AssociationState, AssociationState-discrete, IdentityPersonAssociation,
}
use face_identify.Identities.Merge.{
  is_active_link, active_association, carried_association, superseded_row,
}
use face_identify.People.{end_link, removed_row}
use face_identify.People.Counts.{
  count, is_none, IsLinkTable, none-count, count-ended, count-found, one_if, count-append,
}

-- What ends a link.
abbrev pub IsEnder : (IdentityPersonAssociation → IdentityPersonAssociation) → Type 0
IsEnder f =
    ((id : Uuid) (a : IdentityPersonAssociation) → is_active_link id (f a) ≡ false)
    × ((a : IdentityPersonAssociation)
        → same AssociationState-discrete (f a).state AssociationState.active
          ≡ is_none (f a).ended_at)

and_false : (b : Bool) → b && false ≡ false
and_false true = refl
and_false false = refl

pub superseded_row-IsEnder : (now : Datetime) → IsEnder (superseded_row now)
unfolding AssociationState-discrete
superseded_row-IsEnder now = (λ id a. and_false (a.identity_id == id), λ a. refl)

pub removed_row-IsEnder : (now : Datetime) → IsEnder (removed_row now)
unfolding AssociationState-discrete
removed_row-IsEnder now = (λ id a. and_false (a.identity_id == id), λ a. refl)

pub ended-IsLinkTable :
    (q : IdentityPersonAssociation → Bool)
    (f : IdentityPersonAssociation → IdentityPersonAssociation)
    (table : List IdentityPersonAssociation)
    → IsEnder f
    → IsLinkTable table
    → IsLinkTable (update_where q f table).0
ended-IsLinkTable q f table ends (one, checked) = (
  λ k. omega (arith, count-ended k q f table (ends.0 k), one k),
  All-update_where _ q f table (λ x hit h. ends.1 x) checked,
)

-- Ending the current link of an identity keeps the table in order and leaves it none.
pub end_link-IsLinkTable :
    (id : Uuid) (f : IdentityPersonAssociation → IdentityPersonAssociation)
    (o : Option IdentityPersonAssociation) (table : List IdentityPersonAssociation)
    → IsEnder f
    → active_association id table ≡ o
    → IsLinkTable table
    → IsLinkTable (end_link f o table) × (count id (end_link f o table) ≡ 0)
unfolding end_link
end_link-IsLinkTable id f none table ends e links = (links, none-count id table e)
end_link-IsLinkTable id f (some a) table ends e (one, checked) = (
  ended-IsLinkTable (λ x. x.id == a.id) f table ends (one, checked),
  count-found id f table a (ends.0 id) e (one id),
)

checked-append :
    (table : List IdentityPersonAssociation) (a : IdentityPersonAssociation)
    → (same AssociationState-discrete a.state AssociationState.active ≡ is_none a.ended_at)
    → All
        (λ (x : IdentityPersonAssociation).
          same AssociationState-discrete x.state AssociationState.active ≡ is_none x.ended_at)
        table
    → All
        (λ (x : IdentityPersonAssociation).
          same AssociationState-discrete x.state AssociationState.active ≡ is_none x.ended_at)
        (table ++ a ∷ [])
checked-append [] a h all = (h, tt)
checked-append (x ∷ xs) a h all = (all.0, checked-append xs a h all.1)

-- A link for an identity that has none.
pub append-IsLinkTable :
    (association_id evidence_id id person_id : Uuid) (now : Datetime)
    (table : List IdentityPersonAssociation)
    → IsLinkTable table
    → count id table ≡ 0
    → IsLinkTable (table ++ carried_association association_id evidence_id id person_id now ∷ [])
unfolding AssociationState-discrete
append-IsLinkTable association_id evidence_id id person_id now table (one, checked) free =
    (λ k. few k (Bool-cases (id == k)), checked-append table _ refl checked)
  where
    few :
        (k : Uuid)
        → ((id == k) ≡ true) ⊎ ((id == k) ≡ false)
        → count k (table ++ carried_association association_id evidence_id id person_id now ∷ [])
          ≤ 1
    few k (inl e) =
        let same_id : k ≡ id = ground arith in
        let counted =
          count-append k table (carried_association association_id evidence_id id person_id now) in
        let hit = ap (λ b. one_if (b && true)) e in
        let none_before = ap (λ j. count j table) same_id ∙ free in
        omega (arith, counted, hit, none_before)
    few k (inr e) =
        let counted =
          count-append k table (carried_association association_id evidence_id id person_id now) in
        let missed = ap (λ b. one_if (b && true)) e in omega (arith, counted, missed, one k)
