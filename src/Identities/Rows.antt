-- ===== src/Identities/Rows.antt =====
-- What the use cases do to the rows of identities, read by id: the state and the identity that a
-- row was merged into.
use face_identify.Prelude.{
  ℕ, ◌≡◌, refl, ap, ◌∙◌, sym, ◌≢◌, Bool, true, false, not, Option, none, some, List, ◌==◌,
  Bool-cases, inl, inr, arith,
}
use mathlib.Core.Path.{subst}
use face_identify.Database.{Uuid, Datetime, UniqueKeys, update_where, optimistic_locked_update}
use face_identify.Database.Keys.{
  by_key, updated, matched, by_key-update_where, by_key-update_other, count-update_where,
  UniqueKeys-update_where,
}
use face_identify.Identities.Model.{IdentityState, Identity, identity_versioned, ok, get_identity}
use face_identify.Identities.Results.{ok-if}
use face_identify.Identities.{touched, touch_identity}
use face_identify.Identities.Merge.{end_loser, take_representative}

pub record Standing : Type 0 where
  pub state : IdentityState
  pub merged_into : Option Uuid

abbrev pub id_of : Identity → Uuid
id_of i = i.id

abbrev pub standing : Option Identity → Option Standing
standing none = none
standing (some i) = some (record { state = i.state; merged_into = i.merged_into_identity_id })

abbrev pub HasUniqueIds : List Identity → Type 0
HasUniqueIds table = UniqueKeys id_of table

-- An update that keeps ids and standings leaves every standing.
pub standing-update_where :
    (k : Uuid) (q : Identity → Bool) (f : Identity → Identity) (table : List Identity)
    → ((i : Identity) → (f i).id ≡ i.id)
    → ((i : Identity) → standing (some (f i)) ≡ standing (some i))
    → standing (get_identity k (update_where q f table).0) ≡ standing (get_identity k table)
unfolding get_identity
standing-update_where k q f table keeps stands =
    ap standing (by_key-update_where id_of k q f table keeps) ∙ same_standing (by_key id_of k table)
  where
    same_standing : (o : Option Identity) → standing (updated id_of q f o) ≡ standing o
    same_standing none = refl
    same_standing (some i) = elim (Bool-cases (q i)) [ inl e ↦ rw e (stands i) | inr e ↦ rw e refl ]

-- What an operation on the rows may do to be no more than a touch.
abbrev pub IsTouch : List Identity → List Identity → Type 0
IsTouch table after =
    (HasUniqueIds table → HasUniqueIds after)
    × ((k : Uuid) → standing (get_identity k after) ≡ standing (get_identity k table))

pub touched-IsTouch :
    (expected : Option ℕ) (now : Datetime) (id : Uuid) (table : List Identity)
    → IsTouch table (touched expected now id table).0
unfolding touched optimistic_locked_update
touched-IsTouch none now id table = (
  UniqueKeys-update_where id_of _ _ table (λ i. refl),
  λ k. standing-update_where k _ _ table (λ i. refl) (λ i. refl),
)
touched-IsTouch (some e) now id table = (
  UniqueKeys-update_where id_of _ _ table (λ i. refl),
  λ k. standing-update_where k _ _ table (λ i. refl) (λ i. refl),
)

pub take_representative-IsTouch :
    (id : Uuid) (loser : Identity) (table : List Identity)
    → IsTouch table (take_representative id loser table)
unfolding take_representative
take_representative-IsTouch id loser table = (
  UniqueKeys-update_where id_of _ _ table (λ i. refl),
  λ k. standing-update_where k _ _ table (λ i. refl) (λ i. refl),
)

pub touch_identity-IsTouch :
    (expected : Option ℕ) (now : Datetime) (id : Uuid) (table after : List Identity)
    → touch_identity expected now id table ≡ ok after
    → IsTouch table after
unfolding touch_identity
touch_identity-IsTouch expected now id table after h =
    subst (IsTouch table) (ok-if _ _ _ after h).1 (touched-IsTouch expected now id table)

-- A guarded update of one row, as it is read afterwards where it counts a row.
pub guarded_update_lem :
    (id : Uuid) (q : Identity → Bool) (f : Identity → Identity) (table : List Identity)
    → HasUniqueIds table
    → ((i : Identity) → (f i).id ≡ i.id)
    → ((i : Identity) → q i ≡ true → i.id ≡ id)
    → ((update_where q f table).1 == 0) ≡ false
    → HasUniqueIds (update_where q f table).0
      × ((i : Identity) × (get_identity id table ≡ some i)
          × (q i ≡ true)
          × (get_identity id (update_where q f table).0 ≡ some (f i)))
      × ((k : Uuid) → k ≢ id → get_identity k (update_where q f table).0 ≡ get_identity k table)
unfolding get_identity
guarded_update_lem id q f table u keeps only counted = (
  UniqueKeys-update_where id_of q f table keeps u,
  hit (by_key id_of id table) refl
      (sym (ap not counted) ∙ count-update_where id_of id q f table u only),
  λ k n. by_key-update_other id_of k q f table keeps (misses k n),
)
  where
    hit :
        (o : Option Identity)
        → by_key id_of id table ≡ o
        → true ≡ matched id_of q (by_key id_of id table)
        → (i : Identity) × (by_key id_of id table ≡ some i)
          × (q i ≡ true)
          × (by_key id_of id (update_where q f table).0 ≡ some (f i))
    hit none e m = absurd (cc)
    hit (some i) e m = (
      i,
      e,
      sym (m ∙ ap (matched id_of q) e),
      by_key-update_where id_of id q f table keeps
          ∙ ap (updated id_of q f) e
          ∙ passes i (m ∙ ap (matched id_of q) e),
    )
      where
        passes : (j : Identity) → true ≡ q j → updated id_of q f (some j) ≡ some (f j)
        passes j p = rw (sym p) refl

    misses : (k : Uuid) → k ≢ id → (i : Identity) → i.id ≡ k → q i ≡ false
    misses k n i e = elim (Bool-cases (q i)) [ inl t ↦ absurd (n (sym e ∙ only i t)) | inr t ↦ t ]

-- `end_loser`: the loser is MERGED into the survivor, the others stand as they did.
pub end_loser_lem :
    (losing surviving : Uuid) (expected : ℕ) (now : Datetime) (table after : List Identity)
    → HasUniqueIds table
    → end_loser losing surviving expected now table ≡ ok after
    → HasUniqueIds after
      × (standing (get_identity losing after)
          ≡ some (record { state = IdentityState.merged; merged_into = some surviving }))
      × ((k : Uuid)
          → k ≢ losing
          → standing (get_identity k after) ≡ standing (get_identity k table))
unfolding end_loser optimistic_locked_update get_identity
end_loser_lem losing surviving expected now table after u h =
    let (counted, e) = ok-if _ _ _ after h in
    let r = guarded_update_lem losing _ _ table u (λ i. refl) (λ i t. ground arith) counted in
    (
      subst HasUniqueIds e r.0,
      ap (λ x. standing (get_identity losing x)) (sym e) ∙ ap standing r.1.3,
      λ k n. ap (λ x. standing (get_identity k x)) (sym e) ∙ ap standing (r.2 k n),
    )
