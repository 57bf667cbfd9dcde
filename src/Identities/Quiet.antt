-- ===== src/Identities/Quiet.antt =====
-- What every use case but a merge does to the rows of identities: they stand as they did, or one is
-- created or activated.
use mathlib.Core.Path.{subst}
use face_identify.Prelude.{
  ℕ, ◌+◌, ◌≡◌, refl, ap, ◌∙◌, sym, ◌≢◌, ◌⊎◌, Bool, true, false, ◌&&◌, ◌||◌, Option, none, some,
  List, [], ◌∷◌, ◌++◌, ◌==◌, if◌then◌else◌, Bool-cases, same, inl, inr, arith, ℕ_discrete,
}
use face_identify.Database.{Uuid, Datetime, update_where, find_where, optimistic_locked_update}
use face_identify.Database.Keys.{by_key, UniqueKeys-insert}
use face_identify.Identities.Model.{
  IdentityState, IdentityState-discrete, Identity, ok, get_identity, identity_is,
  identity_versioned,
}
use face_identify.Identities.{
  create_pending_identity, pending_identity, insert_identity, activate_identity,
}
use face_identify.Identities.Results.{ok-injective, ok-if}
use face_identify.Identities.Rows.{
  Standing, standing, id_of, HasUniqueIds, IsTouch, guarded_update_lem,
}

-- There is no row, or it is PENDING.
abbrev pub is_early : Option Standing → Bool
is_early none = true
is_early (some s) = same IdentityState-discrete s.state IdentityState.pending

abbrev pub is_fresh : Option Standing → Bool
is_fresh none = false
is_fresh (some s) =
    same IdentityState-discrete s.state IdentityState.pending
    || same IdentityState-discrete s.state IdentityState.active

abbrev pub IsQuietAt : Option Standing → Option Standing → Type 0
IsQuietAt before after = (after ≡ before) ⊎ ((is_early before ≡ true) × (is_fresh after ≡ true))

abbrev pub IsQuiet : List Identity → List Identity → Type 0
IsQuiet table after =
    (HasUniqueIds table → HasUniqueIds after)
    × (HasUniqueIds table
        → (k : Uuid)
        → IsQuietAt (standing (get_identity k table)) (standing (get_identity k after)))

pub IsTouch→IsQuiet : (table after : List Identity) → IsTouch table after → IsQuiet table after
IsTouch→IsQuiet table after t = (t.0, λ u k. inl (t.1 k))

abbrev or_last : Option Identity → Option Identity → Option Identity
or_last (some i) last = some i
or_last none last = last

find_where-append :
    (p : Identity → Bool) (table : List Identity) (i : Identity)
    → find_where p (table ++ i ∷ []) ≡ or_last (find_where p table) (if p i then some i else none)
unfolding find_where
find_where-append p [] i = refl
find_where-append p (x ∷ xs) i = elim (Bool-cases (p x)) [
  | inl e ↦ rw e refl
  | inr e ↦ rw e (find_where-append p xs i)
]

pub insert_identity-IsQuiet :
    (i : Identity) (table after : List Identity)
    → is_fresh (standing (some i)) ≡ true
    → insert_identity (get_identity i.id table) i table ≡ ok after
    → IsQuiet table after
unfolding get_identity
insert_identity-IsQuiet i table after fresh h = inserted (get_identity i.id table) refl h
  where
    at :
        (k : Uuid) (o : Option Identity)
        → by_key id_of k table ≡ o
        → IsQuietAt (standing o) (standing (or_last o (if i.id == k then some i else none)))
    at k (some y) e = inl refl
    at k none e = elim (Bool-cases (i.id == k)) [
      | inl t ↦ rw t (inr (refl, fresh))
      | inr t ↦ rw t (inl refl)
    ]

    inserted :
        (o : Option Identity)
        → get_identity i.id table ≡ o
        → insert_identity o i table ≡ ok after
        → IsQuiet table after
    inserted (some y) e h = absurd (cc)
    inserted none e h = subst (IsQuiet table) (ok-injective _ after h) (
      (λ u. UniqueKeys-insert id_of i table u e),
      λ u k.
          subst (λ o. IsQuietAt (standing (by_key id_of k table)) (standing o))
            (sym (find_where-append (λ x. x.id == k) table i)) (at k (by_key id_of k table) refl),
    )

-- The new row is read.
pub insert_identity-inserts :
    (i : Identity) (table after : List Identity)
    → insert_identity (get_identity i.id table) i table ≡ ok after
    → get_identity i.id after ≡ some i
unfolding get_identity
insert_identity-inserts i table after h = inserted (get_identity i.id table) refl h
  where
    self : (i.id == i.id) ≡ true
    self = ground arith

    inserted :
        (o : Option Identity)
        → get_identity i.id table ≡ o
        → insert_identity o i table ≡ ok after
        → get_identity i.id after ≡ some i
    inserted (some y) e h = absurd (cc)
    inserted none e h =
        subst (λ rows. get_identity i.id rows ≡ some i) (ok-injective _ after h)
          (find_where-append (λ x. x.id == i.id) table i
            ∙ ap (λ o. or_last o (if i.id == i.id then some i else none)) e
            ∙ ap (λ b. if b then some i else none) self)

-- Quiet changes one after the other are quiet.
pub IsQuiet-then :
    (table middle after : List Identity)
    → IsQuiet table middle
    → IsQuiet middle after
    → IsQuiet table after
IsQuiet-then table middle after p q =
    (λ u. q.0 (p.0 u), λ u k. both _ _ _ (p.1 u k) (q.1 (p.0 u) k))
  where
    both : (a b c : Option Standing) → IsQuietAt a b → IsQuietAt b c → IsQuietAt a c
    both a b c (inl e) (inl f) = inl (f ∙ e)
    both a b c (inl e) (inr (early, fresh)) = inr (ap is_early (sym e) ∙ early, fresh)
    both a b c (inr (early, fresh)) (inl f) = inr (early, ap is_fresh f ∙ fresh)
    both a b c (inr (early, _)) (inr (_, fresh)) = inr (early, fresh)

pub create_pending_identity-IsQuiet :
    (id run_id : Uuid) (observation_id : Option Uuid) (created updated : Datetime)
    (table after : List Identity)
    → create_pending_identity id run_id observation_id created updated table ≡ ok after
    → IsQuiet table after
unfolding create_pending_identity IdentityState-discrete
create_pending_identity-IsQuiet id run_id observation_id created updated table after h =
    insert_identity-IsQuiet (pending_identity id run_id observation_id created updated) table after
      refl h

pub activate_identity-IsQuiet :
    (id : Uuid) (expected : ℕ) (now : Datetime) (table after : List Identity)
    → activate_identity id expected now table ≡ ok after
    → IsQuiet table after
unfolding activate_identity optimistic_locked_update get_identity
activate_identity-IsQuiet id expected now table after h =
    let (counted, e) = ok-if _ _ _ after h in
    subst (IsQuiet table) e ((λ u. (lem u counted).0), λ u k. at k (lem u counted))
  where
    f : Identity → Identity
    f i = record i {
      state = IdentityState.active;
      activated_at = some now;
      updated_at = now;
      revision = i.revision + 1;
    }

    q : Identity → Bool
    q i = (i.id == id && i.revision == expected) && identity_is IdentityState.pending i

    rows : List Identity
    rows = (update_where q f table).0

    AtId : Type 0
    AtId =
        (i : Identity) × (get_identity id table ≡ some i)
        × (q i ≡ true)
        × (get_identity id rows ≡ some (f i))

    lem :
        HasUniqueIds table
        → ((update_where q f table).1 == 0) ≡ false
        → HasUniqueIds rows
          × AtId
          × ((k : Uuid) → k ≢ id → get_identity k rows ≡ get_identity k table)
    lem u counted = guarded_update_lem id q f table u (λ i. refl) (λ i t. ground arith) counted

    early :
        (state : IdentityState) (b : Bool)
        → b && same IdentityState-discrete state IdentityState.pending ≡ true
        → same IdentityState-discrete state IdentityState.pending ≡ true
    early state true t = t
    early state false t = absurd (cc)

    self : AtId → IsQuietAt (standing (get_identity id table)) (standing (get_identity id rows))
    self (i, before, t, later) = inr (
      ap (λ o. is_early (standing o)) before ∙ early i.state _ t,
      ap (λ o. is_fresh (standing o)) later,
    )

    at :
        (k : Uuid)
        → HasUniqueIds rows
          × AtId
          × ((k : Uuid) → k ≢ id → get_identity k rows ≡ get_identity k table)
        → IsQuietAt (standing (get_identity k table)) (standing (get_identity k rows))
    at k (u, s, others) = elim (ℕ_discrete k id) [
      | yes e ↦
          subst (λ j. IsQuietAt (standing (get_identity j table)) (standing (get_identity j rows)))
            (sym e) (self s)
      | no n ↦ inl (ap standing (others k n))
    ]
