-- ===== src/Identities/Answers.antt =====
-- What `resolve_ann_candidates` answers.
use mathlib.Core.Option.{some-injective}
use mathlib.Core.Path.{subst}
use face_identify.Prelude.{
  ℕ, ◌≡◌, refl, ap, ◌∙◌, sym, inl, inr, Bool, true, false, ◌&&◌, Option, none, some, List, [], ◌∷◌,
  ◌==◌, In, All, Bool-cases, if◌then◌else◌, same, same→eq, arith,
}
use face_identify.Database.{Uuid, find_where}
use face_identify.Memory.{Representation, RepresentationState}
use face_identify.Identities.Model.{
  IdentityState, IdentityState-discrete, Identity, Tables, get_identity, is_id, is_listed,
}
use face_identify.Identities.{representation_is}
use face_identify.Identities.Support.{distinct_after}
use face_identify.Identities.Rows.{Standing, standing}
use face_identify.Identities.Moves.{IsActive, HasOwner}
use face_identify.Identities.Revalidation.{
  RecognitionCandidate, is_active_row, has_active_owner, is_eligible, candidate_of, add_found,
  resolve_keys, resolve_ann_candidates, is_answered, listed-distinct, find_where-In, keys-answered,
}

-- The key of the candidate is one of those asked for, and the candidate is an ACTIVE representation
-- of the space with this key, whose identity, if it has one, is ACTIVE.
abbrev pub IsBacked : Uuid → List ℕ → Tables → RecognitionCandidate → Type 0
IsBacked space keys t c =
    (is_listed c.ann_key keys ≡ true)
    × (r : Representation) × In r t.representations
    × (c ≡ candidate_of c.ann_key r)
    × (r.representation_space_id ≡ space)
    × (r.ann_key ≡ some c.ann_key)
    × (representation_is RepresentationState.active r ≡ true)
    × ((id : Uuid) → c.identity_id ≡ some id → IsActive id t.identities)

find_where-inverts :
    (p : Representation → Bool) (rows : List Representation) (x : Representation)
    → find_where p rows ≡ some x
    → In x rows × (p x ≡ true)
unfolding find_where
find_where-inverts p [] x h = absurd (cc)
find_where-inverts p (y ∷ ys) x h = elim (Bool-cases (p y)) [
  | inl e ↦
      let same_row =
        some-injective y x (ap (λ b. if b then some y else find_where p ys) (sym e) ∙ h) in
      (inl (sym same_row), ap p (sym same_row) ∙ e)
  | inr e ↦
      let (i, t) =
        find_where-inverts p ys x (ap (λ b. if b then some y else find_where p ys) (sym e) ∙ h) in
      (inr i, t)
]

and_four :
    (a b c d : Bool)
    → (a && b) && (c && d) ≡ true
    → (a ≡ true) × (b ≡ true) × (c ≡ true) × (d ≡ true)
and_four true true true true h = (refl, refl, refl, refl)
and_four true true true false h = absurd (cc)
and_four true true false d h = absurd (cc)
and_four true false c d h = absurd (cc)
and_four false b c d h = absurd (cc)

is_id-inverts : (o : Option Uuid) (key : Uuid) → is_id o key ≡ true → o ≡ some key
is_id-inverts none key h = absurd (cc)
is_id-inverts (some i) key h = let e : i ≡ key = ground arith in ap some e

row-standing :
    (o : Option Identity)
    → is_active_row o ≡ true
    → (m : Option Uuid) × (standing o
        ≡ some (record { state = IdentityState.active; merged_into = m }))
row-standing none h = absurd (cc)
row-standing (some i) h = (
  i.merged_into_identity_id,
  ap (λ s. some (record { state = s; merged_into = i.merged_into_identity_id }))
      (same→eq IdentityState-discrete i.state IdentityState.active h),
)

owner-IsActive :
    (o : Option Uuid) (t : Tables) (id : Uuid)
    → has_active_owner o t.identities ≡ true
    → o ≡ some id
    → IsActive id t.identities
owner-IsActive none t id h e = absurd (cc)
owner-IsActive (some i) t id h e =
    subst (λ k. IsActive k t.identities) (some-injective i id e)
      (row-standing (get_identity i t.identities) h)

asked-distinct :
    (keys seen : List ℕ) (key : ℕ)
    → is_listed key (distinct_after seen keys) ≡ true
    → is_listed key keys ≡ true
asked-distinct [] seen key h = h
asked-distinct (k ∷ keys) seen key h =
    ground (arith, asked-distinct keys seen key, asked-distinct keys (k ∷ seen) key)

keys-IsBacked :
    (space : Uuid) (asked keys : List ℕ) (t : Tables)
    → ((key : ℕ) → is_listed key keys ≡ true → is_listed key asked ≡ true)
    → All (IsBacked space asked t) (resolve_keys space keys t)
unfolding resolve_keys
keys-IsBacked space asked [] t within = tt
keys-IsBacked space asked (key ∷ keys) t within =
    with_found (find_where (is_eligible space key t.identities) t.representations) refl
      (keys-IsBacked space asked keys t (λ k h. within k (ground arith)))
  where
    with_found :
        (o : Option Representation)
        → find_where (is_eligible space key t.identities) t.representations ≡ o
        → All (IsBacked space asked t) (resolve_keys space keys t)
        → All (IsBacked space asked t) (add_found key o (resolve_keys space keys t))
    with_found none e rest = rest
    with_found (some r) e rest =
        let (i, eligible) =
          find_where-inverts (is_eligible space key t.identities) t.representations r e in
        let (s, k, a, owner) =
          and_four (r.representation_space_id == space) (is_id r.ann_key key)
            (representation_is RepresentationState.active r)
            (has_active_owner r.identity_id t.identities) eligible in
        (
          (
            within key (ground arith),
            r,
            i,
            refl,
            same_space r.representation_space_id s,
            is_id-inverts r.ann_key key k,
            a,
            λ id q. owner-IsActive r.identity_id t id owner q,
          ),
          rest,
        )
      where
        same_space : (a : Uuid) → (a == space) ≡ true → a ≡ space
        same_space a h = ground arith

abbrev state_or : IdentityState → Option Standing → IdentityState
state_or other none = other
state_or other (some s) = s.state

standing-row :
    (o : Option Identity) (m : Option Uuid)
    → standing o ≡ some (record { state = IdentityState.active; merged_into = m })
    → is_active_row o ≡ true
unfolding IdentityState-discrete
standing-row none m e = absurd (cc)
standing-row (some i) m e =
    ap (λ s. same IdentityState-discrete s IdentityState.active) (ap (state_or i.state) e)

HasOwner-is_eligible :
    (space key : Uuid) (t : Tables) (r : Representation)
    → HasOwner t.identities r
    → r.representation_space_id ≡ space
    → r.ann_key ≡ some key
    → representation_is RepresentationState.active r ≡ true
    → is_eligible space key t.identities r ≡ true
HasOwner-is_eligible space key t r owner s k a =
    all_true (r.representation_space_id == space) (is_id r.ann_key key) _ _
      (ap (λ x. x == space) s ∙ itself space) (ap (λ o. is_id o key) k ∙ itself key) a
      (owned r.identity_id (owner a))
  where
    itself : (x : Uuid) → (x == x) ≡ true
    itself x = ground arith

    all_true :
        (a b c d : Bool) → a ≡ true → b ≡ true → c ≡ true → d ≡ true → (a && b) && (c && d) ≡ true
    all_true a b c d p q r s = ground arith

    owned :
        (o : Option Uuid)
        → ((id : Uuid) → o ≡ some id → IsActive id t.identities)
        → has_active_owner o t.identities ≡ true
    owned none active = refl
    owned (some id) active =
        let (m, e) = active id refl in standing-row (get_identity id t.identities) m e

-- In any tables: every answer of resolve_ann_candidates is for a key that was asked for, and is an
-- ACTIVE representation of the space with this key, with an ACTIVE identity or none. And the key of
-- every ACTIVE representation of the space with an ACTIVE identity or none is answered if it is among
-- those asked for.
pub resolve_ann_candidates-IsBacked :
    (space : Uuid) (keys : List ℕ) (t : Tables)
    → All (IsBacked space keys t) (resolve_ann_candidates space keys t)
      × ((r : Representation) (key : ℕ)
          → In r t.representations
          → HasOwner t.identities r
          → r.representation_space_id ≡ space
          → r.ann_key ≡ some key
          → representation_is RepresentationState.active r ≡ true
          → is_listed key keys ≡ true
          → is_answered key (resolve_ann_candidates space keys t) ≡ true)
unfolding resolve_ann_candidates
resolve_ann_candidates-IsBacked space keys t = (
  keys-IsBacked space keys (distinct_after [] keys) t (asked-distinct keys []),
  λ r key i owner s k a asked.
      let (x, f) =
        find_where-In (is_eligible space key t.identities) r t.representations i
          (HasOwner-is_eligible space key t r owner s k a) in
      keys-answered space (distinct_after [] keys) t key x (listed-distinct key [] keys asked refl)
        f,
)
