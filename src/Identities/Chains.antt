-- ===== src/Identities/Chains.antt =====
-- The rows that a candidate was merged into: that `resolve_recognition_candidates` comes to an end.
use mathlib.Core.Path.{subst}
use face_identify.Prelude.{
  ℕ, zero, suc, ◌+◌, ◌≡◌, refl, ap, ◌∙◌, sym, ◌≢◌, ◌⊎◌, inl, inr, Bool, true, false, not,
  Bool-cases, Option, none, some, List, [], ◌∷◌, ◌==◌, All, same, arith, ℕ_discrete, if◌then◌else◌,
}
use face_identify.Database.{Uuid, find_where}
use face_identify.Database.Keys.{by_key_lem}
use face_identify.Identities.Model.{
  IdentityState, IdentityState-discrete, Identity, get_identity, identity_is,
}
use face_identify.Identities.Resolve.{row_is_merged, row_at, target, ended_at, follow}
use face_identify.Identities.Rows.{Standing, standing, id_of, HasUniqueIds}
use face_identify.Identities.Quiet.{IsQuiet, IsQuietAt, is_fresh}
use face_identify.Identities.Moves.{IsMerge}

abbrev pub Standings : Type 0
Standings = Uuid → Option Standing

abbrev pub is_over : Option Standing → Bool
is_over none = true
is_over (some s) = not (same IdentityState-discrete s.state IdentityState.merged)

abbrev next_id : Standings → Option Uuid → Option Standing
next_id at none = none
next_id at (some id) = at id

abbrev next : Standings → Option Standing → Option Standing
next at none = none
next at (some s) = next_id at s.merged_into

-- Following merges from here takes at most so many turns.
abbrev pub IsDone : ℕ → Standings → Option Standing → Type 0
IsDone zero at s = is_over s ≡ true
IsDone (suc n) at s = (is_over s ≡ true) ⊎ IsDone n at (next at s)

abbrev pub standings : List Identity → Standings
standings table k = standing (get_identity k table)

abbrev pub IsEnding : ℕ → List Identity → Type 0
IsEnding n table = (k : Uuid) → IsDone n (standings table) (standings table k)

over-IsDone : (n : ℕ) (at : Standings) (s : Option Standing) → is_over s ≡ true → IsDone n at s
over-IsDone zero at s h = h
over-IsDone (suc n) at s h = inl h

-- Rows that are not MERGED may change, as long as they do not become MERGED.
keeps-IsDone :
    (at later : Standings) (n : ℕ) (s : Option Standing)
    → ((k : Uuid) → (later k ≡ at k) ⊎ (is_over (later k) ≡ true))
    → IsDone n at s
    → IsDone n later s
keeps-IsDone at later zero s quiet d = d
keeps-IsDone at later (suc n) s quiet (inl h) = inl h
keeps-IsDone at later (suc n) none quiet (inr d) = inl refl
keeps-IsDone at later (suc n) (some s) quiet (inr d) =
    inr (from (λ k. keeps-IsDone at later n (at k) quiet) s.merged_into d)
  where
    from :
        ((k : Uuid) → IsDone n at (at k) → IsDone n later (at k))
        → (o : Option Uuid) → IsDone n at (next_id at o)
        → IsDone n later (next_id later o)
    from rest none d = over-IsDone n later none refl
    from rest (some k) d = elim (quiet k) [
      | inl e ↦ subst (IsDone n later) (sym e) (rest k d)
      | inr h ↦ over-IsDone n later (later k) h
    ]

-- A merge makes the way longer by one turn at most.
merge-IsDone :
    (at later : Standings) (losing surviving : Uuid) (n : ℕ) (s : Option Standing)
    → (later losing ≡ some (record { state = IdentityState.merged; merged_into = some surviving }))
    → is_over (later surviving) ≡ true
    → ((k : Uuid) → k ≢ losing → later k ≡ at k)
    → IsDone n at s
    → IsDone (suc n) later s
merge-IsDone at later losing surviving zero s ends survives others d = inl d
merge-IsDone at later losing surviving (suc n) s ends survives others (inl h) = inl h
merge-IsDone at later losing surviving (suc n) none ends survives others (inr d) = inl refl
merge-IsDone at later losing surviving (suc n) (some s) ends survives others (inr d) = inr (
    from (λ k. merge-IsDone at later losing surviving n (at k) ends survives others) s.merged_into
      d)
  where
    from :
        ((k : Uuid) → IsDone n at (at k) → IsDone (suc n) later (at k))
        → (o : Option Uuid) → IsDone n at (next_id at o)
        → IsDone (suc n) later (next_id later o)
    from rest none d = inl refl
    from rest (some k) d = elim (ℕ_discrete k losing) [
      | yes e ↦
          subst (IsDone (suc n) later) (sym (ap later e ∙ ends))
            (inr (over-IsDone n later (later surviving) survives))
      | no m ↦ subst (IsDone (suc n) later) (sym (others k m)) (rest k d)
    ]

over-IsQuiet :
    (before after : Option Standing)
    → IsQuietAt before after
    → (after ≡ before) ⊎ (is_over after ≡ true)
unfolding IdentityState-discrete
over-IsQuiet before after (inl e) = inl e
over-IsQuiet before none (inr (early, fresh)) = inr refl
over-IsQuiet before (some s) (inr (early, fresh)) = inr (fresh_is_over s.state fresh)
  where
    fresh_is_over :
        (state : IdentityState)
        → is_fresh (some (record { state = state; merged_into = none })) ≡ true
        → is_over (some (record { state = state; merged_into = none })) ≡ true
    fresh_is_over IdentityState.pending h = refl
    fresh_is_over IdentityState.active h = refl
    fresh_is_over IdentityState.merged h = absurd (cc)
    fresh_is_over IdentityState.forgotten h = refl
    fresh_is_over IdentityState.deleted h = refl

pub IsEnding-IsQuiet :
    (n : ℕ) (table after : List Identity)
    → HasUniqueIds table
    → IsQuiet table after
    → IsEnding n table
    → IsEnding n after
IsEnding-IsQuiet n table after u q ends k = elim (over k) [
  | inl e ↦
      subst (IsDone n (standings after)) (sym e)
        (keeps-IsDone (standings table) (standings after) n (standings table k) over (ends k))
  | inr h ↦ over-IsDone n (standings after) (standings after k) h
]
  where
    over :
        (k : Uuid) → (standings after k ≡ standings table k) ⊎ (is_over (standings after k) ≡ true)
    over k = over-IsQuiet (standings table k) (standings after k) (q.1 u k)

active_is_over :
    (o : Option Uuid)
    → is_over (some (record { state = IdentityState.active; merged_into = o })) ≡ true
unfolding IdentityState-discrete
active_is_over o = refl

pub IsEnding-IsMerge :
    (n : ℕ) (losing surviving : Uuid) (table after : List Identity)
    → IsMerge losing surviving table after
    → IsEnding n table
    → IsEnding (suc n) after
IsEnding-IsMerge n losing surviving table after m ends k =
    let over = ap is_over m.survives.1 ∙ active_is_over m.survives.0 in
    elim (ℕ_discrete k losing) [
      | yes e ↦
          subst (IsDone (suc n) (standings after)) (sym (ap (standings after) e ∙ m.ends))
            (inr (over-IsDone n (standings after) (standings after surviving) over))
      | no x ↦ subst (IsDone (suc n) (standings after)) (sym (m.others k x)) (
          merge-IsDone (standings table) (standings after) losing surviving n (standings table k)
            m.ends over m.others (ends k))
    ]

merged-over : (o : Option Identity) → is_over (standing o) ≡ true → row_is_merged o ≡ false
merged-over none h = refl
merged-over (some i) h = falls (identity_is IdentityState.merged i) h
  where
    falls : (b : Bool) → not b ≡ true → b ≡ false
    falls true h = absurd (cc)
    falls false h = refl

standing-target :
    (table : List Identity) (o : Option Identity)
    → next (standings table) (standing o) ≡ standing (target table o)
standing-target table none = refl
standing-target table (some i) = row i.merged_into_identity_id
  where
    row : (o : Option Uuid) → next_id (standings table) o ≡ standing (row_at o table)
    row none = refl
    row (some id) = refl

-- What a walk is at is a row of the table, as it is read now.
abbrev pub IsRow : List Identity → Option Identity → Type 0
IsRow table none = Unit
IsRow table (some i) = get_identity i.id table ≡ some i

pub get_identity-IsRow : (table : List Identity) (k : Uuid) → IsRow table (get_identity k table)
unfolding get_identity
get_identity-IsRow table k = read (get_identity k table) refl
  where
    read : (o : Option Identity) → get_identity k table ≡ o → IsRow table o
    read none e = tt
    read (some i) e = ap (λ j. get_identity j table) (by_key_lem id_of k table i e).0 ∙ e

target-IsRow : (table : List Identity) (o : Option Identity) → IsRow table (target table o)
target-IsRow table none = tt
target-IsRow table (some i) = at i.merged_into_identity_id
  where
    at : (o : Option Uuid) → IsRow table (row_at o table)
    at none = tt
    at (some k) = get_identity-IsRow table k

-- A walk with as many turns as it takes ends.
pub follow-ends :
    (n : ℕ) (table : List Identity) (o : Option Identity)
    → IsRow table o
    → IsDone n (standings table) (standing o)
    → (r : Option Identity) × (follow n table o ≡ ended_at r) × IsRow table r
unfolding follow
follow-ends zero table o row d = (o, rw (merged-over o d) refl, row)
follow-ends (suc n) table o row (inl h) = (o, rw (merged-over o h) refl, row)
follow-ends (suc n) table o row (inr d) =
    let (r, e, found) =
      follow-ends n table (target table o) (target-IsRow table o)
        (subst (IsDone n (standings table)) (standing-target table o) d) in
    elim (Bool-cases (row_is_merged o)) [
      | inl t ↦
          (r, ap (λ b. if b then follow n table (target table o) else ended_at o) t ∙ e, found)
      | inr t ↦ (o, ap (λ b. if b then follow n table (target table o) else ended_at o) t, row)
    ]

-- Numbers that are equal by arithmetic bound the same walks.
pub fuel-IsEnding : (m n : ℕ) (table : List Identity) → m ≡ n → IsEnding m table → IsEnding n table
fuel-IsEnding m n table e ends = subst (λ fuel. IsEnding fuel table) e ends

pub more-IsEnding : (m n : ℕ) (table : List Identity) → IsEnding n table → IsEnding (m + n) table
more-IsEnding zero n table ends = fuel-IsEnding n (0 + n) table (omega arith) ends
more-IsEnding (suc m) n table ends =
    fuel-IsEnding (suc (m + n)) (suc m + n) table (omega arith)
      (λ k. one (m + n) (standings table k) (more-IsEnding m n table ends k))
  where
    one :
        (n : ℕ) (s : Option Standing)
        → IsDone n (standings table) s
        → IsDone (suc n) (standings table) s
    one zero s d = inl d
    one (suc n) s (inl h) = inl h
    one (suc n) s (inr d) = inr (one n _ d)

-- Where no row is MERGED every walk has ended.
pub none_merged-IsEnding :
    (table : List Identity)
    → All (λ i. identity_is IdentityState.merged i ≡ false) table
    → IsEnding 0 table
unfolding get_identity find_where
none_merged-IsEnding [] h k = refl
none_merged-IsEnding (i ∷ is) h k = elim (Bool-cases (i.id == k)) [
  | inl e ↦ rw e (ap not h.0)
  | inr e ↦ rw e (none_merged-IsEnding is h.1 k)
]
