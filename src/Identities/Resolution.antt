-- ===== src/Identities/Resolution.antt =====
-- What `resolve_recognition_candidates` answers, and that it answers after any use cases.
use mathlib.Core.Path.{subst}
use face_identify.Prelude.{
  ℕ, suc, ◌+◌, ◌≡◌, refl, ap, ◌∙◌, sym, ◌≢◌, inl, inr, Bool, true, false, ◌||◌, Bool-cases, Option,
  none, some, List, [], ◌∷◌, ◌++◌, All, arith, if◌then◌else◌, ◌==◌,
}
use face_identify.Database.{Uuid, find_where}
use face_identify.Database.Keys.{by_key, UniqueKeys-insert}
use face_identify.Identities.Model.{IdentityState, Identity, Tables, get_identity, identity_is}
use face_identify.Identities.Resolve.{
  ended_at, follow, current_or_none, is_seen, add_current, resolve_one, then_resolve, resolve_from,
  resolve_recognition_candidates,
}
use face_identify.Identities.Rows.{id_of, HasUniqueIds}
use face_identify.Identities.Changes.{
  Change, create, activate, assign, touch, split, merge, step, committed, run, is_merge, merges,
}
use face_identify.Identities.History.{Moves, step-Moves, committed-keeps}
use face_identify.Identities.Chains.{
  IsEnding, IsRow, get_identity-IsRow, follow-ends, more-IsEnding, fuel-IsEnding,
  none_merged-IsEnding, IsEnding-IsQuiet, IsEnding-IsMerge,
}

-- ACTIVE, and the row that the table has now.
abbrev pub IsCurrent : List Identity → Identity → Type 0
IsCurrent table i = (identity_is IdentityState.active i ≡ true) × (get_identity i.id table ≡ some i)

-- Where the merges of a candidate lead to an ACTIVE identity, it is among the answers.
abbrev pub IsAnswered : ℕ → List Identity → List Identity → Uuid → Type 0
IsAnswered fuel table answers id =
    (i : Identity)
    → follow fuel table (get_identity id table) ≡ ended_at (some i)
    → identity_is IdentityState.active i ≡ true
    → is_seen i.id answers ≡ true

abbrev IsResolved : List Identity → List Identity → Type 0
IsResolved table answers = All (IsCurrent table) answers × HasUniqueIds answers

not_seen : (k : Uuid) (xs : List Identity) → is_seen k xs ≡ false → by_key id_of k xs ≡ none
unfolding find_where
not_seen k [] h = refl
not_seen k (x ∷ xs) h = elim (Bool-cases (x.id == k)) [
  | inl e ↦ absurd (apart (ap (λ b. b || is_seen k xs) (sym e) ∙ h))
  | inr e ↦ rw e (not_seen k xs (ap (λ b. b || is_seen k xs) (sym e) ∙ h))
]
  where
    apart : true ≢ false
    apart e = absurd (cc)

or-left : (a b c : Bool) → (b ≡ true → c ≡ true) → a || b ≡ true → a || c ≡ true
or-left true b c f h = refl
or-left false b c f h = f h

seen-append :
    (k : Uuid) (xs : List Identity) (i : Identity)
    → is_seen k xs ≡ true
    → is_seen k (xs ++ i ∷ []) ≡ true
seen-append k [] i h = absurd (cc)
seen-append k (x ∷ xs) i h = or-left (x.id == k) _ _ (seen-append k xs i) h

seen_last : (xs : List Identity) (i : Identity) → is_seen i.id (xs ++ i ∷ []) ≡ true
seen_last [] i = ground arith
seen_last (x ∷ xs) i = later (x.id == i.id) (seen_last xs i)
  where
    later : (b : Bool) {c : Bool} → c ≡ true → b || c ≡ true
    later true h = refl
    later false h = h

all-append :
    (P : Identity → Type 0) (xs : List Identity) (i : Identity)
    → All P xs
    → P i
    → All P (xs ++ i ∷ [])
all-append P [] i h p = (p, tt)
all-append P (x ∷ xs) i h p = (h.0, all-append P xs i h.1 p)

-- One candidate: what is known of the answers stays so, and its identity is among them.
abbrev IsGrown : List Identity → List Identity → List Identity → Type 0
IsGrown table before after =
    IsResolved table after × ((k : Uuid) → is_seen k before ≡ true → is_seen k after ≡ true)

add_one :
    (table answers : List Identity) (i : Identity)
    → IsResolved table answers
    → IsCurrent table i
    → IsGrown table answers (add_current (some i) answers)
      × (is_seen i.id (add_current (some i) answers) ≡ true)
add_one table answers i (current, unique) c = elim (Bool-cases (is_seen i.id answers)) [
  | inl e ↦ rw e (((current, unique), λ k h. h), e)
  | inr e ↦ rw e (
    (
      (
        all-append (IsCurrent table) answers i current c,
        UniqueKeys-insert id_of i answers unique (not_seen i.id answers e),
      ),
      λ k. seen-append k answers i,
    ),
    seen_last answers i,
  )
]

add_ended :
    (table answers : List Identity) (o : Option Identity)
    → IsResolved table answers
    → IsRow table o
    → IsGrown table answers (add_current (current_or_none o) answers)
add_ended table answers none r row = (r, λ k h. h)
add_ended table answers (some i) r row = elim (Bool-cases (identity_is IdentityState.active i)) [
  | inl e ↦ rw e (add_one table answers i r (e, row)).0
  | inr e ↦ rw e (r, λ k h. h)
]

resolve_from-answers :
    (fuel : ℕ) (table : List Identity) (ids : List Uuid) (answers : List Identity)
    → IsEnding fuel table
    → IsResolved table answers
    → (r : List Identity) × (resolve_from fuel table ids answers ≡ some r)
      × IsGrown table answers r
      × All (IsAnswered fuel table r) ids
unfolding resolve_from
resolve_from-answers fuel table [] answers ends known = (answers, refl, (known, λ k h. h), tt)
resolve_from-answers fuel table (id ∷ ids) answers ends known =
    let (o, e, row) =
      follow-ends fuel table (get_identity id table) (get_identity-IsRow table id) (ends id) in
    let one = add_ended table answers o known row in
    let (r, rest, grown, answered) =
      resolve_from-answers fuel table ids (add_current (current_or_none o) answers) ends one.0 in
    (
      r,
      ap (λ w. then_resolve (resolve_one w answers) (λ after. resolve_from fuel table ids after)) e
          ∙ rest,
      (grown.0, λ k h. grown.1 k (one.1 k h)),
      (
        λ i f active.
            grown.1 i.id (answer o i known row (ended_injective o (some i) (sym e ∙ f)) active),
        answered,
      ),
    )
  where
    ended_injective : (a b : Option Identity) → ended_at a ≡ ended_at b → a ≡ b
    ended_injective a b h = cc

    answer :
        (o : Option Identity) (i : Identity)
        → IsResolved table answers
        → IsRow table o
        → o ≡ some i
        → identity_is IdentityState.active i ≡ true
        → is_seen i.id (add_current (current_or_none o) answers) ≡ true
    answer o i known row e active =
        ap (λ x. is_seen i.id (add_current (current_or_none x) answers)) e
        ∙ ap (λ b. is_seen i.id (add_current (if b then some i else none) answers)) active
        ∙ (add_one table answers i known (active, subst (IsRow table) e row)).1

-- The bound on walks after one use case.
moved-IsEnding :
    (c : Change) (n : ℕ) (t after : Tables)
    → HasUniqueIds t.identities
    → IsEnding n t.identities
    → Moves c t after
    → HasUniqueIds after.identities × IsEnding (is_merge c + n) after.identities
moved-IsEnding (create _ _ _ _ _) n t after u ends q = (
  q.0 u,
  fuel-IsEnding n (0 + n) _ (omega arith)
      (IsEnding-IsQuiet n t.identities after.identities u q ends),
)
moved-IsEnding (activate _ _ _) n t after u ends q = (
  q.0 u,
  fuel-IsEnding n (0 + n) _ (omega arith)
      (IsEnding-IsQuiet n t.identities after.identities u q ends),
)
moved-IsEnding (assign _ _ _ _ _ _ _) n t after u ends q = (
  q.0 u,
  fuel-IsEnding n (0 + n) _ (omega arith)
      (IsEnding-IsQuiet n t.identities after.identities u q ends),
)
moved-IsEnding (touch _ _ _) n t after u ends q = (
  q.0 u,
  fuel-IsEnding n (0 + n) _ (omega arith)
      (IsEnding-IsQuiet n t.identities after.identities u q ends),
)
moved-IsEnding (split _ _ _ _ _ _) n t after u ends q = (
  q.0 u,
  fuel-IsEnding n (0 + n) _ (omega arith)
      (IsEnding-IsQuiet n t.identities after.identities u q ends),
)
moved-IsEnding (merge losing surviving _ _ _ _ _ _) n t after u ends m = (
  m.unique,
  fuel-IsEnding (suc n) (1 + n) _ (omega arith)
      (IsEnding-IsMerge n losing surviving t.identities after.identities m ends),
)

run-IsEnding :
    (cs : List Change) (n : ℕ) (t : Tables)
    → HasUniqueIds t.identities
    → IsEnding n t.identities
    → IsEnding (merges cs + n) (run cs t).identities
unfolding run
run-IsEnding [] n t u ends = fuel-IsEnding n (0 + n) t.identities (omega arith) ends
run-IsEnding (c ∷ cs) n t u ends =
    let (unique, later) =
      committed-keeps
        (λ (x : Tables). HasUniqueIds x.identities × IsEnding (is_merge c + n) x.identities) t
        (step c t) (u, more-IsEnding (is_merge c) n t.identities ends)
        (λ after h. moved-IsEnding c n t after u ends (step-Moves c t after u h).0) in
    fuel-IsEnding (merges cs + (is_merge c + n)) (merges (c ∷ cs) + n) _ (omega arith)
      (run-IsEnding cs (is_merge c + n) (committed t (step c t)) unique later)

-- From tables whose identities have different ids and are none of them MERGED, after any sequence of
-- use cases, committed or rolled back: for any candidates resolve_recognition_candidates comes to an
-- end, following at most as many merges as there were; it answers with ACTIVE identities as they are
-- now, no two with the same id, and where the merges of a candidate lead to an ACTIVE identity it is
-- among them.
pub resolve-run :
    (cs : List Change) (t : Tables) (ids : List Uuid)
    → HasUniqueIds t.identities
    → All (λ i. identity_is IdentityState.merged i ≡ false) t.identities
    → let table = (run cs t).identities in
      (r : List Identity) × (resolve_recognition_candidates (merges cs) table ids ≡ some r)
      × All (IsCurrent table) r
      × HasUniqueIds r
      × All (IsAnswered (merges cs) table r) ids
unfolding resolve_recognition_candidates
resolve-run cs t ids u none_merged =
    let table = (run cs t).identities in
    let ends =
      fuel-IsEnding (merges cs + 0) (merges cs) table (omega arith)
        (run-IsEnding cs 0 t u (none_merged-IsEnding t.identities none_merged)) in
    let (r, e, grown, answered) = resolve_from-answers (merges cs) table ids [] ends (tt, tt) in
    (r, e, grown.0.0, grown.0.1, answered)
