-- ===== src/Identities/Revalidation.antt =====
-- backend/app/identities/use_cases.py: `resolve_ann_candidates`, which reads the keys that an index
-- returned. The batches of `_KEYS_PER_QUERY` only split its statement; a key has at most one row in a
-- space, the first that is found.
use face_identify.Prelude.{
  ℕ, ◌≡◌, refl, ap, ◌∙◌, sym, ◌≢◌, ◌⊎◌, inl, inr, Bool, true, false, ◌&&◌, ◌||◌, Option, none, some,
  List, [], ◌∷◌, ◌==◌, In, Bool-cases, if◌then◌else◌, arith,
}
use face_identify.Database.{Uuid, find_where}
use face_identify.Memory.{Representation, RepresentationState, RepresentationState-discrete}
use face_identify.Identities.Model.{
  IdentityState, IdentityState-discrete, Identity, Tables, get_identity, identity_is, is_id,
  is_listed,
}
use face_identify.Identities.{representation_is}
use face_identify.Identities.Support.{distinct_after}

pub record RecognitionCandidate : Type 0 where
  pub ann_key : ℕ
  pub representation_id : Uuid
  pub identity_id : Option Uuid

abbrev pub is_active_row : Option Identity → Bool
is_active_row none = false
is_active_row (some i) = identity_is IdentityState.active i

abbrev pub has_active_owner : Option Uuid → List Identity → Bool
has_active_owner none table = true
has_active_owner (some id) table = is_active_row (get_identity id table)

-- The `WHERE` of the statement, for one key.
abbrev pub is_eligible : Uuid → ℕ → List Identity → Representation → Bool
is_eligible space key identities r =
    (r.representation_space_id == space && is_id r.ann_key key)
    && (representation_is RepresentationState.active r && has_active_owner r.identity_id identities)

abbrev pub candidate_of : ℕ → Representation → RecognitionCandidate
candidate_of key r = record { ann_key = key; representation_id = r.id; identity_id = r.identity_id }

abbrev pub add_found :
    ℕ → Option Representation → List RecognitionCandidate → List RecognitionCandidate
add_found key none candidates = candidates
add_found key (some r) candidates = candidate_of key r ∷ candidates

unfoldable pub resolve_keys : Uuid → List ℕ → Tables → List RecognitionCandidate
unfolding find_where get_identity IdentityState-discrete RepresentationState-discrete
resolve_keys space [] t = []
resolve_keys space (key ∷ keys) t =
    add_found key (find_where (is_eligible space key t.identities) t.representations)
      (resolve_keys space keys t)

-- `resolve_ann_candidates`.
unfoldable pub resolve_ann_candidates : Uuid → List ℕ → Tables → List RecognitionCandidate
unfolding resolve_keys
resolve_ann_candidates space keys t = resolve_keys space (distinct_after [] keys) t

abbrev pub is_answered : ℕ → List RecognitionCandidate → Bool
is_answered key [] = false
is_answered key (c ∷ cs) = c.ann_key == key || is_answered key cs

or_later : (a b : Bool) → b ≡ true → a || b ≡ true
or_later true b h = refl
or_later false b h = h

pub listed-distinct :
    (key : ℕ) (seen keys : List ℕ)
    → is_listed key keys ≡ true
    → is_listed key seen ≡ false
    → is_listed key (distinct_after seen keys) ≡ true
listed-distinct key seen [] h n = absurd (cc)
listed-distinct key seen (id ∷ ids) h n = elim (Bool-cases (is_listed id seen)) [
  | inl e ↦ rw e (listed-distinct key seen ids (later (Bool-cases (id == key)) e) n)
  | inr e ↦ rw e (kept (Bool-cases (id == key)) (listed-distinct key (id ∷ seen) ids))
]
  where
    later :
        ((id == key) ≡ true) ⊎ ((id == key) ≡ false)
        → is_listed id seen ≡ true
        → is_listed key ids ≡ true
    later (inl s) e =
        let same_key : id ≡ key = ground arith in
        absurd (apart (sym e ∙ ap (λ k. is_listed k seen) same_key ∙ n))
      where
        apart : true ≢ false
        apart q = absurd (cc)
    later (inr d) e = ap (λ b. b || is_listed key ids) (sym d) ∙ h

    kept :
        ((id == key) ≡ true) ⊎ ((id == key) ≡ false)
        → (is_listed key ids ≡ true
            → is_listed key (id ∷ seen) ≡ false
            → is_listed key (distinct_after (id ∷ seen) ids) ≡ true)
        → (id == key || is_listed key (distinct_after (id ∷ seen) ids)) ≡ true
    kept (inl s) rest = ap (λ b. b || is_listed key (distinct_after (id ∷ seen) ids)) s
    kept (inr d) rest = or_later (id == key) _ (
        rest (ap (λ b. b || is_listed key ids) (sym d) ∙ h)
          (ap (λ b. b || is_listed key seen) d ∙ n))

pub find_where-In :
    (p : Representation → Bool) (r : Representation) (rows : List Representation)
    → In r rows
    → p r ≡ true
    → (x : Representation) × (find_where p rows ≡ some x)
unfolding find_where
find_where-In p r [] i h = absurd i
find_where-In p r (x ∷ xs) i h = elim (Bool-cases (p x)) [
  | inl e ↦ (x, rw e refl)
  | inr e ↦
      let (y, f) = find_where-In p r xs (rest i e) h in
      (y, ap (λ b. if b then some x else find_where p xs) e ∙ f)
]
  where
    rest : In r (x ∷ xs) → p x ≡ false → In r xs
    rest (inl s) e = absurd (apart (sym h ∙ ap p s ∙ e))
      where
        apart : true ≢ false
        apart q = absurd (cc)
    rest (inr j) e = j

pub keys-answered :
    (space : Uuid) (keys : List ℕ) (t : Tables) (key : ℕ) (x : Representation)
    → is_listed key keys ≡ true
    → find_where (is_eligible space key t.identities) t.representations ≡ some x
    → is_answered key (resolve_keys space keys t) ≡ true
unfolding resolve_keys
keys-answered space [] t key x h f = absurd (cc)
keys-answered space (k ∷ ks) t key x h f =
    first (Bool-cases (k == key)) (find_where (is_eligible space k t.identities) t.representations)
      refl (keys-answered space ks t key x)
  where
    others : List RecognitionCandidate
    others = resolve_keys space ks t

    first :
        ((k == key) ≡ true) ⊎ ((k == key) ≡ false)
        → (o : Option Representation)
        → find_where (is_eligible space k t.identities) t.representations ≡ o
        → (is_listed key ks ≡ true
            → find_where (is_eligible space key t.identities) t.representations ≡ some x
            → is_answered key others ≡ true)
        → is_answered key (add_found k o others) ≡ true
    first (inl s) (some y) e rest = ap (λ b. b || is_answered key others) s
    first (inl s) none e rest =
        let same_key : k ≡ key = ground arith in
        absurd (
          nothing (
            sym e
            ∙ ap (λ j. find_where (is_eligible space j t.identities) t.representations) same_key
            ∙ f))
      where
        nothing : none ≢ some x
        nothing q = absurd (cc)
    first (inr d) o e rest = grown o (rest (ap (λ b. b || is_listed key ks) (sym d) ∙ h) f)
      where
        grown :
            (o : Option Representation)
            → is_answered key others ≡ true
            → is_answered key (add_found k o others) ≡ true
        grown none h = h
        grown (some y) h = or_later (k == key) _ h
