-- ===== src/Database/Keys.antt =====
-- Reading a row by its primary key after an update.
use face_identify.Prelude.{
  ℕ, ◌≡◌, refl, ap, ◌∙◌, ◌≢◌, Bool, true, false, not, ◌++◌, List, [], ◌∷◌, ◌==◌, if◌then◌else◌, All,
  In, arith, inl, inr, Bool-cases, keep, Option, none, some,
}
use face_identify.Database.{update_where, find_where, UniqueKeys}

module _ {A : Type 0} (key : A → ℕ) where
  abbrev pub by_key : ℕ → List A → Option A
  by_key k = find_where (λ y. key y == k)

  -- What an update makes of one row.
  abbrev pub updated : (A → Bool) → (A → A) → Option A → Option A
  updated q f none = none
  updated q f (some y) = some (if q y then f y else y)

  -- Reading by the key after an update that keeps keys is updating what was read.
  pub by_key-update_where :
      (k : ℕ) (q : A → Bool) (f : A → A) (xs : List A)
      → ((y : A) → key (f y) ≡ key y)
      → by_key k (update_where q f xs).0 ≡ updated q f (by_key k xs)
  unfolding find_where update_where
  by_key-update_where k q f [] keeps = refl
  by_key-update_where k q f (x ∷ xs) keeps =
      ground (arith, by_key-update_where k q f xs keeps, keeps x)

  pub by_key-In : (x : A) (xs : List A) → UniqueKeys key xs → In x xs → by_key (key x) xs ≡ some x
  unfolding find_where
  by_key-In x [] u h = elim h [ ]
  by_key-In x (y ∷ ys) u (inl e) = rw e (ground arith)
  by_key-In x (y ∷ ys) u (inr m) = ground (arith, by_key-In x ys u.1, apart ys u.0 m)
    where
      apart : (zs : List A) → All (λ z. key y ≢ key z) zs → In x zs → key y ≢ key x
      apart [] a i = absurd i
      apart (z ∷ zs) a (inl e) = rw e a.0
      apart (z ∷ zs) a (inr i) = apart zs a.1 i

  pub by_key_lem : (k : ℕ) (xs : List A) (y : A) → by_key k xs ≡ some y → (key y ≡ k) × In y xs
  unfolding find_where
  by_key_lem k [] y h = absurd (cc)
  by_key_lem k (x ∷ xs) y h = elim (Bool-cases (key x == k)) [
    | inl e ↦ (ground arith, inl (ground arith))
    | inr e ↦ let r = by_key_lem k xs y (ground arith) in (r.0, inr r.1)
  ]

  -- An update of other keys leaves a row as it was.
  pub by_key-update_other :
      (k : ℕ) (q : A → Bool) (f : A → A) (xs : List A)
      → ((y : A) → key (f y) ≡ key y)
      → ((y : A) → key y ≡ k → q y ≡ false)
      → by_key k (update_where q f xs).0 ≡ by_key k xs
  by_key-update_other k q f xs keeps misses =
      by_key-update_where k q f xs keeps ∙ stays (by_key k xs) refl
    where
      stays : (o : Option A) → by_key k xs ≡ o → updated q f o ≡ o
      stays none e = refl
      stays (some y) e = rw (misses y (by_key_lem k xs y e).0) refl

  -- An update of a row that is there.
  pub by_key-update_self :
      (x : A) (q : A → Bool) (f : A → A) (xs : List A)
      → ((y : A) → key (f y) ≡ key y)
      → UniqueKeys key xs
      → In x xs
      → q x ≡ true
      → by_key (key x) (update_where q f xs).0 ≡ some (f x)
  by_key-update_self x q f xs keeps u there hit =
      by_key-update_where (key x) q f xs keeps ∙ rw (by_key-In x xs u there) (rw hit refl)

  All_ne-update_where :
      (k : ℕ) (q : A → Bool) (f : A → A) (xs : List A)
      → ((y : A) → key (f y) ≡ key y)
      → All (λ z. k ≢ key z) xs
      → All (λ z. k ≢ key z) (update_where q f xs).0
  unfolding update_where
  All_ne-update_where k q f [] keeps h = tt
  All_ne-update_where k q f (x ∷ xs) keeps h =
      ground (arith, All_ne-update_where k q f xs keeps h.1, keeps x)

  pub UniqueKeys-update_where :
      (q : A → Bool) (f : A → A) (xs : List A)
      → ((y : A) → key (f y) ≡ key y)
      → UniqueKeys key xs
      → UniqueKeys key (update_where q f xs).0
  unfolding update_where
  UniqueKeys-update_where q f [] keeps u = tt
  UniqueKeys-update_where q f (x ∷ xs) keeps u =
      let apart = All_ne-update_where (key x) q f xs keeps u.0 in
      let rest = UniqueKeys-update_where q f xs keeps u.1 in
      elim (Bool-cases (q x)) [
        | inl e ↦ rw e (rw (keeps x) apart, rest)
        | inr e ↦ rw e (apart, rest)
      ]

  -- A new row with a key that no row has keeps keys unique.
  pub UniqueKeys-insert :
      (x : A) (xs : List A)
      → UniqueKeys key xs
      → by_key (key x) xs ≡ none
      → UniqueKeys key (xs ++ x ∷ [])
  unfolding find_where
  UniqueKeys-insert x [] u h = (tt, tt)
  UniqueKeys-insert x (y ∷ ys) u h = ground (arith, UniqueKeys-insert x ys u.1, last ys u.0)
    where
      last :
          (zs : List A)
          → All (λ z. key y ≢ key z) zs
          → key y ≢ key x
          → All (λ z. key y ≢ key z) (zs ++ x ∷ [])
      last [] a n = (n, tt)
      last (z ∷ zs) a n = (a.0, last zs a.1 n)

-- The count of an update of rows with one key says whether the row with this key was updated.
module _ {A : Type 0} (key : A → ℕ) where
  abbrev pub matched : (A → Bool) → Option A → Bool
  matched q none = false
  matched q (some x) = q x

  count_missing :
      (k : ℕ) (q : A → Bool) (f : A → A) (xs : List A)
      → ((y : A) → q y ≡ true → key y ≡ k)
      → All (λ y. k ≢ key y) xs
      → (update_where q f xs).1 ≡ 0
  unfolding update_where
  count_missing k q f [] only h = refl
  count_missing k q f (x ∷ xs) only h = ground (arith, count_missing k q f xs only h.1, only x)

  pub count-update_where :
      (k : ℕ) (q : A → Bool) (f : A → A) (xs : List A)
      → UniqueKeys key xs
      → ((y : A) → q y ≡ true → key y ≡ k)
      → not ((update_where q f xs).1 == 0) ≡ matched q (by_key key k xs)
  unfolding update_where find_where
  count-update_where k q f [] u only = refl
  count-update_where k q f (x ∷ xs) u only =
      ground (arith, count-update_where k q f xs u.1 only, only x, others)
    where
      others : key x ≡ k → (update_where q f xs).1 ≡ 0
      others e = count_missing k q f xs only (rw e at u.0)

-- An update keeps a property of rows that its assignments keep.
pub All-update_where {ℓ κ} :
    {A : Type ℓ} (P : A → Type κ) (q : A → Bool) (f : A → A) (xs : List A)
    → ((y : A) → q y ≡ true → P y → P (f y))
    → All P xs
    → All P (update_where q f xs).0
unfolding update_where
All-update_where P q f [] keeps h = tt
All-update_where P q f (x ∷ xs) keeps h = elim (Bool-cases (q x)) [
  | inl e ↦ rw e (keeps x e h.0, All-update_where P q f xs keeps h.1)
  | inr e ↦ rw e (h.0, All-update_where P q f xs keeps h.1)
]

-- Rows kept by a test stand in the table and pass it, and the others fail it.
pub In-keep :
    {A : Type 0} (p : A → Bool) (x : A) (xs : List A) → In x (keep p xs) → In x xs × (p x ≡ true)
In-keep p x [] h = absurd h
In-keep p x (y ∷ ys) h = elim (Bool-cases (p y)) [
  | inl e ↦ kept (In-keep p x ys) e (rw e at h)
  | inr e ↦ let r = In-keep p x ys (rw e at h) in (inr r.0, r.1)
]
  where
    kept :
        (In x (keep p ys) → In x ys × (p x ≡ true))
        → p y ≡ true
        → In x (y ∷ keep p ys)
        → In x (y ∷ ys) × (p x ≡ true)
    kept ih e (inl q) = (inl q, rw q e)
    kept ih e (inr i) = let r = ih i in (inr r.0, r.1)

pub All-keep {κ} :
    {A : Type 0} (P : A → Type κ) (p : A → Bool) (xs : List A)
    → All P (keep p xs)
    → All (λ x. p x ≡ true → P x) xs
All-keep P p [] h = tt
All-keep P p (y ∷ ys) h = elim (Bool-cases (p y)) [
  | inl e ↦ let k = rw e at h in ((λ _. k.0), All-keep P p ys k.1)
  | inr e ↦ ((λ t. absurd (cc)), All-keep P p ys (rw e at h))
]

-- An update establishes what its assignments establish on the rows that match, and what the others
-- have.
pub All-update_where_from {ℓ κ ι} :
    {A : Type ℓ} (R : A → Type ι) (P : A → Type κ) (q : A → Bool) (f : A → A) (xs : List A)
    → ((y : A) → R y → q y ≡ true → P (f y))
    → ((y : A) → R y → q y ≡ false → P y)
    → All R xs
    → All P (update_where q f xs).0
unfolding update_where
All-update_where_from R P q f [] hit miss h = tt
All-update_where_from R P q f (x ∷ xs) hit miss h = elim (Bool-cases (q x)) [
  | inl e ↦ rw e (hit x h.0 e, All-update_where_from R P q f xs hit miss h.1)
  | inr e ↦ rw e (miss x h.0 e, All-update_where_from R P q f xs hit miss h.1)
]

-- An update that matches no row changes nothing, and nothing is kept by its test.
pub update_where-none {ℓ} :
    {A : Type ℓ} (q : A → Bool) (f : A → A) (xs : List A)
    → All (λ x. q x ≡ false) xs
    → ((update_where q f xs).0 ≡ xs) × (keep q xs ≡ [])
unfolding update_where
update_where-none q f [] h = (refl, refl)
update_where-none q f (x ∷ xs) h =
    let (a, b) = update_where-none q f xs h.1 in (rw h.0 (ap (λ ys. x ∷ ys) a), rw h.0 b)

pub All-true {ℓ} : {A : Type ℓ} (xs : List A) → All (λ (x : A). Unit {0}) xs
All-true [] = tt
All-true (x ∷ xs) = (tt, All-true xs)
