-- ===== src/Database/Ordering.antt =====
-- `ORDER BY`: a stable insertion sort by a test `before`, and its first row, `LIMIT 1`.
use mathlib.Core.List.{Perm}
use mathlib.Core.List.Perm
use mathlib.Core.Path.{subst}
use mathlib.Core.Option.{some-injective}
use face_identify.Prelude.{
  ◌≡◌, refl, sym, ap, ◌∙◌, ◌⊎◌, inl, inr, Bool, true, false, none, some, List, [], ◌∷◌,
  if◌then◌else◌, In, All, head?, arith, Bool-cases,
}

module _ {A : Type 0} (before : A → A → Bool) where
  unfoldable pub insert : A → List A → List A
  insert x [] = x ∷ []
  insert x (y ∷ ys) = let rest = insert x ys in if before y x then y ∷ rest else x ∷ y ∷ ys

  unfoldable pub order_by : List A → List A
  unfolding insert
  order_by [] = []
  order_by (x ∷ xs) = insert x (order_by xs)

  -- No later row is strictly before an earlier one.
  abbrev pub IsSorted : List A → Type 0
  IsSorted [] = Unit
  IsSorted (x ∷ xs) = All (λ y. before y x ≡ false) xs × IsSorted xs

  pub insert-perm : (x : A) (xs : List A) → Perm (insert x xs) (x ∷ xs)
  unfolding insert
  insert-perm x [] = Perm.refl _
  insert-perm x (y ∷ ys) = elim (Bool-cases (before y x)) [
    | inl e ↦ rw e (Perm.trans (Perm.cons y (insert-perm x ys)) (Perm.swap x y ys))
    | inr e ↦ rw e (Perm.refl _)
  ]

  pub order_by-perm : (xs : List A) → Perm (order_by xs) xs
  unfolding order_by
  order_by-perm [] = Perm.refl _
  order_by-perm (x ∷ xs) = Perm.trans (insert-perm x (order_by xs)) (Perm.cons x (order_by-perm xs))

  In-insert : (z x : A) (xs : List A) → In z (insert x xs) → (z ≡ x) ⊎ In z xs
  unfolding insert
  In-insert z x [] h = h
  In-insert z x (y ∷ ys) h = ground (arith, In-insert z x ys)

  pub In-order_by : (z : A) (xs : List A) → In z (order_by xs) → In z xs
  unfolding order_by
  In-order_by z [] h = h
  In-order_by z (x ∷ xs) h = elim (In-insert z x (order_by xs) h) [
    | inl e ↦ inl e
    | inr r ↦ inr (In-order_by z xs r)
  ]

  pub All-insert : (P : A → Type 0) (x : A) (xs : List A) → P x → All P xs → All P (insert x xs)
  unfolding insert
  All-insert P x [] p h = (p, tt)
  All-insert P x (y ∷ ys) p h = elim (Bool-cases (before y x)) [
    | inl e ↦ rw e (h.0, All-insert P x ys p h.1)
    | inr e ↦ rw e (p, h)
  ]

  All-order_by : (P : A → Type 0) (xs : List A) → All P xs → All P (order_by xs)
  unfolding order_by
  All-order_by P [] h = tt
  All-order_by P (x ∷ xs) h = All-insert P x (order_by xs) h.0 (All-order_by P xs h.1)

  All-of_insert : (P : A → Type 0) (x : A) (xs : List A) → All P (insert x xs) → P x × All P xs
  unfolding insert
  All-of_insert P x [] h = h
  All-of_insert P x (y ∷ ys) h = elim (Bool-cases (before y x)) [
    | inl e ↦ let k = (rw e at h) in let r = All-of_insert P x ys k.1 in (r.0, (k.0, r.1))
    | inr e ↦ rw e at h
  ]

  pub All-of_order_by : (P : A → Type 0) (xs : List A) → All P (order_by xs) → All P xs
  unfolding order_by
  All-of_order_by P [] h = tt
  All-of_order_by P (x ∷ xs) h =
      let r = All-of_insert P x (order_by xs) h in (r.0, All-of_order_by P xs r.1)

  -- `before` orders the rows, up to ties.
  pub record IsOrder : Type 0 where
    pub asym : (x y : A) → before x y ≡ true → before y x ≡ false
    pub not_trans : (x y z : A) → before x y ≡ false → before y z ≡ false → before x z ≡ false

  All-not_before :
      IsOrder
      → (x y : A) (zs : List A) → before y x ≡ false
      → All (λ z. before z y ≡ false) zs
      → All (λ z. before z x ≡ false) zs
  All-not_before o x y [] p h = tt
  All-not_before o x y (z ∷ zs) p h = (o.not_trans z y x h.0 p, All-not_before o x y zs p h.1)

  insert-IsSorted : IsOrder → (x : A) (xs : List A) → IsSorted xs → IsSorted (insert x xs)
  unfolding insert
  insert-IsSorted o x [] h = (tt, tt)
  insert-IsSorted o x (y ∷ ys) h = elim (Bool-cases (before y x)) [
    | inl e ↦ rw e (All-insert _ x ys (o.asym y x e) h.0, insert-IsSorted o x ys h.1)
    | inr e ↦ rw e ((e, All-not_before o x y ys e h.0), h)
  ]

  pub order_by-IsSorted : IsOrder → (xs : List A) → IsSorted (order_by xs)
  unfolding order_by
  order_by-IsSorted o [] = tt
  order_by-IsSorted o (x ∷ xs) = insert-IsSorted o x (order_by xs) (order_by-IsSorted o xs)

  irreflexive : IsOrder → (x : A) → before x x ≡ false
  irreflexive o x = elim (Bool-cases (before x x)) [ inl e ↦ o.asym x x e | inr e ↦ e ]

  first_row :
      IsOrder
      → (xs ys : List A) (y : A) → order_by xs ≡ y ∷ ys
      → In y xs × All (λ z. before z y ≡ false) xs
  first_row o xs ys y e =
      let sorted = subst IsSorted e (order_by-IsSorted o xs) in
      let first : All (λ z. before z y ≡ false) (y ∷ ys) = (irreflexive o y, sorted.0) in
      (
        In-order_by y xs (subst (In y) (sym e) (inl refl)),
        All-of_order_by (λ z. before z y ≡ false) xs
            (subst (All (λ z. before z y ≡ false)) (sym e) first),
      )

  -- `ORDER BY … LIMIT 1` takes a row of the table that no row is before.
  pub head-order_by :
      IsOrder
      → (xs : List A) (x : A) → head? (order_by xs) ≡ some x
      → In x xs × All (λ y. before y x ≡ false) xs
  head-order_by o xs x e = go (order_by xs) refl e
    where
      go :
          (ys : List A)
          → order_by xs ≡ ys
          → head? ys ≡ some x
          → In x xs × All (λ y. before y x ≡ false) xs
      go [] q h = absurd (cc)
      go (y ∷ ys) q h = first_row o xs ys x (q ∙ ap (λ (z : A). z ∷ ys) (some-injective y x h))

  -- and none only from an empty table
  pub head-order_by-none : (xs : List A) → head? (order_by xs) ≡ none → xs ≡ []
  unfolding order_by insert
  head-order_by-none [] e = refl
  head-order_by-none (x ∷ xs) e = go (order_by xs) e
    where
      go : (ys : List A) → head? (insert x ys) ≡ none → x ∷ xs ≡ []
      go [] h = absurd (cc)
      go (y ∷ ys) h = absurd (ground arith)
