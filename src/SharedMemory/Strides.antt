-- ===== src/SharedMemory/Strides.antt =====
-- The addresses that the strides of `contiguous_strides` give.
use mathlib.Core.List.{reverse, reverse-cons, reverse-append, append_assoc}
use native.Mathlib.Nat.{mul-le-mul_right, mul_assoc, mul_comm}
use face_identify.Prelude.{
  ℕ, ◌+◌, ◌*◌, ◌≤◌, ◌<◌, ◌≡◌, ◌≢◌, ◌⊎◌, inl, inr, refl, sym, ap, ◌∙◌, List, [], ◌∷◌, ◌++◌, arith,
  leb, Bool-cases,
}
use face_identify.SharedMemory.{prod, stride_loop, contiguous_strides}

-- The strides from left to right: a step over everything that the later dimensions span.
unfoldable pub strides_of : List ℕ → ℕ → List ℕ
strides_of [] item = []
strides_of (d ∷ ds) item = prod ds * item ∷ strides_of ds item

prod-append : (xs ys : List ℕ) → prod (xs ++ ys) ≡ prod xs * prod ys
unfolding prod
prod-append [] ys = omega arith
prod-append (x ∷ xs) ys =
    ap (λ (t : ℕ). x * t) (prod-append xs ys) ∙ sym (mul_assoc x (prod xs) (prod ys))

prod-reverse : (xs : List ℕ) → prod (reverse xs) ≡ prod xs
unfolding prod
prod-reverse [] = refl
prod-reverse (x ∷ xs) =
    let e = prod-append (reverse xs) (x ∷ []) in
    let h = prod-reverse xs in rw (reverse-cons x xs) (e ∙ (rw h (omega arith)))

stride_loop-prefix :
    (dims acc : List ℕ) (step : ℕ) → stride_loop dims acc step ≡ acc ++ stride_loop dims [] step
unfolding stride_loop
stride_loop-prefix [] acc step = simp mathlib.Core.List.append-nil
stride_loop-prefix (d ∷ ds) acc step =
    stride_loop-prefix ds (acc ++ step ∷ []) (step * d)
    ∙ append_assoc acc (step ∷ []) (stride_loop ds [] (step * d))
    ∙ ap (λ ys. acc ++ ys) (sym (stride_loop-prefix ds (step ∷ []) (step * d)))

stride_loop-snoc :
    (dims : List ℕ) (d step : ℕ)
    → stride_loop (dims ++ d ∷ []) [] step ≡ stride_loop dims [] step ++ (step * prod dims) ∷ []
unfolding stride_loop prod
stride_loop-snoc [] d step = let e : step ≡ step * 1 = omega arith in ap (λ (n : ℕ). n ∷ []) e
stride_loop-snoc (e ∷ es) d step =
    stride_loop-prefix (es ++ d ∷ []) (step ∷ []) (step * e)
    ∙ ap (λ ys. step ∷ ys) (stride_loop-snoc es d (step * e))
    ∙ rw (mul_assoc step e (prod es)) (
        sym (
          ap (λ ys. ys ++ step * (e * prod es) ∷ [])
            (stride_loop-prefix es (step ∷ []) (step * e))))

-- The loop from the right computes the strides from left to right.
pub contiguous_strides-eq :
    (shape : List ℕ) (item : ℕ) → contiguous_strides shape item ≡ strides_of shape item
unfolding contiguous_strides strides_of
contiguous_strides-eq [] item = stride_loop-nil item
  where
    stride_loop-nil : (item : ℕ) → reverse (stride_loop [] [] item) ≡ []
    stride_loop-nil item = unfold stride_loop in refl
contiguous_strides-eq (d ∷ ds) item =
    let h = contiguous_strides-eq ds item in
    rw
      (
        reverse-cons d ds,
        stride_loop-snoc (reverse ds) d item,
        prod-reverse ds,
        reverse-append (stride_loop (reverse ds) [] item) (item * prod ds ∷ []),
      )
      (rw (mul_comm item (prod ds)) (ap (λ ys. prod ds * item ∷ ys) h))

-- An index within a shape.
abbrev pub IsIndex : List ℕ → List ℕ → Type 0
IsIndex [] [] = Unit
IsIndex [] (d ∷ ds) = ⊥
IsIndex (i ∷ is) [] = ⊥
IsIndex (i ∷ is) (d ∷ ds) = (i < d) × IsIndex is ds

-- Where an element lies, in bytes from the start.
abbrev pub offset : List ℕ → List ℕ → ℕ
offset [] ss = 0
offset (i ∷ is) [] = 0
offset (i ∷ is) (s ∷ ss) = i * s + offset is ss

pub offset-le :
    (is shape : List ℕ) (item : ℕ)
    → IsIndex is shape
    → offset is (strides_of shape item) + item ≤ prod shape * item
unfolding strides_of prod
offset-le [] [] item h = omega arith
offset-le [] (d ∷ ds) item h = absurd h
offset-le (i ∷ is) [] item h = absurd h
offset-le (i ∷ is) (d ∷ ds) item (l, r) =
    let tail = offset-le is ds item r in
    let l' : i + 1 ≤ d = omega arith in
    let whole = mul-le-mul_right (prod ds * item) l' in omega (arith, tail, whole)

-- Elements at two different places do not overlap.
abbrev pub AreApart : ℕ → ℕ → ℕ → Type 0
AreApart item a b = (a + item ≤ b) ⊎ (b + item ≤ a)

rows_apart :
    (i j whole r s item : ℕ) → i < j → r + item ≤ whole → i * whole + r + item ≤ j * whole + s
rows_apart i j whole r s item l h =
    let l' : i + 1 ≤ j = omega arith in let k = mul-le-mul_right whole l' in omega (arith, h, k)

pub offset-AreApart :
    (is js shape : List ℕ) (item : ℕ)
    → IsIndex is shape
    → IsIndex js shape
    → is ≢ js
    → AreApart item (offset is (strides_of shape item)) (offset js (strides_of shape item))
unfolding strides_of
offset-AreApart [] [] shape item h k n = absurd (n refl)
offset-AreApart [] (j ∷ js) [] item h k n = absurd k
offset-AreApart [] (j ∷ js) (d ∷ ds) item h k n = absurd h
offset-AreApart (i ∷ is) [] [] item h k n = absurd h
offset-AreApart (i ∷ is) [] (d ∷ ds) item h k n = absurd k
offset-AreApart (i ∷ is) (j ∷ js) [] item h k n = absurd h
offset-AreApart (i ∷ is) (j ∷ js) (d ∷ ds) item (hi, h) (kj, k) n = elim (Bool-cases (leb i j)) [
  | inl p ↦ elim (Bool-cases (leb j i)) [
    | inl q ↦
        let e : i ≡ j = ground arith in
        let r = offset-AreApart is js ds item h k (λ t. n (cc)) in ground arith
    | inr q ↦
        let l : i < j = ground arith in
        let t = offset-le is ds item h in inl (rows_apart i j (prod ds * item) _ _ item l t)
  ]
  | inr p ↦
      let l : j < i = ground arith in
      let t = offset-le js ds item k in inr (rows_apart j i (prod ds * item) _ _ item l t)
]
