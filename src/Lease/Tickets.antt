-- ===== src/Lease/Tickets.antt =====
-- Lists of tickets in the order of arrival: what joining and leaving a queue keeps.
use face_identify.Prelude.{
  ℕ, ◌+◌, ◌<◌, ◌≡◌, ◌≢◌, refl, true, false, List, [], ◌∷◌, ◌++◌, arith, ◌==◌, All, length,
  Bool-cases, inl, inr,
}
use face_identify.Lease.{remove}
use face_identify.Lease.System.{contains}

-- The tickets increase, and each is below `n`.
abbrev pub Rising : ℕ → List ℕ → Type 0
Rising n [] = Unit
Rising n (x ∷ xs) = (x < n) × All (λ y. x < y) xs × Rising n xs

abbrev pub Apart : List ℕ → List ℕ → Type 0
Apart [] ys = Unit
Apart (x ∷ xs) ys = All (λ y. x ≢ y) ys × Apart xs ys

All_gt-append :
    (x n : ℕ) (xs : List ℕ) → x < n → All (λ y. x < y) xs → All (λ y. x < y) (xs ++ n ∷ [])
All_gt-append x n [] p h = (p, tt)
All_gt-append x n (y ∷ ys) p h = (h.0, All_gt-append x n ys p h.1)

All_ne-append :
    (x n : ℕ) (xs : List ℕ) → x ≢ n → All (λ y. x ≢ y) xs → All (λ y. x ≢ y) (xs ++ n ∷ [])
All_ne-append x n [] p h = (p, tt)
All_ne-append x n (y ∷ ys) p h = (h.0, All_ne-append x n ys p h.1)

pub Rising-join : (n : ℕ) (xs : List ℕ) → Rising n xs → Rising (n + 1) (xs ++ n ∷ [])
Rising-join n [] h = omega arith
Rising-join n (x ∷ xs) h = (omega arith, All_gt-append x n xs h.0 h.1, Rising-join n xs h.2)

pub Rising-later : (n : ℕ) (xs : List ℕ) → Rising n xs → Rising (n + 1) xs
Rising-later n [] h = tt
Rising-later n (x ∷ xs) h = (omega arith, h.1, Rising-later n xs h.2)

pub Apart-join_left : (n : ℕ) (xs ys : List ℕ) → Rising n ys → Apart xs ys → Apart (xs ++ n ∷ []) ys
Apart-join_left n [] ys r h = (fresh ys r, tt)
  where
    fresh : (zs : List ℕ) → Rising n zs → All (λ y. n ≢ y) zs
    fresh [] q = tt
    fresh (z ∷ zs) q = (omega arith, fresh zs q.2)
Apart-join_left n (x ∷ xs) ys r h = (h.0, Apart-join_left n xs ys r h.1)

pub Apart-join_right :
    (n : ℕ) (xs ys : List ℕ) → Rising n xs → Apart xs ys → Apart xs (ys ++ n ∷ [])
Apart-join_right n [] ys r h = tt
Apart-join_right n (x ∷ xs) ys r h =
    (All_ne-append x n ys (omega arith) h.0, Apart-join_right n xs ys r.2 h.1)

All-remove : (P : ℕ → Type 0) (t : ℕ) (xs : List ℕ) → All P xs → All P (remove t xs)
unfolding remove
All-remove P t [] h = tt
All-remove P t (x ∷ xs) h = elim (Bool-cases (x == t)) [
  | inl e ↦ rw e h.1
  | inr e ↦ rw e (h.0, All-remove P t xs h.1)
]

pub Rising-remove : (n t : ℕ) (xs : List ℕ) → Rising n xs → Rising n (remove t xs)
unfolding remove
Rising-remove n t [] h = tt
Rising-remove n t (x ∷ xs) h = elim (Bool-cases (x == t)) [
  | inl e ↦ rw e h.2
  | inr e ↦ rw e (h.0, All-remove _ t xs h.1, Rising-remove n t xs h.2)
]

pub Apart-remove_left : (t : ℕ) (xs ys : List ℕ) → Apart xs ys → Apart (remove t xs) ys
unfolding remove
Apart-remove_left t [] ys h = tt
Apart-remove_left t (x ∷ xs) ys h = elim (Bool-cases (x == t)) [
  | inl e ↦ rw e h.1
  | inr e ↦ rw e (h.0, Apart-remove_left t xs ys h.1)
]

pub Apart-remove_right : (t : ℕ) (xs ys : List ℕ) → Apart xs ys → Apart xs (remove t ys)
Apart-remove_right t [] ys h = tt
Apart-remove_right t (x ∷ xs) ys h = (All-remove _ t ys h.0, Apart-remove_right t xs ys h.1)

pub All-contains : (t : ℕ) (ys : List ℕ) → All (λ y. t ≢ y) ys → contains t ys ≡ false
All-contains t [] h = refl
All-contains t (y ∷ ys) h = ground (arith, All-contains t ys)

-- A ticket of the right list heads the left one of no pair of lists apart.
pub Apart-head : (t : ℕ) (xs ys : List ℕ) → Apart (t ∷ xs) ys → contains t ys ≡ true → ⊥
Apart-head t xs ys h c = cc (All-contains t ys h.0)

pub Apart-head_right : (t : ℕ) (xs ys : List ℕ) → Apart xs (t ∷ ys) → contains t xs ≡ true → ⊥
Apart-head_right t [] ys h c = cc
Apart-head_right t (x ∷ xs) ys h c = ground (arith, Apart-head_right t xs ys h.1)

pub remove_head : (t : ℕ) (xs : List ℕ) → remove t (t ∷ xs) ≡ xs
unfolding remove
remove_head t xs = ground arith

pub length-remove :
    (t : ℕ) (xs : List ℕ) → contains t xs ≡ true → length (remove t xs) + 1 ≡ length xs
unfolding remove
length-remove t [] c = cc
length-remove t (x ∷ xs) c = ground (arith, length-remove t xs)

-- No ticket stands in both of two lists apart.
pub contains-Apart :
    (t : ℕ) (xs ys : List ℕ) → Apart xs ys → contains t xs ≡ true → contains t ys ≡ true → ⊥
contains-Apart t [] ys a c d = cc
contains-Apart t (x ∷ xs) ys a c d = ground (arith, All-contains x ys, contains-Apart t xs ys)
