-- ===== src/Memory/Keys.antt =====
-- The index keys that allocate_ann_key of backend/app/memory/repository.py hands out.
use mathlib.Core.Path.{subst}
use face_identify.Prelude.{
  ℕ, ◌+◌, ◌≤◌, ◌<◌, ◌≡◌, ◌≢◌, refl, sym, ap, ◌∙◌, inl, inr, Option, none, some, List, [], ◌∷◌, ◌==◌,
  if◌then◌else◌, All, All-map, arith, Bool-cases,
}
use face_identify.Database.{Uuid, find_where}
use face_identify.Database.Keys.{by_key, updated, by_key-update_where}
use face_identify.Memory.{
  AnnKeySequence, sequence_or_new, ensure_sequence, key_of_sequence, allocate_ann_key,
}

abbrev space_of : AnnKeySequence → ℕ
space_of s = s.representation_space_id

abbrev pub key_or_first : Option AnnKeySequence → ℕ
key_or_first none = 1
key_or_first (some s) = s.next_ann_key

-- The key that a space gives next; a space without a sequence begins with 1.
unfoldable pub next_key : Uuid → List AnnKeySequence → ℕ
next_key space table = key_or_first (by_key space_of space table)

sequence_or_new-lem :
    (s space : Uuid) (table : List AnnKeySequence) (o : Option AnnKeySequence)
    → by_key space_of space table ≡ o
    → (key_or_first (by_key space_of s (sequence_or_new space table o))
        ≡ key_or_first (by_key space_of s table))
      × (by_key space_of space (sequence_or_new space table o) ≢ none)
unfolding find_where
sequence_or_new-lem s space table none e = (ground arith, ground arith)
sequence_or_new-lem s space table (some x) e = (refl, λ n. cc)

ensure_sequence-lem :
    (s space : Uuid) (table : List AnnKeySequence)
    → (next_key s (ensure_sequence space table) ≡ next_key s table)
      × (by_key space_of space (ensure_sequence space table) ≢ none)
unfolding ensure_sequence next_key
ensure_sequence-lem s space table =
    sequence_or_new-lem s space table (by_key space_of space table) refl

key_of_sequence-there : (o : Option AnnKeySequence) → o ≢ none → key_of_sequence o ≡ key_or_first o
key_of_sequence-there none n = absurd (n refl)
key_of_sequence-there (some s) n = refl

abbrev bump : AnnKeySequence → AnnKeySequence
bump s = record s { next_ann_key = s.next_ann_key + 1 }

updated-next :
    (s space : Uuid) (table : List AnnKeySequence) (o : Option AnnKeySequence)
    → by_key space_of s table ≡ o
    → (space ≡ s → o ≢ none)
    → key_or_first (updated space_of (λ x. space_of x == space) bump o)
      ≡ (if s == space then key_or_first o + 1 else key_or_first o)
unfolding find_where
updated-next s space [] none e n = ground arith
updated-next s space [] (some x) e n = absurd (cc)
updated-next s space (y ∷ ys) none e n = ground arith
updated-next s space (y ∷ ys) (some x) e n = elim (Bool-cases (space_of y == s)) [
  | inl q ↦ ground arith
  | inr q ↦ updated-next s space ys (some x) (rw q at e) n
]

-- An allocation gives the next key of its space, and moves on this space alone.
pub allocate_ann_key-next :
    (s space : Uuid) (table : List AnnKeySequence)
    → ((allocate_ann_key space table).1 ≡ next_key space table)
      × (next_key s (allocate_ann_key space table).0
          ≡ (if s == space then next_key s table + 1 else next_key s table))
unfolding allocate_ann_key next_key
allocate_ann_key-next s space table =
    let there = ensure_sequence-lem space space table in
    let other = ensure_sequence-lem s space table in
    let now = ensure_sequence space table in
    (
      key_of_sequence-there (by_key space_of space now) there.1 ∙ there.0,
      (ap key_or_first
            (by_key-update_where space_of s (λ x. space_of x == space) bump now (λ y. refl))
          ∙ updated-next s space now (by_key space_of s now) refl
              (λ e n. there.1 (subst (λ k. by_key space_of k now ≡ none) (sym e) n))
          ∙ ap (λ (n : ℕ). if s == space then n + 1 else n) other.0),
    )

-- Allocations one after the other, of the spaces in turn.
unfoldable pub allocate_all :
    List Uuid → List AnnKeySequence → List AnnKeySequence × List (Uuid × ℕ)
allocate_all [] table = (table, [])
allocate_all (space ∷ spaces) table =
    let (after, key) = allocate_ann_key space table in
    let (last, keys) = allocate_all spaces after in (last, (space, key) ∷ keys)

-- In each space a later key is greater than an earlier one.
abbrev pub IsIncreasing : List (Uuid × ℕ) → Type 0
IsIncreasing [] = Unit
IsIncreasing (p ∷ ps) = All (λ q. p.0 ≡ q.0 → p.1 < q.1) ps × IsIncreasing ps

abbrev IsNext : List AnnKeySequence → Uuid × ℕ → Type 0
IsNext table p = next_key p.0 table ≤ p.1

next_key-le-after :
    (s space : Uuid) (table : List AnnKeySequence)
    → next_key s table ≤ next_key s (allocate_ann_key space table).0
next_key-le-after s space table = let e = (allocate_ann_key-next s space table).1 in ground arith

allocate_all-IsNext :
    (spaces : List Uuid) (table : List AnnKeySequence)
    → All (IsNext table) (allocate_all spaces table).1
unfolding allocate_all
allocate_all-IsNext [] table = tt
allocate_all-IsNext (space ∷ spaces) table =
    let e = (allocate_ann_key-next space space table).0 in
    let after = (allocate_ann_key space table).0 in
    (
      omega (arith, e),
      All-map (IsNext after) (IsNext table) (allocate_all spaces after).1
          (λ p h. let l = next_key-le-after p.0 space table in omega (arith, l, h))
          (allocate_all-IsNext spaces after),
    )

-- Whatever spaces keys are allocated in, no key is handed out twice in a space: in each, a later key
-- is greater than every earlier one.
pub allocate_all-IsIncreasing :
    (spaces : List Uuid) (table : List AnnKeySequence) → IsIncreasing (allocate_all spaces table).1
unfolding allocate_all
allocate_all-IsIncreasing [] table = tt
allocate_all-IsIncreasing (space ∷ spaces) table =
    let (e, n) = allocate_ann_key-next space space table in
    let after = (allocate_ann_key space table).0 in
    (
      All-map (IsNext after) (λ q. space ≡ q.0 → (allocate_ann_key space table).1 < q.1)
          (allocate_all spaces after).1
          (λ q h s.
            let l : next_key space after ≤ q.1 = subst (λ k. next_key k after ≤ q.1) (sym s) h in
            ground arith)
          (allocate_all-IsNext spaces after),
      allocate_all-IsIncreasing spaces after,
    )
