-- ===== src/Pagination/Examples.antt =====
-- The theorems on pages at concrete rows.
use face_identify.Prelude.{ℕ, ◌<◌, List, ◌≡◌, refl, [], ◌∷◌, keep, ◌+◌, some, true, inl, inr, arith}
use face_identify.IndexQueue.{take}
use face_identify.Pagination.{
  Page, paginate, IsPageOf, paginate-IsPageOf, older_than, Precedes, keep-older_than,
}

abbrev rows : List ℕ
rows = 5 ∷ 6 ∷ 7 ∷ 8 ∷ []

abbrev first_page : Page ℕ ℕ
first_page = record { items = 5 ∷ 6 ∷ []; next_cursor = some 106; has_more = true }

pages : paginate (λ r. r + 100) (λ r. r) 2 (take (2 + 1) rows) ≡ some first_page
unfolding paginate
pages = refl

paginate-IsPageOf_example : IsPageOf (λ r. r + 100) (λ r. r) 2 rows first_page
paginate-IsPageOf_example = paginate-IsPageOf (λ r. r + 100) (λ r. r) 2 rows first_page pages

abbrev newest : List (ℕ × ℕ)
newest = (30, 9) ∷ (30, 4) ∷ (30, 2) ∷ (10, 7) ∷ []

keep-older_than_example : keep (λ y. older_than y.0 y.1 (30, 4)) newest ≡ (30, 2) ∷ (10, 7) ∷ []
keep-older_than_example =
    keep-older_than ((30, 9) ∷ []) (30, 4) ((30, 2) ∷ (10, 7) ∷ [])
      (
        (same_time (omega arith), (same_time (omega arith), (inl (omega arith), tt))),
        ((same_time (omega arith), (inl (omega arith), tt)), ((inl (omega arith), tt), (tt, tt))),
      )
  where
    same_time : {a b : ℕ} → b < a → Precedes (30, a) (30, b)
    same_time h = inr (refl, h)
