-- ===== src/Pagination.antt =====
-- backend/api/pagination.py: `paginate` and the keyset position of a newest-first query. The text of
-- a cursor (JSON in base64) is a parameter.
mod Examples
use mathlib.Core.Option.{some-injective}
use mathlib.Core.Path.{subst}
use face_identify.Prelude.{
  ℕ, zero, suc, ◌+◌, ◌≤◌, ◌≡◌, refl, sym, ap, ◌∙◌, ◌<◌, ◌≢◌, ◌⊎◌, inl, inr, Bool-cases, Bool, true,
  false, ◌&&◌, ◌||◌, Option, none, some, List, [], ◌∷◌, ◌++◌, ltb, ◌==◌, if◌then◌else◌, length,
  keep, map, All, arith,
}
use face_identify.Database.{Uuid, Datetime}
use face_identify.IndexQueue.{take}

pub record Page (T C : Type 0) : Type 0 where
  pub items : List T
  pub next_cursor : Option C
  pub has_more : Bool

-- `kept[-1]`, `none` where the list is empty.
abbrev pub last_of : {R : Type 0} → List R → Option R
last_of [] = none
last_of (x ∷ []) = some x
last_of (x ∷ y ∷ ys) = last_of (y ∷ ys)

abbrev pub cursor_of : {R C : Type 0} → (R → C) → Bool → Option R → Option C
cursor_of cursor false o = none
cursor_of cursor true none = none
cursor_of cursor true (some r) = some (cursor r)

-- `paginate`, `none` for its `ValueError`; `cursor` is `encode_cursor` of the row's key.
unfoldable pub paginate : {R T C : Type 0} → (R → C) → (R → T) → ℕ → List R → Option (Page T C)
paginate cursor item limit rows =
    if ltb limit 1
    then none
    else some (record {
      items = map item (take limit rows);
      next_cursor = cursor_of cursor (ltb limit (length rows)) (last_of (take limit rows));
      has_more = ltb limit (length rows);
    })

-- `older_than`: the row of `created_at` and `row_id` is strictly after the position.
unfoldable pub older_than : Datetime → Uuid → Datetime × Uuid → Bool
older_than created_at row_id after =
    ltb created_at after.0 || created_at == after.0 && ltb row_id after.1

take-take :
    {R : Type 0} (limit : ℕ) (rows : List R) → take limit (take (suc limit) rows) ≡ take limit rows
take-take zero rows = refl
take-take (suc n) [] = refl
take-take (suc n) (x ∷ xs) = ap (λ ys. x ∷ ys) (take-take n xs)

length-take :
    {R : Type 0} (limit : ℕ) (rows : List R)
    → ltb limit (length (take (suc limit) rows)) ≡ ltb limit (length rows)
length-take zero [] = refl
length-take zero (x ∷ xs) = ground arith
length-take (suc n) [] = refl
length-take (suc n) (x ∷ xs) = ground (arith, length-take n xs)

-- The first limit + 1 rows of a query give the same page as all of them.
paginate-take :
    {R T C : Type 0} (cursor : R → C) (item : R → T) (limit : ℕ) (rows : List R)
    → paginate cursor item limit (take (limit + 1) rows) ≡ paginate cursor item limit rows
unfolding paginate
paginate-take cursor item limit rows =
    let s : limit + 1 ≡ suc limit = omega arith in
    rw (s, take-take limit rows, length-take limit rows) refl

-- What a page of at most `limit` rows must be: the first ones, `kept`, and `rest` left out. It has
-- more exactly when some are left out; then it is full, and its cursor is that of its last row.
abbrev pub IsPageOf : {R T C : Type 0} → (R → C) → (R → T) → ℕ → List R → Page T C → Type 0
IsPageOf {R} cursor item limit rows page =
    (kept : List R) × (rest : List R) × (rows ≡ kept ++ rest)
    × (page.items ≡ map item kept)
    × (((rest ≡ []) × (page.has_more ≡ false) × (page.next_cursor ≡ none) × (length kept ≤ limit))
        ⊎ ((rest ≢ [])
            × (page.has_more ≡ true)
            × (length kept ≡ limit)
            × ((init : List R) × (r : R) × (kept ≡ init ++ r ∷ [])
                × (page.next_cursor ≡ some (cursor r)))))

-- How `take` and the test of the length cut the rows.
abbrev Cut : {R : Type 0} → ℕ → List R → Type 0
Cut {R} limit rows =
    (rest : List R) × (rows ≡ take limit rows ++ rest)
    × (((rest ≡ []) × (ltb limit (length rows) ≡ false) × (length (take limit rows) ≤ limit))
        ⊎ ((rest ≢ []) × (ltb limit (length rows) ≡ true) × (length (take limit rows) ≡ limit)))

cons_nil : {R : Type 0} (x : R) (xs : List R) → x ∷ xs ≢ []
cons_nil x xs e = absurd (cc)

cut : {R : Type 0} (limit : ℕ) (rows : List R) → Cut limit rows
cut zero [] = ([], refl, inl (refl, refl, omega arith))
cut zero (x ∷ xs) = (x ∷ xs, refl, inr (cons_nil x xs, (ground arith), refl))
cut (suc n) [] = ([], refl, inl (refl, (ground arith), omega arith))
cut (suc n) (x ∷ xs) =
    let (rest, e, w) = cut n xs in
    (
      rest,
      ap (λ ys. x ∷ ys) e,
      elim w [
        | inl (a, b, c) ↦ inl (a, (ground (arith, b)), omega (arith, c))
        | inr (a, b, c) ↦ inr (a, (ground (arith, b)), omega (arith, c))
      ],
    )

last_row :
    {R C : Type 0} (cursor : R → C) (ys : List R)
    → 1 ≤ length ys
    → (init : List R) × (r : R) × (ys ≡ init ++ r ∷ [])
      × (cursor_of cursor true (last_of ys) ≡ some (cursor r))
last_row cursor [] h = absurd (omega (arith, h))
last_row cursor (x ∷ []) h = ([], x, refl, refl)
last_row cursor (x ∷ y ∷ ys) h =
    let (init, r, e, c) = last_row cursor (y ∷ ys) (omega arith) in
    (x ∷ init, r, ap (λ zs. x ∷ zs) e, c)

page-IsPageOf :
    {R T C : Type 0} (cursor : R → C) (item : R → T) (limit : ℕ) (rows : List R) (page : Page T C)
    → paginate cursor item limit rows ≡ some page
    → IsPageOf cursor item limit rows page
unfolding paginate
page-IsPageOf {R} cursor item limit rows page h = elim (Bool-cases (ltb limit 1)) [
  | inl small ↦ absurd (none_page (rw small at h))
  | inr positive ↦
      let (rest, e, w) = cut limit rows in
      let page_is = some-injective _ page (rw positive at h) in
      subst (IsPageOf cursor item limit rows) page_is (
        take limit rows,
        rest,
        e,
        refl,
        elim w [
          | inl (a, b, c) ↦
              inl (a, b, ap (λ m. cursor_of cursor m (last_of (take limit rows))) b, c)
          | inr (a, b, c) ↦ inr (
            a,
            b,
            c,
            let (init, r, f, d) = last_row cursor (take limit rows) (ground (arith, c, positive)) in
                (init, r, f, ap (λ m. cursor_of cursor m (last_of (take limit rows))) b ∙ d),
          )
        ],
      )
]
  where
    none_page : none ≡ some page → ⊥
    none_page e = absurd (cc)

-- From the first limit + 1 rows of a query, which is what its callers read, paginate makes the page
-- of all rows of the query: its items are those of the first rows, at most limit; has_more is true
-- exactly when there are rows after them, and then the page has limit rows and the cursor is that
-- of the last of them; otherwise there is no cursor.
pub paginate-IsPageOf :
    {R T C : Type 0} (cursor : R → C) (item : R → T) (limit : ℕ) (rows : List R) (page : Page T C)
    → paginate cursor item limit (take (limit + 1) rows) ≡ some page
    → IsPageOf cursor item limit rows page
paginate-IsPageOf cursor item limit rows page h =
    page-IsPageOf cursor item limit rows page (sym (paginate-take cursor item limit rows) ∙ h)

-- `ORDER BY created_at DESC, id DESC`: the row comes before the other one.
abbrev pub Precedes : Datetime × Uuid → Datetime × Uuid → Type 0
Precedes x y = (y.0 < x.0) ⊎ ((y.0 ≡ x.0) × (y.1 < x.1))

abbrev pub IsNewestFirst : List (Datetime × Uuid) → Type 0
IsNewestFirst [] = Unit
IsNewestFirst (x ∷ xs) = All (Precedes x) xs × IsNewestFirst xs

older : (x y : Datetime × Uuid) → Precedes x y → older_than y.0 y.1 x ≡ true
unfolding older_than
older x y h = ground arith

keep-all :
    (x : Datetime × Uuid) (ys : List (Datetime × Uuid))
    → All (Precedes x) ys
    → keep (λ y. older_than y.0 y.1 x) ys ≡ ys
keep-all x [] h = refl
keep-all x (y ∷ ys) h = rw (older x y h.0, keep-all x ys h.1) refl

not_older : (x y : Datetime × Uuid) → Precedes x y → older_than x.0 x.1 y ≡ false
unfolding older_than
not_older x y h = ground arith

not_self : (x : Datetime × Uuid) → older_than x.0 x.1 x ≡ false
unfolding older_than
not_self x = ground arith

All-of_middle :
    (P : Datetime × Uuid → Type 0) (xs : List (Datetime × Uuid)) (x : Datetime × Uuid)
    (ys : List (Datetime × Uuid))
    → All P (xs ++ x ∷ ys)
    → P x
All-of_middle P [] x ys h = h.0
All-of_middle P (z ∷ zs) x ys h = All-of_middle P zs x ys h.1

-- A query goes on where the page ended: of rows ordered by created_at and then id, both descending
-- and no two rows with both the same, the rows that older_than keeps for the position of one of them
-- are exactly those that come after it.
pub keep-older_than :
    (xs : List (Datetime × Uuid)) (x : Datetime × Uuid) (ys : List (Datetime × Uuid))
    → IsNewestFirst (xs ++ x ∷ ys)
    → keep (λ y. older_than y.0 y.1 x) (xs ++ x ∷ ys) ≡ ys
keep-older_than [] x ys h = rw (not_self x, keep-all x ys h.0) refl
keep-older_than (z ∷ zs) x ys h =
    let e = not_older z x (All-of_middle (Precedes z) zs x ys h.0) in
    rw (e, keep-older_than zs x ys h.1) refl
