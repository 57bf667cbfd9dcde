-- ===== src/Database.antt =====
-- The statements that the repositories build, over a table as the list of its rows, and
-- backend/infrastructure/db/optimistic.py. A row's primary key is its field `id`; identifiers and
-- times are numbers, in the order of the database. One statement is one function of the table, and
-- a transaction is a composition of them.
pub mod Ordering
pub mod Keys
pub mod Locking
pub mod Transactions
mod Examples
use face_identify.Prelude.{
  ℕ, ◌+◌, ◌≡◌, ◌≢◌, All, Bool, true, false, ◌&&◌, Option, none, some, List, [], ◌∷◌, ◌==◌,
  if◌then◌else◌,
}

-- a UUID, in the order of its stored text
abbrev pub Uuid : Type 0
Uuid = ℕ

-- a UTC timestamp
abbrev pub Datetime : Type 0
Datetime = ℕ

-- `UPDATE … WHERE p`: the table and the number of rows that matched.
unfoldable pub update_where {ℓ} : {A : Type ℓ} → (A → Bool) → (A → A) → List A → List A × ℕ
update_where p f [] = ([], 0)
update_where p f (x ∷ xs) =
    let (ys, n) = update_where p f xs in if p x then (f x ∷ ys, n + 1) else (x ∷ ys, n)

-- `SELECT … WHERE p` of at most one row.
unfoldable pub find_where {ℓ} : {A : Type ℓ} → (A → Bool) → List A → Option A
find_where p [] = none
find_where p (x ∷ xs) = let rest = find_where p xs in if p x then some x else rest

-- What a table with the column `revision` gives the shared helper: columns, an assignment, and
-- that the assignment sets that column alone.
pub record Versioned {ℓ} (A : Type ℓ) : Type ℓ where
  pub row_id : A → ℕ
  pub revision : A → ℕ
  pub set_revision : A → ℕ → A
  pub revision-set : (a : A) (n : ℕ) → revision (set_revision a n) ≡ n
  pub row_id-set : (a : A) (n : ℕ) → row_id (set_revision a n) ≡ row_id a

-- `optimistic_locked_update`: `values` assigns the other columns, `extra` is `extra_where`.
unfoldable pub optimistic_locked_update {ℓ} :
    {A : Type ℓ} ⦃v : Versioned A⦄ → ℕ → ℕ → (A → A) → (A → Bool) → List A → List A × ℕ
unfolding update_where
optimistic_locked_update ⦃v⦄ id expected values extra =
    update_where (λ a. (v.row_id a == id && v.revision a == expected) && extra a)
      (λ a. v.set_revision (values a) (v.revision a + 1))

-- A primary key: no two rows have the same.
abbrev pub UniqueKeys {ℓ} : {A : Type ℓ} → (A → ℕ) → List A → Type ℓ
UniqueKeys key [] = Unit
UniqueKeys key (x ∷ xs) = All (λ y. key x ≢ key y) xs × UniqueKeys key xs
