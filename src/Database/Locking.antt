-- ===== src/Database/Locking.antt =====
-- Optimistic locking: of two updates that expect the same revision at most one is made.
use face_identify.Prelude.{
  ℕ, ◌+◌, ◌≡◌, refl, ◌≢◌, ◌⊎◌, Bool, true, some, List, [], ◌∷◌, All, arith, inr,
}
use face_identify.Database.Keys.{by_key}
use face_identify.Database.{find_where, Versioned, optimistic_locked_update, UniqueKeys}

module _ {A : Type 0} ⦃v : Versioned A⦄ where
  -- a row that is not there is not updated
  locked_missing :
      (id r : ℕ) (f : A → A) (extra : A → Bool) (xs : List A)
      → All (λ y. id ≢ v.row_id y) xs
      → optimistic_locked_update id r f extra xs ≡ (xs, 0)
  unfolding optimistic_locked_update
  locked_missing id r f extra [] h = refl
  locked_missing id r f extra (x ∷ xs) h = ground (arith, locked_missing id r f extra xs h.1)

  only_row :
      (id : ℕ) (x : A) (xs : List A)
      → All (λ y. v.row_id x ≢ v.row_id y) xs
      → id ≡ v.row_id x
      → All (λ y. id ≢ v.row_id y) xs
  only_row id x xs h e = rw e h

  -- At most one row is updated, and if none is, the table is as it was.
  pub locked_count :
      (id r : ℕ) (f : A → A) (extra : A → Bool) (xs : List A)
      → UniqueKeys v.row_id xs
      → ((optimistic_locked_update id r f extra xs).1 ≡ 1)
        ⊎ (optimistic_locked_update id r f extra xs ≡ (xs, 0))
  unfolding optimistic_locked_update
  locked_count id r f extra [] u = inr refl
  locked_count id r f extra (x ∷ xs) u = ground (
    arith,
    locked_count id r f extra xs u.1,
    only_row id x xs u.0,
    locked_missing id r f extra xs,
  )

  -- An update that expects the revision that a row has is made, and is what is read afterwards.
  pub locked_hit :
      (x : A) (f : A → A) (extra : A → Bool) (xs : List A)
      → UniqueKeys v.row_id xs
      → ((a : A) → v.row_id (f a) ≡ v.row_id a)
      → by_key v.row_id (v.row_id x) xs ≡ some x
      → extra x ≡ true
      → let (ys, n) = optimistic_locked_update (v.row_id x) (v.revision x) f extra xs in
        (n ≡ 1) × (by_key v.row_id (v.row_id x) ys ≡ some (v.set_revision (f x) (v.revision x + 1)))
  unfolding optimistic_locked_update find_where
  locked_hit x f extra [] u keeps found pass = absurd (cc)
  locked_hit x f extra (y ∷ ys) u keeps found pass = ground (
    arith,
    locked_hit x f extra ys u.1 keeps,
    only_row (v.row_id x) y ys u.0,
    locked_missing (v.row_id x) (v.revision x) f extra ys,
    v.row_id-set (f y) (v.revision y + 1),
    keeps y,
  )

  locked_keys :
      (id r : ℕ) (f : A → A) (extra : A → Bool) (k : ℕ) (xs : List A)
      → ((a : A) → v.row_id (f a) ≡ v.row_id a)
      → All (λ y. k ≢ v.row_id y) xs
      → All (λ y. k ≢ v.row_id y) (optimistic_locked_update id r f extra xs).0
  unfolding optimistic_locked_update
  locked_keys id r f extra k [] keeps h = tt
  locked_keys id r f extra k (x ∷ xs) keeps h = ground (
    arith,
    locked_keys id r f extra k xs keeps h.1,
    v.row_id-set (f x) (v.revision x + 1),
    keeps x,
  )

  -- No update is lost: once an update that expected a revision of a row has been made, every other
  -- update that expects the same revision of that row, whatever it assigns and whatever else it
  -- requires, changes nothing and reports 0 rows.
  pub stale_update_refused :
      (id r : ℕ) (f g : A → A) (extra other : A → Bool) (xs : List A)
      → UniqueKeys v.row_id xs
      → ((a : A) → v.row_id (f a) ≡ v.row_id a)
      → (optimistic_locked_update id r f extra xs).1 ≡ 1
      → let ys = (optimistic_locked_update id r f extra xs).0 in
        optimistic_locked_update id r g other ys ≡ (ys, 0)
  unfolding optimistic_locked_update
  stale_update_refused id r f g extra other [] u keeps h = refl
  stale_update_refused id r f g extra other (x ∷ xs) u keeps h = ground (
    arith,
    stale_update_refused id r f g extra other xs u.1 keeps,
    only_row id x xs u.0,
    locked_missing id r f extra xs,
    locked_missing id r g other xs,
    v.row_id-set (f x) (v.revision x + 1),
    keeps x,
    v.revision-set (f x) (v.revision x + 1),
  )
