-- ===== src/Database/Transactions.antt =====
-- backend/infrastructure/db/unit_of_work.py: the loop of `UnitOfWork.write`. An attempt begins the
-- transaction, does the work and commits; what the n-th attempt (from 0) meets is a parameter.
use face_identify.Prelude.{
  Option, none, some, ltb, ℕ, zero, suc, ◌+◌, ◌≤◌, ◌<◌, ◌≡◌, ◌⊎◌, inl, inr, refl, leb,
  if◌then◌else◌, arith, Bool-cases,
}

-- One attempt: committed, refused as busy or locked (`is_busy`), or another error.
pub data Attempt (A : Type 0) : Type 0 where
  committed : A → Attempt A
  refused other_error : Attempt A

pub data Written (A : Type 0) : Type 0 where
  written : A → Written A
  -- `DatabaseBusyError` after so many attempts
  database_busy : ℕ → Written A
  propagated : Written A
  -- out of fuel
  unfinished : Written A

-- `UnitOfWork.__init__`: the attempts that a unit of work is allowed, `none` for its `ValueError`.
unfoldable pub new_unit_of_work : ℕ → Option ℕ
new_unit_of_work max_attempts = if ltb max_attempts 1 then none else some max_attempts

module _ {A : Type 0} where
  abbrev pub written_or_raised : ℕ → ℕ → Attempt A → Written A → Written A
  written_or_raised max_attempts failed (committed a) again = written a
  written_or_raised max_attempts failed other_error again = propagated
  written_or_raised max_attempts failed refused again =
      if leb max_attempts failed then database_busy failed else again

  -- The loop, from the number of failed attempts on.
  unfoldable pub write_loop : ℕ → ℕ → (ℕ → Attempt A) → ℕ → Written A
  write_loop zero max_attempts attempt failed = unfinished
  write_loop (suc fuel) max_attempts attempt failed =
      written_or_raised max_attempts (failed + 1) (attempt failed)
        (write_loop fuel max_attempts attempt (failed + 1))

  unfoldable pub write_attempts : ℕ → (ℕ → Attempt A) → Written A
  unfolding write_loop
  write_attempts max_attempts attempt = write_loop max_attempts max_attempts attempt 0

  -- Attempt `n` ended the loop: every earlier one was refused.
  abbrev pub EndsAt : ℕ → (ℕ → Attempt A) → ℕ → Written A → Type 0
  EndsAt max_attempts attempt n w =
      ((k : ℕ) → k < n → attempt k ≡ refused)
      × (((a : A) × ((attempt n ≡ committed a) × (w ≡ written a)))
          ⊎ (((attempt n ≡ other_error) × (w ≡ propagated))
              ⊎ ((attempt n ≡ refused)
                  × ((n + 1 ≡ max_attempts) × (w ≡ database_busy max_attempts)))))

  Attempt-cases :
      (x : Attempt A) → ((a : A) × (x ≡ committed a)) ⊎ ((x ≡ other_error) ⊎ (x ≡ refused))
  Attempt-cases (committed a) = inl (a, refl)
  Attempt-cases other_error = inr (inl refl)
  Attempt-cases refused = inr (inr refl)

  refused-next :
      (attempt : ℕ → Attempt A) (failed : ℕ)
      → attempt failed ≡ refused
      → ((k : ℕ) → k < failed → attempt k ≡ refused)
      → (k : ℕ) → k < failed + 1
      → attempt k ≡ refused
  refused-next attempt failed e h k l = elim (Bool-cases (leb failed k)) [
    | inl q ↦ let s : k ≡ failed = (ground arith) in cc
    | inr q ↦ h k (ground arith)
  ]

  write_loop-ends :
      (fuel max_attempts : ℕ) (attempt : ℕ → Attempt A) (failed : ℕ)
      → failed + fuel ≡ max_attempts
      → 1 ≤ fuel
      → ((k : ℕ) → k < failed → attempt k ≡ refused)
      → (n : ℕ) × ((n < max_attempts)
          × EndsAt max_attempts attempt n (write_loop fuel max_attempts attempt failed))
  unfolding write_loop
  write_loop-ends zero max_attempts attempt failed e l h = absurd (omega arith)
  write_loop-ends (suc fuel) max_attempts attempt failed e l h =
      elim (Attempt-cases (attempt failed)) [
        | inl c ↦ (failed, (omega arith, (h, inl (c.0, (c.1, rw c.1 refl)))))
        | inr (inl o) ↦ (failed, (omega arith, (h, inr (inl (o, rw o refl)))))
        | inr (inr r) ↦ elim (Bool-cases (leb max_attempts (failed + 1))) [
          | inl q ↦
              let s : failed + 1 ≡ max_attempts = (ground arith) in
              (failed, (omega arith, (h, inr (inr (r, (s, rw (r, q, s) refl))))))
          | inr q ↦
              rw (r, q)
                (write_loop-ends fuel max_attempts attempt (failed + 1) (omega arith) (ground arith)
                  (refused-next attempt failed r h))
        ]
      ]

  -- With at least one attempt allowed, the loop ends at an attempt below the bound, every attempt
  -- before it having been refused as busy: it returns what that attempt committed, or raises its
  -- error, or raises DatabaseBusyError, only when it was the last of them and was refused too.
  pub write_attempts-ends :
      (max_attempts : ℕ) (attempt : ℕ → Attempt A)
      → 1 ≤ max_attempts
      → (n : ℕ) × ((n < max_attempts)
          × EndsAt max_attempts attempt n (write_attempts max_attempts attempt))
  unfolding write_attempts
  write_attempts-ends max_attempts attempt l =
      write_loop-ends max_attempts max_attempts attempt 0 (omega arith) l
        (λ k q. absurd (omega arith))
