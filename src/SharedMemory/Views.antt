-- ===== src/SharedMemory/Views.antt =====
-- The threads that view a segment of backend/infrastructure/resources/shared_memory.py. `inside` are
-- the threads that are in the `with` block of `view`, as the interleaving has them and not as the
-- segment counts them.
use face_identify.Prelude.{
  ℕ, ◌+◌, ◌≡◌, refl, Bool, true, false, ◌||◌, Option, none, some, List, [], ◌∷◌, ◌==◌,
  if◌then◌else◌, length, arith,
}
use face_identify.Database.{Uuid}
use face_identify.SharedMemory.Ledger.{Segment, enter_view, leave_view, close, opened}

pub record Viewed : Type 0 where
  pub segment : Segment
  pub inside : List ℕ

pub data Event : Type 0 where
  -- a thread enters `view`, leaves it, or closes the segment
  enters leaves : ℕ → Event
  closes : Event

abbrev is_inside : ℕ → List ℕ → Bool
is_inside t [] = false
is_inside t (x ∷ xs) = x == t || is_inside t xs

abbrev without : ℕ → List ℕ → List ℕ
without t [] = []
without t (x ∷ xs) = let rest = without t xs in if x == t then xs else x ∷ rest

-- A thread whose `view` raises is not inside.
abbrev entered : ℕ → Viewed → Option Segment → Viewed
entered t v none = v
entered t v (some s) = record { segment = s; inside = t ∷ v.inside }

unfoldable pub step : Viewed → Event → Viewed
unfolding enter_view leave_view close
step v (enters t) = entered t v (enter_view v.segment)
step v (leaves t) =
    if is_inside t v.inside
    then record { segment = leave_view v.segment; inside = without t v.inside }
    else v
step v closes = record v { segment = (close v.segment).0 }

unfoldable pub run : Viewed → List Event → Viewed
unfolding step
run v [] = v
run v (e ∷ es) = run (step v e) es

length-without :
    (t : ℕ) (xs : List ℕ) → is_inside t xs ≡ true → length xs ≡ length (without t xs) + 1
length-without t [] h = absurd (cc)
length-without t (x ∷ xs) h = ground (arith, length-without t xs)

-- The segment counts its views, and its handle is open while there is one.
abbrev IsCounted : Viewed → Type 0
IsCounted v =
    (v.segment.views ≡ length v.inside) × (v.segment.open_handle ≡ false → v.segment.views ≡ 0)

step-IsCounted : (v : Viewed) (e : Event) → IsCounted v → IsCounted (step v e)
unfolding step enter_view leave_view close
step-IsCounted v (enters t) h = ground arith
step-IsCounted v (leaves t) h = ground (arith, length-without t v.inside)
step-IsCounted v closes h = ground arith

run-IsCounted : (v : Viewed) (es : List Event) → IsCounted v → IsCounted (run v es)
unfolding run
run-IsCounted v [] h = h
run-IsCounted v (e ∷ es) h = run-IsCounted (step v e) es (step-IsCounted v e h)

empty_length : (xs : List ℕ) → length xs ≡ 0 → xs ≡ []
empty_length [] h = refl
empty_length (x ∷ xs) h = absurd (omega (arith, h))

-- Whatever threads do with a segment that was opened, entering and leaving views of it and closing
-- it in any order: while its handle is closed, no thread is inside a view.
pub run-opened_safe :
    (name : Uuid) (es : List Event)
    → (run (record { segment = opened name; inside = [] }) es).segment.open_handle ≡ false
    → (run (record { segment = opened name; inside = [] }) es).inside ≡ []
unfolding opened
run-opened_safe name es closed =
    let (counted, safe) =
      run-IsCounted (record { segment = opened name; inside = [] }) es (refl, λ e. absurd (cc)) in
    empty_length _ (let s = safe closed in omega (arith, counted, s))
