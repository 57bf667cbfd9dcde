-- ===== src/Recognition/Order.antt =====
-- The floats that backend/app/recognition compares: finite values, with the documented order of
-- IEEE 754 and a difference of which nothing is assumed.
use face_identify.Prelude.{◌≡◌, Bool, true, false}

pub record Floats (F : Type 0) : Type 0 where
  pub lt : F → F → Bool  -- `<`
  pub eq : F → F → Bool  -- `==`
  pub minus : F → F → F  -- `-`
  pub lt_irrefl : (x : F) → lt x x ≡ false
  pub lt_asym : (x y : F) → lt x y ≡ true → lt y x ≡ false
  -- `x <= y` and `y <= z` give `x <= z`.
  pub le_trans : (x y z : F) → lt y x ≡ false → lt z y ≡ false → lt z x ≡ false
  pub eq_le : (x y : F) → eq x y ≡ true → lt x y ≡ false
