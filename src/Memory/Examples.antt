-- ===== src/Memory/Examples.antt =====
-- The theorem on index keys at allocations in two spaces.
use face_identify.Prelude.{[], ◌∷◌}
use face_identify.Memory.Keys.{allocate_all, IsIncreasing, allocate_all-IsIncreasing}

allocate_all-IsIncreasing_example :
    IsIncreasing
      (allocate_all
        (1 ∷ 2 ∷ 1 ∷ [])
        (record { representation_space_id = 2; next_ann_key = 9 } ∷ [])).1
allocate_all-IsIncreasing_example =
    allocate_all-IsIncreasing (1 ∷ 2 ∷ 1 ∷ [])
      (record { representation_space_id = 2; next_ann_key = 9 } ∷ [])
